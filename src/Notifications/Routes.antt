-- ===== src/Notifications/Routes.antt =====
-- The routes of devices (backend/app/api/v1/notifications/routes.py), and the janitor of stale tokens
-- (backend/app/jobs/stale_token_janitor.py).
use ingame.Prelude.{
  ℕ, ◌+◌, ◌-◌, ◌*◌, String, Bool, true, false, not, Option, none, some, List, [], ◌∷◌, ◌==◌,
}
use ingame.Errors.{
  Exec, Result, ok, err, validation, not_found, notification_invalid_platform,
  notification_device_not_found, raise_if, pure, ◌>>=◌, ◌>>◌,
}
use ingame.Db.Models.{User}
use ingame.Notifications.Models.{Desk, DeviceRegistration, NotificationPreference, Platform}
use ingame.Notifications.Devices.{
  upsert, list_active_for_user, get_by_id, delete, revoke, list_stale,
}
use ingame.Notifications.Preferences.{has_preferences, seed_defaults, list_for_user}

abbrev is_known : Platform → Bool
is_known Platform.ios = true
is_known Platform.android = true
is_known Platform.web = true
is_known (Platform.other _) = false

abbrev seed_first : ℕ → ℕ → ℕ → Bool → Exec Desk (Unit {0})
seed_first id now u true = pure tt
seed_first id now u false = seed_defaults id now u

-- `id` is the id of a new device, and the ids of new preferences start at `first`.
unfoldable pub register_device :
    ℕ
    → ℕ
    → ℕ
    → Platform
    → String
    → Option String
    → Option String
    → User
    → Exec Desk DeviceRegistration
unfolding upsert has_preferences seed_defaults
register_device id first now platform token label version user = do
  raise_if (not (is_known platform)) (validation notification_invalid_platform)
  registration ← upsert id now user.id platform token label version
  has ← has_preferences user.id
  seed_first first now user.id has
  pure registration

unfoldable pub list_device_registrations : User → Exec Desk (List DeviceRegistration)
unfolding list_active_for_user
list_device_registrations user = list_active_for_user user.id

abbrev is_foreign : User → Option DeviceRegistration → Bool
is_foreign user none = true
is_foreign user (some r) = not (r.user_id == user.id)

unfoldable pub delete_device_registration : ℕ → User → Exec Desk (Unit {0})
unfolding get_by_id delete
delete_device_registration id user = do
  reg ← get_by_id id
  raise_if (is_foreign user reg) (not_found notification_device_not_found)
  delete id
  pure tt

unfoldable pub list_notification_preferences : User → Exec Desk (List NotificationPreference)
unfolding list_for_user
list_notification_preferences user = list_for_user user.id

-- One turn of the janitor: an exception is logged, and the count of the revoked goes on.
abbrev one_more : Result Bool × Desk → ℕ → Result ℕ × Desk
one_more (ok _, d) n = (ok (n + 1), d)
one_more (err _, d) n = (ok n, d)

unfoldable pub revoke_stale : ℕ → List DeviceRegistration → ℕ → Exec Desk ℕ
unfolding revoke
revoke_stale now [] n d = (ok n, d)
revoke_stale now (r ∷ rest) n d =
    let (revoked_count, d') = one_more (revoke now r.id d) n in
    elim revoked_count [ ok m ↦ revoke_stale now rest m d' | err e ↦ (err e, d') ]

-- 60 days before `now`, in the seconds that the stamps are in
abbrev pub cutoff_of : ℕ → ℕ
cutoff_of now = now - 60 * 24 * 60 * 60

unfoldable pub run_stale_token_janitor_once : ℕ → Exec Desk ℕ
unfolding list_stale revoke_stale
run_stale_token_janitor_once now = do stale ← list_stale (cutoff_of now); revoke_stale now stale 0
