-- ===== src/Notifications/Devices.antt =====
-- `DeviceRegistrationRepository` (backend/app/db/repositories/device_registration_repo.py).
use ingame.Prelude.{
  ℕ, String, Bool, true, false, ◌&&◌, ◌||◌, Option, none, some, List, is_none, str_eq, ltb, ◌==◌,
}
use ingame.Errors.{Exec, Result, ok, err, asks, ◌>>=◌}
use ingame.Db.Table.{select, one_or_none, update_rows, delete_rows, insert_row}
use ingame.Notifications.Models.{Desk, DeviceRegistration, Platform}

abbrev pub is_registration : ℕ → DeviceRegistration → Bool
is_registration id r = r.id == id

abbrev pub is_device : ℕ → String → DeviceRegistration → Bool
is_device u token r = r.user_id == u && str_eq r.token token

abbrev pub is_active : DeviceRegistration → Bool
is_active r = is_none r.revoked_at

abbrev pub set_devices : {A : Type 0} → A → Result (List DeviceRegistration) → Exec Desk A
set_devices a (ok rows) d = (ok a, record d { devices = rows })
set_devices a (err e) d = (err e, d)

unfoldable pub get_by_id : ℕ → Exec Desk (Option DeviceRegistration)
get_by_id id = asks (λ d. one_or_none (is_registration id) d.devices)

-- `if x is not None: column = x`
abbrev or_old : Option String → Option String → Option String
or_old none old = old
or_old (some new) old = some new

abbrev pub refreshed :
    ℕ → Platform → Option String → Option String → DeviceRegistration → DeviceRegistration
refreshed now platform label version r = record r {
  platform = platform;
  last_seen_at = now;
  revoked_at = none;
  device_label = or_old label r.device_label;
  app_version = or_old version r.app_version;
}

-- The new row of a device: the user and the token are a new pair.
unfoldable pub insert_device :
    DeviceRegistration → List DeviceRegistration → Result (List DeviceRegistration)
insert_device r rows = insert_row (λ s. s.id == r.id || is_device r.user_id r.token s) r rows

abbrev pub upsert_found :
    ℕ
    → ℕ
    → ℕ
    → Platform
    → String
    → Option String
    → Option String
    → Option DeviceRegistration
    → Exec Desk DeviceRegistration
upsert_found id now u platform token label version (some r) d = (
  ok (refreshed now platform label version r),
  record d {
    devices = update_rows (is_device u token) (refreshed now platform label version) d.devices;
  },
)
upsert_found id now u platform token label version none d =
    let r : DeviceRegistration = record {
      id = id;
      user_id = u;
      platform = platform;
      token = token;
      device_label = label;
      app_version = version;
      last_seen_at = now;
      revoked_at = none;
    } in
    set_devices r (insert_device r d.devices) d

unfoldable pub upsert :
    ℕ → ℕ → ℕ → Platform → String → Option String → Option String → Exec Desk DeviceRegistration
unfolding insert_device
upsert id now u platform token label version = do
  existing ← asks (λ (d : Desk). one_or_none (is_device u token) d.devices)
  upsert_found id now u platform token label version existing

unfoldable pub list_active_for_user : ℕ → Exec Desk (List DeviceRegistration)
list_active_for_user u = asks (λ d. ok (select (λ r. r.user_id == u && is_active r) d.devices))

unfoldable pub list_all_for_user : ℕ → Exec Desk (List DeviceRegistration)
list_all_for_user u = asks (λ d. ok (select (λ r. r.user_id == u) d.devices))

abbrev pub revoked : ℕ → DeviceRegistration → DeviceRegistration
revoked now r = record r { revoked_at = some now }

abbrev pub revoke_found :
    (DeviceRegistration → Bool) → ℕ → Option DeviceRegistration → Exec Desk Bool
revoke_found p now none d = (ok false, d)
revoke_found p now (some _) d =
    (ok true, record d { devices = update_rows p (revoked now) d.devices })

unfoldable pub revoke : ℕ → ℕ → Exec Desk Bool
unfolding get_by_id
revoke now id = do reg ← get_by_id id; revoke_found (is_registration id) now reg

unfoldable pub revoke_by_token : ℕ → ℕ → String → Exec Desk Bool
revoke_by_token now u token = do
  reg ← asks (λ (d : Desk). one_or_none (λ r. is_device u token r && is_active r) d.devices)
  revoke_found (λ r. is_device u token r && is_active r) now reg

abbrev pub delete_found : ℕ → Option DeviceRegistration → Exec Desk Bool
delete_found id none d = (ok false, d)
delete_found id (some _) d =
    (ok true, record d { devices = delete_rows (is_registration id) d.devices })

unfoldable pub delete : ℕ → Exec Desk Bool
unfolding get_by_id
delete id = do reg ← get_by_id id; delete_found id reg

unfoldable pub list_stale : ℕ → Exec Desk (List DeviceRegistration)
list_stale cutoff =
    asks (λ d. ok (select (λ r. ltb r.last_seen_at cutoff && is_active r) d.devices))
