-- ===== src/Notifications/Keeps.antt =====
-- The operations on devices and preferences keep both tables unique.
use ingame.Prelude.{
  ℕ, suc, ◌+◌, ◌≤◌, ◌≡◌, refl, true, Option, none, some, List, [], ◌∷◌, arith, ◌==◌, String, ◌++◌,
  if◌then◌else◌, Bool-cases, inl, inr,
}
use ingame.Db.Table.{count, count-insert, count-implied, insert_row}
use ingame.Db.Models.{User}
use ingame.Notices.{NoticeType}
use ingame.Groups.Repo.{exists_row}
use ingame.Notifications.Models.{
  Desk, DeviceRegistration, NotificationPreference, Conditions, Platform, Scope, type_eq,
}
use ingame.Notifications.Devices.{is_device, is_registration, refreshed, revoked, upsert, revoke}
use ingame.Notifications.Preferences.{
  is_event_preference, is_group_preference, seed_defaults, add_defaults, default_preferences,
}
use ingame.Notifications.Routes.{
  register_device, delete_device_registration, run_stale_token_janitor_once, revoke_stale,
}
use ingame.Notifications.Unique.{
  IsUnique, insert_device-DeviceRows, update-DeviceRows, delete-DeviceRows,
}

occurs : NoticeType → List (NoticeType × Option Conditions) → ℕ
occurs t [] = 0
occurs t ((s, _) ∷ rest) = if type_eq s t then suc (occurs t rest) else occurs t rest

add_defaults-events :
    (ds : List (NoticeType × Option Conditions)) (id now u : ℕ) (d : Desk) (v : ℕ) (t : NoticeType)
    → count (is_event_preference v t) d.preferences + (if v == u then occurs t ds else 0) ≤ 1
    → count (is_event_preference v t) (add_defaults ds id now u d).1.preferences ≤ 1
unfolding add_defaults occurs insert_row
add_defaults-events [] id now u d v t h = ground arith
add_defaults-events ((s, c) ∷ ds) id now u d v t h =
    let p : NotificationPreference = record {
      id = id;
      user_id = u;
      scope = Scope.global;
      scope_id = none;
      event_type = some s;
      enabled = true;
      conditions = c;
      quiet_hours_start = none;
      quiet_hours_end = none;
      quiet_hours_tz = none;
      updated_at = now;
    } in
    ground (
      arith,
      count-insert (is_event_preference v t) p d.preferences,
      add_defaults-events ds (id + 1) now u (record d { preferences = d.preferences ++ p ∷ [] }) v
          t,
    )

add_defaults-groups :
    (ds : List (NoticeType × Option Conditions)) (id now u : ℕ) (d : Desk) (v g : ℕ)
    → count (is_group_preference v g) (add_defaults ds id now u d).1.preferences
      ≡ count (is_group_preference v g) d.preferences
unfolding add_defaults insert_row
add_defaults-groups [] id now u d v g = refl
add_defaults-groups ((s, c) ∷ ds) id now u d v g =
    let p : NotificationPreference = record {
      id = id;
      user_id = u;
      scope = Scope.global;
      scope_id = none;
      event_type = some s;
      enabled = true;
      conditions = c;
      quiet_hours_start = none;
      quiet_hours_end = none;
      quiet_hours_tz = none;
      updated_at = now;
    } in
    ground (
      arith,
      count-insert (is_group_preference v g) p d.preferences,
      add_defaults-groups ds (id + 1) now u (record d { preferences = d.preferences ++ p ∷ [] }) v
          g,
    )

add_defaults-devices :
    (ds : List (NoticeType × Option Conditions)) (id now u : ℕ) (d : Desk)
    → (add_defaults ds id now u d).1.devices ≡ d.devices
unfolding add_defaults insert_row
add_defaults-devices [] id now u d = refl
add_defaults-devices ((s, c) ∷ ds) id now u d =
    let p : NotificationPreference = record {
      id = id;
      user_id = u;
      scope = Scope.global;
      scope_id = none;
      event_type = some s;
      enabled = true;
      conditions = c;
      quiet_hours_start = none;
      quiet_hours_end = none;
      quiet_hours_tz = none;
      updated_at = now;
    } in
    ground (
      arith,
      add_defaults-devices ds (id + 1) now u (record d { preferences = d.preferences ++ p ∷ [] }),
    )

defaults_once : (t : NoticeType) → occurs t default_preferences ≤ 1
unfolding occurs
defaults_once t = ground arith

seed_defaults-IsUnique :
    (id now u : ℕ) (d : Desk) → IsUnique d → IsUnique (seed_defaults id now u d).1
unfolding IsUnique seed_defaults exists_row
seed_defaults-IsUnique id now u d s =
    elim (Bool-cases (exists_row (λ (p : NotificationPreference). p.user_id == u) d.preferences)) [
      | inl e ↦ ground (arith, e)
      | inr e ↦ (
        ground (arith, add_defaults-devices default_preferences id now u d),
        record {
          events = λ v t. ground (
            arith,
            e,
            s.1.events v t,
            defaults_once t,
            count-implied (is_event_preference u t) (λ (p : NotificationPreference). p.user_id == u)
                d.preferences (λ p q. ground arith),
            same v t d.preferences,
            add_defaults-events default_preferences id now u d v t,
          );
          groups = λ v g.
              ground
                (arith, e, s.1.groups v g, add_defaults-groups default_preferences id now u d v g);
        },
      )
    ]
  where
    same :
        (v : ℕ) (t : NoticeType) (rows : List NotificationPreference)
        → (v == u) ≡ true
        → count (is_event_preference v t) rows ≡ count (is_event_preference u t) rows
    same v t rows q = let a : v ≡ u = ground arith in rw a refl

upsert-IsUnique :
    (id now u : ℕ) (platform : Platform) (token : String) (label version : Option String) (d : Desk)
    → IsUnique d
    → IsUnique (upsert id now u platform token label version d).1
unfolding IsUnique upsert
upsert-IsUnique id now u platform token label version d s = grind (
  arith,
  insert_device-DeviceRows,
  update-DeviceRows (is_device u token) (refreshed now platform label version) d.devices (λ r. refl)
      (λ r. refl) (λ r. refl) s.0,
)

-- A registration of a device keeps devices and preferences unique.
pub register_device-IsUnique :
    (id first now : ℕ) (platform : Platform) (token : String) (label version : Option String)
    (user : User) (d : Desk)
    → IsUnique d
    → IsUnique (register_device id first now platform token label version user d).1
unfolding register_device
register_device-IsUnique id first now platform token label version user d s =
    grind (arith, upsert-IsUnique, seed_defaults-IsUnique)

revoke-IsUnique : (now id : ℕ) (d : Desk) → IsUnique d → IsUnique (revoke now id d).1
unfolding IsUnique revoke
revoke-IsUnique now id d s = grind (
  arith,
  update-DeviceRows (is_registration id) (revoked now) d.devices (λ r. refl) (λ r. refl) (λ r. refl)
      s.0,
)

revoke_stale-IsUnique :
    (now : ℕ) (rows : List DeviceRegistration) (n : ℕ) (d : Desk)
    → IsUnique d
    → IsUnique (revoke_stale now rows n d).1
unfolding revoke_stale
revoke_stale-IsUnique now [] n d s = s
revoke_stale-IsUnique now (r ∷ rest) n d s = ground (
  arith,
  revoke-IsUnique now r.id d s,
  revoke_stale-IsUnique now rest (n + 1) (revoke now r.id d).1,
  revoke_stale-IsUnique now rest n (revoke now r.id d).1,
)

pub run_stale_token_janitor_once-IsUnique :
    (now : ℕ) (d : Desk) → IsUnique d → IsUnique (run_stale_token_janitor_once now d).1
unfolding run_stale_token_janitor_once
run_stale_token_janitor_once-IsUnique now d s = grind (arith, revoke_stale-IsUnique)

pub delete_device_registration-IsUnique :
    (id : ℕ) (user : User) (d : Desk)
    → IsUnique d
    → IsUnique (delete_device_registration id user d).1
unfolding IsUnique delete_device_registration
delete_device_registration-IsUnique id user d s =
    grind (arith, delete-DeviceRows (is_registration id) d.devices s.0)
