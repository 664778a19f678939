-- ===== src/Notifications/Unique.antt =====
-- A device of a user is registered once, and a user has at most one preference for an event and for a
-- group.
use ingame.Prelude.{
  ℕ, ◌≤◌, ◌≡◌, refl, Bool, true, List, [], ◌∷◌, arith, ◌==◌, String, eq_iff, ◌++◌, ◌||◌,
}
use ingame.Errors.{ok}
use ingame.Db.Table.{
  count, count-insert, count-update_rows_same, count-delete_rows, count-implied, insert_row-eq-ok,
  update_rows, delete_rows,
}
use ingame.Notices.{NoticeType}
use ingame.Notifications.Models.{Desk, DeviceRegistration, NotificationPreference}
use ingame.Notifications.Devices.{is_registration, is_device, insert_device}
use ingame.Notifications.Preferences.{is_event_preference, is_group_preference}

pub record DeviceRows (devices : List DeviceRegistration) : Type 0 where
  pub ids : (id : ℕ) → count (is_registration id) devices ≤ 1
  pub pairs : (u : ℕ) (token : String) → count (is_device u token) devices ≤ 1

pub record PreferenceRows (preferences : List NotificationPreference) : Type 0 where
  pub events : (u : ℕ) (t : NoticeType) → count (is_event_preference u t) preferences ≤ 1
  pub groups : (u g : ℕ) → count (is_group_preference u g) preferences ≤ 1

unfoldable pub IsUnique : Desk → Type 0
IsUnique d = DeviceRows d.devices × PreferenceRows d.preferences

pub insert_device-DeviceRows :
    (r : DeviceRegistration) (rows : List DeviceRegistration) {rows' : List DeviceRegistration}
    → DeviceRows rows
    → insert_device r rows ≡ ok rows'
    → DeviceRows rows'
unfolding insert_device
insert_device-DeviceRows r rows {rows'} s e =
    let clash : DeviceRegistration → Bool =
      λ (t : DeviceRegistration). t.id == r.id || is_device r.user_id r.token t in
    let h : (count clash rows ≡ 0) × (rows' ≡ rows ++ r ∷ []) = insert_row-eq-ok clash r rows e in
    record {
      ids = λ id. ground (
        arith,
        h,
        s.ids id,
        count-insert (is_registration id) r rows,
        count-implied (is_registration r.id) clash rows (λ t q. ground arith),
        id_lem id r rows,
      );
      pairs = λ u token. ground (
        arith,
        h,
        s.pairs u token,
        count-insert (is_device u token) r rows,
        count-implied (is_device r.user_id r.token) clash rows (λ t q. ground arith),
        pair_lem u token r rows,
      );
    }
  where
    id_lem :
        (id : ℕ) (r : DeviceRegistration) (rows : List DeviceRegistration)
        → (r.id == id) ≡ true
        → count (is_registration id) rows ≡ count (is_registration r.id) rows
    id_lem id r rows q = let a : id ≡ r.id = ground arith in rw a refl

    pair_lem :
        (u : ℕ) (token : String) (r : DeviceRegistration) (rows : List DeviceRegistration)
        → is_device u token r ≡ true
        → count (is_device u token) rows ≡ count (is_device r.user_id r.token) rows
    pair_lem u token r rows q =
        let a : u ≡ r.user_id = ground arith in
        let b : token ≡ r.token = ground (arith, eq_iff r.token token) in rw (a, b) refl

pub update-DeviceRows :
    (p : DeviceRegistration → Bool) (f : DeviceRegistration → DeviceRegistration)
    (rows : List DeviceRegistration)
    → ((r : DeviceRegistration) → (f r).id ≡ r.id)
    → ((r : DeviceRegistration) → (f r).user_id ≡ r.user_id)
    → ((r : DeviceRegistration) → (f r).token ≡ r.token)
    → DeviceRows rows
    → DeviceRows (update_rows p f rows)
update-DeviceRows p f rows a b c s = record {
  ids = λ id.
      rw (count-update_rows_same (is_registration id) p f rows (λ r q. rw (a r) refl)) (s.ids id);
  pairs = λ u token.
      rw (count-update_rows_same (is_device u token) p f rows (λ r q. rw (b r, c r) refl))
        (s.pairs u token);
}

pub delete-DeviceRows :
    (p : DeviceRegistration → Bool) (rows : List DeviceRegistration)
    → DeviceRows rows
    → DeviceRows (delete_rows p rows)
delete-DeviceRows p rows s = record {
  ids = λ id. ground (arith, count-delete_rows (is_registration id) p rows, s.ids id);
  pairs = λ u token. ground (arith, count-delete_rows (is_device u token) p rows, s.pairs u token);
}
