-- ===== src/Notifications/Preferences.antt =====
-- `NotificationPreferenceRepository`
-- (backend/app/db/repositories/notification_preference_repo.py).
use ingame.Prelude.{
  ℕ, ◌+◌, Bool, true, false, ◌&&◌, Option, none, some, List, [], ◌∷◌, is_none, ◌==◌,
}
use ingame.Errors.{Exec, Result, ok, err, asks, ◌>>=◌, ◌>>◌}
use ingame.Db.Table.{select, one_or_none, insert_row}
use ingame.Db.Models.{Role, RsvpAnswer}
use ingame.Groups.Repo.{exists_row}
use ingame.Notices.{NoticeType}
use ingame.Notifications.Models.{
  Desk, NotificationPreference, Conditions, Scope, type_eq, is_global, is_group_scope,
}

abbrev pub is_of_type : NoticeType → Option NoticeType → Bool
is_of_type t none = false
is_of_type t (some s) = type_eq s t

abbrev pub is_of_group : ℕ → Option ℕ → Bool
is_of_group g none = false
is_of_group g (some h) = h == g

-- `_DEFAULT_PREFERENCES`
abbrev on_rsvp : Option Conditions
on_rsvp = some (record {
  only_if_rsvp = some (RsvpAnswer.going ∷ RsvpAnswer.maybe ∷ []);
  only_if_role = none;
  min_rsvp_count = none;
})

abbrev on_staff : Option Conditions
on_staff = some (record {
  only_if_rsvp = none;
  only_if_role = some (Role.owner ∷ Role.admin ∷ []);
  min_rsvp_count = none;
})

abbrev pub default_preferences : List (NoticeType × Option Conditions)
default_preferences =
    (NoticeType.ready_changed, none)
    ∷ (NoticeType.session_proposed, none)
    ∷ (NoticeType.session_updated, on_rsvp)
    ∷ (NoticeType.session_rsvp_updated, none)
    ∷ (NoticeType.join_request_pending, on_staff)
    ∷ []

unfoldable pub has_preferences : ℕ → Exec Desk Bool
has_preferences u = asks (λ d. ok (exists_row (λ p. p.user_id == u) d.preferences))

abbrev pub set_preferences : Result (List NotificationPreference) → Exec Desk (Unit {0})
set_preferences (ok rows) d = (ok tt, record d { preferences = rows })
set_preferences (err e) d = (err e, d)

-- The rows of the defaults, with ids from `id` on. Only an id can clash: a row has no `scope_id`,
-- and the unique constraint takes two `NULL`s for different.
unfoldable pub add_defaults :
    List (NoticeType × Option Conditions) → ℕ → ℕ → ℕ → Exec Desk (Unit {0})
add_defaults [] id now u d = (ok tt, d)
add_defaults ((event_type, conditions) ∷ rest) id now u d =
    (do
      set_preferences (
          insert_row (λ p. p.id == id)
            (record {
              id = id;
              user_id = u;
              scope = Scope.global;
              scope_id = none;
              event_type = some event_type;
              enabled = true;
              conditions = conditions;
              quiet_hours_start = none;
              quiet_hours_end = none;
              quiet_hours_tz = none;
              updated_at = now;
            })
            d.preferences)
      add_defaults rest (id + 1) now u)
      d

abbrev seed_missing : ℕ → ℕ → ℕ → Bool → Exec Desk (Unit {0})
seed_missing id now u true d = (ok tt, d)
seed_missing id now u false d = add_defaults default_preferences id now u d

unfoldable pub seed_defaults : ℕ → ℕ → ℕ → Exec Desk (Unit {0})
unfolding has_preferences add_defaults
seed_defaults id now u = do has ← has_preferences u; seed_missing id now u has

unfoldable pub list_for_user : ℕ → Exec Desk (List NotificationPreference)
list_for_user u = asks (λ d. ok (select (λ p. p.user_id == u) d.preferences))

abbrev pub is_event_preference : ℕ → NoticeType → NotificationPreference → Bool
is_event_preference u t p = p.user_id == u && is_global p.scope && is_of_type t p.event_type

abbrev pub is_group_preference : ℕ → ℕ → NotificationPreference → Bool
is_group_preference u g p =
    p.user_id == u && is_group_scope p.scope && is_of_group g p.scope_id && is_none p.event_type

unfoldable pub get_for_user_event : ℕ → NoticeType → Exec Desk (Option NotificationPreference)
get_for_user_event u t = asks (λ d. one_or_none (is_event_preference u t) d.preferences)

unfoldable pub get_group_preference : ℕ → ℕ → Exec Desk (Option NotificationPreference)
get_group_preference u g = asks (λ d. one_or_none (is_group_preference u g) d.preferences)

unfoldable pub list_for_group : ℕ → ℕ → Exec Desk (List NotificationPreference)
list_for_group u g = asks (λ d. ok (
    select (λ p. p.user_id == u && is_group_scope p.scope && is_of_group g p.scope_id)
      d.preferences))
