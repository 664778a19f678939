-- ===== src/Coordination/Repo.antt =====
-- `CoordinationRepository` (backend/app/db/repositories/coordination_repo.py), without its ordered lists. A row
-- keeps the date that it was given.
use ingame.Prelude.{
  ℕ, String, Bool, true, false, ◌&&◌, ◌||◌, Option, none, some, List, ◌==◌, if◌then◌else◌,
}
use ingame.Errors.{Exec, Result, ok, err, integrity_error, asks, ◌>>=◌}
use ingame.Time.{DateTime}
use ingame.Db.Table.{one_or_none, update_rows, delete_rows, insert_row}
use ingame.Db.Models.{
  ScheduledReadyWindow, Session, SessionRsvp, GroupActivityEvent, SessionStatus, RsvpAnswer,
}
use ingame.World.{Db, World}
use ingame.Groups.Repo.{is_user, is_group, exists_row}

abbrev pub is_window : ℕ → ScheduledReadyWindow → Bool
is_window id r = r.id == id

abbrev pub is_session : ℕ → Session → Bool
is_session id r = r.id == id

abbrev pub is_rsvp : ℕ → ℕ → SessionRsvp → Bool
is_rsvp s u r = r.session_id == s && r.user_id == u

-- The foreign keys of a row to a group and a user.
unfoldable pub has_owner_rows : Db → ℕ → ℕ → Bool
has_owner_rows db g u = exists_row (is_group g) db.groups && exists_row (is_user u) db.users

abbrev pub set_windows : {A : Type 0} → A → Result (List ScheduledReadyWindow) → Exec World A
set_windows a (ok rows) w = (ok a, record w { db = record w.db { windows = rows } })
set_windows a (err e) w = (err e, w)

abbrev pub set_sessions : {A : Type 0} → A → Result (List Session) → Exec World A
set_sessions a (ok rows) w = (ok a, record w { db = record w.db { sessions = rows } })
set_sessions a (err e) w = (err e, w)

abbrev pub set_rsvps : {A : Type 0} → A → Result (List SessionRsvp) → Exec World A
set_rsvps a (ok rows) w = (ok a, record w { db = record w.db { rsvps = rows } })
set_rsvps a (err e) w = (err e, w)

abbrev pub set_activities : {A : Type 0} → A → Result (List GroupActivityEvent) → Exec World A
set_activities a (ok rows) w = (ok a, record w { db = record w.db { activities = rows } })
set_activities a (err e) w = (err e, w)

unfoldable pub create_scheduled_ready_window :
    ScheduledReadyWindow → Exec World ScheduledReadyWindow
create_scheduled_ready_window r w =
    set_windows r
      (if has_owner_rows w.db r.group_id r.user_id
        then insert_row (is_window r.id) r w.windows
        else err integrity_error)
      w

unfoldable pub get_scheduled_ready_window : ℕ → Exec World (Option ScheduledReadyWindow)
get_scheduled_ready_window id = asks (λ w. one_or_none (is_window id) w.windows)

-- `if value is not None: setattr(...)`
abbrev or_old : Option DateTime → DateTime → DateTime
or_old none old = old
or_old (some new) old = new

abbrev pub moved :
    Option DateTime
    → Option DateTime
    → Option DateTime
    → ScheduledReadyWindow
    → ScheduledReadyWindow
moved starts_at ends_at stamp r = record r {
  starts_at = or_old starts_at r.starts_at;
  ends_at = or_old ends_at r.ends_at;
  updated_at = stamp;
}

abbrev move_found :
    ℕ
    → (ScheduledReadyWindow → ScheduledReadyWindow)
    → Option ScheduledReadyWindow
    → Exec World (Option ScheduledReadyWindow)
move_found id f none w = (ok none, w)
move_found id f (some r) w =
    set_windows (some (f r)) (ok (update_rows (is_window id) f w.windows)) w

-- `stamp` is what `onupdate` leaves in the row.
unfoldable pub update_scheduled_ready_window :
    ℕ
    → Option DateTime
    → Option DateTime
    → Option DateTime
    → Exec World (Option ScheduledReadyWindow)
unfolding get_scheduled_ready_window
update_scheduled_ready_window id starts_at ends_at stamp = do
  window ← get_scheduled_ready_window id
  move_found id (moved starts_at ends_at stamp) window

-- The rows without a window: activities that name it are set to `NULL`.
abbrev is_of_window : ℕ → GroupActivityEvent → Bool
is_of_window id r = elim r.scheduled_ready_window_id [ none ↦ false | some i ↦ i == id ]

abbrev pub is_of_session : ℕ → GroupActivityEvent → Bool
is_of_session id r = elim r.session_id [ none ↦ false | some i ↦ i == id ]

unfoldable pub delete_window_rows : ℕ → Db → Db
delete_window_rows id db = record db {
  windows = delete_rows (is_window id) db.windows;
  activities =
      update_rows (is_of_window id)
        (λ (r : GroupActivityEvent). record r { scheduled_ready_window_id = none }) db.activities;
}

abbrev delete_window_found : ℕ → Option ScheduledReadyWindow → Exec World Bool
delete_window_found id none w = (ok false, w)
delete_window_found id (some _) w = (ok true, record w { db = delete_window_rows id w.db })

unfoldable pub delete_scheduled_ready_window : ℕ → Exec World Bool
unfolding get_scheduled_ready_window
delete_scheduled_ready_window id = do
  window ← get_scheduled_ready_window id
  delete_window_found id window

unfoldable pub create_session : Session → Exec World Session
create_session r w =
    set_sessions r
      (if has_owner_rows w.db r.group_id r.proposed_by
        then insert_row (is_session r.id) r w.sessions
        else err integrity_error)
      w

unfoldable pub get_session : ℕ → Exec World (Option Session)
get_session id = asks (λ w. one_or_none (is_session id) w.sessions)

-- The keyword arguments of `update_session`: `none` is a key that is absent. The columns of the
-- third and the last cannot hold `None`.
pub record SessionPatch : Type 0 where
  pub title : Option (Option String)
  pub game : Option (Option String)
  pub starts_at : Option (Option DateTime)
  pub notes : Option (Option String)
  pub status : Option (Option SessionStatus)

abbrev assign : {A : Type 0} → Option (Option A) → A → Result A
assign none old = ok old
assign (some none) old = err integrity_error
assign (some (some new)) old = ok new

abbrev assign_nullable : {A : Type 0} → Option (Option A) → Option A → Option A
assign_nullable none old = old
assign_nullable (some new) old = new

unfoldable pub patched : SessionPatch → Option DateTime → Session → Result Session
patched p stamp r = elim (assign p.starts_at r.starts_at) [
  | err e ↦ err e
  | ok starts_at ↦ elim (assign p.status r.status) [
    | err e ↦ err e
    | ok status ↦ ok (record r {
      title = assign_nullable p.title r.title;
      game = assign_nullable p.game r.game;
      starts_at = starts_at;
      notes = assign_nullable p.notes r.notes;
      status = status;
      updated_at = stamp;
    })
  ]
]

abbrev write_session : ℕ → Result Session → Exec World (Option Session)
write_session id (err e) w = (err e, w)
write_session id (ok new) w =
    set_sessions (some new) (ok (update_rows (is_session id) (λ _. new) w.sessions)) w

abbrev patch_found :
    ℕ → SessionPatch → Option DateTime → Option Session → Exec World (Option Session)
patch_found id p stamp none w = (ok none, w)
patch_found id p stamp (some r) w = write_session id (patched p stamp r) w

unfoldable pub update_session : ℕ → SessionPatch → Option DateTime → Exec World (Option Session)
unfolding get_session
update_session id p stamp = do session ← get_session id; patch_found id p stamp session

-- The rows without a session: its RSVPs go with it.
unfoldable pub delete_session_rows : ℕ → Db → Db
delete_session_rows id db = record db {
  sessions = delete_rows (is_session id) db.sessions;
  rsvps = delete_rows (λ (r : SessionRsvp). r.session_id == id) db.rsvps;
  activities =
      update_rows (is_of_session id) (λ (r : GroupActivityEvent). record r { session_id = none })
        db.activities;
}

abbrev delete_session_found : ℕ → Option Session → Exec World Bool
delete_session_found id none w = (ok false, w)
delete_session_found id (some _) w = (ok true, record w { db = delete_session_rows id w.db })

unfoldable pub delete_session : ℕ → Exec World Bool
unfolding get_session
delete_session id = do session ← get_session id; delete_session_found id session

unfoldable pub get_rsvp : ℕ → ℕ → Exec World (Option SessionRsvp)
get_rsvp s u = asks (λ w. one_or_none (is_rsvp s u) w.rsvps)

-- The new row of an RSVP: its session and user have rows, and the pair is new.
unfoldable pub insert_rsvp : Db → SessionRsvp → Result (List SessionRsvp)
insert_rsvp db r =
    if exists_row (is_session r.session_id) db.sessions && exists_row (is_user r.user_id) db.users
    then insert_row (λ s. s.id == r.id || is_rsvp r.session_id r.user_id s) r db.rsvps
    else err integrity_error

abbrev pub answered : RsvpAnswer → DateTime → SessionRsvp → SessionRsvp
answered response now r = record r { response = response; updated_at = now }

abbrev upsert_found :
    ℕ → DateTime → ℕ → ℕ → RsvpAnswer → Option SessionRsvp → Exec World SessionRsvp
upsert_found id now s u response (some r) w =
    set_rsvps (answered response now r)
      (ok (update_rows (is_rsvp s u) (answered response now) w.rsvps)) w
upsert_found id now s u response none w =
    let r : SessionRsvp = record {
      id = id;
      session_id = s;
      user_id = u;
      response = response;
      updated_at = now;
    } in
    set_rsvps r (insert_rsvp w.db r) w

unfoldable pub upsert_rsvp : ℕ → DateTime → ℕ → ℕ → RsvpAnswer → Exec World SessionRsvp
unfolding get_rsvp
upsert_rsvp id now s u response = do rsvp ← get_rsvp s u; upsert_found id now s u response rsvp

-- The foreign keys that an activity may hold.
abbrev has_session_row : Db → Option ℕ → Bool
has_session_row db none = true
has_session_row db (some s) = exists_row (is_session s) db.sessions

abbrev has_window_row : Db → Option ℕ → Bool
has_window_row db none = true
has_window_row db (some i) = exists_row (is_window i) db.windows

unfoldable pub create_activity_event : GroupActivityEvent → Exec World GroupActivityEvent
create_activity_event r w =
    set_activities r
      (if has_owner_rows w.db r.group_id r.actor_user_id
          && has_session_row w.db r.session_id
          && has_window_row w.db r.scheduled_ready_window_id
        then insert_row (λ a. a.id == r.id) r w.activities
        else err integrity_error)
      w

unfoldable pub clear_group_activity : ℕ → Exec World (Unit {0})
clear_group_activity g w =
    set_activities tt (ok (delete_rows (λ (r : GroupActivityEvent). r.group_id == g) w.activities))
      w
