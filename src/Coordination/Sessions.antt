-- ===== src/Coordination/Sessions.antt =====
-- Sessions and their RSVPs (backend/app/api/v1/coordination/service.py).
use Prim.Native.String.{◌++◌}
use ingame.Prelude.{
  ℕ, String, Bool, true, false, Option, none, some, List, [], ◌∷◌, ◌==◌, if◌then◌else◌,
}
use ingame.Errors.{
  Exec, Result, ok, not_found, forbidden, attribute_error, coordination_session_not_found,
  coordination_session_time_invalid, coordination_session_status_invalid, coordination_rsvp_invalid,
  asks, raise_if, or_raise, pure, ◌>>=◌, ◌>>◌,
}
use ingame.Time.{DateTime, at_utc, ensure_valid_future}
use ingame.Db.Models.{User, Session, SessionRsvp, SessionStatus, RsvpAnswer, ActivityType}
use ingame.Schemas.{SessionResponse, RsvpResponse}
use ingame.Ws.Events.{
  Event, session_proposed, session_updated, session_deleted, session_rsvp_updated,
  activity_recorded,
}
use ingame.Notices.{NoticeType, empty_payload}
use ingame.World.{World, enqueue_notification}
use ingame.Groups.Service.{group_event}
use ingame.Coordination.Repo
use ingame.Coordination.Repo.{SessionPatch, get_session, create_activity_event}
use ingame.Coordination.Responses.{
  session_to_response, rsvp_to_response, activity_to_response, list_rsvps_for_session,
}
use ingame.Coordination.Access.{ensure_member, ensure_session_editor}
use ingame.Coordination.Windows.{record_activity}

-- What a request to propose a session holds.
pub record NewSession : Type 0 where
  pub title : Option String
  pub game : Option String
  pub starts_at : DateTime
  pub notes : Option String

unfoldable pub create_session :
    ℕ → ℕ → ℕ → ℕ → User → NewSession → Exec World (SessionResponse × List Event)
unfolding Repo.create_session create_activity_event
create_session id activity_id now g user s = do
  asks (λ _. ensure_valid_future now s.starts_at coordination_session_time_invalid)
  ensure_member g user.id
  session ← Repo.create_session (record {
    id = id;
    group_id = g;
    proposed_by = user.id;
    title = s.title;
    game = s.game;
    starts_at = s.starts_at;
    notes = s.notes;
    status = SessionStatus.proposed;
    created_at = at_utc now;
    updated_at = none;
  })
  activity ←
      record_activity activity_id now user g ActivityType.session_proposed
        (user.display_name ++ " proposed a session") (some session.id) none
  enqueue_notification (record {
    event_type = NoticeType.session_proposed;
    group_id = g;
    actor_user_id = user.id;
    payload = record empty_payload {
      session_title = session.title;
      game = session.game;
      formatted_time = some session.starts_at;
    };
  })
  response ← session_to_response session []
  activity_response ← activity_to_response activity
  pure (
    response,
    group_event g (session_proposed response)
        ∷ group_event g (activity_recorded activity_response)
        ∷ [],
  )

-- `session is None or session.group_id != group_id: raise`
abbrev in_group : ℕ → Option Session → Option Session
in_group g none = none
in_group g (some session) = if session.group_id == g then some session else none

-- `if starts_at is not None: _ensure_valid_future(...)`
abbrev ensure_new_start : ℕ → SessionPatch → Result (Unit {0})
ensure_new_start now p = elim p.starts_at [
  | none ↦ ok tt
  | some none ↦ ok tt
  | some (some t) ↦ ensure_valid_future now t coordination_session_time_invalid
]

-- `status is not None and status not in _SESSION_STATUSES`
abbrev pub is_unknown : SessionStatus → Bool
is_unknown SessionStatus.proposed = false
is_unknown SessionStatus.confirmed = false
is_unknown SessionStatus.cancelled = false
is_unknown (SessionStatus.other _) = true

abbrev has_unknown_status : SessionPatch → Bool
has_unknown_status p = elim p.status [
  | none ↦ false
  | some none ↦ false
  | some (some s) ↦ is_unknown s
]

abbrev answers_of : List SessionRsvp → List (ℕ × RsvpAnswer)
answers_of [] = []
answers_of (r ∷ rows) = (r.user_id, r.response) ∷ answers_of rows

-- `stamp` is what `onupdate` leaves in the row.
unfoldable pub update_session :
    ℕ
    → ℕ
    → Option DateTime
    → ℕ
    → ℕ
    → User
    → SessionPatch
    → Exec World (SessionResponse × List Event)
unfolding get_session Repo.update_session create_activity_event list_rsvps_for_session
update_session activity_id now stamp g id user p = do
  ensure_member g user.id
  found ← get_session id
  session ← or_raise (in_group g found) (not_found coordination_session_not_found)
  ensure_session_editor session user.id
  asks (λ _. ensure_new_start now p)
  raise_if (has_unknown_status p) (forbidden coordination_session_status_invalid)
  written ← Repo.update_session id p stamp
  updated ← or_raise written attribute_error
  rsvps ← list_rsvps_for_session updated.id
  activity ←
      record_activity activity_id now user g ActivityType.session_updated
        (user.display_name ++ " updated a session") (some updated.id) none
  enqueue_notification (record {
    event_type = NoticeType.session_updated;
    group_id = g;
    actor_user_id = user.id;
    payload = record empty_payload {
      session_title = updated.title;
      game = updated.game;
      user_rsvps = some (answers_of rsvps);
    };
  })
  response ← session_to_response updated rsvps
  activity_response ← activity_to_response activity
  pure (
    response,
    group_event g (session_updated response)
        ∷ group_event g (activity_recorded activity_response)
        ∷ [],
  )

unfoldable pub delete_session : ℕ → ℕ → ℕ → ℕ → User → Exec World (List Event)
unfolding get_session Repo.delete_session create_activity_event
delete_session activity_id now g id user = do
  ensure_member g user.id
  found ← get_session id
  session ← or_raise (in_group g found) (not_found coordination_session_not_found)
  ensure_session_editor session user.id
  activity ←
      record_activity activity_id now user g ActivityType.session_deleted
        (user.display_name ++ " removed a session") (some session.id) none
  Repo.delete_session id
  activity_response ← activity_to_response activity
  pure (
      group_event g (session_deleted id) ∷ group_event g (activity_recorded activity_response) ∷ [])

-- `response not in {"in", "out", "maybe"}`
abbrev pub is_invalid : RsvpAnswer → Bool
is_invalid RsvpAnswer.going = false
is_invalid RsvpAnswer.out = false
is_invalid RsvpAnswer.maybe = false
is_invalid (RsvpAnswer.other _) = true

abbrev answer_text : RsvpAnswer → String
answer_text RsvpAnswer.going = "in"
answer_text RsvpAnswer.out = "out"
answer_text RsvpAnswer.maybe = "maybe"
answer_text (RsvpAnswer.other s) = s

-- `stamp` is the time that the row has afterwards, which stays the old one if the answer does.
unfoldable pub upsert_rsvp :
    ℕ → ℕ → ℕ → DateTime → ℕ → ℕ → User → RsvpAnswer → Exec World (RsvpResponse × List Event)
unfolding get_session Repo.upsert_rsvp create_activity_event
upsert_rsvp rsvp_id activity_id now stamp g id user response = do
  raise_if (is_invalid response) (forbidden coordination_rsvp_invalid)
  ensure_member g user.id
  found ← get_session id
  session ← or_raise (in_group g found) (not_found coordination_session_not_found)
  rsvp ← Repo.upsert_rsvp rsvp_id stamp id user.id response
  activity ←
      record_activity activity_id now user g ActivityType.session_rsvp_updated
        (user.display_name ++ " responded " ++ answer_text response ++ " to a session")
        (some session.id) none
  enqueue_notification (record {
    event_type = NoticeType.session_rsvp_updated;
    group_id = g;
    actor_user_id = user.id;
    payload = record empty_payload {
      session_title = session.title;
      game = session.game;
      rsvp_response = some response;
    };
  })
  response_model ← rsvp_to_response rsvp
  activity_response ← activity_to_response activity
  pure (
    response_model,
    group_event g (session_rsvp_updated response_model)
        ∷ group_event g (activity_recorded activity_response)
        ∷ [],
  )
