-- ===== src/Coordination/Responses.antt =====
-- The answers of the coordination services (backend/app/api/v1/coordination/service.py, from
-- `_sessions_to_response` on).
use ingame.Prelude.{ℕ, List, [], ◌∷◌, ◌==◌, leb, if◌then◌else◌}
use ingame.Errors.{Exec, ok, asks, pure, ◌>>=◌}
use ingame.Time.{coerce_utc, coerce_utc?}
use ingame.Db.Table.{select}
use ingame.Db.Models.{ScheduledReadyWindow, Session, SessionRsvp, GroupActivityEvent}
use ingame.Schemas.{WindowResponse, SessionResponse, RsvpResponse, ActivityResponse}
use ingame.World.{World}
use ingame.Groups.Repo.{get_user_by_id}
use ingame.Groups.Membership.{name_or_unknown}

unfoldable pub window_to_response : ScheduledReadyWindow → Exec World WindowResponse
unfolding get_user_by_id
window_to_response window = do
  actor ← get_user_by_id window.user_id
  starts_at ← asks (λ _. coerce_utc window.starts_at)
  ends_at ← asks (λ _. coerce_utc window.ends_at)
  created_at ← asks (λ _. coerce_utc window.created_at)
  updated_at ← asks (λ _. coerce_utc? window.updated_at)
  pure (record {
    id = window.id;
    group_id = window.group_id;
    user_id = window.user_id;
    display_name = name_or_unknown actor;
    starts_at = starts_at;
    ends_at = ends_at;
    source = window.source;
    created_at = created_at;
    updated_at = updated_at;
  })

unfoldable pub rsvp_to_response : SessionRsvp → Exec World RsvpResponse
unfolding get_user_by_id
rsvp_to_response rsvp = do
  actor ← get_user_by_id rsvp.user_id
  updated_at ← asks (λ _. coerce_utc rsvp.updated_at)
  pure (record {
    id = rsvp.id;
    session_id = rsvp.session_id;
    user_id = rsvp.user_id;
    display_name = name_or_unknown actor;
    response = rsvp.response;
    updated_at = updated_at;
  })

unfoldable pub rsvps_to_response : List SessionRsvp → Exec World (List RsvpResponse)
unfolding rsvp_to_response
rsvps_to_response [] w = (ok [], w)
rsvps_to_response (r ∷ rows) w =
    (do response ← rsvp_to_response r; rest ← rsvps_to_response rows; pure (response ∷ rest)) w

-- One turn of `_sessions_to_response`, with the RSVPs that were read for the session.
unfoldable pub session_to_response : Session → List SessionRsvp → Exec World SessionResponse
unfolding get_user_by_id rsvps_to_response
session_to_response session rsvps = do
  proposer ← get_user_by_id session.proposed_by
  session_rsvps ← rsvps_to_response (select (λ r. r.session_id == session.id) rsvps)
  starts_at ← asks (λ _. coerce_utc session.starts_at)
  created_at ← asks (λ _. coerce_utc session.created_at)
  updated_at ← asks (λ _. coerce_utc? session.updated_at)
  pure (record {
    id = session.id;
    group_id = session.group_id;
    proposed_by = session.proposed_by;
    proposed_by_display_name = name_or_unknown proposer;
    title = session.title;
    game = session.game;
    starts_at = starts_at;
    notes = session.notes;
    status = session.status;
    created_at = created_at;
    updated_at = updated_at;
    rsvps = session_rsvps;
  })

unfoldable pub activity_to_response : GroupActivityEvent → Exec World ActivityResponse
unfolding get_user_by_id
activity_to_response event = do
  actor ← get_user_by_id event.actor_user_id
  created_at ← asks (λ _. coerce_utc event.created_at)
  pure (record {
    id = event.id;
    group_id = event.group_id;
    actor_user_id = event.actor_user_id;
    actor_display_name = name_or_unknown actor;
    type = event.type;
    message = event.message;
    session_id = event.session_id;
    scheduled_ready_window_id = event.scheduled_ready_window_id;
    created_at = created_at;
  })

-- `order_by(SessionRsvp.updated_at.asc())`: the stamps are the database's, in UTC.
unfoldable pub insert_by_update : SessionRsvp → List SessionRsvp → List SessionRsvp
insert_by_update r [] = r ∷ []
insert_by_update r (s ∷ rows) =
    if leb r.updated_at.wall s.updated_at.wall then r ∷ s ∷ rows else s ∷ insert_by_update r rows

unfoldable pub order_by_update : List SessionRsvp → List SessionRsvp
unfolding insert_by_update
order_by_update [] = []
order_by_update (r ∷ rows) = insert_by_update r (order_by_update rows)

unfoldable pub list_rsvps_for_session : ℕ → Exec World (List SessionRsvp)
unfolding order_by_update
list_rsvps_for_session s =
    asks (λ w. ok (order_by_update (select (λ r. r.session_id == s) w.rsvps)))
