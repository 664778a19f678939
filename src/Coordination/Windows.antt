-- ===== src/Coordination/Windows.antt =====
-- Ready windows (backend/app/api/v1/coordination/service.py). A service answers with its response and
-- the events that the route publishes after the commit.
use Prim.Native.String.{◌++◌}
use ingame.Prelude.{ℕ, String, Option, none, some, List, [], ◌∷◌, ◌==◌, if◌then◌else◌}
use ingame.Errors.{
  Exec, not_found, attribute_error, coordination_window_not_found, coordination_window_time_invalid,
  asks, or_raise, pure, ◌>>=◌, ◌>>◌,
}
use ingame.Time.{DateTime, at_utc, ensure_valid_range, ensure_valid_future}
use ingame.Db.Models.{User, ScheduledReadyWindow, GroupActivityEvent, ActivityType}
use ingame.Schemas.{WindowResponse}
use ingame.Ws.Events.{Event, scheduled_ready_updated, scheduled_ready_deleted, activity_recorded}
use ingame.Notices.{ready_changed, empty_payload}
use ingame.World.{World, enqueue_notification}
use ingame.Groups.Service.{group_event}
use ingame.Coordination.Repo.{
  create_scheduled_ready_window, get_scheduled_ready_window, update_scheduled_ready_window,
  delete_scheduled_ready_window, create_activity_event,
}
use ingame.Coordination.Responses.{window_to_response, activity_to_response}
use ingame.Coordination.Access.{ensure_member, ensure_window_editor}

-- `_record_activity` with the id and the stamp of the new row
abbrev pub record_activity :
    ℕ → ℕ → User → ℕ → ActivityType → String → Option ℕ → Option ℕ → Exec World GroupActivityEvent
record_activity id now actor g type message session_id window_id = create_activity_event (record {
  id = id;
  group_id = g;
  actor_user_id = actor.id;
  type = type;
  message = message;
  session_id = session_id;
  scheduled_ready_window_id = window_id;
  created_at = at_utc now;
})

unfoldable pub create_window :
    ℕ → ℕ → ℕ → ℕ → User → DateTime → DateTime → Exec World (WindowResponse × List Event)
unfolding create_scheduled_ready_window create_activity_event
create_window id activity_id now g user starts_at ends_at = do
  asks (λ _. ensure_valid_range starts_at ends_at coordination_window_time_invalid)
  asks (λ _. ensure_valid_future now starts_at coordination_window_time_invalid)
  ensure_member g user.id
  window ← create_scheduled_ready_window (record {
    id = id;
    group_id = g;
    user_id = user.id;
    starts_at = starts_at;
    ends_at = ends_at;
    source = "manual";
    created_at = at_utc now;
    updated_at = none;
  })
  activity ←
      record_activity activity_id now user g ActivityType.scheduled_ready_updated
        (user.display_name ++ " updated their ready window") none (some window.id)
  enqueue_notification (record {
    event_type = ready_changed;
    group_id = g;
    actor_user_id = user.id;
    payload = empty_payload;
  })
  response ← window_to_response window
  activity_response ← activity_to_response activity
  pure (
    response,
    group_event g (scheduled_ready_updated response)
        ∷ group_event g (activity_recorded activity_response)
        ∷ [],
  )

-- `starts_at or window.starts_at`
abbrev or_old : Option DateTime → DateTime → DateTime
or_old none old = old
or_old (some new) old = new

-- `window is None or window.group_id != group_id: raise`
abbrev in_group : ℕ → Option ScheduledReadyWindow → Option ScheduledReadyWindow
in_group g none = none
in_group g (some window) = if window.group_id == g then some window else none

-- `stamp` is what `onupdate` leaves in the row.
unfoldable pub update_window :
    ℕ
    → ℕ
    → Option DateTime
    → ℕ
    → ℕ
    → User
    → Option DateTime
    → Option DateTime
    → Exec World (WindowResponse × List Event)
unfolding get_scheduled_ready_window update_scheduled_ready_window create_activity_event
update_window activity_id now stamp g id user starts_at ends_at = do
  ensure_member g user.id
  found ← get_scheduled_ready_window id
  window ← or_raise (in_group g found) (not_found coordination_window_not_found)
  ensure_window_editor window user.id
  let next_starts_at = or_old starts_at window.starts_at
  asks (λ _.
      ensure_valid_range next_starts_at (or_old ends_at window.ends_at)
        coordination_window_time_invalid)
  asks (λ _. ensure_valid_future now next_starts_at coordination_window_time_invalid)
  written ← update_scheduled_ready_window id starts_at ends_at stamp
  updated ← or_raise written attribute_error
  activity ←
      record_activity activity_id now user g ActivityType.scheduled_ready_updated
        (user.display_name ++ " updated their ready window") none (some updated.id)
  response ← window_to_response updated
  activity_response ← activity_to_response activity
  pure (
    response,
    group_event g (scheduled_ready_updated response)
        ∷ group_event g (activity_recorded activity_response)
        ∷ [],
  )

unfoldable pub delete_window : ℕ → ℕ → ℕ → ℕ → User → Exec World (List Event)
unfolding get_scheduled_ready_window delete_scheduled_ready_window create_activity_event
delete_window activity_id now g id user = do
  ensure_member g user.id
  found ← get_scheduled_ready_window id
  window ← or_raise (in_group g found) (not_found coordination_window_not_found)
  ensure_window_editor window user.id
  activity ←
      record_activity activity_id now user g ActivityType.scheduled_ready_deleted
        (user.display_name ++ " removed a ready window") none (some window.id)
  delete_scheduled_ready_window id
  activity_response ← activity_to_response activity
  pure (
      group_event g (scheduled_ready_deleted id window.user_id)
      ∷ group_event g (activity_recorded activity_response)
      ∷ [])
