-- ===== src/Presence/Broadcast.antt =====
-- Whom an event of a group's channel reaches (backend/app/ws/manager.py).
use ingame.Prelude.{
  ℕ, Bool, true, false, not, ◌&&◌, Option, none, some, List, [], ◌∷◌, ◌==◌, if◌then◌else◌,
}
use ingame.Sets.{Dict, mem, get_or_empty}
use ingame.Ws.Events.{Event, EventBody}
use ingame.Ws.Events.{
  presence_snapshot, user_online, user_offline, connection_changed, ready_changed,
  scheduled_ready_updated, scheduled_ready_deleted, session_proposed, session_updated,
  session_deleted, session_rsvp_updated, activity_recorded, member_joined, member_left,
  member_removed, member_role_changed, group_updated, group_deleted, join_request_created,
  join_request_resolved,
}
use ingame.Presence.Hub.{Hub, send_json}

-- `for ws in websockets`
unfoldable pub send_all : Event → List ℕ → Hub → Hub
send_all e [] h = h
send_all e (socket ∷ sockets) h = send_all e sockets (send_json socket e h)

abbrev pub is_excluded : ℕ → Option ℕ → Bool
is_excluded u none = false
is_excluded u (some v) = u == v

-- `for uid, websockets in self._connections.items()`
unfoldable pub broadcast_to : ℕ → Event → Option ℕ → Dict (List ℕ) → Hub → Hub
unfolding send_all get_or_empty mem
broadcast_to g e exclude [] h = h
broadcast_to g e exclude ((u, sockets) ∷ rest) h = broadcast_to g e exclude rest (
    if not (is_excluded u exclude) && mem g (get_or_empty u h.user_groups)
    then send_all e sockets h
    else h)

unfoldable pub broadcast_to_group : ℕ → Event → Option ℕ → Hub → Hub
unfolding broadcast_to
broadcast_to_group g e exclude h = broadcast_to g e exclude h.connections h

-- The user whom an event about presence is about, who does not get it.
abbrev pub exclude_of : EventBody → Option ℕ
exclude_of (user_online u name) = some u
exclude_of (user_offline u) = some u
exclude_of (connection_changed u c) = some u
exclude_of (ready_changed u r s e) = some u
exclude_of (presence_snapshot groups) = none
exclude_of (scheduled_ready_updated w) = none
exclude_of (scheduled_ready_deleted w u) = none
exclude_of (session_proposed s) = none
exclude_of (session_updated s) = none
exclude_of (session_deleted s) = none
exclude_of (session_rsvp_updated r) = none
exclude_of (activity_recorded a) = none
exclude_of (member_joined u n a r) = none
exclude_of (member_left u) = none
exclude_of (member_removed u by) = none
exclude_of (member_role_changed u r) = none
exclude_of (group_updated g) = none
exclude_of group_deleted = none
exclude_of (join_request_created r) = none
exclude_of (join_request_resolved r s u) = none

abbrev pub is_snapshot : EventBody → Bool
is_snapshot (presence_snapshot groups) = true
is_snapshot _ = false

abbrev broadcast_in : Option ℕ → Event → Hub → Hub
broadcast_in none e h = h
broadcast_in (some g) e h =
    if is_snapshot e.body then h else broadcast_to_group g e (exclude_of e.body) h

unfoldable pub broadcast_event : Event → Hub → Hub
unfolding broadcast_to_group
broadcast_event e h = broadcast_in e.group_id e h

unfoldable pub send_to_user : ℕ → Event → Hub → Hub
unfolding send_all get_or_empty
send_to_user u e h = send_all e (get_or_empty u h.connections) h
