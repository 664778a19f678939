-- ===== src/Presence/Reach.antt =====
-- The states that the handlers of the sockets, the sweep and the deliveries can reach
-- (backend/app/ws/handlers.py, backend/app/ws/manager.py), in whatever order they run.
use ingame.Prelude.{ℕ, ◌≡◌, refl, true, Option, none, some, arith, is_some}
use ingame.Sets.{mem, get, get_or_empty}
use ingame.Ws.Events.{Event}
use ingame.Presence.Status.{get_user_connection}
use ingame.Presence.Hub.{Hub, empty_hub}
use ingame.Presence.Manager.{sweep_turn}
use ingame.Presence.Broadcast.{broadcast_event, send_to_user}
use ingame.Presence.Handlers.{
  Authenticated, Message, handle_connect, handle_disconnect, handle_message,
}
use ingame.Presence.Frames.{
  IsSame-IsQuiet, broadcast_event-IsSame, send_to_user-IsSame, sweep_turn-IsQuiet,
}
use ingame.Presence.Sound.{IsSound, same-IsSound}
use ingame.Presence.Handling.{handle_disconnect-IsSound, welcome-IsSound, handle_message-IsSound}

-- A handler runs for a socket that opens, for a message of a user with a socket, and for a socket
-- that closes; the sweep, and what the channels deliver, at any time.
pub data Step (h : Hub) : Hub → Type 0 where
  opened : (now socket : ℕ) (a : Option Authenticated) → Step h (handle_connect now socket a h).1
  received :
      (now u : ℕ) (m : Message)
      → is_some (get u h.connections) ≡ true
      → Step h (handle_message now u m h)
  closed : (u socket : ℕ) → Step h (handle_disconnect u socket h)
  swept : (now : ℕ) → Step h (sweep_turn now h)
  delivered : (e : Event) → Step h (broadcast_event e h)
  notified : (u : ℕ) (e : Event) → Step h (send_to_user u e h)

pub data Reachable : Hub → Type 0 where
  started : Reachable empty_hub
  stepped : {h h' : Hub} → Reachable h → Step h h' → Reachable h'

Step-IsSound : {h h' : Hub} → Step h h' → IsSound h → IsSound h'
unfolding handle_connect
Step-IsSound {h} (opened now socket none) s =
    same-IsSound h (handle_connect now socket none h).1 (refl, refl, (refl, refl, λ k. k)) s
Step-IsSound {h} (opened now socket (some a)) s = welcome-IsSound now socket a h s
Step-IsSound {h} (received now u m e) s = handle_message-IsSound now u m h e s
Step-IsSound {h} (closed u socket) s = handle_disconnect-IsSound u socket h s
Step-IsSound {h} (swept now) s = same-IsSound h (sweep_turn now h) (sweep_turn-IsQuiet now h) s
Step-IsSound {h} (delivered e) s =
    same-IsSound h (broadcast_event e h)
      (IsSame-IsQuiet h (broadcast_event e h) (broadcast_event-IsSame e h)) s
Step-IsSound {h} (notified u e) s =
    same-IsSound h (send_to_user u e h)
      (IsSame-IsQuiet h (send_to_user u e h) (send_to_user-IsSame u e h)) s

-- In every state that can be reached, whatever the order in which sockets open, write and close, sweeps run and
-- events are delivered: a user is in a group's online set exactly when the group is one of those of the user's
-- latest connection; a user has groups exactly while the user has sockets, and is not kept with none; Redis has a
-- user as online or away exactly while the user has a socket; and every value of readiness has its user in the
-- set of its group and lives until the time it says.
pub Reachable-IsSound : {h : Hub} → Reachable h → IsSound h
unfolding mem get get_or_empty get_user_connection
Reachable-IsSound started = record {
  tracked = record { online = λ g u. refl; users = λ u. refl; sockets = λ u. refl };
  status = λ u. refl;
  kept = record { listed = λ g u e. ground (arith, e); lives = λ g u p e. ground (arith, e) };
}
Reachable-IsSound (stepped r s) = Step-IsSound s (Reachable-IsSound r)
