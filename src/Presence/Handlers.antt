-- ===== src/Presence/Handlers.antt =====
-- The handlers of a socket (backend/app/ws/handlers.py).
use ingame.Prelude.{
  ℕ, String, Bool, true, false, not, Option, none, some, List, [], ◌∷◌, ◌++◌, if◌then◌else◌,
}
use ingame.Errors.{Exec, ok, pure, ◌>>=◌}
use ingame.Sets.{mem, get_or_empty}
use ingame.Db.Models.{User, Group}
use ingame.World.{World}
use ingame.Groups.Repo.{get_user_by_id, list_user_groups}
use ingame.Groups.Service.{group_event}
use ingame.Ws.Events.{Connection, connection_changed, ready_changed}
use ingame.Notices.{NoticeType, empty_payload}
use ingame.Tokens.{Jwt, TokenPayload, decode_token, is_access}
use ingame.Presence.Status.{
  set_user_connection, clear_user_connection, set_group_ready, clear_group_ready,
}
use ingame.Presence.Hub.{Hub, publish_event, on_redis}
use ingame.Presence.Manager.{
  connect, disconnect, publish_user_online, publish_user_offline, sweep_all_groups,
  send_presence_snapshot,
}

-- What `authenticate_ws` returns
pub record Authenticated : Type 0 where
  pub user_id : ℕ
  pub display_name : String
  pub group_ids : List ℕ

unfoldable pub ids_of : List Group → List ℕ
ids_of [] = []
ids_of (g ∷ groups) = g.id ∷ ids_of groups

abbrev with_groups : Option User → Exec World (Option Authenticated)
with_groups none = pure none
with_groups (some user) = do
  groups ← list_user_groups user.id
  pure (
      some
        (record { user_id = user.id; display_name = user.display_name; group_ids = ids_of groups }))

abbrev with_payload : Option TokenPayload → Exec World (Option Authenticated)
with_payload none w = (ok none, w)
with_payload (some payload) w =
    if not (is_access payload.type)
    then (ok none, w)
    else (do user ← get_user_by_id payload.user_id; with_groups user) w

unfoldable pub authenticate_ws : Jwt → ℕ → String → Exec World (Option Authenticated)
unfolding decode_token get_user_by_id list_user_groups ids_of
authenticate_ws j now token = with_payload (decode_token j now token)

abbrev publish_if_first : Bool → Authenticated → Hub → Hub
publish_if_first false a h = h
publish_if_first true a h = publish_user_online a.user_id a.display_name a.group_ids h

-- The part of `handle_connect` after the authentication
unfoldable pub welcome : ℕ → ℕ → Authenticated → Hub → Hub
unfolding set_user_connection connect sweep_all_groups send_presence_snapshot publish_user_online
welcome now socket a h =
    let (is_first, h') =
      connect socket a.user_id a.group_ids
        (on_redis (set_user_connection now a.user_id Connection.online) h) in
    publish_if_first is_first a
      (send_presence_snapshot now a.group_ids socket (sweep_all_groups now a.group_ids h'))

unfoldable pub handle_connect : ℕ → ℕ → Option Authenticated → Hub → Option ℕ × Hub
unfolding welcome
handle_connect now socket none h = (none, record h { closed = h.closed ++ socket ∷ [] })
handle_connect now socket (some a) h = (some a.user_id, welcome now socket a h)

abbrev farewell : ℕ → List ℕ → Bool × Hub → Hub
farewell u group_ids (false, h) = h
farewell u group_ids (true, h) =
    publish_user_offline u group_ids (on_redis (clear_user_connection u) h)

unfoldable pub handle_disconnect : ℕ → ℕ → Hub → Hub
unfolding get_or_empty disconnect clear_user_connection publish_user_offline
handle_disconnect u socket h = farewell u (get_or_empty u h.user_groups) (disconnect u socket h)

-- The `state` of a `presence_lifecycle` message, and the messages; `none` is a value of another kind.
pub data Lifecycle : Type 0 where
  away active : Lifecycle
  other : Lifecycle

pub data Message : Type 0 where
  presence_lifecycle : Lifecycle → Message
  ready_toggle : Option ℕ → Option Bool → Message
  other : Message

unfoldable pub publish_connection_changed : ℕ → Connection → List ℕ → Hub → Hub
publish_connection_changed u c [] h = h
publish_connection_changed u c (g ∷ groups) h =
    publish_connection_changed u c groups (publish_event (group_event g (connection_changed u c)) h)

abbrev change_connection : ℕ → ℕ → Connection → List ℕ → Hub → Hub
change_connection now u c group_ids h =
    publish_connection_changed u c group_ids (on_redis (set_user_connection now u c) h)

unfoldable pub toggle_ready : ℕ → ℕ → ℕ → Bool → Hub → Hub
unfolding set_group_ready clear_group_ready
toggle_ready now u g true h =
    let (payload, r) = set_group_ready now g u h.redis in
    let h' : Hub =
      publish_event
        (group_event g (ready_changed u true (some payload.since) (some payload.expires_at)))
        (record h { redis = r }) in
    record h' {
      enqueued =
          h'.enqueued
          ++ record {
            event_type = NoticeType.ready_changed;
            group_id = g;
            actor_user_id = u;
            payload = empty_payload;
          }
            ∷ [];
    }
toggle_ready now u g false h =
    publish_event (group_event g (ready_changed u false none none))
      (on_redis (clear_group_ready g u) h)

unfoldable pub handle_message : ℕ → ℕ → Message → Hub → Hub
unfolding get_or_empty mem set_user_connection publish_connection_changed toggle_ready
handle_message now u (Message.presence_lifecycle Lifecycle.away) h =
    change_connection now u Connection.away (get_or_empty u h.user_groups) h
handle_message now u (Message.presence_lifecycle Lifecycle.active) h =
    change_connection now u Connection.online (get_or_empty u h.user_groups) h
handle_message now u (Message.presence_lifecycle Lifecycle.other) h = h
handle_message now u (Message.ready_toggle (some g) (some ready)) h =
    if mem g (get_or_empty u h.user_groups) then toggle_ready now u g ready h else h
handle_message now u (Message.ready_toggle none ready) h = h
handle_message now u (Message.ready_toggle (some g) none) h = h
handle_message now u Message.other h = h

-- The loop of `websocket_endpoint` over the messages of a socket, each with its time, until it
-- disconnects or a message is no JSON
unfoldable pub receive_all : ℕ → List (ℕ × Message) → Hub → Hub
unfolding handle_message
receive_all u [] h = h
receive_all u ((now, m) ∷ rest) h = receive_all u rest (handle_message now u m h)

abbrev serve_socket : ℕ → List (ℕ × Message) → Option ℕ × Hub → Hub
serve_socket socket messages (none, h) = h
serve_socket socket messages (some u, h) = handle_disconnect u socket (receive_all u messages h)

-- `websocket_endpoint` for a socket alone, with what its token was answered
unfoldable pub websocket_endpoint : ℕ → ℕ → Option Authenticated → List (ℕ × Message) → Hub → Hub
unfolding handle_connect receive_all handle_disconnect
websocket_endpoint now socket a messages h =
    serve_socket socket messages (handle_connect now socket a h)
