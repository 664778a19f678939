-- ===== src/Presence/Hub.antt =====
-- The state of a connection manager (backend/app/ws/manager.py, `class ConnectionManager`), with Redis
-- and what has been sent. A socket is known by its id. Each handler runs to its end before the next.
use ingame.Prelude.{ℕ, List, [], ◌++◌, ◌∷◌}
use ingame.Sets.{Dict}
use ingame.Ws.Events.{Event}
use ingame.Notices.{Notice}
use ingame.Presence.Status.{Redis, empty_redis}

pub record Hub : Type 0 where
  pub redis : Redis
  pub connections : Dict (List ℕ)
  pub user_groups : Dict (List ℕ)
  -- the events that were published to the channels of their groups, the latest last
  pub published : List Event
  pub enqueued : List Notice
  -- the sockets that were written to, with what was written
  pub sent : List (ℕ × Event)
  -- the sockets that were refused
  pub closed : List ℕ

abbrev pub empty_hub : Hub
empty_hub = record {
  redis = empty_redis;
  connections = [];
  user_groups = [];
  published = [];
  enqueued = [];
  sent = [];
  closed = [];
}

-- `publish_event`
abbrev pub publish_event : Event → Hub → Hub
publish_event e h = record h { published = h.published ++ e ∷ [] }

-- `websocket.send_json`, whose failure the callers of a broadcast swallow
abbrev pub send_json : ℕ → Event → Hub → Hub
send_json socket e h = record h { sent = h.sent ++ (socket, e) ∷ [] }

abbrev pub on_redis : (Redis → Redis) → Hub → Hub
on_redis f h = record h { redis = f h.redis }
