-- ===== src/Presence/Manager.antt =====
-- Connecting and disconnecting sockets, and the sweep (backend/app/ws/manager.py).
use ingame.Prelude.{ℕ, String, Bool, true, false, Option, none, some, List, [], ◌∷◌, if◌then◌else◌}
use ingame.Sets.{Dict, mem, add, discard, from_keys, get, set, pop, get_or_empty}
use ingame.Ws.Events.{Event, GroupPresenceSnapshot}
use ingame.Ws.Events.{presence_snapshot, user_online, user_offline, ready_changed}
use ingame.Groups.Service.{group_event}
use ingame.Presence.Status.{
  Redis, add_to_group_online, remove_from_group_online, sweep_expired_ready,
  get_group_presence_snapshot, sorted_union,
}
use ingame.Presence.Hub.{Hub, publish_event, send_json}

-- `for group_id in next_group_ids: if group_id not in previous_group_ids`
unfoldable pub join_online : ℕ → List ℕ → List ℕ → Redis → Redis
unfolding mem add_to_group_online
join_online u previous [] r = r
join_online u previous (g ∷ groups) r =
    join_online u previous groups (if mem g previous then r else add_to_group_online g u r)

-- `for group_id in previous_group_ids: if group_id not in next_group_ids`
unfoldable pub leave_online : ℕ → List ℕ → List ℕ → Redis → Redis
unfolding mem remove_from_group_online
leave_online u next [] r = r
leave_online u next (g ∷ groups) r =
    leave_online u next groups (if mem g next then r else remove_from_group_online g u r)

-- `existing is None or not existing`
abbrev pub is_unconnected : Option (List ℕ) → Bool
is_unconnected none = true
is_unconnected (some []) = true
is_unconnected (some (s ∷ sockets)) = false

abbrev pub with_socket : ℕ → Option (List ℕ) → List ℕ
with_socket socket none = socket ∷ []
with_socket socket (some sockets) = add socket sockets

-- `connect`: whether the socket is the user's first
unfoldable pub connect : ℕ → ℕ → List ℕ → Hub → Bool × Hub
unfolding add get set get_or_empty from_keys join_online leave_online
connect socket u group_ids h =
    let existing : Option (List ℕ) = get u h.connections in
    let previous : List ℕ = get_or_empty u h.user_groups in
    let next : List ℕ = from_keys group_ids in
    (
      is_unconnected existing,
      record h {
        connections = set u (with_socket socket existing) h.connections;
        user_groups = set u next h.user_groups;
        redis = leave_online u next previous (join_online u previous next h.redis);
      },
    )

-- `for group_id in group_ids: await remove_from_group_online(...)`
unfoldable pub leave_all : ℕ → List ℕ → Redis → Redis
unfolding remove_from_group_online
leave_all u [] r = r
leave_all u (g ∷ groups) r = leave_all u groups (remove_from_group_online g u r)

abbrev pub drop_user : ℕ → Hub → Bool × Hub
drop_user u h = (
  true,
  record h {
    connections = pop u h.connections;
    user_groups = pop u h.user_groups;
    redis = leave_all u (get_or_empty u h.user_groups) h.redis;
  },
)

abbrev pub keep_user : ℕ → List ℕ → Hub → Bool × Hub
keep_user u [] h = drop_user u h
keep_user u (s ∷ sockets) h = (false, record h { connections = set u (s ∷ sockets) h.connections })

-- `disconnect`: whether the user has no socket left
unfoldable pub disconnect : ℕ → ℕ → Hub → Bool × Hub
unfolding discard get set pop get_or_empty leave_all
disconnect u socket h = elim (get u h.connections) [
  | none ↦ (true, h)
  | some sockets ↦ keep_user u (discard socket sockets) h
]

unfoldable pub publish_user_online : ℕ → String → List ℕ → Hub → Hub
publish_user_online u display_name [] h = h
publish_user_online u display_name (g ∷ groups) h =
    publish_user_online u display_name groups
      (publish_event (group_event g (user_online u display_name)) h)

unfoldable pub publish_user_offline : ℕ → List ℕ → Hub → Hub
publish_user_offline u [] h = h
publish_user_offline u (g ∷ groups) h =
    publish_user_offline u groups (publish_event (group_event g (user_offline u)) h)

-- a member that is not ready any more
abbrev not_ready : ℕ → ℕ → Event
not_ready g u = group_event g (ready_changed u false none none)

unfoldable pub publish_expired : ℕ → List ℕ → Hub → Hub
publish_expired g [] h = h
publish_expired g (u ∷ users) h = publish_expired g users (publish_event (not_ready g u) h)

unfoldable pub sweep_all_groups : ℕ → List ℕ → Hub → Hub
unfolding sweep_expired_ready publish_expired
sweep_all_groups now [] h = h
sweep_all_groups now (g ∷ groups) h =
    let (expired, r) = sweep_expired_ready now g h.redis in
    sweep_all_groups now groups (publish_expired g expired (record h { redis = r }))

-- The groups of all users, once each and sorted
unfoldable pub all_groups : Dict (List ℕ) → List ℕ
unfolding sorted_union
all_groups [] = []
all_groups ((u, groups) ∷ rest) = sorted_union groups (all_groups rest)

-- One turn of `_run_ready_sweep_loop`
unfoldable pub sweep_turn : ℕ → Hub → Hub
unfolding all_groups sweep_all_groups
sweep_turn now h = sweep_all_groups now (all_groups h.user_groups) h

-- `for group_id in group_ids: snapshot = ...`
unfoldable pub snapshots : ℕ → List ℕ → Redis → List GroupPresenceSnapshot × Redis
unfolding get_group_presence_snapshot
snapshots now [] r = ([], r)
snapshots now (g ∷ groups) r =
    let (s, r') = get_group_presence_snapshot now g r in
    let (rest, r'') = snapshots now groups r' in (s ∷ rest, r'')

unfoldable pub send_presence_snapshot : ℕ → List ℕ → ℕ → Hub → Hub
unfolding snapshots
send_presence_snapshot now group_ids socket h =
    let (groups, r) = snapshots now group_ids h.redis in
    send_json socket (record { group_id = none; body = presence_snapshot groups })
      (record h { redis = r })
