-- ===== src/Presence/Tests.antt =====
-- Presence at work: two users of group 5 connect, and one of them is ready.
use ingame.Prelude.{
  ℕ, ◌≡◌, refl, true, false, not, ◌&&◌, ◌||◌, none, some, [], ◌∷◌, arith, is_some, All,
}
use ingame.Sets.{mem, add, from_keys, get, set, get_or_empty}
use ingame.Ws.Events.{Connection}
use ingame.Presence.Status.{
  Redis, get_user_connection, set_group_ready, get_group_ready, sweep_expired_ready,
  get_group_presence_snapshot,
}
use ingame.Presence.Hub.{Hub, empty_hub}
use ingame.Presence.Manager.{
  connect, sweep_all_groups, publish_expired, snapshots, send_presence_snapshot,
  publish_user_online,
}
use ingame.Presence.Handlers.{
  Authenticated, Message, welcome, handle_connect, handle_message, toggle_ready,
}
use ingame.Presence.Ready.{IsKept, is_ready, sweep_expired_ready_lem}
use ingame.Presence.Snapshot.{
  ids, IsAscending, IsShown, get_group_presence_snapshot_lem, is_ready_after, alive,
  get_group_presence_snapshot-set_group_ready,
}
use ingame.Presence.Sound.{IsSound}
use ingame.Presence.Reach.{Reachable, started, stepped, opened, received, Reachable-IsSound}
use ingame.Presence.Leaving.{close_all, close_all_lem}

abbrev ann : Authenticated
ann = record { user_id = 1; display_name = "Ann"; group_ids = 5 ∷ [] }

abbrev ben : Authenticated
ben = record { user_id = 2; display_name = "Ben"; group_ids = 5 ∷ 6 ∷ [] }

abbrev one_connected : Hub
one_connected = (handle_connect 100 10 (some ann) empty_hub).1

abbrev both_connected : Hub
both_connected = (handle_connect 200 20 (some ben) one_connected).1

abbrev one_ready : Hub
one_ready = handle_message 300 1 (Message.ready_toggle (some 5) (some true)) both_connected

ann_connected : is_some (get 1 both_connected.connections) ≡ true
unfolding handle_connect welcome connect get set add from_keys get_or_empty sweep_all_groups
    publish_expired send_presence_snapshot publish_user_online snapshots
ann_connected = refl

one_ready-Reachable : Reachable one_ready
one_ready-Reachable =
    stepped (stepped (stepped started (opened 100 10 (some ann))) (opened 200 20 (some ben)))
      (received 300 1 (Message.ready_toggle (some 5) (some true)) ann_connected)

Reachable-IsSound_example : IsSound one_ready
Reachable-IsSound_example = Reachable-IsSound one_ready-Reachable

ready_redis-IsKept : IsKept one_ready.redis
ready_redis-IsKept = (Reachable-IsSound one_ready-Reachable).kept

ben_sockets :
    (s : ℕ) → mem s (get_or_empty 2 one_ready.connections) ≡ true → mem s (30 ∷ 20 ∷ []) ≡ true
unfolding mem handle_connect welcome connect get set add from_keys get_or_empty sweep_all_groups
    publish_expired send_presence_snapshot publish_user_online snapshots handle_message toggle_ready
ben_sockets s e = ground (arith, e)

close_all_lem_example :
    let h' = close_all 2 (30 ∷ 20 ∷ []) one_ready in
    (get_user_connection 2 h'.redis ≡ Connection.offline)
    × ((g : ℕ) → mem 2 (h'.redis.online g) ≡ false)
    × (get 2 h'.connections ≡ none)
    × (is_some (get 2 h'.user_groups) ≡ false)
close_all_lem_example = close_all_lem 2 (30 ∷ 20 ∷ []) one_ready-Reachable ben_sockets

sweep_expired_ready_lem_example :
    (mem 1 ((sweep_expired_ready 30000 5 one_ready.redis).1.ready_users 5)
      ≡ is_ready 30000 5 1 one_ready.redis)
    × (mem 1 (sweep_expired_ready 30000 5 one_ready.redis).0
        ≡ (mem 1 (one_ready.redis.ready_users 5) && not (is_ready 30000 5 1 one_ready.redis)))
    × ((i : ℕ)
        → is_ready 30000 i 1 (sweep_expired_ready 30000 5 one_ready.redis).1
          ≡ is_ready 30000 i 1 one_ready.redis)
sweep_expired_ready_lem_example =
    sweep_expired_ready_lem 30000 5 one_ready.redis ready_redis-IsKept 1

get_group_presence_snapshot_lem_example :
    let s = (get_group_presence_snapshot 400 5 one_ready.redis).0 in
    (s.group_id ≡ 5)
    × IsAscending (ids s.members)
    × ((v : ℕ)
        → mem v (ids s.members)
          ≡ (mem v (one_ready.redis.online 5) || is_ready 400 5 v one_ready.redis))
    × All (IsShown 400 5 one_ready.redis) s.members
get_group_presence_snapshot_lem_example =
    get_group_presence_snapshot_lem 400 5 one_ready.redis ready_redis-IsKept

get_group_presence_snapshot-set_group_ready_example :
    let s = (get_group_presence_snapshot 400 5 (set_group_ready 390 5 2 one_ready.redis).1).0 in
    ((v : ℕ)
      → mem v (ids s.members)
        ≡ (mem v (one_ready.redis.online 5) || is_ready_after 390 400 5 2 v one_ready.redis))
    × All (λ m. m.ready ≡ is_ready_after 390 400 5 2 m.user_id one_ready.redis) s.members
    × ((v : ℕ) (q : Redis) → (get_group_ready 400 5 v q).0 ≡ alive 400 (q.ready 5 v))
get_group_presence_snapshot-set_group_ready_example =
    get_group_presence_snapshot-set_group_ready 390 400 5 2 one_ready.redis ready_redis-IsKept
