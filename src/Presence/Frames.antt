-- ===== src/Presence/Frames.antt =====
-- What the operations on the presence data leave alone.
use ingame.Prelude.{
  ℕ, String, ◌≡◌, refl, ap, Bool, true, false, Option, List, [], ◌∷◌, arith, Option-cases, inl, inr,
  ◌∙◌,
}
use ingame.Sets.{Dict, get_or_empty}
use ingame.Ws.Events.{Event, Connection}
use ingame.Presence.Status.{
  Redis, get_group_presence_snapshot, snapshot_members, sweep_expired_ready, sorted_union,
  get_group_ready, add_to_group_online, remove_from_group_online, set_group_ready,
  clear_group_ready,
}
use ingame.Presence.Hub.{Hub}
use ingame.Presence.Manager.{
  join_online, leave_online, leave_all, publish_user_online, publish_user_offline, publish_expired,
  sweep_all_groups, sweep_turn, all_groups, snapshots, send_presence_snapshot,
}
use ingame.Presence.Broadcast.{
  send_all, broadcast_to, broadcast_to_group, broadcast_event, send_to_user, exclude_of,
}
use ingame.Presence.Handlers.{publish_connection_changed, toggle_ready}
use ingame.Presence.Ready.{
  IsKept, get_group_ready-IsKept, sweep_expired_ready-IsKept, set_group_ready-IsKept,
  clear_group_ready-IsKept,
}
use ingame.Presence.Snapshot.{same-get_group_ready, same-sweep_expired_ready}

-- Only what was published, enqueued or sent may differ.
abbrev pub IsSame : Hub → Hub → Type 0
IsSame h h' =
    (h'.connections ≡ h.connections) × (h'.user_groups ≡ h.user_groups) × (h'.redis ≡ h.redis)

-- Of the presence data, only readiness may differ, which stays well kept.
abbrev pub IsCalm : Redis → Redis → Type 0
IsCalm r r' = (r'.online ≡ r.online) × (r'.connection ≡ r.connection) × (IsKept r → IsKept r')

-- Only online sets may differ.
abbrev pub IsPlain : Redis → Redis → Type 0
IsPlain r r' =
    (r'.connection ≡ r.connection) × (r'.ready ≡ r.ready) × (r'.ready_users ≡ r.ready_users)

pub IsPlain-IsKept : (r r' : Redis) → IsPlain r r' → IsKept r → IsKept r'
IsPlain-IsKept r r' (c, e, l) k = record {
  listed = λ g u. rw (e, l) (k.listed g u);
  lives = λ g u p. rw e (k.lives g u p);
}

pub join_online-IsPlain :
    (u : ℕ) (previous groups : List ℕ) (r : Redis) → IsPlain r (join_online u previous groups r)
unfolding join_online add_to_group_online
join_online-IsPlain u previous [] r = (refl, refl, refl)
join_online-IsPlain u previous (g ∷ groups) r = ground (
  arith,
  join_online-IsPlain u previous groups r,
  join_online-IsPlain u previous groups (add_to_group_online g u r),
)

pub leave_online-IsPlain :
    (u : ℕ) (next groups : List ℕ) (r : Redis) → IsPlain r (leave_online u next groups r)
unfolding leave_online remove_from_group_online
leave_online-IsPlain u next [] r = (refl, refl, refl)
leave_online-IsPlain u next (g ∷ groups) r = ground (
  arith,
  leave_online-IsPlain u next groups r,
  leave_online-IsPlain u next groups (remove_from_group_online g u r),
)

pub leave_all-IsPlain : (u : ℕ) (groups : List ℕ) (r : Redis) → IsPlain r (leave_all u groups r)
unfolding leave_all remove_from_group_online
leave_all-IsPlain u [] r = (refl, refl, refl)
leave_all-IsPlain u (g ∷ groups) r = leave_all-IsPlain u groups (remove_from_group_online g u r)

pub publish_user_online-IsSame :
    (u : ℕ) (name : String) (groups : List ℕ) (h : Hub)
    → IsSame h (publish_user_online u name groups h)
unfolding publish_user_online
publish_user_online-IsSame u name [] h = (refl, refl, refl)
publish_user_online-IsSame u name (g ∷ groups) h = publish_user_online-IsSame u name groups _

pub publish_user_offline-IsSame :
    (u : ℕ) (groups : List ℕ) (h : Hub) → IsSame h (publish_user_offline u groups h)
unfolding publish_user_offline
publish_user_offline-IsSame u [] h = (refl, refl, refl)
publish_user_offline-IsSame u (g ∷ groups) h = publish_user_offline-IsSame u groups _

publish_expired-IsSame : (g : ℕ) (users : List ℕ) (h : Hub) → IsSame h (publish_expired g users h)
unfolding publish_expired
publish_expired-IsSame g [] h = (refl, refl, refl)
publish_expired-IsSame g (u ∷ users) h = publish_expired-IsSame g users _

pub publish_connection_changed-IsSame :
    (u : ℕ) (c : Connection) (groups : List ℕ) (h : Hub)
    → IsSame h (publish_connection_changed u c groups h)
unfolding publish_connection_changed
publish_connection_changed-IsSame u c [] h = (refl, refl, refl)
publish_connection_changed-IsSame u c (g ∷ groups) h =
    publish_connection_changed-IsSame u c groups _

send_all-IsSame : (e : Event) (sockets : List ℕ) (h : Hub) → IsSame h (send_all e sockets h)
unfolding send_all
send_all-IsSame e [] h = (refl, refl, refl)
send_all-IsSame e (s ∷ sockets) h = send_all-IsSame e sockets _

broadcast_to-IsSame :
    (g : ℕ) (e : Event) (x : Option ℕ) (d : Dict (List ℕ)) (h : Hub)
    → IsSame h (broadcast_to g e x d h)
unfolding broadcast_to
broadcast_to-IsSame g e x [] h = (refl, refl, refl)
broadcast_to-IsSame g e x ((u, sockets) ∷ rest) h = ground (
  arith,
  send_all-IsSame e sockets h,
  broadcast_to-IsSame g e x rest h,
  broadcast_to-IsSame g e x rest (send_all e sockets h),
)

pub broadcast_event-IsSame : (e : Event) (h : Hub) → IsSame h (broadcast_event e h)
unfolding broadcast_event broadcast_to_group
broadcast_event-IsSame e h = elim (Option-cases e.group_id) [
  | inl n ↦ ground (arith, n)
  | inr (g, s) ↦ ground (arith, s, broadcast_to-IsSame g e (exclude_of e.body) h.connections h)
]

pub send_to_user-IsSame : (u : ℕ) (e : Event) (h : Hub) → IsSame h (send_to_user u e h)
unfolding send_to_user
send_to_user-IsSame u e h = send_all-IsSame e (get_or_empty u h.connections) h

snapshot_members-IsCalm :
    (now g : ℕ) (users : List ℕ) (r : Redis) → IsCalm r (snapshot_members now g users r).1
unfolding snapshot_members
snapshot_members-IsCalm now g [] r = (refl, refl, λ k. k)
snapshot_members-IsCalm now g (u ∷ users) r =
    let r' : Redis = (get_group_ready now g u r).1 in
    let (o, c, k) = snapshot_members-IsCalm now g users r' in
    let (o', c') = same-get_group_ready now g u r in
    (o ∙ o', c ∙ c', λ i. k (get_group_ready-IsKept now g u r i))

snapshot-IsCalm : (now g : ℕ) (r : Redis) → IsCalm r (get_group_presence_snapshot now g r).1
unfolding get_group_presence_snapshot
snapshot-IsCalm now g r =
    let r' : Redis = (sweep_expired_ready now g r).1 in
    let (o, c, k) =
      snapshot_members-IsCalm now g (sorted_union (r'.online g) (r'.ready_users g)) r' in
    let (o', c') = same-sweep_expired_ready now g r in
    (o ∙ o', c ∙ c', λ i. k (sweep_expired_ready-IsKept now g r i))

snapshots-IsCalm : (now : ℕ) (groups : List ℕ) (r : Redis) → IsCalm r (snapshots now groups r).1
unfolding snapshots
snapshots-IsCalm now [] r = (refl, refl, λ k. k)
snapshots-IsCalm now (g ∷ groups) r =
    let (o, c, k) = snapshots-IsCalm now groups (get_group_presence_snapshot now g r).1 in
    let (o', c', k') = snapshot-IsCalm now g r in (o ∙ o', c ∙ c', λ i. k (k' i))

-- The sockets and their groups stay, and of the presence data only readiness may differ.
abbrev pub IsQuiet : Hub → Hub → Type 0
IsQuiet h h' =
    (h'.connections ≡ h.connections) × (h'.user_groups ≡ h.user_groups) × IsCalm h.redis h'.redis

pub IsSame-IsQuiet : (h h' : Hub) → IsSame h h' → IsQuiet h h'
IsSame-IsQuiet h h' (c, g, r) =
    (c, g, (ap (λ x. x.online) r, ap (λ x. x.connection) r, λ k. rw r k))

pub IsQuiet-then : (h h' h'' : Hub) → IsQuiet h h' → IsQuiet h' h'' → IsQuiet h h''
IsQuiet-then h h' h'' (c, g, (o, n, k)) (c', g', (o', n', k')) =
    (c' ∙ c, g' ∙ g, (o' ∙ o, n' ∙ n, λ i. k' (k i)))

pub send_presence_snapshot-IsQuiet :
    (now : ℕ) (groups : List ℕ) (socket : ℕ) (h : Hub)
    → IsQuiet h (send_presence_snapshot now groups socket h)
unfolding send_presence_snapshot
send_presence_snapshot-IsQuiet now groups socket h =
    (refl, refl, snapshots-IsCalm now groups h.redis)

abbrev swept : ℕ → ℕ → Hub → Hub
swept now g h = record h { redis = (sweep_expired_ready now g h.redis).1 }

abbrev swept_group : ℕ → ℕ → Hub → Hub
swept_group now g h = publish_expired g (sweep_expired_ready now g h.redis).0 (swept now g h)

sweep_group-IsQuiet : (now g : ℕ) (h : Hub) → IsQuiet h (swept_group now g h)
sweep_group-IsQuiet now g h =
    let (o, c) = same-sweep_expired_ready now g h.redis in
    IsQuiet-then h (swept now g h) (swept_group now g h)
      (refl, refl, (o, c, sweep_expired_ready-IsKept now g h.redis))
      (IsSame-IsQuiet (swept now g h) (swept_group now g h)
        (publish_expired-IsSame g (sweep_expired_ready now g h.redis).0 (swept now g h)))

pub sweep_all_groups-IsQuiet :
    (now : ℕ) (groups : List ℕ) (h : Hub) → IsQuiet h (sweep_all_groups now groups h)
unfolding sweep_all_groups
sweep_all_groups-IsQuiet now [] h = (refl, refl, (refl, refl, λ k. k))
sweep_all_groups-IsQuiet now (g ∷ groups) h =
    IsQuiet-then h (swept_group now g h) (sweep_all_groups now groups (swept_group now g h))
      (sweep_group-IsQuiet now g h) (sweep_all_groups-IsQuiet now groups (swept_group now g h))

pub sweep_turn-IsQuiet : (now : ℕ) (h : Hub) → IsQuiet h (sweep_turn now h)
unfolding sweep_turn
sweep_turn-IsQuiet now h = sweep_all_groups-IsQuiet now (all_groups h.user_groups) h

pub toggle_ready-IsQuiet :
    (now u g : ℕ) (ready : Bool) (h : Hub) → IsQuiet h (toggle_ready now u g ready h)
unfolding toggle_ready set_group_ready clear_group_ready
toggle_ready-IsQuiet now u g true h =
    (refl, refl, (refl, refl, set_group_ready-IsKept now g u h.redis))
toggle_ready-IsQuiet now u g false h =
    (refl, refl, (refl, refl, clear_group_ready-IsKept now g u h.redis))
