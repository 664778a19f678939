-- ===== src/Presence/Status.antt =====
-- The presence data in Redis (backend/app/redis/status_store.py). Time is in seconds, and Redis drops a key with
-- a time to live once it is over; one reading `now` of the clock serves an operation.
use ingame.Prelude.{
  ℕ, ◌+◌, ◌*◌, true, false, Option, none, some, List, [], ◌∷◌, is_some, leb, ltb, ◌==◌,
  if◌then◌else◌,
}
use ingame.Sets.{add, discard}
use ingame.Ws.Events.{Connection, MemberPresence, GroupPresenceSnapshot}

-- The hash `user:{user_id}:connection`
pub record UserConnection : Type 0 where
  pub state : Connection
  pub since : ℕ

-- The value of `group:{group_id}:ready:{user_id}`, and when the key's time to live is over
pub record Ready : Type 0 where
  pub since : ℕ
  pub expires_at : ℕ
  pub dropped_at : ℕ

-- The keys by their ids: a user's connection, a group's `online` and `ready_users` sets, and the
-- `ready` value of a user in a group.
pub record Redis : Type 0 where
  pub connection : ℕ → Option UserConnection
  pub online : ℕ → List ℕ
  pub ready_users : ℕ → List ℕ
  pub ready : ℕ → ℕ → Option Ready

abbrev pub empty_redis : Redis
empty_redis = record {
  connection = λ u. none;
  online = λ g. [];
  ready_users = λ g. [];
  ready = λ g u. none;
}

abbrev pub ready_ttl_seconds : ℕ
ready_ttl_seconds = 8 * 60 * 60

-- `if state not in {CONNECTION_ONLINE, CONNECTION_AWAY}: state = CONNECTION_ONLINE`
abbrev known_state : Connection → Connection
known_state Connection.online = Connection.online
known_state Connection.away = Connection.away
known_state Connection.offline = Connection.online

unfoldable pub set_user_connection : ℕ → ℕ → Connection → Redis → Redis
set_user_connection now user_id state r = record r {
  connection = λ u.
      if u == user_id
      then some (record { state = known_state state; since = now })
      else r.connection u;
}

unfoldable pub get_user_connection : ℕ → Redis → Connection
get_user_connection user_id r = elim (r.connection user_id) [
  | none ↦ Connection.offline
  | some c ↦ c.state
]

unfoldable pub clear_user_connection : ℕ → Redis → Redis
clear_user_connection user_id r = record r {
  connection = λ u. if u == user_id then none else r.connection u;
}

abbrev pub set_ready_users : ℕ → List ℕ → Redis → Redis
set_ready_users g users r = record r {
  ready_users = λ h. if h == g then users else r.ready_users h;
}

abbrev pub set_ready : ℕ → ℕ → Option Ready → Redis → Redis
set_ready g u value r = record r {
  ready = λ h v. if h == g then (if v == u then value else r.ready h v) else r.ready h v;
}

unfoldable pub set_group_ready : ℕ → ℕ → ℕ → Redis → Ready × Redis
unfolding add
set_group_ready now g user_id r =
    let payload : Ready = record {
      since = now;
      expires_at = now + ready_ttl_seconds;
      dropped_at = now + ready_ttl_seconds;
    } in
    (
      payload,
      set_ready g user_id (some payload) (set_ready_users g (add user_id (r.ready_users g)) r),
    )

unfoldable pub clear_group_ready : ℕ → ℕ → Redis → Redis
unfolding discard
clear_group_ready g user_id r =
    set_ready g user_id none (set_ready_users g (discard user_id (r.ready_users g)) r)

-- `redis.get` of the `ready` key
unfoldable pub get_raw : ℕ → ℕ → ℕ → Redis → Option Ready
get_raw now g user_id r = elim (r.ready g user_id) [
  | none ↦ none
  | some p ↦ if leb p.dropped_at now then none else some p
]

-- A key whose time is over is gone from Redis, so that the first case leaves no value either.
unfoldable pub get_group_ready : ℕ → ℕ → ℕ → Redis → Option Ready × Redis
unfolding discard clear_group_ready get_raw
get_group_ready now g user_id r = elim (get_raw now g user_id r) [
  | none ↦
      (none, set_ready g user_id none (set_ready_users g (discard user_id (r.ready_users g)) r))
  | some p ↦ if leb p.expires_at now then (none, clear_group_ready g user_id r) else (some p, r)
]

-- `for user_id in user_ids`: those that are no longer ready
unfoldable pub sweep_users : ℕ → ℕ → List ℕ → Redis → List ℕ × Redis
unfolding get_group_ready
sweep_users now g [] r = ([], r)
sweep_users now g (u ∷ users) r =
    let (found, r') = get_group_ready now g u r in
    let (expired, r'') = sweep_users now g users r' in
    (if is_some found then expired else u ∷ expired, r'')

unfoldable pub sweep_expired_ready : ℕ → ℕ → Redis → List ℕ × Redis
unfolding sweep_users
sweep_expired_ready now g r = sweep_users now g (r.ready_users g) r

-- `sorted(xs | ys)`: ids are ordered as their texts are
unfoldable pub insert_sorted : ℕ → List ℕ → List ℕ
insert_sorted x [] = x ∷ []
insert_sorted x (y ∷ ys) =
    if x == y then y ∷ ys else if ltb x y then x ∷ y ∷ ys else y ∷ insert_sorted x ys

unfoldable pub sorted_union : List ℕ → List ℕ → List ℕ
unfolding insert_sorted
sorted_union [] [] = []
sorted_union [] (y ∷ ys) = insert_sorted y (sorted_union [] ys)
sorted_union (x ∷ xs) ys = insert_sorted x (sorted_union xs ys)

abbrev member_presence : ℕ → Connection → Option Ready → MemberPresence
member_presence u connection none = record {
  user_id = u;
  connection = connection;
  ready = false;
  ready_since = none;
  ready_expires_at = none;
}
member_presence u connection (some p) = record {
  user_id = u;
  connection = connection;
  ready = true;
  ready_since = some p.since;
  ready_expires_at = some p.expires_at;
}

-- `for user_id in user_ids`
unfoldable pub snapshot_members : ℕ → ℕ → List ℕ → Redis → List MemberPresence × Redis
unfolding get_user_connection get_group_ready
snapshot_members now g [] r = ([], r)
snapshot_members now g (u ∷ users) r =
    let (ready_data, r') = get_group_ready now g u r in
    let (members, r'') = snapshot_members now g users r' in
    (member_presence u (get_user_connection u r) ready_data ∷ members, r'')

unfoldable pub get_group_presence_snapshot : ℕ → ℕ → Redis → GroupPresenceSnapshot × Redis
unfolding sweep_expired_ready sorted_union snapshot_members
get_group_presence_snapshot now g r =
    let r' : Redis = (sweep_expired_ready now g r).1 in
    let (members, r'') =
      snapshot_members now g (sorted_union (r'.online g) (r'.ready_users g)) r' in
    (record { group_id = g; members = members }, r'')

abbrev pub set_online : ℕ → List ℕ → Redis → Redis
set_online g users r = record r { online = λ h. if h == g then users else r.online h }

unfoldable pub add_to_group_online : ℕ → ℕ → Redis → Redis
unfolding add
add_to_group_online g user_id r = set_online g (add user_id (r.online g)) r

unfoldable pub remove_from_group_online : ℕ → ℕ → Redis → Redis
unfolding discard
remove_from_group_online g user_id r = set_online g (discard user_id (r.online g)) r
