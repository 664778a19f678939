-- ===== src/Presence/Snapshot.antt =====
-- What a presence snapshot shows.
use ingame.Prelude.{
  ℕ, ◌+◌, ◌<◌, ◌≡◌, refl, ap, ◌∙◌, Bool, ◌&&◌, ◌||◌, Option, Option-cases, inl, inr, none, some,
  List, [], ◌∷◌, arith, ◌==◌, ltb, if◌then◌else◌, All,
}
use ingame.Sets.{mem}
use ingame.Ws.Events.{MemberPresence}
use ingame.Presence.Status.{
  Redis, Ready, set_group_ready, clear_group_ready, get_raw, get_group_ready, sweep_users,
  sweep_expired_ready, insert_sorted, sorted_union, snapshot_members, get_group_presence_snapshot,
  get_user_connection,
}
use ingame.Presence.Ready.{
  IsKept, is_ready, set_group_ready-IsKept, get_group_ready_lem, get_group_ready-IsKept,
  is_ready-get_group_ready, sweep_expired_ready_lem, sweep_expired_ready-IsKept,
}

mem-insert_sorted : (v x : ℕ) (ys : List ℕ) → mem v (insert_sorted x ys) ≡ (v == x || mem v ys)
unfolding mem insert_sorted
mem-insert_sorted v x [] = refl
mem-insert_sorted v x (y ∷ ys) = ground (arith, mem-insert_sorted v x ys)

mem-sorted_union : (v : ℕ) (xs ys : List ℕ) → mem v (sorted_union xs ys) ≡ (mem v xs || mem v ys)
unfolding mem sorted_union
mem-sorted_union v [] [] = refl
mem-sorted_union v [] (y ∷ ys) =
    ground (arith, mem-insert_sorted v y (sorted_union [] ys), mem-sorted_union v [] ys)
mem-sorted_union v (x ∷ xs) ys =
    ground (arith, mem-insert_sorted v x (sorted_union xs ys), mem-sorted_union v xs ys)

-- Each id is less than those after it.
abbrev pub IsAbove : ℕ → List ℕ → Type 0
IsAbove x [] = Unit {0}
IsAbove x (y ∷ ys) = x < y

abbrev pub IsAscending : List ℕ → Type 0
IsAscending [] = Unit {0}
IsAscending (x ∷ xs) = IsAbove x xs × IsAscending xs

insert_sorted-IsAbove :
    (x y : ℕ) (ys : List ℕ) → x < y → IsAbove x ys → IsAbove x (insert_sorted y ys)
unfolding insert_sorted
insert_sorted-IsAbove x y [] h a = h
insert_sorted-IsAbove x y (z ∷ ys) h a = ground arith

insert_sorted-IsAscending :
    (x : ℕ) (ys : List ℕ) → IsAscending ys → IsAscending (insert_sorted x ys)
unfolding insert_sorted
insert_sorted-IsAscending x [] h = (tt, tt)
insert_sorted-IsAscending x (y ∷ ys) h =
    ground (arith, insert_sorted-IsAscending x ys, insert_sorted-IsAbove y x ys)

sorted_union-IsAscending : (xs ys : List ℕ) → IsAscending (sorted_union xs ys)
unfolding sorted_union
sorted_union-IsAscending [] [] = tt
sorted_union-IsAscending [] (y ∷ ys) =
    insert_sorted-IsAscending y (sorted_union [] ys) (sorted_union-IsAscending [] ys)
sorted_union-IsAscending (x ∷ xs) ys =
    insert_sorted-IsAscending x (sorted_union xs ys) (sorted_union-IsAscending xs ys)

unfoldable pub ids : List MemberPresence → List ℕ
ids [] = []
ids (m ∷ ms) = m.user_id ∷ ids ms

pub same-get_group_ready :
    (now g u : ℕ) (r : Redis)
    → ((get_group_ready now g u r).1.online ≡ r.online)
      × ((get_group_ready now g u r).1.connection ≡ r.connection)
unfolding get_group_ready clear_group_ready
same-get_group_ready now g u r = ground arith

-- A member of a snapshot as Redis has it
abbrev pub IsShown : ℕ → ℕ → Redis → MemberPresence → Type 0
IsShown now g r m =
    (m.ready ≡ is_ready now g m.user_id r) × (m.connection ≡ get_user_connection m.user_id r)

module _ (now g : ℕ) where
  ids-snapshot_members :
      (users : List ℕ) (r : Redis) → ids (snapshot_members now g users r).0 ≡ users
  unfolding snapshot_members ids
  ids-snapshot_members [] r = refl
  ids-snapshot_members (u ∷ users) r =
      ground (arith, ids-snapshot_members users (get_group_ready now g u r).1)

  IsShown-first :
      (u : ℕ) (r : Redis)
      → IsKept r
      → (users : List ℕ) → (ms : List MemberPresence) (m : MemberPresence)
      → (snapshot_members now g (u ∷ users) r).0 ≡ m ∷ ms
      → IsShown now g r m × (ms ≡ (snapshot_members now g users (get_group_ready now g u r).1).0)
  unfolding snapshot_members
  IsShown-first u r k users ms m e = ground (arith, get_group_ready_lem now g u r k)

  All-IsShown :
      (r r' : Redis) (ms : List MemberPresence)
      → ((v : ℕ) → is_ready now g v r' ≡ is_ready now g v r)
      → r'.connection ≡ r.connection
      → All (IsShown now g r') ms
      → All (IsShown now g r) ms
  unfolding get_user_connection
  All-IsShown r r' [] a b h = tt
  All-IsShown r r' (m ∷ ms) a b h =
      (ground (arith, h.0, a m.user_id, b), All-IsShown r r' ms a b h.1)

  snapshot_members-IsShown :
      (users : List ℕ) (r : Redis)
      → IsKept r
      → All (IsShown now g r) (snapshot_members now g users r).0
  unfolding snapshot_members
  snapshot_members-IsShown [] r k = tt
  snapshot_members-IsShown (u ∷ users) r k = (
    (IsShown-first u r k users _ _ refl).0,
    All-IsShown r (get_group_ready now g u r).1 _ (λ v. is_ready-get_group_ready now g u r k g v)
        (same-get_group_ready now g u r).1
        (snapshot_members-IsShown users (get_group_ready now g u r).1
          (get_group_ready-IsKept now g u r k)),
  )

same-sweep_users :
    (now g : ℕ) (users : List ℕ) (r : Redis)
    → ((sweep_users now g users r).1.online ≡ r.online)
      × ((sweep_users now g users r).1.connection ≡ r.connection)
unfolding sweep_users
same-sweep_users now g [] r = (refl, refl)
same-sweep_users now g (u ∷ users) r = ground (
  arith,
  same-get_group_ready now g u r,
  same-sweep_users now g users (get_group_ready now g u r).1,
)

pub same-sweep_expired_ready :
    (now g : ℕ) (r : Redis)
    → ((sweep_expired_ready now g r).1.online ≡ r.online)
      × ((sweep_expired_ready now g r).1.connection ≡ r.connection)
unfolding sweep_expired_ready
same-sweep_expired_ready now g r = same-sweep_users now g (r.ready_users g) r

module _ (now g : ℕ) (r : Redis) (k : IsKept r) where
  -- Where every value in Redis has its user in the set of the group and lives as long as it says, the snapshot of a group
  -- shows exactly the users that are online in it or ready, once each and in the order of their ids, each with
  -- its connection and with whether the user is ready at that time.
  pub get_group_presence_snapshot_lem :
      let s = (get_group_presence_snapshot now g r).0 in
      (s.group_id ≡ g)
      × IsAscending (ids s.members)
      × ((v : ℕ) → mem v (ids s.members) ≡ (mem v (r.online g) || is_ready now g v r))
      × All (IsShown now g r) s.members
  unfolding get_group_presence_snapshot
  get_group_presence_snapshot_lem =
      let r' : Redis = (sweep_expired_ready now g r).1 in
      let users : List ℕ = sorted_union (r'.online g) (r'.ready_users g) in
      let e : ids (snapshot_members now g users r').0 ≡ users =
        ids-snapshot_members now g users r' in
      (
        refl,
        rw e (sorted_union-IsAscending (r'.online g) (r'.ready_users g)),
        λ v. rw e (
            ground (
              arith,
              mem-sorted_union v (r'.online g) (r'.ready_users g),
              (sweep_expired_ready_lem now g r k v).0,
              (same-sweep_expired_ready now g r).0,
            )),
        All-IsShown now g r r' _ (λ v. (sweep_expired_ready_lem now g r k v).2 g)
            (same-sweep_expired_ready now g r).1
            (snapshot_members-IsShown now g users r' (sweep_expired_ready-IsKept now g r k)),
      )

-- Whether a user is ready once `u` has said so at `set_at`: `u` for the 28800 seconds from then on, the others as before
abbrev pub is_ready_after : ℕ → ℕ → ℕ → ℕ → ℕ → Redis → Bool
is_ready_after set_at now g u v r = if v == u then ltb now (set_at + 28800) else is_ready now g v r

is_ready-set_group_ready :
    (set_at now g u v : ℕ) (r : Redis)
    → is_ready now g v (set_group_ready set_at g u r).1 ≡ is_ready_after set_at now g u v r
unfolding set_group_ready
is_ready-set_group_ready set_at now g u v r = ground arith

-- the readiness that neither its own time nor Redis has ended
abbrev pub alive : ℕ → Option Ready → Option Ready
alive now none = none
alive now (some p) = if ltb now p.dropped_at && ltb now p.expires_at then some p else none

get_group_ready-alive :
    (now g v : ℕ) (r : Redis) → (get_group_ready now g v r).0 ≡ alive now (r.ready g v)
unfolding get_group_ready get_raw
get_group_ready-alive now g v r = elim (Option-cases (r.ready g v)) [
  | inl e ↦ ground (arith, e)
  | inr (p, e) ↦ ground (arith, e)
]

All-is_ready_after :
    (set_at now g u : ℕ) (r : Redis) (ms : List MemberPresence)
    → All (IsShown now g (set_group_ready set_at g u r).1) ms
    → All (λ m. m.ready ≡ is_ready_after set_at now g u m.user_id r) ms
All-is_ready_after set_at now g u r [] h = tt
All-is_ready_after set_at now g u r (m ∷ ms) h = (
  h.0.0 ∙ is_ready-set_group_ready set_at now g u m.user_id r,
  All-is_ready_after set_at now g u r ms h.1,
)

online-set_group_ready :
    (set_at g u : ℕ) (r : Redis) → (set_group_ready set_at g u r).1.online ≡ r.online
unfolding set_group_ready
online-set_group_ready set_at g u r = refl

-- Where every value in Redis has its user in the set of the group and lives as long as it says: once a user of a group has
-- said to be ready, a snapshot of the group has the user, and shows the user ready, for 28800 seconds
-- from then on; after that the user is not ready, and in it only if online. The others are in it,
-- and are shown ready or not, as they were before. And whatever Redis holds, a readiness is read back
-- exactly while neither its own time nor the one that Redis was given is over.
pub get_group_presence_snapshot-set_group_ready :
    (set_at now g u : ℕ) (r : Redis)
    → IsKept r
    → let s = (get_group_presence_snapshot now g (set_group_ready set_at g u r).1).0 in
      ((v : ℕ) → mem v (ids s.members) ≡ (mem v (r.online g) || is_ready_after set_at now g u v r))
      × All (λ m. m.ready ≡ is_ready_after set_at now g u m.user_id r) s.members
      × ((v : ℕ) (q : Redis) → (get_group_ready now g v q).0 ≡ alive now (q.ready g v))
get_group_presence_snapshot-set_group_ready set_at now g u r k =
    let r' : Redis = (set_group_ready set_at g u r).1 in
    let (a, b, c, d) =
      get_group_presence_snapshot_lem now g r' (set_group_ready-IsKept set_at g u r k) in
    (
      λ v. ground (
        arith,
        c v,
        is_ready-set_group_ready set_at now g u v r,
        ap (λ (f : ℕ → List ℕ). mem v (f g)) (online-set_group_ready set_at g u r),
      ),
      All-is_ready_after set_at now g u r _ d,
      get_group_ready-alive now g,
    )
