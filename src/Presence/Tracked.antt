-- ===== src/Presence/Tracked.antt =====
-- The online sets of the groups follow the sockets that are connected.
use ingame.Prelude.{
  ℕ, ◌≡◌, refl, Bool, true, false, not, ◌&&◌, ◌||◌, Option, some, List, [], ◌∷◌, arith, ◌==◌,
  is_some, if◌then◌else◌, Option-cases, inl, inr,
}
use ingame.Sets.{
  Dict, mem, add, discard, get, set, pop, get_or_empty, from_keys, get-set, get-pop, mem-add,
  mem-discard,
}
use ingame.Presence.Status.{Redis, add_to_group_online, remove_from_group_online}
use ingame.Presence.Hub.{Hub}
use ingame.Presence.Manager.{
  with_socket, drop_user, keep_user, join_online, leave_online, leave_all, connect, disconnect,
}

online-join_online :
    (u : ℕ) (previous groups : List ℕ) (r : Redis) (h v : ℕ)
    → mem v ((join_online u previous groups r).online h)
      ≡ (v == u && mem h groups && not (mem h previous) || mem v (r.online h))
unfolding join_online add_to_group_online mem
online-join_online u previous [] r h v = ground arith
online-join_online u previous (g ∷ groups) r h v = ground (
  arith,
  mem-add v u (r.online g),
  online-join_online u previous groups r h v,
  online-join_online u previous groups (add_to_group_online g u r) h v,
)

online-leave_online :
    (u : ℕ) (next groups : List ℕ) (r : Redis) (h v : ℕ)
    → mem v ((leave_online u next groups r).online h)
      ≡ (not (v == u && mem h groups && not (mem h next)) && mem v (r.online h))
unfolding leave_online remove_from_group_online mem
online-leave_online u next [] r h v = ground arith
online-leave_online u next (g ∷ groups) r h v = ground (
  arith,
  mem-discard v u (r.online g),
  online-leave_online u next groups r h v,
  online-leave_online u next groups (remove_from_group_online g u r) h v,
)

online-leave_all :
    (u : ℕ) (groups : List ℕ) (r : Redis) (h v : ℕ)
    → mem v ((leave_all u groups r).online h) ≡ (not (v == u && mem h groups) && mem v (r.online h))
unfolding leave_all remove_from_group_online mem
online-leave_all u [] r h v = ground arith
online-leave_all u (g ∷ groups) r h v = ground (
  arith,
  mem-discard v u (r.online g),
  online-leave_all u groups (remove_from_group_online g u r) h v,
)

get_or_empty-set :
    (i k : ℕ) (v : List ℕ) (d : Dict (List ℕ))
    → get_or_empty i (set k v d) ≡ (if i == k then v else get_or_empty i d)
unfolding get_or_empty
get_or_empty-set i k v d = ground (arith, get-set i k v d)

get_or_empty-pop :
    (i k : ℕ) (d : Dict (List ℕ))
    → get_or_empty i (pop k d) ≡ (if i == k then [] else get_or_empty i d)
unfolding get_or_empty
get_or_empty-pop i k d = ground (arith, get-pop i k d)

abbrev pub has_none : Option (List ℕ) → Bool
has_none (some []) = true
has_none _ = false

-- A user is in a group's online set exactly when the group is one of those of the user's latest connection; a user has
-- groups exactly while the user has sockets, and no user is kept with none.
pub record IsTracked (h : Hub) : Type 0 where
  pub online : (g u : ℕ) → mem u (h.redis.online g) ≡ mem g (get_or_empty u h.user_groups)
  pub users : (u : ℕ) → is_some (get u h.user_groups) ≡ is_some (get u h.connections)
  pub sockets : (u : ℕ) → has_none (get u h.connections) ≡ false

add-cons : (x : ℕ) (xs : List ℕ) → has_none (some (add x xs)) ≡ false
unfolding add
add-cons x [] = refl
add-cons x (y ∷ ys) = ground arith

module _ (u socket : ℕ) (h : Hub) (t : IsTracked h) where
  pub connect-IsTracked : (group_ids : List ℕ) → IsTracked (connect socket u group_ids h).1
  unfolding connect
  connect-IsTracked group_ids =
      let prev : List ℕ = get_or_empty u h.user_groups in
      let next : List ℕ = from_keys group_ids in
      record {
        online = λ g v. ground (
          arith,
          t.online g v,
          t.online g u,
          get_or_empty-set v u next h.user_groups,
          online-leave_online u next prev (join_online u prev next h.redis) g v,
          online-join_online u prev next h.redis g v,
        );
        users = λ v. ground (
          arith,
          t.users v,
          get-set v u next h.user_groups,
          get-set v u (with_socket socket (get u h.connections)) h.connections,
        );
        sockets = λ v. ground (
          arith,
          t.sockets v,
          get-set v u (with_socket socket (get u h.connections)) h.connections,
          add-cons socket (get_or_empty u h.connections),
        );
      }

  dropped-IsTracked : IsTracked (drop_user u h).1
  unfolding mem
  dropped-IsTracked = record {
    online = λ g v. ground (
      arith,
      t.online g v,
      t.online g u,
      get_or_empty-pop v u h.user_groups,
      online-leave_all u (get_or_empty u h.user_groups) h.redis g v,
    );
    users = λ v. ground (arith, t.users v, get-pop v u h.user_groups, get-pop v u h.connections);
    sockets = λ v. ground (arith, t.sockets v, get-pop v u h.connections);
  }

  kept-IsTracked :
      (s : ℕ) (rest : List ℕ)
      → is_some (get u h.connections) ≡ true
      → IsTracked (record h { connections = set u (s ∷ rest) h.connections })
  kept-IsTracked s rest e = record {
    online = λ g v. t.online g v;
    users = λ v. ground (arith, t.users v, get-set v u (s ∷ rest) h.connections);
    sockets = λ v. ground (arith, t.sockets v, get-set v u (s ∷ rest) h.connections);
  }

  keep_user-IsTracked :
      (rest : List ℕ) → is_some (get u h.connections) ≡ true → IsTracked (keep_user u rest h).1
  keep_user-IsTracked [] e = dropped-IsTracked
  keep_user-IsTracked (s ∷ rest) e = kept-IsTracked s rest e

  pub disconnect-IsTracked : IsTracked (disconnect u socket h).1
  unfolding disconnect
  disconnect-IsTracked = elim (Option-cases (get u h.connections)) [
    | inl e ↦ let q : (disconnect u socket h).1 ≡ h = ground (arith, e) in rw q t
    | inr (sockets, e) ↦
        let q : disconnect u socket h ≡ keep_user u (discard socket sockets) h =
          ground (arith, e) in
        rw q (keep_user-IsTracked (discard socket sockets) (ground (arith, e)))
  ]

-- What an action leaves alone keeps the invariant.
pub same-IsTracked :
    (h h' : Hub)
    → h'.connections ≡ h.connections
    → h'.user_groups ≡ h.user_groups
    → ((g : ℕ) → h'.redis.online g ≡ h.redis.online g)
    → IsTracked h
    → IsTracked h'
same-IsTracked h h' c g o t = record {
  online = λ i u. rw (g, o i) (t.online i u);
  users = λ u. rw (c, g) (t.users u);
  sockets = λ u. rw c (t.sockets u);
}
