-- ===== src/Presence/Ready.antt =====
-- Readiness in Redis: the `ready_users` set of a group names every user with a value, and after a sweep
-- no other.
use ingame.Prelude.{
  ℕ, ◌≡◌, refl, Bool, true, false, not, ◌&&◌, none, some, List, [], ◌∷◌, arith, ◌==◌, is_some, ltb,
  if◌then◌else◌, Option-cases, Bool-cases, inl, inr, ◌∙◌,
}
use ingame.Sets.{mem, mem-add, mem-discard}
use ingame.Presence.Status.{
  Redis, Ready, set_group_ready, clear_group_ready, get_raw, get_group_ready, sweep_users,
  sweep_expired_ready,
}

-- Each value has its user in the set, and lives as long as it says.
pub record IsKept (r : Redis) : Type 0 where
  pub listed : (g u : ℕ) → is_some (r.ready g u) ≡ true → mem u (r.ready_users g) ≡ true
  pub lives : (g u : ℕ) (p : Ready) → r.ready g u ≡ some p → p.dropped_at ≡ p.expires_at

-- Whether a user is ready in a group at a time
abbrev pub is_ready : ℕ → ℕ → ℕ → Redis → Bool
is_ready now g u r = elim (r.ready g u) [ none ↦ false | some p ↦ ltb now p.expires_at ]

module _ (now g u : ℕ) (r : Redis) (k : IsKept r) where
  pub set_group_ready-IsKept : IsKept (set_group_ready now g u r).1
  unfolding set_group_ready
  set_group_ready-IsKept = record {
    listed = λ i v e. ground (arith, mem-add v u (r.ready_users g), k.listed i v);
    lives = λ i v p e. ground (arith, k.lives i v p);
  }

  pub clear_group_ready-IsKept : IsKept (clear_group_ready g u r)
  unfolding clear_group_ready
  clear_group_ready-IsKept = record {
    listed = λ i v e. ground (arith, mem-discard v u (r.ready_users g), k.listed i v);
    lives = λ i v p e. ground (arith, k.lives i v p);
  }

  -- A read answers with the value of a user that is ready, and forgets one that is not.
  pub get_group_ready_lem :
      get_group_ready now g u r
      ≡ (if is_ready now g u r then (r.ready g u, r) else (none, clear_group_ready g u r))
  unfolding get_group_ready clear_group_ready get_raw
  get_group_ready_lem = elim (Option-cases (r.ready g u)) [
    | inl e ↦ ground (arith, e)
    | inr (p, e) ↦ ground (arith, e, k.lives g u p e)
  ]

  pub get_group_ready-IsKept : IsKept (get_group_ready now g u r).1
  get_group_ready-IsKept = ground (arith, get_group_ready_lem, clear_group_ready-IsKept, k)

  is_ready-clear_group_ready :
      (i v : ℕ)
      → is_ready now i v (clear_group_ready g u r) ≡ (not (i == g && v == u) && is_ready now i v r)
  unfolding clear_group_ready
  is_ready-clear_group_ready i v = ground arith

  mem-clear_group_ready :
      (i v : ℕ)
      → mem v ((clear_group_ready g u r).ready_users i)
        ≡ (not (i == g && v == u) && mem v (r.ready_users i))
  unfolding clear_group_ready
  mem-clear_group_ready i v = ground (arith, mem-discard v u (r.ready_users g))

  pub is_ready-get_group_ready :
      (i v : ℕ) → is_ready now i v (get_group_ready now g u r).1 ≡ is_ready now i v r
  is_ready-get_group_ready i v = elim (Bool-cases (is_ready now g u r)) [
    | inl e ↦ ground (arith, get_group_ready_lem, e)
    | inr e ↦ ground (arith, get_group_ready_lem, e, is_ready-clear_group_ready i v)
  ]

sweep_users-IsKept :
    (now g : ℕ) (users : List ℕ) (r : Redis) → IsKept r → IsKept (sweep_users now g users r).1
unfolding sweep_users
sweep_users-IsKept now g [] r k = k
sweep_users-IsKept now g (u ∷ users) r k =
    sweep_users-IsKept now g users (get_group_ready now g u r).1
      (get_group_ready-IsKept now g u r k)

module _ (now g : ℕ) where
  is_ready-sweep_users :
      (users : List ℕ) (r : Redis)
      → IsKept r
      → (i v : ℕ) → is_ready now i v (sweep_users now g users r).1 ≡ is_ready now i v r
  unfolding sweep_users
  is_ready-sweep_users [] r k i v = refl
  is_ready-sweep_users (u ∷ users) r k i v =
      is_ready-sweep_users users (get_group_ready now g u r).1 (get_group_ready-IsKept now g u r k)
        i v
      ∙ is_ready-get_group_ready now g u r k i v

  mem-sweep_users :
      (users : List ℕ) (r : Redis)
      → IsKept r
      → (i v : ℕ)
      → mem v ((sweep_users now g users r).1.ready_users i)
        ≡ (mem v (r.ready_users i) && not (i == g && mem v users && not (is_ready now g v r)))
  unfolding sweep_users mem
  mem-sweep_users [] r k i v = ground arith
  mem-sweep_users (u ∷ users) r k i v = elim (Bool-cases (is_ready now g u r)) [
    | inl e ↦ ground (
      arith,
      get_group_ready_lem now g u r k,
      e,
      mem-sweep_users users (get_group_ready now g u r).1 (get_group_ready-IsKept now g u r k) i v,
    )
    | inr e ↦ ground (
      arith,
      get_group_ready_lem now g u r k,
      e,
      mem-sweep_users users (get_group_ready now g u r).1 (get_group_ready-IsKept now g u r k) i v,
      is_ready-clear_group_ready now g u r k g v,
      mem-clear_group_ready now g u r k i v,
    )
  ]

  expired-sweep_users :
      (users : List ℕ) (r : Redis)
      → IsKept r
      → (v : ℕ) → mem v (sweep_users now g users r).0 ≡ (mem v users && not (is_ready now g v r))
  unfolding sweep_users mem
  expired-sweep_users [] r k v = ground arith
  expired-sweep_users (u ∷ users) r k v = elim (Bool-cases (is_ready now g u r)) [
    | inl e ↦ ground (
      arith,
      get_group_ready_lem now g u r k,
      e,
      expired-sweep_users users (get_group_ready now g u r).1 (get_group_ready-IsKept now g u r k)
          v,
    )
    | inr e ↦ ground (
      arith,
      get_group_ready_lem now g u r k,
      e,
      expired-sweep_users users (get_group_ready now g u r).1 (get_group_ready-IsKept now g u r k)
          v,
      is_ready-clear_group_ready now g u r k g v,
    )
  ]

module _ (now g : ℕ) (r : Redis) (k : IsKept r) (v : ℕ) where
  ready_listed : is_ready now g v r ≡ true → mem v (r.ready_users g) ≡ true
  ready_listed e = k.listed g v (ground arith)

  -- Where every value in Redis has its user in the set of the group and lives as long as it says, a sweep of a group leaves
  -- in its set exactly the users that are ready at that time, answers with exactly those of the set that are
  -- not, and changes for nobody, in any group, whether the user is ready.
  pub sweep_expired_ready_lem :
      (mem v ((sweep_expired_ready now g r).1.ready_users g) ≡ is_ready now g v r)
      × (mem v (sweep_expired_ready now g r).0
          ≡ (mem v (r.ready_users g) && not (is_ready now g v r)))
      × ((i : ℕ) → is_ready now i v (sweep_expired_ready now g r).1 ≡ is_ready now i v r)
  unfolding sweep_expired_ready
  sweep_expired_ready_lem = (
    ground (arith, mem-sweep_users now g (r.ready_users g) r k g v, ready_listed),
    expired-sweep_users now g (r.ready_users g) r k v,
    λ i. is_ready-sweep_users now g (r.ready_users g) r k i v,
  )

pub sweep_expired_ready-IsKept :
    (now g : ℕ) (r : Redis) → IsKept r → IsKept (sweep_expired_ready now g r).1
unfolding sweep_expired_ready
sweep_expired_ready-IsKept now g r k = sweep_users-IsKept now g (r.ready_users g) r k
