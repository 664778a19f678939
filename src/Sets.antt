-- ===== src/Sets.antt =====
-- Sets and dictionaries of ids, as the Python code and Redis keep them.
use ingame.Prelude.{
  ℕ, ◌≡◌, refl, Bool, false, not, ◌&&◌, ◌||◌, Option, none, some, List, [], ◌∷◌, arith, ◌==◌,
  if◌then◌else◌,
}

-- `x in xs`
unfoldable pub mem : ℕ → List ℕ → Bool
mem x [] = false
mem x (y ∷ ys) = x == y || mem x ys

-- `xs.add(x)`
unfoldable pub add : ℕ → List ℕ → List ℕ
add x [] = x ∷ []
add x (y ∷ ys) = if x == y then y ∷ ys else y ∷ add x ys

-- `xs.discard(x)`
unfoldable pub discard : ℕ → List ℕ → List ℕ
discard x [] = []
discard x (y ∷ ys) = if x == y then discard x ys else y ∷ discard x ys

pub mem-add : (v x : ℕ) (xs : List ℕ) → mem v (add x xs) ≡ (v == x || mem v xs)
unfolding mem add
mem-add v x [] = refl
mem-add v x (y ∷ ys) = ground (arith, mem-add v x ys)

pub mem-discard : (v x : ℕ) (xs : List ℕ) → mem v (discard x xs) ≡ (not (v == x) && mem v xs)
unfolding mem discard
mem-discard v x [] = ground arith
mem-discard v x (y ∷ ys) = ground (arith, mem-discard v x ys)

-- `list(dict.fromkeys(xs))`: each once, at its first place
unfoldable pub from_keys : List ℕ → List ℕ
unfolding discard
from_keys [] = []
from_keys (x ∷ xs) = x ∷ discard x (from_keys xs)

pub mem-from_keys : (v : ℕ) (xs : List ℕ) → mem v (from_keys xs) ≡ mem v xs
unfolding mem from_keys
mem-from_keys v [] = refl
mem-from_keys v (x ∷ xs) = ground (arith, mem-discard v x (from_keys xs), mem-from_keys v xs)

-- `dict`, in the order of the first insertion of its keys
abbrev pub Dict : Type 0 → Type 0
Dict V = List (ℕ × V)

module _ {V : Type 0} where
  -- `d.get(k)`
  unfoldable pub get : ℕ → Dict V → Option V
  get k [] = none
  get k ((j, v) ∷ d) = if k == j then some v else get k d

  -- `d[k] = v`
  unfoldable pub set : ℕ → V → Dict V → Dict V
  set k v [] = (k, v) ∷ []
  set k v ((j, u) ∷ d) = if k == j then (j, v) ∷ d else (j, u) ∷ set k v d

  -- `d.pop(k, None)`
  unfoldable pub pop : ℕ → Dict V → Dict V
  pop k [] = []
  pop k ((j, u) ∷ d) = if k == j then pop k d else (j, u) ∷ pop k d

  pub get-set :
      (i k : ℕ) (v : V) (d : Dict V) → get i (set k v d) ≡ (if i == k then some v else get i d)
  unfolding get set
  get-set i k v [] = refl
  get-set i k v ((j, u) ∷ d) = ground (arith, get-set i k v d)

  pub get-pop : (i k : ℕ) (d : Dict V) → get i (pop k d) ≡ (if i == k then none else get i d)
  unfolding get pop
  get-pop i k [] = ground arith
  get-pop i k ((j, u) ∷ d) = ground (arith, get-pop i k d)

-- `d.get(k, [])`
unfoldable pub get_or_empty : ℕ → Dict (List ℕ) → List ℕ
unfolding get
get_or_empty k d = elim (get k d) [ none ↦ [] | some xs ↦ xs ]
