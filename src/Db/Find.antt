-- ===== src/Db/Find.antt =====
-- The first row that meets a condition, which is the answer of `scalar_one_or_none` wherever a
-- unique constraint holds.
use ingame.Prelude.{
  ◌≤◌, ◌≡◌, refl, Bool, true, false, Option, none, some, List, [], ◌∷◌, ◌++◌, arith, if◌then◌else◌,
}
use ingame.Errors.{ok}
use ingame.Db.Table.{count, select, scalar_one_or_none, one_or_none, update_rows, delete_rows}

module _ {R : Type 0} where
  unfoldable pub find_row : (R → Bool) → List R → Option R
  find_row p [] = none
  find_row p (r ∷ rows) = if p r then some r else find_row p rows

  find-none :
      (p : R → Bool) (rows : List R)
      → count p rows ≡ 0
      → (select p rows ≡ []) × (find_row p rows ≡ none)
  unfolding count select find_row
  find-none p [] h = (refl, refl)
  find-none p (r ∷ rows) h = ground (arith, find-none p rows)

  pub one_or_none-eq-find :
      (p : R → Bool) (rows : List R) → count p rows ≤ 1 → one_or_none p rows ≡ ok (find_row p rows)
  unfolding one_or_none scalar_one_or_none select find_row count
  one_or_none-eq-find p [] h = refl
  one_or_none-eq-find p (r ∷ rows) h = ground (arith, one_or_none-eq-find p rows, find-none p rows)

  pub find-meets : (p : R → Bool) (rows : List R) {r : R} → find_row p rows ≡ some r → p r ≡ true
  unfolding find_row
  find-meets p [] e = cc
  find-meets p (s ∷ rows) {r} e = ground (arith, find-meets p rows {r = r})

  pub find-update_same :
      (p : R → Bool) (f : R → R) (rows : List R) {r : R}
      → ((s : R) → p (f s) ≡ p s)
      → find_row p rows ≡ some r
      → find_row p (update_rows p f rows) ≡ some (f r)
  unfolding find_row update_rows
  find-update_same p f [] h e = cc
  find-update_same p f (s ∷ rows) {r} h e = ground (arith, h s, find-update_same p f rows {r = r} h)

  pub find-update_none :
      (p q : R → Bool) (f : R → R) (rows : List R)
      → ((s : R) → p (f s) ≡ p s)
      → find_row p rows ≡ none
      → find_row p (update_rows q f rows) ≡ none
  unfolding find_row update_rows
  find-update_none p q f [] h e = refl
  find-update_none p q f (s ∷ rows) h e = ground (arith, h s, find-update_none p q f rows h)

  pub find-update_other :
      (p q : R → Bool) (f : R → R) (rows : List R)
      → ((s : R) → q s ≡ true → p s ≡ false)
      → ((s : R) → q s ≡ true → p (f s) ≡ false)
      → find_row p (update_rows q f rows) ≡ find_row p rows
  unfolding find_row update_rows
  find-update_other p q f [] h k = refl
  find-update_other p q f (s ∷ rows) h k =
      ground (arith, h s, k s, find-update_other p q f rows h k)

  pub find-delete_same : (p : R → Bool) (rows : List R) → find_row p (delete_rows p rows) ≡ none
  unfolding find_row delete_rows
  find-delete_same p [] = refl
  find-delete_same p (s ∷ rows) = ground (arith, find-delete_same p rows)

  pub find-delete_other :
      (p q : R → Bool) (rows : List R)
      → ((s : R) → q s ≡ true → p s ≡ false)
      → find_row p (delete_rows q rows) ≡ find_row p rows
  unfolding find_row delete_rows
  find-delete_other p q [] h = refl
  find-delete_other p q (s ∷ rows) h = ground (arith, h s, find-delete_other p q rows h)

  pub find-append_new :
      (p : R → Bool) (rows : List R) (r : R)
      → find_row p rows ≡ none
      → find_row p (rows ++ r ∷ []) ≡ (if p r then some r else none)
  unfolding find_row
  find-append_new p [] r e = refl
  find-append_new p (s ∷ rows) r e = ground (arith, find-append_new p rows r)

  pub find-append_other :
      (p : R → Bool) (rows : List R) (r : R)
      → p r ≡ false
      → find_row p (rows ++ r ∷ []) ≡ find_row p rows
  unfolding find_row
  find-append_other p [] r e = ground arith
  find-append_other p (s ∷ rows) r e = ground (arith, find-append_other p rows r e)

  find-delete_none :
      (p q : R → Bool) (rows : List R)
      → find_row p rows ≡ none
      → find_row p (delete_rows q rows) ≡ none
  unfolding find_row delete_rows
  find-delete_none p q [] h = refl
  find-delete_none p q (s ∷ rows) h = ground (arith, find-delete_none p q rows)

  pub find-delete_unique :
      (p q : R → Bool) (rows : List R) {r : R}
      → count p rows ≤ 1
      → find_row p rows ≡ some r
      → find_row p (delete_rows q rows) ≡ (if q r then none else some r)
  unfolding find_row delete_rows count
  find-delete_unique p q [] h e = cc
  find-delete_unique p q (s ∷ rows) {r} h e =
      ground
        (arith, find-delete_unique p q rows {r = r}, find-none p rows, find-delete_none p q rows)

  pub find-append_kept :
      (p : R → Bool) (rows : List R) (s : R) {r : R}
      → find_row p rows ≡ some r
      → find_row p (rows ++ s ∷ []) ≡ some r
  unfolding find_row
  find-append_kept p [] s e = cc
  find-append_kept p (t ∷ rows) s {r} e = ground (arith, find-append_kept p rows s {r = r})
