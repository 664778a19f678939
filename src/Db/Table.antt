-- ===== src/Db/Table.antt =====
-- A database table as the list of its rows. The queries and statements that the repositories write
-- (backend/app/db/repositories) are the functions below over a Boolean condition on a row.
use ingame.Prelude.{
  ℕ, zero, suc, ◌+◌, ◌≤◌, ◌≡◌, refl, sym, ap, ◌∙◌, Bool, true, false, ◌&&◌, Option, none, some,
  List, [], ◌∷◌, ◌++◌, arith, if◌then◌else◌, length,
}
use ingame.Errors.{Result, ok, err, multiple_results_found, integrity_error}

module _ {R : Type 0} where
  -- `select(R).where(p)`
  unfoldable pub select : (R → Bool) → List R → List R
  select p [] = []
  select p (r ∷ rows) = if p r then r ∷ select p rows else select p rows

  -- `select(func.count()).where(p)`
  unfoldable pub count : (R → Bool) → List R → ℕ
  count p [] = 0
  count p (r ∷ rows) = if p r then suc (count p rows) else count p rows

  -- `result.scalar_one_or_none()`
  unfoldable pub scalar_one_or_none : List R → Result (Option R)
  scalar_one_or_none [] = ok none
  scalar_one_or_none (r ∷ []) = ok (some r)
  scalar_one_or_none (r ∷ s ∷ rows) = err multiple_results_found

  unfoldable pub one_or_none : (R → Bool) → List R → Result (Option R)
  unfolding scalar_one_or_none select
  one_or_none p rows = scalar_one_or_none (select p rows)

  -- assignments to the attributes of the rows that meet the condition
  unfoldable pub update_rows : (R → Bool) → (R → R) → List R → List R
  update_rows p f [] = []
  update_rows p f (r ∷ rows) = (if p r then f r else r) ∷ update_rows p f rows

  unfoldable pub delete_rows : (R → Bool) → List R → List R
  delete_rows p [] = []
  delete_rows p (r ∷ rows) = if p r then delete_rows p rows else r ∷ delete_rows p rows

  -- `session.add(row)` and the flush, under unique constraints: `clash` is the condition on an
  -- older row that would break one.
  unfoldable pub insert_row : (R → Bool) → R → List R → Result (List R)
  unfolding count
  insert_row clash r rows = elim (count clash rows) [
    | zero ↦ ok (rows ++ r ∷ [])
    | suc _ ↦ err integrity_error
  ]

  pub count-append : (p : R → Bool) (xs ys : List R) → count p (xs ++ ys) ≡ count p xs + count p ys
  unfolding count
  count-append p [] ys = omega arith
  count-append p (r ∷ xs) ys = ground (arith, count-append p xs ys)

  pub count-insert :
      (p : R → Bool) (r : R) (rows : List R)
      → count p (rows ++ r ∷ []) ≡ count p rows + (if p r then 1 else 0)
  unfolding count
  count-insert p r [] = ground arith
  count-insert p r (s ∷ rows) = ground (arith, count-insert p r rows)

  pub count-delete_rows :
      (p q : R → Bool) (rows : List R)
      → count p (delete_rows q rows) + count (λ r. q r && p r) rows ≡ count p rows
  unfolding count delete_rows
  count-delete_rows p q [] = omega arith
  count-delete_rows p q (r ∷ rows) = ground (arith, count-delete_rows p q rows)

  pub count-update_rows :
      (p q : R → Bool) (f : R → R) (rows : List R)
      → count p (update_rows q f rows) + count (λ r. q r && p r) rows
        ≡ count p rows + count (λ r. q r && p (f r)) rows
  unfolding count update_rows
  count-update_rows p q f [] = omega arith
  count-update_rows p q f (r ∷ rows) = ground (arith, count-update_rows p q f rows)

  -- A condition that a change of the matching rows cannot touch counts as before.
  pub count-update_rows_same :
      (p q : R → Bool) (f : R → R) (rows : List R)
      → ((r : R) → q r ≡ true → p (f r) ≡ p r)
      → count p (update_rows q f rows) ≡ count p rows
  unfolding count update_rows
  count-update_rows_same p q f [] h = refl
  count-update_rows_same p q f (r ∷ rows) h =
      ground (arith, h r, count-update_rows_same p q f rows h)

  pub count-none : (p : R → Bool) (rows : List R) → ((r : R) → p r ≡ false) → count p rows ≡ 0
  unfolding count
  count-none p [] h = refl
  count-none p (r ∷ rows) h = ground (arith, h r, count-none p rows h)

  pub count-le : (p q : R → Bool) (rows : List R) → count (λ r. q r && p r) rows ≤ count q rows
  unfolding count
  count-le p q [] = omega arith
  count-le p q (r ∷ rows) = ground (arith, count-le p q rows)

  pub count-implied :
      (p q : R → Bool) (rows : List R)
      → ((r : R) → p r ≡ true → q r ≡ true)
      → count p rows ≤ count q rows
  unfolding count
  count-implied p q [] h = omega arith
  count-implied p q (r ∷ rows) h = ground (arith, h r, count-implied p q rows h)

  pub count_congr :
      (p q : R → Bool) (rows : List R) → ((r : R) → p r ≡ q r) → count p rows ≡ count q rows
  unfolding count
  count_congr p q [] h = refl
  count_congr p q (r ∷ rows) h = ground (arith, h r, count_congr p q rows h)

  length-select : (p : R → Bool) (rows : List R) → length (select p rows) ≡ count p rows
  unfolding select count
  length-select p [] = refl
  length-select p (r ∷ rows) = ground (arith, length-select p rows)

  pub count-select :
      (p q : R → Bool) (rows : List R) → count q (select p rows) ≡ count (λ r. p r && q r) rows
  unfolding select count
  count-select p q [] = refl
  count-select p q (r ∷ rows) = ground (arith, count-select p q rows)

  select-eq : (rows : List R) (r : R) → scalar_one_or_none rows ≡ ok (some r) → rows ≡ r ∷ []
  unfolding scalar_one_or_none
  select-eq [] r e = cc
  select-eq (s ∷ []) r e = cc
  select-eq (s ∷ t ∷ rows) r e = cc

  -- The one row that a query finds stands for all rows that meet the condition.
  pub one_or_none-count :
      (p q : R → Bool) (rows : List R) {r : R}
      → one_or_none p rows ≡ ok (some r)
      → count (λ s. p s && q s) rows ≡ (if q r then 1 else 0)
  unfolding one_or_none
  one_or_none-count p q rows {r} e =
      sym (count-select p q rows)
      ∙ ap (count q) (select-eq (select p rows) r e)
      ∙ (unfold count in refl)

  pub one_or_none-one :
      (p : R → Bool) (rows : List R) {r : R} → one_or_none p rows ≡ ok (some r) → count p rows ≡ 1
  unfolding one_or_none
  one_or_none-one p rows {r} e =
      sym (length-select p rows) ∙ ap length (select-eq (select p rows) r e)

  pub one_or_none-meets :
      (p : R → Bool) (rows : List R) {r : R} → one_or_none p rows ≡ ok (some r) → p r ≡ true
  one_or_none-meets p rows {r} e = ground (
    arith,
    one_or_none-one p rows e,
    one_or_none-count p p rows e,
    count_congr (λ s. p s && p s) p rows (λ s. ground arith),
  )

  pub one_or_none-none :
      (p : R → Bool) (rows : List R) → one_or_none p rows ≡ ok none → count p rows ≡ 0
  unfolding one_or_none scalar_one_or_none
  one_or_none-none p rows e = ground (arith, length-select p rows)

  -- Under a unique constraint the query never meets two rows.
  pub one_or_none_total :
      (p : R → Bool) (rows : List R)
      → count p rows ≤ 1
      → (o : Option R) × (one_or_none p rows ≡ ok o)
  unfolding one_or_none
  one_or_none_total p rows h = go (select p rows) (rw length-select h)
    where
      go : (found : List R) → length found ≤ 1 → (o : Option R) × (scalar_one_or_none found ≡ ok o)
      go [] h = (none, refl)
      go (r ∷ []) h = (some r, refl)
      go (r ∷ s ∷ rest) h = absurd (omega arith)

  -- What a successful flush of a new row shows.
  pub insert_row-eq-ok :
      (clash : R → Bool) (r : R) (rows : List R) {rows' : List R}
      → insert_row clash r rows ≡ ok rows'
      → (count clash rows ≡ 0) × (rows' ≡ rows ++ r ∷ [])
  unfolding insert_row
  insert_row-eq-ok clash r rows e = ground arith
