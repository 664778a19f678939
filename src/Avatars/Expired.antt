-- ===== src/Avatars/Expired.antt =====
-- What a run of the janitor leaves (backend/app/jobs/avatar_upload_janitor.py).
use ingame.Prelude.{
  ℕ, suc, ◌+◌, ◌≤◌, ◌≡◌, refl, sym, ap, ◌∙◌, String, Bool, true, false, ◌&&◌, Option, none, some,
  List, [], ◌∷◌, arith, is_some, leb, ◌||◌, length, if◌then◌else◌, Bool-cases, inl, inr,
}
use mathlib.Core.Path.{subst}
use ingame.Errors.{Result, ok}
use ingame.Sets.{mem}
use ingame.Db.Table.{
  count, count-le, select, one_or_none, delete_rows, count-delete_rows, one_or_none-count,
  one_or_none-none, one_or_none_total, one_or_none-one,
}
use ingame.Db.Models.{AvatarUploadLedger}
use ingame.Avatars.LedgerRepo.{is_record, list_expired_pending, delete}
use ingame.Avatars.Janitor.{
  Bucket, Shelf, delete_avatar_object_by_key, delete_upload, clean_record, clean_records,
  run_avatar_upload_janitor_once,
}
use ingame.Avatars.Cleaning.{
  is_committed, clean_record-none, clean_record-committed, clean_record-pending, same_id,
  select-delete_rows,
}
use ingame.Avatars.Overdue.{
  is_expired, stays, kept_with, ids, left, IsKeyed, count-left_first, count-left_deleted,
  count-left_none, select-left_none, select-stays_all, count-kept_or_expired, count-expired_some,
  length-delete_rows, delete_rows-IsKeyed,
}

-- After a record has been tried, the rows are still keyed, what was left but for it is left, the rows to be left are
-- as they were, and the answer counts the row that is gone.
abbrev Cleaned : ℕ → ℕ → List ℕ → Shelf → Result Bool × Shelf → Type 0
Cleaned cutoff i is s (q, t) =
    ((b : Bool) × (q ≡ ok b)
      × ((if b then 1 else 0) + length t.world.ledger ≡ length s.world.ledger))
    × IsKeyed t.world.ledger
    × (count (left cutoff (i ∷ is)) s.world.ledger ≡ 0 → count (left cutoff is) t.world.ledger ≡ 0)
    × (select (stays cutoff) t.world.ledger ≡ select (stays cutoff) s.world.ledger)
    × ((j : ℕ)
        → count (kept_with cutoff j) t.world.ledger ≤ count (kept_with cutoff j) s.world.ledger)

module _ (x : Bucket) (cutoff : ℕ) (n : (key : String) → x.raises key ≡ false) where
  delete_upload_lem :
      (r : AvatarUploadLedger) (s : Shelf)
      → ((delete_upload x r s).0 ≡ ok true)
        × ((delete_upload x r s).1.world.ledger ≡ delete_rows (is_record r.id) s.world.ledger)
  unfolding delete_upload delete delete_avatar_object_by_key
  delete_upload_lem r s = elim (Bool-cases x.is_configured) [
    | inl e ↦ ground (arith, e, n r.object_key)
    | inr e ↦ ground (arith, e)
  ]

  module _ (r : AvatarUploadLedger) (is : List ℕ) (s : Shelf) (k : IsKeyed s.world.ledger)
      (z : count (kept_with cutoff r.id) s.world.ledger ≡ 0) where
    kept :
        count (λ v. is_record r.id v && is_expired cutoff v) s.world.ledger ≡ 0
        → Cleaned cutoff r.id is s (ok false, s)
    kept e = (
      (false, refl, ground arith),
      k,
      λ h. omega (arith, h, e, count-left_first cutoff r.id is s.world.ledger),
      refl,
      λ j. omega arith,
    )

    deleted :
        (c : AvatarUploadLedger)
        → one_or_none (is_record r.id) s.world.ledger ≡ ok (some c)
        → c.id ≡ r.id
        → Cleaned cutoff r.id is s (delete_upload x c s)
    deleted c o e =
        let (a, b) = delete_upload_lem c s in
        let d : (delete_upload x c s).1.world.ledger ≡ delete_rows (is_record r.id) s.world.ledger =
          b ∙ ap (λ i. delete_rows (is_record i) s.world.ledger) e in
        (
          (
            true,
            a,
            ap (λ (rows : List AvatarUploadLedger). 1 + length rows) d
                ∙ omega (
                  arith,
                  one_or_none-one (is_record r.id) s.world.ledger o,
                  length-delete_rows (is_record r.id) s.world.ledger,
                ),
          ),
          subst IsKeyed (sym d) (delete_rows-IsKeyed (is_record r.id) s.world.ledger k),
          λ h.
              ap (count (left cutoff is)) d
              ∙ omega (arith, h, count-left_deleted cutoff r.id is s.world.ledger),
          ap (select (stays cutoff)) d
              ∙ select-delete_rows (stays cutoff) (is_record r.id) s.world.ledger z,
          λ j.
              subst
                (λ rows.
                  count (kept_with cutoff j) rows ≤ count (kept_with cutoff j) s.world.ledger)
                (sym d)
                (omega
                  (arith, count-delete_rows (kept_with cutoff j) (is_record r.id) s.world.ledger)),
        )

    clean_record-Cleaned : Cleaned cutoff r.id is s (clean_record x r s)
    clean_record-Cleaned =
        let (o, e) = one_or_none_total (is_record r.id) s.world.ledger (k r.id) in found o e
      where
        found :
            (o : Option AvatarUploadLedger)
            → one_or_none (is_record r.id) s.world.ledger ≡ ok o
            → Cleaned cutoff r.id is s (clean_record x r s)
        found none o = subst (Cleaned cutoff r.id is s) (sym (clean_record-none x r s o)) (
            kept (
              omega (
                arith,
                one_or_none-none (is_record r.id) s.world.ledger o,
                count-le (is_expired cutoff) (is_record r.id) s.world.ledger,
              )))
        found (some c) o = elim (Bool-cases (is_committed c)) [
          | inl e ↦ subst (Cleaned cutoff r.id is s) (sym (clean_record-committed x r s c o e)) (
              kept (
                ground (
                  arith,
                  e,
                  one_or_none-count (is_record r.id) (is_expired cutoff) s.world.ledger o,
                )))
          | inr e ↦
              subst (Cleaned cutoff r.id is s) (sym (clean_record-pending x r s c o e))
                (deleted c o (same_id x r s c o))
        ]

  -- what a run over the records answers and leaves
  abbrev Done : Shelf → Result ℕ × Shelf → Type 0
  Done s (q, t) =
      ((m : ℕ) × (q ≡ ok m) × (m + length t.world.ledger ≡ length s.world.ledger))
      × (t.world.ledger ≡ select (stays cutoff) s.world.ledger)

  clean_next :
      (r : AvatarUploadLedger) (rows : List AvatarUploadLedger) (s : Shelf) (q : Result Bool)
      (t : Shelf)
      → clean_record x r s ≡ (q, t)
      → (b : Bool) → q ≡ ok b
      → (if b then 1 else 0) + length t.world.ledger ≡ length s.world.ledger
      → select (stays cutoff) t.world.ledger ≡ select (stays cutoff) s.world.ledger
      → Done t (clean_records x rows t)
      → Done s (clean_records x (r ∷ rows) s)
  unfolding clean_records
  clean_next r rows s q t d b e l h ((m, g, i), z) =
      let a : clean_records x (r ∷ rows) s
          ≡ (ok (if b then suc m else m), (clean_records x rows t).1) =
        ground (arith, d, e, g) in
      subst (Done s) (sym a) (((if b then suc m else m), refl, ground (arith, l, i)), z ∙ h)

  clean_records-Done :
      (rows : List AvatarUploadLedger) (s : Shelf)
      → IsKeyed s.world.ledger
      → count (left cutoff (ids rows)) s.world.ledger ≡ 0
      → ((i : ℕ) → mem i (ids rows) ≡ true → count (kept_with cutoff i) s.world.ledger ≡ 0)
      → Done s (clean_records x rows s)
  unfolding clean_records ids mem
  clean_records-Done [] s k e f = (
    (0, refl, ground arith),
    select-stays_all cutoff s.world.ledger (select-left_none cutoff s.world.ledger e),
  )
  clean_records-Done (r ∷ rows) s k e f =
      let ((b, g, l), k', h, p, o) =
        clean_record-Cleaned r (ids rows) s k (f r.id (ground arith)) in
      let t : Shelf = (clean_record x r s).1 in
      clean_next r rows s (clean_record x r s).0 t refl b g l p
        (clean_records-Done rows t k' (h e) (λ i j. omega (arith, o i, f i (ground (arith, j)))))

  -- Where no call to the storage raises and no two rows have the same id, a run of the janitor leaves exactly the rows
  -- that are committed or were created at the cutoff or later, in their order, and answers how many
  -- rows are gone.
  pub ledger-run_avatar_upload_janitor_once :
      (s : Shelf)
      → IsKeyed s.world.ledger
      → let (q, t) = run_avatar_upload_janitor_once x cutoff s in
        ((m : ℕ) × (q ≡ ok m) × (m + length t.world.ledger ≡ length s.world.ledger))
        × (t.world.ledger
            ≡ select (λ r. is_some r.committed_at || leb cutoff r.created_at) s.world.ledger)
  unfolding run_avatar_upload_janitor_once list_expired_pending
  ledger-run_avatar_upload_janitor_once s k =
      let rows : List AvatarUploadLedger = select (is_expired cutoff) s.world.ledger in
      clean_records-Done rows s k (count-left_none cutoff s.world.ledger (ids rows) (λ i e. e))
        (λ i e. omega (
          arith,
          k i,
          count-kept_or_expired cutoff i s.world.ledger,
          count-expired_some cutoff i s.world.ledger e,
        ))
