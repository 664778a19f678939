-- ===== src/Avatars/Overdue.antt =====
-- The rows of avatar uploads that a run of the janitor is to delete, and those that it is to leave.
use ingame.Prelude.{
  ℕ, ◌+◌, ◌≤◌, ◌≡◌, refl, Bool, true, not, ◌&&◌, List, [], ◌∷◌, arith, is_none, is_some, leb, ◌||◌,
  length, Option-cases, ltb, inl, inr,
}
use ingame.Sets.{mem}
use ingame.Db.Table.{count, select, delete_rows, count-delete_rows}
use ingame.Db.Models.{AvatarUploadLedger}
use ingame.Avatars.LedgerRepo.{is_record}

abbrev pub is_expired : ℕ → AvatarUploadLedger → Bool
is_expired cutoff r = is_none r.committed_at && ltb r.created_at cutoff

-- the rows that a run is to leave
abbrev pub stays : ℕ → AvatarUploadLedger → Bool
stays cutoff r = is_some r.committed_at || leb cutoff r.created_at

-- the rows with an id that are to be left
abbrev pub kept_with : ℕ → ℕ → AvatarUploadLedger → Bool
kept_with cutoff i r = is_record i r && stays cutoff r

unfoldable pub ids : List AvatarUploadLedger → List ℕ
ids [] = []
ids (r ∷ rows) = r.id ∷ ids rows

-- expired and not among those that are still to be cleaned
abbrev pub left : ℕ → List ℕ → AvatarUploadLedger → Bool
left cutoff is r = is_expired cutoff r && not (mem r.id is)

module _ (cutoff : ℕ) where
  pub count-left_first :
      (i : ℕ) (is : List ℕ) (rows : List AvatarUploadLedger)
      → count (left cutoff is) rows
        ≤ count (left cutoff (i ∷ is)) rows + count (λ r. is_record i r && is_expired cutoff r) rows
  unfolding count mem
  count-left_first i is [] = omega arith
  count-left_first i is (r ∷ rows) = ground (arith, count-left_first i is rows)

  pub count-left_deleted :
      (i : ℕ) (is : List ℕ) (rows : List AvatarUploadLedger)
      → count (left cutoff is) (delete_rows (is_record i) rows) ≤ count (left cutoff (i ∷ is)) rows
  unfolding count mem delete_rows
  count-left_deleted i is [] = omega arith
  count-left_deleted i is (r ∷ rows) = ground (arith, count-left_deleted i is rows)

  pub count-left_none :
      (rows : List AvatarUploadLedger) (is : List ℕ)
      → ((i : ℕ) → mem i (ids (select (is_expired cutoff) rows)) ≡ true → mem i is ≡ true)
      → count (left cutoff is) rows ≡ 0
  unfolding count mem select ids
  count-left_none [] is h = refl
  count-left_none (r ∷ rows) is h =
      ground (arith, h r.id, count-left_none rows is (λ i e. ground (arith, h i, e)))

  pub select-left_none :
      (rows : List AvatarUploadLedger)
      → count (left cutoff []) rows ≡ 0
      → select (is_expired cutoff) rows ≡ []
  unfolding count mem select
  select-left_none [] e = refl
  select-left_none (r ∷ rows) e = ground (arith, e, select-left_none rows)

  pub select-stays_all :
      (rows : List AvatarUploadLedger)
      → select (is_expired cutoff) rows ≡ []
      → rows ≡ select (stays cutoff) rows
  unfolding select
  select-stays_all [] e = refl
  select-stays_all (r ∷ rows) e = elim (Option-cases r.committed_at) [
    | inl a ↦ ground (arith, a, e, select-stays_all rows)
    | inr (t, a) ↦ ground (arith, a, e, select-stays_all rows)
  ]

  pub count-kept_or_expired :
      (i : ℕ) (rows : List AvatarUploadLedger)
      → count (is_record i) rows
        ≡ count (kept_with cutoff i) rows + count (λ r. is_record i r && is_expired cutoff r) rows
  unfolding count
  count-kept_or_expired i [] = refl
  count-kept_or_expired i (r ∷ rows) = elim (Option-cases r.committed_at) [
    | inl a ↦ ground (arith, a, count-kept_or_expired i rows)
    | inr (t, a) ↦ ground (arith, a, count-kept_or_expired i rows)
  ]

  pub count-expired_some :
      (i : ℕ) (rows : List AvatarUploadLedger)
      → mem i (ids (select (is_expired cutoff) rows)) ≡ true
      → 1 ≤ count (λ r. is_record i r && is_expired cutoff r) rows
  unfolding count mem ids select
  count-expired_some i [] e = cc
  count-expired_some i (r ∷ rows) e = ground (arith, e, count-expired_some i rows)

pub length-delete_rows :
    (p : AvatarUploadLedger → Bool) (rows : List AvatarUploadLedger)
    → count p rows + length (delete_rows p rows) ≡ length rows
unfolding count delete_rows
length-delete_rows p [] = refl
length-delete_rows p (r ∷ rows) = ground (arith, length-delete_rows p rows)

abbrev pub IsKeyed : List AvatarUploadLedger → Type 0
IsKeyed rows = (i : ℕ) → count (is_record i) rows ≤ 1

pub delete_rows-IsKeyed :
    (p : AvatarUploadLedger → Bool) (rows : List AvatarUploadLedger)
    → IsKeyed rows
    → IsKeyed (delete_rows p rows)
delete_rows-IsKeyed p rows k i = omega (arith, k i, count-delete_rows (is_record i) p rows)
