-- ===== src/Avatars/Cleaning.antt =====
-- What a run of the janitor deletes (backend/app/jobs/avatar_upload_janitor.py).
use ingame.Prelude.{
  ℕ, ◌≡◌, refl, sym, ap, ◌∙◌, String, Bool, true, false, ◌&&◌, Option, none, some, List, [], ◌∷◌,
  arith, is_some, is_none, ltb, Bool-cases, inl, inr, ◌⊎◌,
}
use mathlib.Core.Path.{subst}
use ingame.Errors.{Error, Result, ok, err}
use ingame.Db.Table.{count, select, one_or_none, delete_rows, one_or_none-count, one_or_none-meets}
use ingame.Db.Models.{AvatarUploadLedger}
use ingame.Avatars.LedgerRepo.{is_record, get_by_id, list_expired_pending, delete}
use ingame.Avatars.Janitor.{
  Bucket, Shelf, delete_avatar_object_by_key, delete_upload, clean_record, clean_records,
  run_avatar_upload_janitor_once,
}

pub select-delete_rows :
    {R : Type 0} (p q : R → Bool) (rows : List R)
    → count (λ r. q r && p r) rows ≡ 0
    → select p (delete_rows q rows) ≡ select p rows
unfolding select delete_rows count
select-delete_rows p q [] e = refl
select-delete_rows p q (r ∷ rows) e = ground (arith, e, select-delete_rows p q rows)

abbrev pub is_committed : AvatarUploadLedger → Bool
is_committed r = is_some r.committed_at

abbrev pub committed : Shelf → List AvatarUploadLedger
committed s = select is_committed s.world.ledger

module _ (x : Bucket) where
  pub world-delete_avatar_object_by_key :
      (key : Option String) (s : Shelf) → (delete_avatar_object_by_key x key s).1.world ≡ s.world
  unfolding delete_avatar_object_by_key
  world-delete_avatar_object_by_key none s = refl
  world-delete_avatar_object_by_key (some key) s = elim (Bool-cases x.is_configured) [
    | inl e ↦ elim (Bool-cases (x.raises key)) [
      | inl f ↦ ground (arith, e, f)
      | inr f ↦ ground (arith, e, f)
    ]
    | inr e ↦ ground (arith, e)
  ]

  -- the rows that an attempt leaves
  ledger-delete_upload :
      (r : AvatarUploadLedger) (s : Shelf)
      → ((delete_upload x r s).1.world.ledger ≡ s.world.ledger)
        ⊎ ((delete_upload x r s).1.world.ledger ≡ delete_rows (is_record r.id) s.world.ledger)
  unfolding delete_upload delete
  ledger-delete_upload r s =
      attempted (delete_avatar_object_by_key x (some r.object_key) s).0
        (delete_avatar_object_by_key x (some r.object_key) s).1 refl
    where
      attempted :
          (q : Result (Unit {0})) (s1 : Shelf)
          → delete_avatar_object_by_key x (some r.object_key) s ≡ (q, s1)
          → ((delete_upload x r s).1.world.ledger ≡ s.world.ledger)
            ⊎ ((delete_upload x r s).1.world.ledger ≡ delete_rows (is_record r.id) s.world.ledger)
      attempted (ok a) s1 d =
          inr (ground (arith, d, world-delete_avatar_object_by_key (some r.object_key) s))
      attempted (err e) s1 d = inl (ground (arith, d))

  committed-delete_upload :
      (r : AvatarUploadLedger) (s : Shelf)
      → one_or_none (is_record r.id) s.world.ledger ≡ ok (some r)
      → is_committed r ≡ false
      → committed (delete_upload x r s).1 ≡ committed s
  committed-delete_upload r s o e = elim (ledger-delete_upload r s) [
    | inl q ↦ ap (select is_committed) q
    | inr q ↦
        ap (select is_committed) q
        ∙ select-delete_rows is_committed (is_record r.id) s.world.ledger
            (ground (arith, e, one_or_none-count (is_record r.id) is_committed s.world.ledger o))
  ]

  module _ (r : AvatarUploadLedger) (s : Shelf) where
    clean_record-err :
        (e : Error)
        → one_or_none (is_record r.id) s.world.ledger ≡ err e
        → clean_record x r s ≡ (err e, s)
    unfolding clean_record get_by_id
    clean_record-err e o = ground (arith, o)

    pub clean_record-none :
        one_or_none (is_record r.id) s.world.ledger ≡ ok none → clean_record x r s ≡ (ok false, s)
    unfolding clean_record get_by_id
    clean_record-none o = ground (arith, o)

    pub clean_record-committed :
        (c : AvatarUploadLedger)
        → one_or_none (is_record r.id) s.world.ledger ≡ ok (some c)
        → is_committed c ≡ true
        → clean_record x r s ≡ (ok false, s)
    unfolding clean_record get_by_id
    clean_record-committed c o e = ground (arith, o, e)

    pub clean_record-pending :
        (c : AvatarUploadLedger)
        → one_or_none (is_record r.id) s.world.ledger ≡ ok (some c)
        → is_committed c ≡ false
        → clean_record x r s ≡ delete_upload x c s
    unfolding clean_record get_by_id
    clean_record-pending c o e = ground (arith, o, e)

    pub same_id :
        (c : AvatarUploadLedger)
        → one_or_none (is_record r.id) s.world.ledger ≡ ok (some c)
        → c.id ≡ r.id
    same_id c o = ground (arith, one_or_none-meets (is_record r.id) s.world.ledger o)

    committed-clean_record : committed (clean_record x r s).1 ≡ committed s
    committed-clean_record = found (one_or_none (is_record r.id) s.world.ledger) refl
      where
        found :
            (o : Result (Option AvatarUploadLedger))
            → one_or_none (is_record r.id) s.world.ledger ≡ o
            → committed (clean_record x r s).1 ≡ committed s
        found (err e) o = ap (λ q. committed q.1) (clean_record-err e o)
        found (ok none) o = ap (λ q. committed q.1) (clean_record-none o)
        found (ok (some c)) o = elim (Bool-cases (is_committed c)) [
          | inl e ↦ ap (λ q. committed q.1) (clean_record-committed c o e)
          | inr e ↦
              ap (λ q. committed q.1) (clean_record-pending c o e)
              ∙ committed-delete_upload c s
                  (subst (λ i. one_or_none (is_record i) s.world.ledger ≡ ok (some c))
                    (sym (same_id c o)) o)
                  e
        ]

  cleaned :
      (r : AvatarUploadLedger) (rows : List AvatarUploadLedger) (s : Shelf)
      → ((t : Shelf) → committed (clean_records x rows t).1 ≡ committed t)
      → (q : Result Bool) (t : Shelf) → clean_record x r s ≡ (q, t)
      → committed (clean_records x (r ∷ rows) s).1 ≡ committed s
  unfolding clean_records
  cleaned r rows s h (err e) t d = ground (arith, d, committed-clean_record r s)
  cleaned r rows s h (ok b) t d = ground (arith, d, committed-clean_record r s, h t)

  committed-clean_records :
      (rows : List AvatarUploadLedger) (s : Shelf)
      → committed (clean_records x rows s).1 ≡ committed s
  unfolding clean_records
  committed-clean_records [] s = refl
  committed-clean_records (r ∷ rows) s =
      cleaned r rows s (committed-clean_records rows) (clean_record x r s).0 (clean_record x r s).1
        refl

  -- A run of the janitor leaves every row of a committed upload as it is and in its place, whatever the storage raises.
  pub committed-run_avatar_upload_janitor_once :
      (cutoff : ℕ) (s : Shelf)
      → committed (run_avatar_upload_janitor_once x cutoff s).1 ≡ committed s
  unfolding run_avatar_upload_janitor_once list_expired_pending
  committed-run_avatar_upload_janitor_once cutoff s =
      committed-clean_records
        (select (λ r. is_none r.committed_at && ltb r.created_at cutoff) s.world.ledger) s
