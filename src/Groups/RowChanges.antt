-- ===== src/Groups/RowChanges.antt =====
-- Each change that the services make to the rows of memberships keeps the invariant.
use ingame.Prelude.{
  ℕ, ◌<◌, ◌≡◌, refl, Bool, true, false, ◌&&◌, ◌||◌, some, List, [], ◌∷◌, ◌++◌, arith, ◌==◌,
}
use ingame.Errors.{ok}
use ingame.Db.Table.{
  count, one_or_none, update_rows, delete_rows, count-insert, count-delete_rows, count-update_rows,
  count-update_rows_same, count-implied, one_or_none-count, one_or_none-meets, count_congr,
  count-none,
}
use ingame.Db.Models.{Group, GroupMembership, Role, is_owner}
use ingame.Groups.Repo.{is_group, in_group, is_membership}
use ingame.Groups.MemberRepo.{with_role}
use ingame.Groups.Invariant.{is_owner_of, Rows}

module _ {R : Type 0} (p q : R → Bool) (rows : List R) where
  pub all_of : ((r : R) → p r ≡ true → q r ≡ true) → count (λ r. q r && p r) rows ≡ count p rows
  all_of h = count_congr (λ r. q r && p r) p rows (λ r. ground (arith, h r))

  pub none_of : ((r : R) → p r ≡ true → q r ≡ false) → count (λ r. q r && p r) rows ≡ 0
  none_of h = count-none (λ r. q r && p r) rows (λ r. ground (arith, h r))

module _ {groups : List Group} {ms : List GroupMembership} (s : Rows groups ms) where
  -- a member that is no owner gets a role that is not the owner's
  pub set_role-Rows :
      (g u : ℕ) (role : Role) {m : GroupMembership}
      → one_or_none (is_membership g u) ms ≡ ok (some m)
      → is_owner m.role ≡ false
      → is_owner role ≡ false
      → Rows groups (update_rows (is_membership g u) (with_role role) ms)
  set_role-Rows g u role e old new = record {
    ids = s.ids;
    codes = s.codes;
    members = λ h v. rw (same (is_membership h v) (λ r _. refl)) (s.members h v);
    owners = λ h. ground (
      arith,
      s.owners h,
      count-update_rows (is_owner_of h) (is_membership g u) (with_role role) ms,
      one_or_none-count (is_membership g u) (is_owner_of h) ms e,
      one_or_none-count (is_membership g u) (λ r. is_owner_of h (with_role role r)) ms e,
    );
    orphans = λ h z. rw (same (in_group h) (λ r _. refl)) (s.orphans h z);
  }
    where
      same :
          (p : GroupMembership → Bool)
          → ((r : GroupMembership) → is_membership g u r ≡ true → p (with_role role r) ≡ p r)
          → count p (update_rows (is_membership g u) (with_role role) ms) ≡ count p ms
      same p h = count-update_rows_same p (is_membership g u) (with_role role) ms h

  -- a member that is no owner goes
  pub delete-Rows :
      (g u : ℕ) {m : GroupMembership}
      → one_or_none (is_membership g u) ms ≡ ok (some m)
      → is_owner m.role ≡ false
      → Rows groups (delete_rows (is_membership g u) ms)
  delete-Rows g u e old = record {
    ids = s.ids;
    codes = s.codes;
    members = λ h v.
        omega (arith, s.members h v, count-delete_rows (is_membership h v) (is_membership g u) ms);
    owners = λ h. ground (
      arith,
      s.owners h,
      count-delete_rows (is_owner_of h) (is_membership g u) ms,
      one_or_none-count (is_membership g u) (is_owner_of h) ms e,
    );
    orphans =
        λ h z. omega (arith, s.orphans h z, count-delete_rows (in_group h) (is_membership g u) ms);
  }

  -- the flush of a new member that is no owner
  pub append-Rows :
      (m : GroupMembership)
      → count (λ r. r.id == m.id || is_membership m.group_id m.user_id r) ms ≡ 0
      → 0 < count (is_group m.group_id) groups
      → is_owner m.role ≡ false
      → Rows groups (ms ++ m ∷ [])
  append-Rows m fresh known plain = record {
    ids = s.ids;
    codes = s.codes;
    members = λ h v. ground (
      arith,
      s.members h v,
      count-insert (is_membership h v) m ms,
      count-implied (is_membership h v) (λ r. r.id == m.id || is_membership m.group_id m.user_id r)
          ms,
    );
    owners = λ h. ground (arith, s.owners h, count-insert (is_owner_of h) m ms);
    orphans = λ h z. ground (arith, s.orphans h z, count-insert (in_group h) m ms);
  }

  -- the owner of a group and another member of it change their roles
  pub transfer-Rows :
      (g old new : ℕ) {a b : GroupMembership}
      → (old == new) ≡ false
      → one_or_none (is_membership g old) ms ≡ ok (some a)
      → is_owner a.role ≡ true
      → one_or_none (is_membership g new) ms ≡ ok (some b)
      → is_owner b.role ≡ false
      → Rows groups (
          update_rows
            (is_membership g new)
            (with_role Role.owner)
            (update_rows (is_membership g old) (with_role Role.admin) ms))
  transfer-Rows g old new {a} {b} ne ea oa eb ob = record {
    ids = s.ids;
    codes = s.codes;
    members = λ h v.
        rw
          (
            same new Role.owner demoted (is_membership h v) (λ r _. refl),
            same old Role.admin ms (is_membership h v) (λ r _. refl),
          )
          (s.members h v);
    owners = λ h. ground (
      arith,
      s.owners h,
      count-update_rows (is_owner_of h) (is_membership g new) (with_role Role.owner) demoted,
      count-update_rows (is_owner_of h) (is_membership g old) (with_role Role.admin) ms,
      untouched (is_owner_of h),
      untouched (λ r. is_owner_of h (with_role Role.owner r)),
      one_or_none-count (is_membership g old) (is_owner_of h) ms ea,
      one_or_none-count (is_membership g old) (λ r. is_owner_of h (with_role Role.admin r)) ms ea,
      one_or_none-meets (is_membership g old) ms ea,
      one_or_none-count (is_membership g new) (is_owner_of h) ms eb,
      one_or_none-count (is_membership g new) (λ r. is_owner_of h (with_role Role.owner r)) ms eb,
      one_or_none-meets (is_membership g new) ms eb,
    );
    orphans = λ h z.
        rw
          (
            same new Role.owner demoted (in_group h) (λ r _. refl),
            same old Role.admin ms (in_group h) (λ r _. refl),
          )
          (s.orphans h z);
  }
    where
      demoted : List GroupMembership
      demoted = update_rows (is_membership g old) (with_role Role.admin) ms

      same :
          (u : ℕ) (role : Role) (rows : List GroupMembership) (p : GroupMembership → Bool)
          → ((r : GroupMembership) → is_membership g u r ≡ true → p (with_role role r) ≡ p r)
          → count p (update_rows (is_membership g u) (with_role role) rows) ≡ count p rows
      same u role rows p h = count-update_rows_same p (is_membership g u) (with_role role) rows h

      untouched :
          (p : GroupMembership → Bool)
          → count (λ r. is_membership g new r && p r) demoted
            ≡ count (λ r. is_membership g new r && p r) ms
      untouched p = same old Role.admin ms (λ r. is_membership g new r && p r) (λ r e. ground arith)
