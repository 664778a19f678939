-- ===== src/Groups/GroupChanges.antt =====
-- Each change that the services make to the rows of groups keeps the invariant.
use ingame.Prelude.{
  ℕ, ◌≤◌, ◌≡◌, refl, Bool, true, ◌||◌, some, List, [], ◌∷◌, ◌++◌, arith, ◌==◌, Bool-cases, inl, inr,
}
use ingame.Errors.{ok}
use ingame.Db.Table.{
  count, one_or_none, update_rows, delete_rows, count-insert, count-delete_rows, count-update_rows,
  count-implied, one_or_none-count,
}
use ingame.Db.Models.{Group, GroupMembership, is_owner}
use ingame.Groups.Repo.{is_group, has_code, in_group, is_membership}
use ingame.Groups.Invariant.{is_owner_of, Rows, code_eq-eq}
use ingame.Groups.RowChanges.{all_of, none_of}

module _ {groups : List Group} {ms : List GroupMembership} (s : Rows groups ms) where
  -- a group's row changes, and keeps its id and its invite code
  pub patch-Rows :
      (g : ℕ) {group : Group} (new : Group)
      → one_or_none (is_group g) groups ≡ ok (some group)
      → new.id ≡ group.id
      → new.invite_code ≡ group.invite_code
      → Rows (update_rows (is_group g) (λ _. new) groups) ms
  patch-Rows g {group} new e same_id same_code = record {
    ids = λ h. rw (kept_id h) (s.ids h);
    codes = λ c. rw (kept (has_code c) (rw same_code refl)) (s.codes c);
    members = s.members;
    owners = λ h. rw (kept_id h) (s.owners h);
    orphans = λ h z. s.orphans h (rw (kept_id h) at z);
  }
    where
      kept :
          (p : Group → Bool)
          → p new ≡ p group
          → count p (update_rows (is_group g) (λ _. new) groups) ≡ count p groups
      kept p q = ground (
        arith,
        q,
        count-update_rows p (is_group g) (λ _. new) groups,
        one_or_none-count (is_group g) p groups e,
        one_or_none-count (is_group g) (λ _. p new) groups e,
      )

      kept_id :
          (h : ℕ)
          → count (is_group h) (update_rows (is_group g) (λ _. new) groups)
            ≡ count (is_group h) groups
      kept_id h = kept (is_group h) (rw same_id refl)

  -- a group goes, and its memberships with it
  pub delete_group-Rows :
      (g : ℕ) → Rows (delete_rows (is_group g) groups) (delete_rows (in_group g) ms)
  delete_group-Rows g = record {
    ids = λ h. omega (arith, s.ids h, count-delete_rows (is_group h) (is_group g) groups);
    codes = λ c. omega (arith, s.codes c, count-delete_rows (has_code c) (is_group g) groups);
    members =
        λ h v. omega (arith, s.members h v, count-delete_rows (is_membership h v) (in_group g) ms);
    owners = λ h. ground (
      arith,
      s.owners h,
      count-delete_rows (is_group h) (is_group g) groups,
      count-delete_rows (is_owner_of h) (in_group g) ms,
      all_of (is_group h) (is_group g) groups,
      none_of (is_group h) (is_group g) groups,
      all_of (is_owner_of h) (in_group g) ms,
      none_of (is_owner_of h) (in_group g) ms,
    );
    orphans = λ h z. ground (
      arith,
      s.orphans h,
      count-delete_rows (is_group h) (is_group g) groups,
      count-delete_rows (in_group h) (in_group g) ms,
      none_of (is_group h) (is_group g) groups,
      all_of (in_group h) (in_group g) ms,
    );
  }

  -- a new group and its owner
  pub new_group-Rows :
      (group : Group) (m : GroupMembership)
      → count (λ r. r.id == group.id || has_code group.invite_code r) groups ≡ 0
      → count (λ r. r.id == m.id || is_membership m.group_id m.user_id r) ms ≡ 0
      → m.group_id ≡ group.id
      → is_owner m.role ≡ true
      → Rows (groups ++ group ∷ []) (ms ++ m ∷ [])
  new_group-Rows group m new_group new_member same_id owns = record {
    ids = λ h. ground (
      arith,
      s.ids h,
      count-insert (is_group h) group groups,
      count-implied (is_group h) (λ r. r.id == group.id || has_code group.invite_code r) groups,
    );
    codes = λ c. elim (Bool-cases (has_code c group)) [
      | inl e ↦
          rw (← code_eq-eq group.invite_code c e)
            (ground (arith, count-insert (has_code group.invite_code) group groups, no_code))
      | inr e ↦ ground (arith, e, s.codes c, count-insert (has_code c) group groups)
    ];
    members = λ h v. ground (
      arith,
      s.members h v,
      count-insert (is_membership h v) m ms,
      count-implied (is_membership h v) (λ r. r.id == m.id || is_membership m.group_id m.user_id r)
          ms,
    );
    owners = λ h. ground (
      arith,
      s.owners h,
      count-insert (is_owner_of h) m ms,
      count-insert (is_group h) group groups,
    );
    orphans = λ h z. ground (
      arith,
      s.orphans h,
      count-insert (in_group h) m ms,
      count-insert (is_group h) group groups,
    );
  }
    where
      no_code : count (has_code group.invite_code) groups ≤ 0
      no_code = rw (← new_group) (
          count-implied (has_code group.invite_code)
            (λ r. r.id == group.id || has_code group.invite_code r) groups (λ r e. ground arith))
