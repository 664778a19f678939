-- ===== src/Groups/Rules.antt =====
-- The roles of users in groups, and the rules on changing them.
use ingame.Prelude.{
  ℕ, ◌≡◌, refl, Bool, true, false, not, ◌&&◌, Option, none, some, List, arith, ◌==◌, is_some,
  Bool-cases, Option-cases, inl, inr, if◌then◌else◌,
}
use ingame.Errors.{Result, ok, err}
use ingame.Db.Table.{update_rows, delete_rows}
use ingame.Db.Find.{
  find_row, find-update_same, find-update_none, find-update_other, find-delete_same,
  find-delete_other,
}
use ingame.Db.Models.{GroupMembership, Role, is_owner, is_admin, is_staff}
use ingame.Groups.Repo.{is_membership}
use ingame.Groups.MemberRepo.{with_role}

-- the role of a user in a group, if the user is a member
unfoldable pub role_of : ℕ → ℕ → List GroupMembership → Option Role
unfolding find_row
role_of g u ms = elim (find_row (is_membership g u) ms) [ none ↦ none | some m ↦ some m.role ]

abbrev pub succeeded : {A : Type 0} → Result A → Bool
succeeded (ok _) = true
succeeded (err _) = false

-- The rules of removal as a table: the first argument tells whether the actor leaves, the others are
-- the roles of the actor and of the target. Nobody removes the owner, the owner removes anybody
-- else, an admin removes who is no admin, and anybody else may only leave.
unfoldable pub may_remove : Bool → Option Role → Option Role → Bool
may_remove leaves actor none = false
may_remove leaves actor (some Role.owner) = false
may_remove true actor (some target) = true
may_remove false none (some target) = false
may_remove false (some Role.owner) (some target) = true
may_remove false (some Role.admin) (some target) = not (is_admin target)
may_remove false (some Role.member) (some target) = false
may_remove false (some (Role.other _)) (some target) = false

-- Only the owner changes the role of a member, who is not the owner, to admin or member.
unfoldable pub may_change_role : Role → Option Role → Option Role → Bool
may_change_role role (some Role.owner) (some Role.owner) = false
may_change_role role (some Role.owner) (some target) = elim role [
  | Role.owner ↦ false
  | Role.admin ↦ true
  | Role.member ↦ true
  | Role.other _ ↦ false
]
may_change_role role _ _ = false

-- Only the owner hands the group over, to another member.
unfoldable pub may_transfer : Bool → Option Role → Option Role → Bool
may_transfer self (some Role.owner) (some target) = not self && not (is_owner target)
may_transfer self _ _ = false

abbrev pub is_staff_role : Option Role → Bool
is_staff_role none = false
is_staff_role (some r) = is_staff r

abbrev pub is_other_role : Option Role → Bool
is_other_role none = false
is_other_role (some r) = not (is_owner r)

module _ (g u : ℕ) (ms : List GroupMembership) where
  role_of-set_self :
      (role : Role)
      → role_of g u (update_rows (is_membership g u) (with_role role) ms)
        ≡ (if is_some (role_of g u ms) then some role else none)
  unfolding role_of
  role_of-set_self role = elim (Option-cases (find_row (is_membership g u) ms)) [
    | inl e ↦ ground (
      arith,
      e,
      find-update_none (is_membership g u) (is_membership g u) (with_role role) ms (λ r. refl),
    )
    | inr (m, e) ↦
        ground
          (arith, e, find-update_same (is_membership g u) (with_role role) ms {r = m} (λ r. refl))
  ]

  -- The roles after a role change, and after a removal.
  pub role_of-set_role :
      (role : Role) (h v : ℕ)
      → role_of h v (update_rows (is_membership g u) (with_role role) ms)
        ≡ (if h == g && v == u && is_some (role_of g u ms) then some role else role_of h v ms)
  unfolding role_of
  role_of-set_role role h v = elim (Bool-cases (h == g && v == u)) [
    | inl e ↦
        let p : h ≡ g = ground arith in
        let q : v ≡ u = ground arith in rw (p, q) (ground (arith, role_of-set_self role))
    | inr e ↦ ground (
      arith,
      find-update_other (is_membership h v) (is_membership g u) (with_role role) ms
          (λ r q. ground arith) (λ r q. ground arith),
    )
  ]

  pub role_of-removed :
      (h v : ℕ)
      → role_of h v (delete_rows (is_membership g u) ms)
        ≡ (if h == g && v == u then none else role_of h v ms)
  unfolding role_of
  role_of-removed h v = elim (Bool-cases (h == g && v == u)) [
    | inl e ↦
        let p : h ≡ g = ground arith in
        let q : v ≡ u = ground arith in
        rw (p, q) (ground (arith, find-delete_same (is_membership g u) ms))
    | inr e ↦
        ground (
          arith,
          find-delete_other (is_membership h v) (is_membership g u) ms (λ r q. ground arith),
        )
  ]
