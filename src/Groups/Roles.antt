-- ===== src/Groups/Roles.antt =====
-- Who may do what to the members of a group, and what it does to their roles.
use ingame.Prelude.{ℕ, ◌≡◌, not, ◌&&◌, ◌||◌, none, some, arith, ◌==◌, if◌then◌else◌}
use ingame.Errors.{ok, err, forbidden, group_admin_or_owner_required, group_owner_required}
use ingame.Db.Table.{one_or_none, update_rows, delete_rows}
use ingame.Db.Find.{find_row, one_or_none-eq-find}
use ingame.Db.Models.{User, GroupMembership, Role, is_admin}
use ingame.World.{World}
use ingame.Groups.Repo.{is_membership}
use ingame.Groups.MemberRepo.{with_role}
use ingame.Groups.Membership.{
  remove_member, update_member_role, transfer_ownership, ensure_may_remove_admin, ensure_may_remove,
  ensure_may_remove_reads, ensure_may_remove_admin_reads,
}
use ingame.Groups.Invariant.{IsSound}
use ingame.Groups.Rules.{
  role_of, succeeded, may_remove, may_change_role, may_transfer, is_staff_role, is_other_role,
  role_of-set_role, role_of-removed,
}

module _ (g : ℕ) (user : User) (target : ℕ) (w : World) (s : IsSound w.db) where
  found :
      (u : ℕ)
      → one_or_none (is_membership g u) w.memberships
        ≡ ok (find_row (is_membership g u) w.memberships)
  unfolding IsSound
  found u = one_or_none-eq-find (is_membership g u) w.memberships (s.0.members g u)

  leave_lem : (ensure_may_remove g user.id target w).0 ≡ (
      if user.id == target || is_staff_role (role_of g user.id w.memberships)
      then ok tt
      else err (forbidden group_admin_or_owner_required))
  unfolding ensure_may_remove role_of
  leave_lem = ground (arith, found user.id)

  admin_lem :
      (m : GroupMembership)
      → (ensure_may_remove_admin g user.id target m w).0 ≡ (
          if not (user.id == target)
            && is_admin m.role
            && is_other_role (role_of g user.id w.memberships)
          then err (forbidden group_owner_required)
          else ok tt)
  unfolding ensure_may_remove_admin role_of
  admin_lem m = ground (arith, found user.id)

  -- On sound tables, `remove_member` succeeds exactly when the table of the rules of removal allows it,
  -- from whether the actor leaves and the roles of the actor and the target.
  pub remove_member_decides :
      succeeded (remove_member g user target w).0
      ≡ may_remove
          (user.id == target)
          (role_of g user.id w.memberships)
          (role_of g target w.memberships)
  unfolding remove_member may_remove role_of
  remove_member_decides =
      grind
        (arith, leave_lem, admin_lem, ensure_may_remove_reads, ensure_may_remove_admin_reads, found)

  memberships-remove_member : (remove_member g user target w).1.memberships ≡ (
      if succeeded (remove_member g user target w).0
      then delete_rows (is_membership g target) w.memberships
      else w.memberships)
  unfolding remove_member
  memberships-remove_member = grind (arith, ensure_may_remove_reads, ensure_may_remove_admin_reads)

  memberships-update_member_role :
      (role : Role)
      → (update_member_role g user target role w).1.memberships ≡ (
          if succeeded (update_member_role g user target role w).0
          then update_rows (is_membership g target) (with_role role) w.memberships
          else w.memberships)
  unfolding update_member_role
  memberships-update_member_role role = grind arith

  memberships-transfer_ownership : (transfer_ownership g user target w).1.memberships ≡ (
      if succeeded (transfer_ownership g user target w).0
      then update_rows
          (is_membership g target)
          (with_role Role.owner)
          (update_rows (is_membership g user.id) (with_role Role.admin) w.memberships)
      else w.memberships)
  unfolding transfer_ownership
  memberships-transfer_ownership = grind arith

  -- On sound tables, `remove_member` takes the role of the target in the group if the rules of removal
  -- allow it, and changes no role otherwise, nor any other user's or any other group's.
  pub role_of-remove_member :
      (h v : ℕ)
      → role_of h v (remove_member g user target w).1.memberships ≡ (
          if may_remove
              (user.id == target)
              (role_of g user.id w.memberships)
              (role_of g target w.memberships)
            && h == g
            && v == target
          then none
          else role_of h v w.memberships)
  unfolding may_remove
  role_of-remove_member h v = ground (
    arith,
    remove_member_decides,
    memberships-remove_member,
    role_of-removed g target w.memberships h v,
  )

  -- On sound tables, `update_member_role` succeeds exactly when the actor is the owner, the target is
  -- a member but not the owner, and the new role is admin or member.
  pub update_member_role_decides :
      (role : Role)
      → succeeded (update_member_role g user target role w).0
        ≡ may_change_role role (role_of g user.id w.memberships) (role_of g target w.memberships)
  unfolding update_member_role may_change_role role_of
  update_member_role_decides role = ground (arith, found user.id, found target)

  -- On sound tables, `update_member_role` gives the target the new role in the group if the rules of
  -- role changes allow it, and changes no role otherwise, nor any other user's or any other group's.
  pub role_of-update_member_role :
      (role : Role) (h v : ℕ)
      → role_of h v (update_member_role g user target role w).1.memberships ≡ (
          if may_change_role role (role_of g user.id w.memberships) (role_of g target w.memberships)
            && h == g
            && v == target
          then some role
          else role_of h v w.memberships)
  unfolding may_change_role
  role_of-update_member_role role h v = ground (
    arith,
    update_member_role_decides role,
    memberships-update_member_role role,
    role_of-set_role g target w.memberships role h v,
  )

  -- On sound tables, `transfer_ownership` succeeds exactly when the actor is the owner and the target is
  -- another member.
  pub transfer_ownership_decides :
      succeeded (transfer_ownership g user target w).0
      ≡ may_transfer
          (user.id == target)
          (role_of g user.id w.memberships)
          (role_of g target w.memberships)
  unfolding transfer_ownership may_transfer role_of
  transfer_ownership_decides = ground (arith, found user.id, found target)

  -- On sound tables, `transfer_ownership` makes the target the owner of the group and the actor an admin
  -- if the rules of transfers allow it, and changes no role otherwise, nor any other user's or any
  -- other group's.
  pub role_of-transfer_ownership :
      (h v : ℕ)
      → role_of h v (transfer_ownership g user target w).1.memberships ≡ (
          if may_transfer
              (user.id == target)
              (role_of g user.id w.memberships)
              (role_of g target w.memberships)
            && h == g
          then (if v == target
              then some Role.owner
              else if v == user.id
              then some Role.admin
              else role_of h v w.memberships)
          else role_of h v w.memberships)
  unfolding may_transfer
  role_of-transfer_ownership h v = ground (
    arith,
    transfer_ownership_decides,
    memberships-transfer_ownership,
    role_of-set_role g target
        (update_rows (is_membership g user.id) (with_role Role.admin) w.memberships) Role.owner h v,
    role_of-set_role g user.id w.memberships Role.admin h v,
    role_of-set_role g user.id w.memberships Role.admin g target,
  )
