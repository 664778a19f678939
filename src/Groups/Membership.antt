-- ===== src/Groups/Membership.antt =====
-- The operations on a group's members (backend/app/api/v1/groups/service.py).
use ingame.Prelude.{
  ℕ, String, Bool, false, not, Option, none, some, List, [], ◌∷◌, is_some, ◌==◌, ◌&&◌, ◌≡◌, arith,
  if◌then◌else◌,
}
use ingame.Errors.{
  Exec, ok, not_found, conflict, forbidden, group_not_found, group_member_already_exists,
  group_owner_required, group_owner_cannot_leave, group_owner_cannot_be_removed,
  group_member_not_found, group_invalid_role_change, group_transfer_invalid_target, raise_if,
  or_raise, pure, ◌>>=◌, ◌>>◌,
}
use ingame.Db.Models.{
  User, Group, GroupMembership, Role, is_owner, is_admin, is_assignable, owner, admin,
}
use ingame.Schemas.{MemberDict}
use ingame.Ws.Events.{member_left, member_removed, member_role_changed}
use ingame.World.{World, publish}
use ingame.Groups.Repo.{
  get_by_id, get_membership, get_user_by_id, list_members as repo_list_members,
}
use ingame.Groups.MemberRepo.{
  add_member as repo_add_member, remove_member as repo_remove_member, update_membership_role,
  transfer_ownership as repo_transfer_ownership,
}
use ingame.Groups.Access.{ensure_admin_or_owner, ensure_owner, ensure_member}
use ingame.Groups.Service.{group_event}

unfoldable pub add_member : ℕ → ℕ → ℕ → User → ℕ → Role → Exec World (Unit {0})
unfolding ensure_admin_or_owner get_membership repo_add_member
add_member membership_id now g user target role = do
  ensure_admin_or_owner g user.id
  existing ← get_membership g target
  raise_if (is_some existing) (conflict group_member_already_exists)
  repo_add_member membership_id now g target role
  pure tt

-- `actor_membership and actor_membership.role != "owner"`
abbrev pub is_not_owner : Option GroupMembership → Bool
is_not_owner none = false
is_not_owner (some m) = not (is_owner m.role)

-- Only an admin or the owner may remove somebody else.
unfoldable pub ensure_may_remove : ℕ → ℕ → ℕ → Exec World (Unit {0})
unfolding ensure_admin_or_owner
ensure_may_remove g u target w = if u == target then (ok tt, w) else ensure_admin_or_owner g u w

-- Only the owner may remove an admin.
unfoldable pub ensure_may_remove_admin : ℕ → ℕ → ℕ → GroupMembership → Exec World (Unit {0})
unfolding get_membership
ensure_may_remove_admin g u target target_membership w =
    if not (u == target) && is_admin target_membership.role
    then (do
      actor_membership ← get_membership g u
      raise_if (is_not_owner actor_membership) (forbidden group_owner_required))
        w
    else (ok tt, w)

unfoldable pub remove_member : ℕ → User → ℕ → Exec World (Unit {0})
unfolding get_membership repo_remove_member
remove_member g user target = do
  ensure_may_remove g user.id target
  found ← get_membership g target
  target_membership ← or_raise found (not_found group_member_not_found)
  raise_if (is_owner target_membership.role) (
      forbidden
        (if user.id == target then group_owner_cannot_leave else group_owner_cannot_be_removed))
  ensure_may_remove_admin g user.id target target_membership
  removed ← repo_remove_member g target
  raise_if (not removed) (not_found group_member_not_found)
  publish (
      group_event g
        (if user.id == target then member_left target else member_removed target user.id))

module _ (g u target : ℕ) (w : World) where
  pub ensure_may_remove_reads : (ensure_may_remove g u target w).1 ≡ w
  unfolding ensure_may_remove
  ensure_may_remove_reads = ground arith

  pub ensure_may_remove_admin_reads :
      (m : GroupMembership) → (ensure_may_remove_admin g u target m w).1 ≡ w
  unfolding ensure_may_remove_admin
  ensure_may_remove_admin_reads m = ground arith

unfoldable pub leave_group : ℕ → User → Exec World (Unit {0})
unfolding remove_member
leave_group g user = remove_member g user user.id

-- `u.display_name if u else "Unknown"` and `u.avatar_url if u else None`
abbrev pub name_or_unknown : Option User → String
name_or_unknown none = "Unknown"
name_or_unknown (some u) = u.display_name

abbrev pub avatar_of : Option User → Option String
avatar_of none = none
avatar_of (some u) = u.avatar_url

abbrev member_to_dict : GroupMembership → Option User → MemberDict
member_to_dict m u = record {
  id = m.id;
  user_id = m.user_id;
  display_name = name_or_unknown u;
  avatar_url = avatar_of u;
  role = m.role;
  joined_at = m.joined_at;
}

members_to_dicts : List GroupMembership → Exec World (List MemberDict)
unfolding get_user_by_id
members_to_dicts [] = pure []
members_to_dicts (m ∷ ms) = do
  u ← get_user_by_id m.user_id
  rest ← members_to_dicts ms
  pure (member_to_dict m u ∷ rest)

abbrev ensure_may_list : ℕ → Option User → Exec World Group
ensure_may_list g (some user) = ensure_member g user.id
ensure_may_list g none = do found ← get_by_id g; or_raise found (not_found group_not_found)

unfoldable pub list_members : ℕ → Option User → Exec World (List MemberDict)
unfolding ensure_member get_by_id repo_list_members members_to_dicts
list_members g user = do
  ensure_may_list g user
  memberships ← repo_list_members g
  members_to_dicts memberships

unfoldable pub update_member_role : ℕ → User → ℕ → Role → Exec World (Unit {0})
unfolding ensure_owner get_membership update_membership_role
update_member_role g user target role = do
  ensure_owner g user.id group_owner_required
  found ← get_membership g target
  membership ← or_raise found (not_found group_member_not_found)
  raise_if (is_owner membership.role) (forbidden group_invalid_role_change)
  raise_if (not (is_assignable role)) (forbidden group_invalid_role_change)
  update_membership_role g target role
  publish (group_event g (member_role_changed target role))

unfoldable pub transfer_ownership : ℕ → User → ℕ → Exec World (Unit {0})
unfolding ensure_owner get_membership repo_transfer_ownership
transfer_ownership g user target = do
  ensure_owner g user.id group_owner_required
  raise_if (user.id == target) (forbidden group_transfer_invalid_target)
  found ← get_membership g target
  target_membership ← or_raise found (not_found group_member_not_found)
  raise_if (is_owner target_membership.role) (forbidden group_transfer_invalid_target)
  transferred ← repo_transfer_ownership g user.id target
  raise_if (not transferred) (not_found group_member_not_found)
  publish (group_event g (member_role_changed target owner))
  publish (group_event g (member_role_changed user.id admin))
