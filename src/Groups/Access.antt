-- ===== src/Groups/Access.antt =====
-- The guards of the group services, and the dictionary of a group
-- (backend/app/api/v1/groups/service.py).
use ingame.Prelude.{
  ℕ, String, Bool, not, Option, none, some, ◌||◌, str_eq, if◌then◌else◌, is_none, ◌≡◌, arith,
}
use ingame.Errors.{
  Exec, ErrorCode, not_found, forbidden, group_not_found, group_admin_or_owner_required,
  group_member_required, raise_if, or_raise, pure, ◌>>=◌, ◌>>◌,
}
use ingame.Db.Models.{Group, GroupMembership, is_owner, is_staff}
use ingame.Schemas.{GroupDict}
use ingame.World.{World}
use ingame.Groups.Repo.{get_by_id, get_membership}

-- `membership is None or membership.role not in ("owner", "admin")`
abbrev pub lacks_staff : Option GroupMembership → Bool
lacks_staff none = Bool.true
lacks_staff (some m) = not (is_staff m.role)

-- `membership is None or membership.role != "owner"`
abbrev pub lacks_owner : Option GroupMembership → Bool
lacks_owner none = Bool.true
lacks_owner (some m) = not (is_owner m.role)

-- `_ensure_admin_or_owner`
unfoldable pub ensure_admin_or_owner : ℕ → ℕ → Exec World (Unit {0})
unfolding get_membership
ensure_admin_or_owner g u = do
  membership ← get_membership g u
  raise_if (lacks_staff membership) (forbidden group_admin_or_owner_required)

-- `_ensure_owner`
unfoldable pub ensure_owner : ℕ → ℕ → ErrorCode → Exec World (Unit {0})
unfolding get_membership
ensure_owner g u code = do
  membership ← get_membership g u
  raise_if (lacks_owner membership) (forbidden code)

-- `_ensure_member`, with a user
unfoldable pub ensure_member : ℕ → ℕ → Exec World Group
unfolding get_by_id get_membership
ensure_member g u = do
  found ← get_by_id g
  group ← or_raise found (not_found group_not_found)
  membership ← get_membership g u
  raise_if (is_none membership) (forbidden group_member_required)
  pure group

module _ (g u : ℕ) (w : World) where
  pub ensure_admin_or_owner_reads : (ensure_admin_or_owner g u w).1 ≡ w
  unfolding ensure_admin_or_owner
  ensure_admin_or_owner_reads = ground arith

  pub ensure_owner_reads : (code : ErrorCode) → (ensure_owner g u code w).1 ≡ w
  unfolding ensure_owner
  ensure_owner_reads code = ground arith

  pub ensure_member_reads : (ensure_member g u w).1 ≡ w
  unfolding ensure_member
  ensure_member_reads = ground arith

-- `{**_group_to_dict(group, has_pending_join_request=pending), "member_count": count}`
abbrev pub group_to_dict : Group → Bool → ℕ → GroupDict
group_to_dict group pending member_count = record {
  id = group.id;
  name = group.name;
  description = group.description;
  invite_code = group.invite_code;
  is_discoverable = group.is_discoverable;
  join_mode = group.join_mode;
  avatar_url = group.avatar_url;
  created_by = group.created_by;
  created_at = group.created_at;
  updated_at = group.updated_at;
  has_pending_join_request = pending;
  member_count = member_count;
}

-- `not text` for a column that may be null
abbrev pub is_blank : Option String → Bool
is_blank none = Bool.true
is_blank (some s) = str_eq s ""

-- `a == b` for two columns that may be null
abbrev pub text_eq : Option String → Option String → Bool
text_eq none none = Bool.true
text_eq (some a) (some b) = str_eq a b
text_eq _ _ = Bool.false

-- `_group_avatar_url_to_cleanup`; `managed_key` stands for
-- `managed_avatar_object_key_from_public_url` of the avatar storage.
unfoldable pub avatar_url_to_cleanup :
    (Option String → Option String) → Option String → Option String → Option String
avatar_url_to_cleanup managed_key previous next =
    if is_blank previous || text_eq previous next
    then none
    else if is_none (managed_key previous)
    then none
    else previous
