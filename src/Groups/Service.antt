-- ===== src/Groups/Service.antt =====
-- The operations on a group itself (backend/app/api/v1/groups/service.py). Ids, the clock and the
-- random invite codes are arguments.
use ingame.Prelude.{
  ℕ, zero, suc, ◌≡◌, refl, arith, ◌+◌, String, Bool, false, not, Option, none, some, is_some,
  str_eq, ltb, ◌||◌, if◌then◌else◌,
}
use ingame.Errors.{
  Exec, Result, not_found, conflict, forbidden, validation, attribute_error, group_not_found,
  group_invite_code_generation_failed, group_invite_code_invalid, group_member_already_exists,
  group_owner_required, group_delete_requires_owner, join_request_required,
  user_avatar_file_too_large, user_avatar_content_type_invalid, raise_if, or_raise, pure, asks,
  ◌>>=◌, ◌>>◌,
}
use ingame.Db.Models.{User, Group, Role, JoinMode, InviteCode, is_approval}
use ingame.Schemas.{GroupDict}
use ingame.Ws.Events.{Event, EventBody, group_updated, group_deleted, member_joined}
use ingame.World.{World, publish}
use ingame.Avatars.LedgerRepo.{create_pending, mark_committed}
use ingame.Groups.Repo.{
  GroupPatch, is_empty_patch, get_by_id, get_by_invite_code, get_membership, get_member_count,
  create, update, delete,
}
use ingame.Groups.MemberRepo.{add_member}
use ingame.Groups.Access.{
  ensure_admin_or_owner, ensure_owner, ensure_member, group_to_dict, avatar_url_to_cleanup,
}

-- The loop of `create_group` over at most `tries` random codes, of which `draw` is the stream; the
-- number of the code that was free, if any was.
abbrev code_free : Exec World (Option ℕ) → ℕ → Option Group → Exec World (Option ℕ)
code_free rest k none = pure (some k)
code_free rest k (some _) = rest

unfoldable pub find_code : (ℕ → InviteCode) → ℕ → ℕ → Exec World (Option ℕ)
find_code draw zero k = pure none
find_code draw (suc tries) k = do
  taken ← get_by_invite_code (draw k)
  code_free (find_code draw tries (k + 1)) k taken

pub find_code_reads :
    (draw : ℕ → InviteCode) (tries k : ℕ) (w : World) → (find_code draw tries k w).1 ≡ w
unfolding find_code get_by_invite_code
find_code_reads draw zero k w = refl
find_code_reads draw (suc tries) k w = ground (arith, find_code_reads draw tries (k + 1) w)

abbrev pub group_event : ℕ → EventBody → Event
group_event g body = record { group_id = some g; body = body }

-- What a request to create a group holds.
pub record NewGroup : Type 0 where
  pub name : String
  pub description : Option String
  pub is_discoverable : Bool
  pub join_mode : JoinMode
  pub avatar_url : Option String

abbrev pub new_group_row : ℕ → ℕ → InviteCode → ℕ → NewGroup → Group
new_group_row id now code user_id g = record {
  id = id;
  name = g.name;
  description = g.description;
  invite_code = code;
  is_discoverable = g.is_discoverable;
  join_mode = g.join_mode;
  avatar_url = g.avatar_url;
  created_by = user_id;
  created_at = now;
  updated_at = none;
}

unfoldable pub create_group : (ℕ → InviteCode) → ℕ → ℕ → ℕ → User → NewGroup → Exec World GroupDict
unfolding create add_member
create_group draw group_id membership_id now user g = do
  found ← find_code draw 5 0
  k ← or_raise found (conflict group_invite_code_generation_failed)
  group ← create (new_group_row group_id now (draw k) user.id g)
  add_member membership_id now group.id user.id Role.owner
  pure (group_to_dict group false 1)

unfoldable pub get_group : ℕ → User → Exec World (GroupDict)
unfolding ensure_member get_by_id get_member_count
get_group g user = do
  ensure_member g user.id
  found ← get_by_id g
  group ← or_raise found attribute_error
  member_count ← get_member_count g
  pure (group_to_dict group false member_count)

-- `avatar_url = kwargs.get("avatar_url")`, where it is a text and not empty
abbrev new_avatar : GroupPatch → Option String
new_avatar p = elim p.avatar_url [
  | none ↦ none
  | some none ↦ none
  | some (some url) ↦ if str_eq url "" then none else some url
]

abbrev commit_avatar : ℕ → ℕ → Option String → Exec World (Unit {0})
commit_avatar now u none = pure tt
commit_avatar now u (some url) = do mark_committed now u url; pure tt

-- `any(f in kwargs for f in owner_only_fields)`
abbrev pub is_owner_only : GroupPatch → Bool
is_owner_only p = is_some p.is_discoverable || is_some p.join_mode

unfoldable pub ensure_may_update : ℕ → ℕ → GroupPatch → Exec World (Unit {0})
unfolding ensure_owner ensure_admin_or_owner
ensure_may_update g u p w =
    if is_owner_only p then ensure_owner g u group_owner_required w else ensure_admin_or_owner g u w

pub ensure_may_update_reads :
    (g u : ℕ) (p : GroupPatch) (w : World) → (ensure_may_update g u p w).1 ≡ w
unfolding ensure_may_update
ensure_may_update_reads g u p w = ground arith

abbrev cleanup_of : (Option String → Option String) → Group → GroupPatch → Option String
cleanup_of managed_key group p = elim p.avatar_url [
  | none ↦ none
  | some next ↦ avatar_url_to_cleanup managed_key group.avatar_url next
]

-- `update_group` with no keyword argument
unfoldable unchanged_group : ℕ → Exec World (GroupDict × Option String × Bool)
unfolding get_by_id get_member_count
unchanged_group g = do
  found ← get_by_id g
  group ← or_raise found attribute_error
  member_count ← get_member_count g
  pure (group_to_dict group false member_count, none, false)

-- `update_group` with some: the new dictionary, the old avatar to clean up, and whether to sweep.
unfoldable changed_group :
    (Option String → Option String)
    → ℕ
    → Option ℕ
    → ℕ
    → User
    → GroupPatch
    → Exec World (GroupDict × Option String × Bool)
unfolding get_by_id get_member_count update
changed_group managed_key now stamp g user p = do
  found ← get_by_id g
  previous_group ← or_raise found (not_found group_not_found)
  updated ← update g p stamp
  group ← or_raise updated (not_found group_not_found)
  commit_avatar now user.id (new_avatar p)
  member_count ← get_member_count g
  let result = group_to_dict group false member_count
  publish (group_event g (group_updated result))
  pure (result, cleanup_of managed_key previous_group p, is_some p.avatar_url)

unfoldable update_allowed :
    (Option String → Option String)
    → ℕ
    → Option ℕ
    → ℕ
    → User
    → GroupPatch
    → Exec World (GroupDict × Option String × Bool)
unfolding unchanged_group changed_group
update_allowed managed_key now stamp g user p w =
    if is_empty_patch p then unchanged_group g w else changed_group managed_key now stamp g user p w

unfoldable pub update_group :
    (Option String → Option String)
    → ℕ
    → Option ℕ
    → ℕ
    → User
    → GroupPatch
    → Exec World (GroupDict × Option String × Bool)
unfolding update_allowed
update_group managed_key now stamp g user p = do
  ensure_may_update g user.id p
  update_allowed managed_key now stamp g user p

unfoldable pub delete_group : ℕ → User → Exec World ℕ
unfolding ensure_owner delete
delete_group g user = do
  ensure_owner g user.id group_delete_requires_owner
  deleted ← delete g
  raise_if (not deleted) (not_found group_not_found)
  publish (group_event g group_deleted)
  pure g

unfoldable pub join_by_invite_code : InviteCode → ℕ → ℕ → User → Exec World GroupDict
unfolding get_by_invite_code get_membership add_member get_member_count
join_by_invite_code code membership_id now user = do
  found ← get_by_invite_code code
  group ← or_raise found (not_found group_invite_code_invalid)
  existing ← get_membership group.id user.id
  raise_if (is_some existing) (conflict group_member_already_exists)
  raise_if (is_approval group.join_mode) (forbidden join_request_required)
  add_member membership_id now group.id user.id Role.member
  member_count ← get_member_count group.id
  publish
      (group_event group.id (member_joined user.id user.display_name user.avatar_url Role.member))
  pure (group_to_dict group false member_count)

-- `_ALLOWED_AVATAR_CONTENT_TYPES`
abbrev pub is_allowed_content_type : String → Bool
is_allowed_content_type t = str_eq t "image/jpeg" || str_eq t "image/png" || str_eq t "image/webp"

-- The two keys of a presigned upload that the services read.
pub record Upload : Type 0 where
  pub object_key : String
  pub avatar_url : String

-- `presign` is the avatar storage's `generate_group_avatar_upload`.
unfoldable pub init_group_avatar_upload :
    (ℕ → String → Result Upload) → ℕ → ℕ → ℕ → ℕ → User → String → ℕ → Exec World Upload
unfolding ensure_admin_or_owner
init_group_avatar_upload presign max_size record_id now g user content_type byte_size = do
  ensure_admin_or_owner g user.id
  raise_if (ltb max_size byte_size) (validation user_avatar_file_too_large)
  raise_if (not (is_allowed_content_type content_type))
      (validation user_avatar_content_type_invalid)
  upload ← asks (λ _. presign g content_type)
  create_pending record_id now user.id upload.object_key upload.avatar_url
  pure upload
