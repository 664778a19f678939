-- ===== src/JoinRequests/Service.antt =====
-- The services of join requests (backend/app/api/v1/join_requests/service.py).
use ingame.Prelude.{
  ℕ, String, Bool, false, not, ◌&&◌, ◌||◌, Option, none, some, List, [], ◌∷◌, is_some, ◌==◌,
  if◌then◌else◌,
}
use ingame.Errors.{
  Exec, ok, not_found, conflict, forbidden, attribute_error, group_not_found,
  group_invite_code_invalid, group_member_already_exists, join_request_not_found,
  join_request_pending_already_exists, join_request_admin_or_owner_required,
  join_request_not_required, join_request_already_resolved, raise_if, or_raise, pure, ◌>>=◌, ◌>>◌,
}
use ingame.Db.Models.{
  User, Group, JoinRequest, Role, RequestStatus, InviteCode, is_approval, is_pending, is_approved,
}
use ingame.Schemas.{JoinRequestDict, MyJoinRequestDict}
use ingame.Ws.Events.{join_request_created, join_request_resolved, member_joined}
use ingame.Notices.{join_request_pending, empty_payload}
use ingame.World.{World, publish, enqueue_notification}
use ingame.Groups.Repo.{get_by_id, get_by_invite_code, get_membership, get_user_by_id}
use ingame.Groups.MemberRepo.{add_member}
use ingame.Groups.Access.{lacks_staff}
use ingame.Groups.Service.{group_event}
use ingame.Groups.Membership.{name_or_unknown, avatar_of}
use ingame.JoinRequests.Repo.{
  create_join_request, get_join_request, list_pending_requests, list_pending_requests_for_user,
  resolve_join_request,
}

-- `for req in pending: if req.user_id == user.id: raise`
unfoldable pub is_requested_by : ℕ → List JoinRequest → Bool
is_requested_by u [] = false
is_requested_by u (r ∷ rs) = r.user_id == u || is_requested_by u rs

abbrev pub request_to_dict : JoinRequest → String → Option String → JoinRequestDict
request_to_dict r display_name avatar_url = record {
  id = r.id;
  user = record { id = r.user_id; display_name = display_name; avatar_url = avatar_url };
  group_id = r.group_id;
  status = r.status;
  created_at = r.created_at;
  resolved_by = r.resolved_by;
  resolved_at = r.resolved_at;
}

-- `_create_request_for_group`. The published dictionary has fewer keys than the one that is
-- returned; both are modelled by the latter.
unfoldable pub create_request_for_group : ℕ → ℕ → Group → User → Exec World JoinRequestDict
unfolding get_membership list_pending_requests is_requested_by create_join_request
create_request_for_group request_id now group user = do
  raise_if (not (is_approval group.join_mode)) (conflict join_request_not_required)
  existing_membership ← get_membership group.id user.id
  raise_if (is_some existing_membership) (conflict group_member_already_exists)
  pending ← list_pending_requests group.id
  raise_if (is_requested_by user.id pending) (conflict join_request_pending_already_exists)
  join_request ← create_join_request request_id now group.id user.id
  enqueue_notification (record {
    event_type = join_request_pending;
    group_id = group.id;
    actor_user_id = user.id;
    payload = empty_payload;
  })
  let result = request_to_dict join_request user.display_name user.avatar_url
  publish (group_event group.id (join_request_created result))
  pure result

unfoldable pub create_request : ℕ → ℕ → ℕ → User → Exec World JoinRequestDict
unfolding get_by_id create_request_for_group
create_request request_id now g user = do
  found ← get_by_id g
  group ← or_raise found (not_found group_not_found)
  raise_if (not group.is_discoverable) (not_found group_not_found)
  create_request_for_group request_id now group user

unfoldable pub create_request_by_invite_code :
    ℕ → ℕ → InviteCode → User → Exec World JoinRequestDict
unfolding get_by_invite_code create_request_for_group
create_request_by_invite_code request_id now code user = do
  found ← get_by_invite_code code
  group ← or_raise found (not_found group_invite_code_invalid)
  create_request_for_group request_id now group user

abbrev group_name_of : Option Group → String
group_name_of none = "Unknown"
group_name_of (some g) = g.name

abbrev my_request_to_dict : JoinRequest → Option Group → MyJoinRequestDict
my_request_to_dict r group = record {
  id = r.id;
  group_id = r.group_id;
  group_name = group_name_of group;
  status = r.status;
  created_at = r.created_at;
}

my_pending_dicts : List JoinRequest → Exec World (List MyJoinRequestDict)
unfolding get_by_id
my_pending_dicts [] = pure []
my_pending_dicts (r ∷ rs) = do
  group ← get_by_id r.group_id
  rest ← my_pending_dicts rs
  pure (my_request_to_dict r group ∷ rest)

unfoldable pub list_my_pending : User → Exec World (List MyJoinRequestDict)
unfolding list_pending_requests_for_user my_pending_dicts
list_my_pending user = do
  requests ← list_pending_requests_for_user user.id
  my_pending_dicts requests

pending_dicts : List JoinRequest → Exec World (List JoinRequestDict)
unfolding get_user_by_id
pending_dicts [] = pure []
pending_dicts (r ∷ rs) = do
  requester ← get_user_by_id r.user_id
  rest ← pending_dicts rs
  pure (request_to_dict r (name_or_unknown requester) (avatar_of requester) ∷ rest)

unfoldable pub list_pending_for_group : ℕ → User → Exec World (List JoinRequestDict)
unfolding get_membership list_pending_requests pending_dicts
list_pending_for_group g user = do
  membership ← get_membership g user.id
  raise_if (lacks_staff membership) (forbidden join_request_admin_or_owner_required)
  requests ← list_pending_requests g
  pending_dicts requests

-- `if status == "approved": await repo.add_member(...)`
unfoldable pub add_if_approved : ℕ → ℕ → RequestStatus → JoinRequest → Exec World (Unit {0})
unfolding add_member
add_if_approved membership_id now status r w =
    if is_approved status
    then (add_member membership_id now r.group_id r.user_id Role.member >> pure tt) w
    else (ok tt, w)

-- `if status == "approved" and requester: publish_member_joined(...)`
abbrev publish_if_joined : RequestStatus → JoinRequest → Option User → Exec World (Unit {0})
publish_if_joined status r none w = (ok tt, w)
publish_if_joined status r (some requester) w =
    if is_approved status
    then publish
        (group_event r.group_id
          (member_joined r.user_id requester.display_name requester.avatar_url Role.member))
        w
    else (ok tt, w)

unfoldable pub resolve_request : ℕ → ℕ → ℕ → RequestStatus → User → Exec World JoinRequestDict
unfolding get_join_request get_membership resolve_join_request add_if_approved get_user_by_id
resolve_request membership_id now request_id status user = do
  found ← get_join_request request_id
  join_request ← or_raise found (not_found join_request_not_found)
  membership ← get_membership join_request.group_id user.id
  raise_if (lacks_staff membership) (forbidden join_request_admin_or_owner_required)
  raise_if (not (is_pending join_request.status)) (conflict join_request_already_resolved)
  requester_membership ← get_membership join_request.group_id join_request.user_id
  raise_if (is_approved status && is_some requester_membership)
      (conflict group_member_already_exists)
  updated ← resolve_join_request request_id status user.id now
  add_if_approved membership_id now status join_request
  resolved ← or_raise updated attribute_error
  requester ← get_user_by_id resolved.user_id
  publish (
      group_event join_request.group_id
        (join_request_resolved request_id status join_request.user_id))
  publish_if_joined status join_request requester
  pure (request_to_dict resolved (name_or_unknown requester) (avatar_of requester))
