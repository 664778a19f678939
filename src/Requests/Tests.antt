-- ===== src/Requests/Tests.antt =====
-- Runs of the requests at concrete tables, and the theorems at them.
use ingame.Prelude.{
  ℕ, ◌≡◌, refl, true, false, none, some, List, [], ◌∷◌, arith, ◌⊎◌, if◌then◌else◌, ◌&&◌, ◌==◌,
}
use ingame.Errors.{ok, err, forbidden, group_owner_cannot_leave}
use ingame.Db.Models.{
  User, Role, JoinMode, RequestStatus, JoinRequest, code_eq, is_pending, is_approved,
}
use ingame.World.{World, empty_db, transaction}
use ingame.Groups.Service.{NewGroup, create_group, find_code}
use ingame.Db.Table.{count, insert_row, select, scalar_one_or_none, one_or_none, update_rows}
use ingame.Db.Find.{find_row}
use ingame.Groups.Repo.{exists_row, insert_group, get_by_invite_code}
use ingame.Groups.MemberRepo.{insert_membership, add_member}
use ingame.JoinRequests.Repo.{insert_request, create_join_request}
use ingame.Groups.Invariant.{IsSound}
use ingame.Groups.Membership.{
  ensure_may_remove, remove_member, update_member_role, transfer_ownership,
}
use ingame.Groups.Rules.{
  role_of, succeeded, is_staff_role, may_remove, may_change_role, may_transfer,
}
use ingame.Groups.Roles.{
  remove_member_decides, role_of-remove_member, update_member_role_decides,
  role_of-update_member_role, transfer_ownership_decides, role_of-transfer_ownership,
}
use ingame.JoinRequests.Service.{create_request, resolve_request, is_requested_by}
use ingame.Requests.{Outside, Request, handle, serve}
use ingame.Requests.Invariant.{serve-IsSound}
use ingame.Requests.Atomic.{failed_request_leaves_nothing}
use ingame.Requests.Resolved.{
  request_of, resolve_request_requires, request_of-resolve_request, role_of-resolve_request,
}
use ingame.Requests.Final.{resolved_is_final}

abbrev user_of : ℕ → User
user_of id = record {
  id = id;
  email = none;
  password_hash = none;
  display_name = "a name";
  avatar_url = none;
  bio = none;
  timezone = "UTC";
  preferred_gaming_hours = none;
  steam_id = none;
  apple_id = none;
  created_at = 0;
  updated_at = none;
}

abbrev outside : Outside
outside = record {
  draw = λ k. k ∷ [];
  managed_key = λ url. url;
  presign = λ g t. ok (record { object_key = "key"; avatar_url = "url" });
  max_size = 100;
}

abbrev new_group : NewGroup
new_group = record {
  name = "raiders";
  description = none;
  is_discoverable = true;
  join_mode = JoinMode.approval;
  avatar_url = none;
}

-- Users 1, 2, 3 and no group.
abbrev start : World
start = record {
  db = record empty_db { users = user_of 1 ∷ user_of 2 ∷ user_of 3 ∷ [] };
  published = [];
  enqueued = [];
}

start-IsSound : IsSound start.db
unfolding IsSound count
start-IsSound = (
  record {
    ids = λ g. grind arith;
    codes = λ c. grind arith;
    members = λ g u. grind arith;
    owners = λ g. refl;
    orphans = λ g e. refl;
  },
  record { ids = λ id. grind arith; pendings = λ g u. grind arith },
)

-- User 1 makes group 10, user 2 asks to join and user 1 agrees, then user 3 asks.
abbrev requests : List (User × Request)
requests =
    (user_of 1, Request.create_group 10 20 5 new_group)
    ∷ (user_of 2, Request.create_request 30 6 10)
    ∷ (user_of 1, Request.resolve_request 21 7 30 RequestStatus.approved)
    ∷ (user_of 3, Request.create_request 31 8 10)
    ∷ []

unfoldable busy : World
unfolding serve
busy = serve outside requests start

busy-IsSound : IsSound busy.db
unfolding busy
busy-IsSound = serve-IsSound outside requests start start-IsSound

serve-IsSound_example : IsSound (serve outside requests start).db
serve-IsSound_example = serve-IsSound outside requests start start-IsSound

abbrev waiting : JoinRequest
waiting = record {
  id = 31;
  user_id = 3;
  group_id = 10;
  status = RequestStatus.pending;
  created_at = 8;
  resolved_by = none;
  resolved_at = none;
}

abbrev granted : JoinRequest
granted = record {
  id = 30;
  user_id = 2;
  group_id = 10;
  status = RequestStatus.approved;
  created_at = 6;
  resolved_by = some 1;
  resolved_at = some 7;
}

busy_lem :
    (role_of 10 1 busy.memberships ≡ some Role.owner)
    × (role_of 10 2 busy.memberships ≡ some Role.member)
    × (request_of 31 busy ≡ some waiting)
    × (request_of 30 busy ≡ some granted)
    × (succeeded (resolve_request 22 9 31 RequestStatus.approved (user_of 1) busy).0 ≡ true)
    × ((handle outside (user_of 1) (Request.remove_member 10 1) busy).0
        ≡ err (forbidden group_owner_cannot_leave))
unfolding busy ensure_may_remove role_of request_of serve handle transaction create_group
    create_request resolve_request find_code count insert_row find_row select scalar_one_or_none
    one_or_none exists_row insert_group insert_membership insert_request code_eq is_requested_by
    create_join_request add_member remove_member get_by_invite_code update_rows
busy_lem = (refl, refl, refl, refl, refl, refl)

failed_request_leaves_nothing_example :
    (transaction (handle outside (user_of 1) (Request.remove_member 10 1)) busy).1 ≡ busy
failed_request_leaves_nothing_example =
    failed_request_leaves_nothing outside (user_of 1) (Request.remove_member 10 1) busy
      (forbidden group_owner_cannot_leave) busy_lem.5

remove_member_decides_example :
    succeeded (remove_member 10 (user_of 1) 2 busy).0
    ≡ may_remove false (role_of 10 1 busy.memberships) (role_of 10 2 busy.memberships)
remove_member_decides_example = remove_member_decides 10 (user_of 1) 2 busy busy-IsSound

role_of-remove_member_example : role_of 10 2 (remove_member 10 (user_of 1) 2 busy).1.memberships ≡ (
    if may_remove false (role_of 10 1 busy.memberships) (role_of 10 2 busy.memberships)
      && 10 == 10
      && 2 == 2
    then none
    else role_of 10 2 busy.memberships)
role_of-remove_member_example = role_of-remove_member 10 (user_of 1) 2 busy busy-IsSound 10 2

update_member_role_decides_example :
    succeeded (update_member_role 10 (user_of 1) 2 Role.admin busy).0
    ≡ may_change_role Role.admin (role_of 10 1 busy.memberships) (role_of 10 2 busy.memberships)
update_member_role_decides_example =
    update_member_role_decides 10 (user_of 1) 2 busy busy-IsSound Role.admin

role_of-update_member_role_example :
    role_of 10 2 (update_member_role 10 (user_of 1) 2 Role.admin busy).1.memberships ≡ (
      if may_change_role Role.admin (role_of 10 1 busy.memberships) (role_of 10 2 busy.memberships)
        && 10 == 10
        && 2 == 2
      then some Role.admin
      else role_of 10 2 busy.memberships)
role_of-update_member_role_example =
    role_of-update_member_role 10 (user_of 1) 2 busy busy-IsSound Role.admin 10 2

transfer_ownership_decides_example :
    succeeded (transfer_ownership 10 (user_of 1) 2 busy).0
    ≡ may_transfer false (role_of 10 1 busy.memberships) (role_of 10 2 busy.memberships)
transfer_ownership_decides_example = transfer_ownership_decides 10 (user_of 1) 2 busy busy-IsSound

role_of-transfer_ownership_example :
    role_of 10 1 (transfer_ownership 10 (user_of 1) 2 busy).1.memberships ≡ (
      if may_transfer false (role_of 10 1 busy.memberships) (role_of 10 2 busy.memberships)
        && 10 == 10
      then (if 1 == 2
          then some Role.owner
          else if 1 == 1
          then some Role.admin
          else role_of 10 1 busy.memberships)
      else role_of 10 1 busy.memberships)
role_of-transfer_ownership_example =
    role_of-transfer_ownership 10 (user_of 1) 2 busy busy-IsSound 10 1

resolve_request_requires_example :
    (is_pending waiting.status ≡ true) × (is_staff_role (role_of 10 1 busy.memberships) ≡ true)
resolve_request_requires_example =
    resolve_request_requires 22 9 31 RequestStatus.approved (user_of 1) busy busy-IsSound waiting
      busy_lem.2 busy_lem.4

request_of-resolve_request_example :
    request_of 31 (resolve_request 22 9 31 RequestStatus.approved (user_of 1) busy).1
    ≡ some (record waiting {
      status = RequestStatus.approved;
      resolved_by = some 1;
      resolved_at = some 9;
    })
request_of-resolve_request_example =
    request_of-resolve_request 22 9 31 RequestStatus.approved (user_of 1) busy busy-IsSound waiting
      busy_lem.2 busy_lem.4

role_of-resolve_request_example :
    role_of 10 3 (resolve_request 22 9 31 RequestStatus.approved (user_of 1) busy).1.memberships ≡ (
      if is_approved RequestStatus.approved && 10 == 10 && 3 == 3
      then some Role.member
      else role_of 10 3 busy.memberships)
role_of-resolve_request_example =
    role_of-resolve_request 22 9 31 RequestStatus.approved (user_of 1) busy busy-IsSound waiting 10
      3 busy_lem.2 busy_lem.4

resolved_is_final_example :
    (request_of 30 (transaction (handle outside (user_of 1) (Request.delete_group 10)) busy).1
      ≡ some granted)
    ⊎ (request_of 30 (transaction (handle outside (user_of 1) (Request.delete_group 10)) busy).1
        ≡ none)
resolved_is_final_example =
    resolved_is_final 30 granted (user_of 1) busy busy-IsSound busy_lem.3 refl outside
      (Request.delete_group 10)
