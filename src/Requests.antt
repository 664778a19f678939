-- ===== src/Requests.antt =====
-- The requests that change groups, memberships and join requests, as the routes of
-- backend/app/api/v1/groups/routes.py and join_requests/routes.py hand them to the services, each in
-- a transaction of its own (backend/app/db/database.py, `get_db`).
pub mod Invariant
pub mod Atomic
pub mod Resolved
pub mod Final
mod Tests
use ingame.Prelude.{ℕ, String, Option, List, [], ◌∷◌}
use ingame.Errors.{Exec, Result, pure, ◌>>=◌, ◌>>◌}
use ingame.Db.Models.{User, Role, RequestStatus, InviteCode}
use ingame.World.{World, transaction}
use ingame.Groups.Repo.{GroupPatch}
use ingame.Groups
use ingame.JoinRequests
use ingame.Groups.Service.{NewGroup, Upload}

-- What comes from outside the services: the random codes, the avatar storage and its size limit.
pub record Outside : Type 0 where
  pub draw : ℕ → InviteCode
  pub managed_key : Option String → Option String
  pub presign : ℕ → String → Result Upload
  pub max_size : ℕ

-- A request with the ids and the stamps that its new rows get.
pub data Request : Type 0 where
  create_group : ℕ → ℕ → ℕ → NewGroup → Request
  update_group : ℕ → Option ℕ → ℕ → GroupPatch → Request
  delete_group : ℕ → Request
  join_by_invite_code : InviteCode → ℕ → ℕ → Request
  init_group_avatar_upload : ℕ → ℕ → ℕ → String → ℕ → Request
  remove_member : ℕ → ℕ → Request
  leave_group : ℕ → Request
  update_member_role : ℕ → ℕ → Role → Request
  transfer_ownership : ℕ → ℕ → Request
  create_request : ℕ → ℕ → ℕ → Request
  create_request_by_invite_code : ℕ → ℕ → InviteCode → Request
  resolve_request : ℕ → ℕ → ℕ → RequestStatus → Request

-- The handler of a request by `user`, its answer left out.
unfoldable pub handle : Outside → User → Request → Exec World (Unit {0})
handle o user (Request.create_group group_id membership_id now g) =
    Groups.Service.create_group o.draw group_id membership_id now user g >> pure tt
handle o user (Request.update_group now stamp g p) =
    Groups.Service.update_group o.managed_key now stamp g user p >> pure tt
handle o user (Request.delete_group g) = Groups.Service.delete_group g user >> pure tt
handle o user (Request.join_by_invite_code code id now) =
    Groups.Service.join_by_invite_code code id now user >> pure tt
handle o user (Request.init_group_avatar_upload id now g content_type size) =
    Groups.Service.init_group_avatar_upload o.presign o.max_size id now g user content_type size
    >> pure tt
handle o user (Request.remove_member g target) = Groups.Membership.remove_member g user target
handle o user (Request.leave_group g) = Groups.Membership.leave_group g user
handle o user (Request.update_member_role g target role) =
    Groups.Membership.update_member_role g user target role
handle o user (Request.transfer_ownership g target) =
    Groups.Membership.transfer_ownership g user target
handle o user (Request.create_request id now g) =
    JoinRequests.Service.create_request id now g user >> pure tt
handle o user (Request.create_request_by_invite_code id now code) =
    JoinRequests.Service.create_request_by_invite_code id now code user >> pure tt
handle o user (Request.resolve_request membership_id now id status) =
    JoinRequests.Service.resolve_request membership_id now id status user >> pure tt

-- The requests one after another; a request that raises is rolled back and the next one follows.
unfoldable pub serve : Outside → List (User × Request) → World → World
serve o [] w = w
serve o ((user, r) ∷ rest) w = serve o rest (transaction (handle o user r) w).1
