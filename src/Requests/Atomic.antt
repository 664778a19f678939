-- ===== src/Requests/Atomic.antt =====
-- A request that fails leaves nothing behind.
use ingame.Prelude.{ℕ, ◌≡◌, String, Option, arith}
use ingame.Errors.{Error, Result, Exec, err, pure, ◌>>◌}
use ingame.Db.Models.{User, Role, RequestStatus, InviteCode}
use ingame.World.{World, transaction}
use ingame.Groups.Repo.{GroupPatch}
use ingame.Groups.Access.{ensure_admin_or_owner_reads}
use ingame.Groups.Service.{NewGroup, Upload, find_code_reads, ensure_may_update_reads}
use ingame.Groups.Service.{
  create_group, update_group, delete_group, join_by_invite_code, init_group_avatar_upload,
}
use ingame.Groups.Membership.{
  leave_group, remove_member, update_member_role, transfer_ownership, ensure_may_remove_reads,
  ensure_may_remove_admin_reads,
}
use ingame.JoinRequests.Service.{create_request, create_request_by_invite_code, resolve_request}
use ingame.Avatars.LedgerRepo.{mark_committed, create_pending}
use ingame.Requests.{Outside, Request, handle}

-- Where the action raises, no task had been created before.
abbrev IsQuiet : {A : Type 0} → Exec World A → World → Type 0
IsQuiet m w =
    (e : Error)
    → (m w).0 ≡ err e
    → ((m w).1.published ≡ w.published) × ((m w).1.enqueued ≡ w.enqueued)

module _ (now u : ℕ) (url : String) (w : World) where
  published-mark_committed : (mark_committed now u url w).1.published ≡ w.published
  unfolding mark_committed
  published-mark_committed = ground arith

  enqueued-mark_committed : (mark_committed now u url w).1.enqueued ≡ w.enqueued
  unfolding mark_committed
  enqueued-mark_committed = ground arith

module _ (g : ℕ) (user : User) (w : World) where
  remove_member-IsQuiet : (target : ℕ) → IsQuiet (remove_member g user target) w
  unfolding remove_member
  remove_member-IsQuiet target e q =
      grind (arith, ensure_may_remove_reads, ensure_may_remove_admin_reads)

  update_member_role-IsQuiet :
      (target : ℕ) (role : Role) → IsQuiet (update_member_role g user target role) w
  unfolding update_member_role
  update_member_role-IsQuiet target role e q = grind arith

  transfer_ownership-IsQuiet : (target : ℕ) → IsQuiet (transfer_ownership g user target) w
  unfolding transfer_ownership
  transfer_ownership-IsQuiet target e q = grind arith

  delete_group-IsQuiet : IsQuiet (delete_group g user) w
  unfolding delete_group
  delete_group-IsQuiet e q = grind arith

  update_group-IsQuiet :
      (k : Option String → Option String) (now : ℕ) (stamp : Option ℕ) (p : GroupPatch)
      → IsQuiet (update_group k now stamp g user p) w
  unfolding update_group
  update_group-IsQuiet k now stamp p e q =
      grind (arith, ensure_may_update_reads, published-mark_committed, enqueued-mark_committed)

  init-IsQuiet :
      (presign : ℕ → String → Result Upload) (max_size id now : ℕ) (t : String) (size : ℕ)
      → IsQuiet (init_group_avatar_upload presign max_size id now g user t size) w
  unfolding init_group_avatar_upload create_pending
  init-IsQuiet presign max_size id now t size e q = grind (arith, ensure_admin_or_owner_reads)

module _ (user : User) (w : World) where
  create_group-IsQuiet :
      (draw : ℕ → InviteCode) (i j now : ℕ) (g : NewGroup)
      → IsQuiet (create_group draw i j now user g) w
  unfolding create_group
  create_group-IsQuiet draw i j now g e q = grind (arith, find_code_reads)

  join_by_invite_code-IsQuiet :
      (code : InviteCode) (id now : ℕ) → IsQuiet (join_by_invite_code code id now user) w
  unfolding join_by_invite_code
  join_by_invite_code-IsQuiet code id now e q = grind arith

  create_request-IsQuiet : (id now g : ℕ) → IsQuiet (create_request id now g user) w
  unfolding create_request
  create_request-IsQuiet id now g e q = grind arith

  create_request_by_invite_code-IsQuiet :
      (id now : ℕ) (code : InviteCode) → IsQuiet (create_request_by_invite_code id now code user) w
  unfolding create_request_by_invite_code
  create_request_by_invite_code-IsQuiet id now code e q = grind arith

  resolve_request-IsQuiet :
      (mid now id : ℕ) (status : RequestStatus) → IsQuiet (resolve_request mid now id status user) w
  unfolding resolve_request
  resolve_request-IsQuiet mid now id status e q = grind arith

discard-IsQuiet :
    {A : Type 0} (m : Exec World A) (w : World) → IsQuiet m w → IsQuiet (m >> pure tt) w
discard-IsQuiet m w h e q = ground (arith, h e)

handle-IsQuiet : (o : Outside) (user : User) (r : Request) (w : World) → IsQuiet (handle o user r) w
unfolding handle leave_group
handle-IsQuiet o user (Request.create_group i j now g) w =
    discard-IsQuiet (create_group o.draw i j now user g) w
      (create_group-IsQuiet user w o.draw i j now g)
handle-IsQuiet o user (Request.update_group now stamp g p) w =
    discard-IsQuiet (update_group o.managed_key now stamp g user p) w
      (update_group-IsQuiet g user w o.managed_key now stamp p)
handle-IsQuiet o user (Request.delete_group g) w =
    discard-IsQuiet (delete_group g user) w (delete_group-IsQuiet g user w)
handle-IsQuiet o user (Request.join_by_invite_code code id now) w =
    discard-IsQuiet (join_by_invite_code code id now user) w
      (join_by_invite_code-IsQuiet user w code id now)
handle-IsQuiet o user (Request.init_group_avatar_upload id now g t size) w =
    discard-IsQuiet (init_group_avatar_upload o.presign o.max_size id now g user t size) w
      (init-IsQuiet g user w o.presign o.max_size id now t size)
handle-IsQuiet o user (Request.remove_member g target) w = remove_member-IsQuiet g user w target
handle-IsQuiet o user (Request.leave_group g) w = remove_member-IsQuiet g user w user.id
handle-IsQuiet o user (Request.update_member_role g target role) w =
    update_member_role-IsQuiet g user w target role
handle-IsQuiet o user (Request.transfer_ownership g target) w =
    transfer_ownership-IsQuiet g user w target
handle-IsQuiet o user (Request.create_request id now g) w =
    discard-IsQuiet (create_request id now g user) w (create_request-IsQuiet user w id now g)
handle-IsQuiet o user (Request.create_request_by_invite_code id now code) w =
    discard-IsQuiet (create_request_by_invite_code id now code user) w
      (create_request_by_invite_code-IsQuiet user w id now code)
handle-IsQuiet o user (Request.resolve_request mid now id status) w =
    discard-IsQuiet (resolve_request mid now id status user) w
      (resolve_request-IsQuiet user w mid now id status)

rollback :
    {A : Type 0} (m : Exec World A) (w : World) (e : Error)
    → IsQuiet m w
    → (m w).0 ≡ err e
    → (transaction m w).1 ≡ w
unfolding transaction
rollback m w e h q = ground (arith, h e q)

-- A request that raises leaves the whole state as it was: the tables, and also the events and the
-- notifications, whose tasks a rollback could not take back.
pub failed_request_leaves_nothing :
    (o : Outside) (user : User) (r : Request) (w : World) (e : Error)
    → (handle o user r w).0 ≡ err e
    → (transaction (handle o user r) w).1 ≡ w
failed_request_leaves_nothing o user r w e q =
    rollback (handle o user r) w e (handle-IsQuiet o user r w) q
