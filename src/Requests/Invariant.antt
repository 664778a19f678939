-- ===== src/Requests/Invariant.antt =====
-- The invariant of the tables over whole runs.
use ingame.Prelude.{◌≡◌, List, [], ◌∷◌, arith}
use ingame.Errors.{Exec, pure, ◌>>◌}
use ingame.Db.Models.{User}
use ingame.World.{World, transaction}
use ingame.Groups.Membership.{leave_group}
use ingame.Groups.Invariant.{IsSound}
use ingame.Groups.Preserve.{
  create_group-IsSound, update_group-IsSound, delete_group-IsSound, join_by_invite_code-IsSound,
  init_group_avatar_upload-IsSound, remove_member-IsSound, update_member_role-IsSound,
  transfer_ownership-IsSound,
}
use ingame.JoinRequests.Preserve.{
  create_request-IsSound, create_request_by_invite_code-IsSound, resolve_request-IsSound,
}
use ingame.Requests.{Outside, Request, handle, serve}

-- A transaction keeps what its body keeps, since a rollback restores the tables.
transaction-IsSound :
    {A : Type 0} (m : Exec World A) (w : World)
    → IsSound w.db
    → IsSound (m w).1.db
    → IsSound (transaction m w).1.db
unfolding transaction
transaction-IsSound m w s t = ground arith

discard-transaction :
    {A : Type 0} (m : Exec World A) (w : World)
    → (transaction (m >> pure tt) w).1 ≡ (transaction m w).1
unfolding transaction
discard-transaction m w = ground arith

discard-state : {A : Type 0} (m : Exec World A) (w : World) → ((m >> pure tt) w).1 ≡ (m w).1
discard-state m w = ground arith

pub handle-IsSound :
    (o : Outside) (user : User) (r : Request) (w : World)
    → IsSound w.db
    → IsSound (transaction (handle o user r) w).1.db
unfolding handle leave_group
handle-IsSound o user (Request.create_group i j now g) w s =
    rw discard-transaction (create_group-IsSound user w s o.draw i j now g)
handle-IsSound o user (Request.update_group now stamp g p) w s =
    transaction-IsSound _ w s
      (rw discard-state (update_group-IsSound g user w s o.managed_key now stamp p))
handle-IsSound o user (Request.delete_group g) w s =
    transaction-IsSound _ w s (rw discard-state (delete_group-IsSound g user w s))
handle-IsSound o user (Request.join_by_invite_code code id now) w s =
    transaction-IsSound _ w s (rw discard-state (join_by_invite_code-IsSound user w s code id now))
handle-IsSound o user (Request.init_group_avatar_upload id now g t size) w s =
    transaction-IsSound _ w s (
      rw discard-state
        (init_group_avatar_upload-IsSound g user w s o.presign o.max_size id now t size))
handle-IsSound o user (Request.remove_member g target) w s =
    transaction-IsSound _ w s (remove_member-IsSound g user w s target)
handle-IsSound o user (Request.leave_group g) w s =
    transaction-IsSound _ w s (remove_member-IsSound g user w s user.id)
handle-IsSound o user (Request.update_member_role g target role) w s =
    transaction-IsSound _ w s (update_member_role-IsSound g user w s target role)
handle-IsSound o user (Request.transfer_ownership g target) w s =
    transaction-IsSound _ w s (transfer_ownership-IsSound g user w s target)
handle-IsSound o user (Request.create_request id now g) w s =
    transaction-IsSound _ w s (rw discard-state (create_request-IsSound user w s id now g))
handle-IsSound o user (Request.create_request_by_invite_code id now code) w s =
    transaction-IsSound _ w s
      (rw discard-state (create_request_by_invite_code-IsSound user w s id now code))
handle-IsSound o user (Request.resolve_request mid now id status) w s =
    transaction-IsSound _ w s
      (rw discard-state (resolve_request-IsSound user w s mid now id status))

-- Whatever requests are served, in whatever order and with whatever ids, codes and stamps: if the
-- tables meet the invariant before, they meet it after. So ids and invite codes of groups stay
-- unique, a user is in a group at most once, every group that exists has exactly one owner, no
-- membership outlives its group, and a user has at most one pending request for a group.
pub serve-IsSound :
    (o : Outside) (requests : List (User × Request)) (w : World)
    → IsSound w.db
    → IsSound (serve o requests w).db
unfolding serve
serve-IsSound o [] w s = s
serve-IsSound o ((user, r) ∷ rest) w s =
    serve-IsSound o rest (transaction (handle o user r) w).1 (handle-IsSound o user r w s)
