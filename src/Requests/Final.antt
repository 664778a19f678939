-- ===== src/Requests/Final.antt =====
-- A join request that has been resolved stays as it is.
use ingame.Prelude.{
  ℕ, ◌≡◌, Bool, true, false, Option, none, some, List, arith, ◌==◌, ◌⊎◌, inl, inr, String, ◌≤◌,
  Bool-cases,
}
use ingame.Errors.{Result, ok, Exec, pure, ◌>>◌}
use ingame.Db.Table.{one_or_none, update_rows, delete_rows, insert_row-eq-ok, count}
use ingame.Db.Find.{
  find_row, one_or_none-eq-find, find-update_other, find-delete_unique, find-append_kept,
}
use ingame.Db.Models.{User, JoinRequest, Role, RequestStatus, InviteCode, is_pending}
use ingame.World.{Db, World, transaction}
use ingame.Groups.Repo.{GroupPatch, delete_group_rows}
use ingame.Groups.Access.{ensure_admin_or_owner_reads}
use ingame.Groups.Service.{NewGroup, Upload, find_code_reads, ensure_may_update_reads}
use ingame.Groups.Service.{
  create_group, update_group, delete_group, join_by_invite_code, init_group_avatar_upload,
}
use ingame.Groups.Membership.{
  remove_member, update_member_role, transfer_ownership, ensure_may_remove_reads,
  ensure_may_remove_admin_reads, leave_group,
}
use ingame.Groups.Invariant.{IsSound}
use ingame.Avatars.LedgerRepo.{mark_committed, create_pending}
use ingame.JoinRequests.Repo.{is_request, resolve, insert_request}
use ingame.JoinRequests.Service.{create_request, create_request_by_invite_code, resolve_request}
use ingame.Requests.{Outside, Request, handle}
use ingame.Requests.Resolved.{request_of}

module _ (id : ℕ) (r : JoinRequest) where
  -- The row is as it was, or went with its group.
  abbrev pub IsKept : List JoinRequest → Type 0
  IsKept rows = (find_row (is_request id) rows ≡ some r) ⊎ (find_row (is_request id) rows ≡ none)

  deleted-IsKept :
      (q : JoinRequest → Bool) (rows : List JoinRequest)
      → count (is_request id) rows ≤ 1
      → find_row (is_request id) rows ≡ some r
      → IsKept (delete_rows q rows)
  deleted-IsKept q rows h e = ground (arith, find-delete_unique (is_request id) q rows {r = r} h e)

  inserted-IsKept :
      (db : Db) (t : JoinRequest) {rows : List JoinRequest}
      → find_row (is_request id) db.join_requests ≡ some r
      → insert_request db t ≡ ok rows
      → IsKept rows
  unfolding insert_request
  inserted-IsKept db t e q = inl (
      grind
        (arith, insert_row-eq-ok, find-append_kept (is_request id) db.join_requests t {r = r} e))

  same :
      (rows : List JoinRequest) {t : JoinRequest} (other : ℕ)
      → id ≡ other
      → one_or_none (is_request other) rows ≡ ok (some t)
      → one_or_none (is_request id) rows ≡ ok (some t)
  same rows other b q = rw b q

  resolved-IsKept :
      (other : ℕ) (status : RequestStatus) (by now : ℕ) (rows : List JoinRequest) (t : JoinRequest)
      → count (is_request id) rows ≤ 1
      → find_row (is_request id) rows ≡ some r
      → is_pending r.status ≡ false
      → one_or_none (is_request other) rows ≡ ok (some t)
      → is_pending t.status ≡ true
      → IsKept (update_rows (is_request other) (resolve status by now) rows)
  resolved-IsKept other status by now rows t h e p q pending = elim (Bool-cases (id == other)) [
    | inl a ↦
        let b : id ≡ other = ground arith in
        ground (arith, one_or_none-eq-find (is_request id) rows h, same rows other b q)
    | inr a ↦ ground (
      arith,
      find-update_other (is_request id) (is_request other) (resolve status by now) rows
          (λ x y. ground arith) (λ x y. ground arith),
    )
  ]

join_requests-mark_committed :
    (now u : ℕ) (url : String) (w : World)
    → (mark_committed now u url w).1.join_requests ≡ w.join_requests
unfolding mark_committed
join_requests-mark_committed now u url w = ground arith

module _ (user : User) (w : World) where
  create_group-same :
      (draw : ℕ → InviteCode) (i j now : ℕ) (g : NewGroup)
      → (create_group draw i j now user g w).1.join_requests ≡ w.join_requests
  unfolding create_group
  create_group-same draw i j now g = grind (arith, find_code_reads)

  update_group-same :
      (k : Option String → Option String) (now : ℕ) (stamp : Option ℕ) (g : ℕ) (c : GroupPatch)
      → (update_group k now stamp g user c w).1.join_requests ≡ w.join_requests
  unfolding update_group
  update_group-same k now stamp g c =
      grind (arith, ensure_may_update_reads, join_requests-mark_committed)

  join-same :
      (code : InviteCode) (i now : ℕ)
      → (join_by_invite_code code i now user w).1.join_requests ≡ w.join_requests
  unfolding join_by_invite_code
  join-same code i now = grind arith

  init-same :
      (presign : ℕ → String → Result Upload) (max_size i now g : ℕ) (t : String) (size : ℕ)
      → (init_group_avatar_upload presign max_size i now g user t size w).1.join_requests
        ≡ w.join_requests
  unfolding init_group_avatar_upload create_pending
  init-same presign max_size i now g t size = grind (arith, ensure_admin_or_owner_reads)

  remove_member-same :
      (g target : ℕ) → (remove_member g user target w).1.join_requests ≡ w.join_requests
  unfolding remove_member
  remove_member-same g target =
      grind (arith, ensure_may_remove_reads, ensure_may_remove_admin_reads)

  update_member_role-same :
      (g target : ℕ) (role : Role)
      → (update_member_role g user target role w).1.join_requests ≡ w.join_requests
  unfolding update_member_role
  update_member_role-same g target role = grind arith

  transfer_ownership-same :
      (g target : ℕ) → (transfer_ownership g user target w).1.join_requests ≡ w.join_requests
  unfolding transfer_ownership
  transfer_ownership-same g target = grind arith

module _ (id : ℕ) (r : JoinRequest) (user : User) (w : World) (s : IsSound w.db)
    (e : request_of id w ≡ some r) (p : is_pending r.status ≡ false) where
  row : find_row (is_request id) w.join_requests ≡ some r
  unfolding request_of
  row = e

  unique : count (is_request id) w.join_requests ≤ 1
  unfolding IsSound
  unique = s.1.ids id

  create_request-IsKept :
      (i now g : ℕ) → IsKept id r (create_request i now g user w).1.join_requests
  unfolding create_request
  create_request-IsKept i now g = grind (arith, inserted-IsKept id r, row)

  by_code-IsKept :
      (i now : ℕ) (code : InviteCode)
      → IsKept id r (create_request_by_invite_code i now code user w).1.join_requests
  unfolding create_request_by_invite_code
  by_code-IsKept i now code = grind (arith, inserted-IsKept id r, row)

  resolve_request-IsKept :
      (mid now i : ℕ) (status : RequestStatus)
      → IsKept id r (resolve_request mid now i status user w).1.join_requests
  unfolding resolve_request
  resolve_request-IsKept mid now i status = grind (arith, resolved-IsKept id r, row, unique, p)

  delete_group-IsKept : (g : ℕ) → IsKept id r (delete_group g user w).1.join_requests
  unfolding delete_group delete_group_rows
  delete_group-IsKept g = grind (arith, deleted-IsKept id r, row, unique)

  same-IsKept : {rows : List JoinRequest} → rows ≡ w.join_requests → IsKept id r rows
  same-IsKept q = inl (rw q row)

  transaction-IsKept :
      {A : Type 0} (m : Exec World A)
      → IsKept id r (m w).1.join_requests
      → IsKept id r (transaction m w).1.join_requests
  unfolding transaction
  transaction-IsKept m k = ground (arith, row)

  discard-IsKept :
      {A : Type 0} (m : Exec World A)
      → IsKept id r (m w).1.join_requests
      → IsKept id r ((m >> pure tt) w).1.join_requests
  discard-IsKept m k = ground arith

  handle-IsKept : (o : Outside) (q : Request) → IsKept id r (handle o user q w).1.join_requests
  unfolding handle leave_group
  handle-IsKept o (Request.create_group i j now g) =
      discard-IsKept (create_group o.draw i j now user g)
        (same-IsKept (create_group-same user w o.draw i j now g))
  handle-IsKept o (Request.update_group now stamp g c) =
      discard-IsKept (update_group o.managed_key now stamp g user c)
        (same-IsKept (update_group-same user w o.managed_key now stamp g c))
  handle-IsKept o (Request.delete_group g) =
      discard-IsKept (delete_group g user) (delete_group-IsKept g)
  handle-IsKept o (Request.join_by_invite_code code i now) =
      discard-IsKept (join_by_invite_code code i now user)
        (same-IsKept (join-same user w code i now))
  handle-IsKept o (Request.init_group_avatar_upload i now g t size) =
      discard-IsKept (init_group_avatar_upload o.presign o.max_size i now g user t size)
        (same-IsKept (init-same user w o.presign o.max_size i now g t size))
  handle-IsKept o (Request.remove_member g target) =
      same-IsKept (remove_member-same user w g target)
  handle-IsKept o (Request.leave_group g) = same-IsKept (remove_member-same user w g user.id)
  handle-IsKept o (Request.update_member_role g target role) =
      same-IsKept (update_member_role-same user w g target role)
  handle-IsKept o (Request.transfer_ownership g target) =
      same-IsKept (transfer_ownership-same user w g target)
  handle-IsKept o (Request.create_request i now g) =
      discard-IsKept (create_request i now g user) (create_request-IsKept i now g)
  handle-IsKept o (Request.create_request_by_invite_code i now code) =
      discard-IsKept (create_request_by_invite_code i now code user) (by_code-IsKept i now code)
  handle-IsKept o (Request.resolve_request mid now i status) =
      discard-IsKept (resolve_request mid now i status user)
        (resolve_request-IsKept mid now i status)

  -- On sound tables, a join request that is not pending is left as it is by every request that is served,
  -- with its answer, who gave it and when, or it is gone.
  pub resolved_is_final :
      (o : Outside) (q : Request)
      → (request_of id (transaction (handle o user q) w).1 ≡ some r)
        ⊎ (request_of id (transaction (handle o user q) w).1 ≡ none)
  unfolding request_of
  resolved_is_final o q = transaction-IsKept (handle o user q) (handle-IsKept o q)
