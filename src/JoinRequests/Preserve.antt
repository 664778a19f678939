-- ===== src/JoinRequests/Preserve.antt =====
-- Each operation on join requests keeps the invariant of the tables.
use ingame.Prelude.{ℕ, ◌≡◌, true, some, List, arith}
use ingame.Errors.{ok}
use ingame.Db.Table.{one_or_none, update_rows, insert_row-eq-ok}
use ingame.Db.Models.{User, JoinRequest, RequestStatus, InviteCode, is_pending}
use ingame.World.{Db, World}
use ingame.Groups.Invariant.{IsSound}
use ingame.Groups.RequestChanges.{request-RequestRows, resolve-RequestRows}
use ingame.Groups.Preserve.{insert_membership-IsSound}
use ingame.JoinRequests.Repo.{is_request, resolve, insert_request}
use ingame.JoinRequests.Service.{create_request, create_request_by_invite_code, resolve_request}

module _ (db : Db) (s : IsSound db) where
  insert_request-IsSound :
      (r : JoinRequest) {rows : List JoinRequest}
      → insert_request db r ≡ ok rows
      → IsSound (record db { join_requests = rows })
  unfolding IsSound insert_request
  insert_request-IsSound r e = (s.0, grind (arith, request-RequestRows s.1 r, insert_row-eq-ok))

  resolved-IsSound :
      (id : ℕ) (status : RequestStatus) (by now : ℕ) {r : JoinRequest}
      → one_or_none (is_request id) db.join_requests ≡ ok (some r)
      → is_pending r.status ≡ true
      → IsSound (record db {
        join_requests = update_rows (is_request id) (resolve status by now) db.join_requests;
      })
  unfolding IsSound
  resolved-IsSound id status by now e pending =
      (s.0, resolve-RequestRows s.1 id status by now e pending)

module _ (user : User) (w : World) (s : IsSound w.db) where
  pub create_request-IsSound : (id now g : ℕ) → IsSound (create_request id now g user w).1.db
  unfolding create_request
  create_request-IsSound id now g = grind (arith, insert_request-IsSound)

  pub create_request_by_invite_code-IsSound :
      (id now : ℕ) (code : InviteCode)
      → IsSound (create_request_by_invite_code id now code user w).1.db
  unfolding create_request_by_invite_code
  create_request_by_invite_code-IsSound id now code = grind (arith, insert_request-IsSound)

  pub resolve_request-IsSound :
      (membership_id now id : ℕ) (status : RequestStatus)
      → IsSound (resolve_request membership_id now id status user w).1.db
  unfolding resolve_request
  resolve_request-IsSound membership_id now id status =
      grind (arith, resolved-IsSound, insert_membership-IsSound)
