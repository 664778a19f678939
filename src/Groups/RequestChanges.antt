-- ===== src/Groups/RequestChanges.antt =====
-- Each change that the services make to the rows of join requests keeps the invariant.
use ingame.Prelude.{ℕ, ◌≡◌, refl, Bool, true, ◌||◌, some, List, [], ◌∷◌, ◌++◌, arith, ◌==◌}
use ingame.Errors.{ok}
use ingame.Db.Table.{
  count, one_or_none, update_rows, delete_rows, count-insert, count-delete_rows, count-update_rows,
  count-update_rows_same, count-implied, one_or_none-count,
}
use ingame.Db.Models.{JoinRequest, RequestStatus, is_pending}
use ingame.JoinRequests.Repo.{is_request, is_pending_of, resolve}
use ingame.Groups.Invariant.{RequestRows}

module _ {requests : List JoinRequest} (s : RequestRows requests) where
  -- the flush of a new request
  pub request-RequestRows :
      (r : JoinRequest)
      → count (λ q. q.id == r.id || is_pending_of r.group_id r.user_id q) requests ≡ 0
      → RequestRows (requests ++ r ∷ [])
  request-RequestRows r fresh = record {
    ids = λ id. ground (
      arith,
      s.ids id,
      count-insert (is_request id) r requests,
      count-implied (is_request id) (λ q. q.id == r.id || is_pending_of r.group_id r.user_id q)
          requests,
    );
    pendings = λ g u. ground (
      arith,
      s.pendings g u,
      count-insert (is_pending_of g u) r requests,
      count-implied (is_pending_of g u) (λ q. q.id == r.id || is_pending_of r.group_id r.user_id q)
          requests,
    );
  }

  -- a pending request is resolved
  pub resolve-RequestRows :
      (id : ℕ) (status : RequestStatus) (by now : ℕ) {r : JoinRequest}
      → one_or_none (is_request id) requests ≡ ok (some r)
      → is_pending r.status ≡ true
      → RequestRows (update_rows (is_request id) (resolve status by now) requests)
  resolve-RequestRows id status by now e pending = record {
    ids = λ j.
        rw
          (count-update_rows_same (is_request j) (is_request id) (resolve status by now) requests
            (λ r _. refl))
          (s.ids j);
    pendings = λ g u. ground (
      arith,
      s.pendings g u,
      count-update_rows (is_pending_of g u) (is_request id) (resolve status by now) requests,
      one_or_none-count (is_request id) (is_pending_of g u) requests e,
      one_or_none-count (is_request id) (λ r. is_pending_of g u (resolve status by now r)) requests
          e,
    );
  }

  pub delete-RequestRows : (p : JoinRequest → Bool) → RequestRows (delete_rows p requests)
  delete-RequestRows p = record {
    ids = λ id. omega (arith, s.ids id, count-delete_rows (is_request id) p requests);
    pendings =
        λ g u. omega (arith, s.pendings g u, count-delete_rows (is_pending_of g u) p requests);
  }
