-- ===== src/JoinRequests/Repo.antt =====
-- The join requests of `GroupRepository` (backend/app/db/repositories/group_repo.py).
use ingame.Prelude.{ℕ, Bool, ◌&&◌, ◌||◌, Option, none, some, List, ◌==◌, if◌then◌else◌}
use ingame.Errors.{Exec, Result, ok, err, integrity_error, asks, ◌>>=◌}
use ingame.Db.Table.{select, one_or_none, update_rows, insert_row}
use ingame.Db.Models.{JoinRequest, RequestStatus, is_pending}
use ingame.World.{Db, World}
use ingame.Groups.Repo.{is_user, is_group, exists_row}

abbrev pub is_request : ℕ → JoinRequest → Bool
is_request id r = r.id == id

abbrev pub is_pending_of : ℕ → ℕ → JoinRequest → Bool
is_pending_of g u r = r.group_id == g && r.user_id == u && is_pending r.status

abbrev pub set_requests : List JoinRequest → World → World
set_requests rows w = record w { db = record w.db { join_requests = rows } }

abbrev pub store_request : JoinRequest → Result (List JoinRequest) → Exec World JoinRequest
store_request r (ok rows) w = (ok r, set_requests rows w)
store_request r (err e) w = (err e, w)

-- The flush of a new request: its user and group have rows, and the partial index of the table
-- lets a user have one pending request for a group.
unfoldable pub insert_request : Db → JoinRequest → Result (List JoinRequest)
insert_request db r =
    if exists_row (is_group r.group_id) db.groups && exists_row (is_user r.user_id) db.users
    then insert_row (λ s. s.id == r.id || is_pending_of r.group_id r.user_id s) r db.join_requests
    else err integrity_error

unfoldable pub create_join_request : ℕ → ℕ → ℕ → ℕ → Exec World JoinRequest
create_join_request id now g u w =
    let r : JoinRequest = record {
      id = id;
      user_id = u;
      group_id = g;
      status = RequestStatus.pending;
      created_at = now;
      resolved_by = none;
      resolved_at = none;
    } in
    store_request r (insert_request w.db r) w

unfoldable pub get_join_request : ℕ → Exec World (Option JoinRequest)
get_join_request id = asks (λ w. one_or_none (is_request id) w.join_requests)

unfoldable pub list_pending_requests : ℕ → Exec World (List JoinRequest)
list_pending_requests g =
    asks (λ w. ok (select (λ r. r.group_id == g && is_pending r.status) w.join_requests))

unfoldable pub list_pending_requests_for_user : ℕ → Exec World (List JoinRequest)
list_pending_requests_for_user u =
    asks (λ w. ok (select (λ r. r.user_id == u && is_pending r.status) w.join_requests))

unfoldable pub has_pending_request : ℕ → ℕ → Exec World Bool
has_pending_request g u = asks (λ w. ok (exists_row (is_pending_of g u) w.join_requests))

abbrev pub resolve : RequestStatus → ℕ → ℕ → JoinRequest → JoinRequest
resolve status by now r = record r {
  status = status;
  resolved_by = some by;
  resolved_at = some now;
}

abbrev pub resolve_found :
    ℕ → RequestStatus → ℕ → ℕ → Option JoinRequest → Exec World (Option JoinRequest)
resolve_found id status by now none w = (ok none, w)
resolve_found id status by now (some r) w = (
  ok (some (resolve status by now r)),
  set_requests (update_rows (is_request id) (resolve status by now) w.join_requests) w,
)

unfoldable pub resolve_join_request : ℕ → RequestStatus → ℕ → ℕ → Exec World (Option JoinRequest)
unfolding get_join_request
resolve_join_request id status by now = do
  found ← get_join_request id
  resolve_found id status by now found
