-- ===== src/Requests/Resolved.antt =====
-- The life of a join request: pending until it is approved or denied once, with what each does to
-- the memberships.
use ingame.Prelude.{
  ℕ, ◌≡◌, refl, true, ◌&&◌, Option, none, some, List, arith, ◌==◌, if◌then◌else◌, Bool-cases, inl,
  inr, ◌++◌, [], ◌∷◌,
}
use ingame.Errors.{ok}
use ingame.Db.Table.{one_or_none, update_rows, insert_row-eq-ok}
use ingame.Db.Find.{
  find_row, one_or_none-eq-find, find-append_new, find-append_other, find-update_same,
}
use ingame.Db.Models.{
  User, JoinRequest, GroupMembership, Role, RequestStatus, is_pending, is_approved,
}
use ingame.World.{World}
use ingame.Groups.Repo.{is_membership}
use ingame.Groups.MemberRepo.{insert_membership}
use ingame.Groups.Invariant.{IsSound}
use ingame.Groups.Rules.{role_of, succeeded, is_staff_role}
use ingame.JoinRequests.Repo.{is_request, resolve}
use ingame.JoinRequests.Service.{resolve_request}

-- A request as the table has it.
unfoldable pub request_of : ℕ → World → Option JoinRequest
unfolding find_row
request_of id w = find_row (is_request id) w.join_requests

find-inserted :
    (g u : ℕ) (m : GroupMembership) (ms : List GroupMembership)
    → find_row (is_membership m.group_id m.user_id) ms ≡ none
    → role_of g u (ms ++ m ∷ [])
      ≡ (if g == m.group_id && u == m.user_id then some m.role else role_of g u ms)
unfolding role_of
find-inserted g u m ms e = elim (Bool-cases (g == m.group_id && u == m.user_id)) [
  | inl q ↦
      let a : g ≡ m.group_id = ground arith in
      let b : u ≡ m.user_id = ground arith in
      rw (a, b) (ground (arith, find-append_new (is_membership m.group_id m.user_id) ms m e))
  | inr q ↦ ground (arith, find-append_other (is_membership g u) ms m)
]

module _ (membership_id now id : ℕ) (status : RequestStatus) (user : User) (w : World)
    (s : IsSound w.db) where
  found :
      (g u : ℕ)
      → one_or_none (is_membership g u) w.memberships
        ≡ ok (find_row (is_membership g u) w.memberships)
  unfolding IsSound
  found g u = one_or_none-eq-find (is_membership g u) w.memberships (s.0.members g u)

  found_request : one_or_none (is_request id) w.join_requests ≡ ok (request_of id w)
  unfolding IsSound request_of
  found_request = one_or_none-eq-find (is_request id) w.join_requests (s.1.ids id)

  -- On sound tables, where `resolve_request` succeeds, the request was pending and the actor was an admin
  -- or the owner of its group.
  pub resolve_request_requires :
      (r : JoinRequest)
      → request_of id w ≡ some r
      → succeeded (resolve_request membership_id now id status user w).0 ≡ true
      → (is_pending r.status ≡ true)
        × (is_staff_role (role_of r.group_id user.id w.memberships) ≡ true)
  unfolding resolve_request role_of
  resolve_request_requires r e q =
      ground (arith, found_request, found r.group_id user.id, found r.group_id r.user_id)

  join_requests-resolve_request :
      (r : JoinRequest)
      → request_of id w ≡ some r
      → succeeded (resolve_request membership_id now id status user w).0 ≡ true
      → (resolve_request membership_id now id status user w).1.join_requests
        ≡ update_rows (is_request id) (resolve status user.id now) w.join_requests
  unfolding resolve_request
  join_requests-resolve_request r e q =
      ground (arith, found_request, found r.group_id user.id, found r.group_id r.user_id)

  -- On sound tables, where `resolve_request` succeeds, the request has the new status afterwards, with
  -- the actor and the time, and its other fields are as they were.
  pub request_of-resolve_request :
      (r : JoinRequest)
      → request_of id w ≡ some r
      → succeeded (resolve_request membership_id now id status user w).0 ≡ true
      → request_of id (resolve_request membership_id now id status user w).1
        ≡ some (record {
          id = r.id;
          user_id = r.user_id;
          group_id = r.group_id;
          status = status;
          created_at = r.created_at;
          resolved_at = some now;
          resolved_by = some user.id;
        })
  unfolding request_of
  request_of-resolve_request r e q = ground (
    arith,
    join_requests-resolve_request r e q,
    find-update_same (is_request id) (resolve status user.id now) w.join_requests {r = r}
        (λ x. refl) e,
  )

  memberships-resolve_request :
      (r : JoinRequest)
      → request_of id w ≡ some r
      → succeeded (resolve_request membership_id now id status user w).0 ≡ true
      → (if is_approved status
          then (find_row (is_membership r.group_id r.user_id) w.memberships ≡ none)
            × ((resolve_request membership_id now id status user w).1.memberships
                ≡ w.memberships
                  ++ record {
                    id = membership_id;
                    user_id = r.user_id;
                    group_id = r.group_id;
                    role = Role.member;
                    joined_at = now;
                  }
                    ∷ [])
          else ((resolve_request membership_id now id status user w).1.memberships ≡ w.memberships))
  unfolding resolve_request insert_membership
  memberships-resolve_request r e q =
      grind (
        arith,
        found_request,
        found r.group_id user.id,
        found r.group_id r.user_id,
        insert_row-eq-ok,
      )

  -- On sound tables, where `resolve_request` succeeds with the status approved, the requester is a member
  -- of the group afterwards and every other role is as it was; with any other status all roles are
  -- as they were.
  pub role_of-resolve_request :
      (r : JoinRequest) (g u : ℕ)
      → request_of id w ≡ some r
      → succeeded (resolve_request membership_id now id status user w).0 ≡ true
      → role_of g u (resolve_request membership_id now id status user w).1.memberships ≡ (
          if is_approved status && g == r.group_id && u == r.user_id
          then some Role.member
          else role_of g u w.memberships)
  role_of-resolve_request r g u e q =
      let m : GroupMembership = record {
        id = membership_id;
        user_id = r.user_id;
        group_id = r.group_id;
        role = Role.member;
        joined_at = now;
      } in
      ground (arith, memberships-resolve_request r e q, find-inserted g u m w.memberships)
