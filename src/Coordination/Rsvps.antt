-- ===== src/Coordination/Rsvps.antt =====
-- What the session services do to the answers of users, and who may call them.
use ingame.Prelude.{
  ℕ, ◌≤◌, ◌≡◌, refl, Bool, true, ◌&&◌, ◌||◌, Option, none, some, List, [], ◌∷◌, ◌++◌, arith, ◌==◌,
  is_some, if◌then◌else◌, Bool-cases, Option-cases, inl, inr, ap, ◌∙◌,
}
use ingame.Errors.{ok}
use ingame.Time.{DateTime}
use ingame.Db.Table.{count, one_or_none, update_rows, insert_row-eq-ok}
use ingame.Db.Find.{
  find_row, one_or_none-eq-find, find-update_same, find-update_other, find-append_new,
  find-append_other,
}
use ingame.Db.Models.{User, Session, SessionRsvp, GroupActivityEvent, RsvpAnswer, GroupMembership}
use ingame.World.{World}
use ingame.Groups.Repo.{is_membership}
use ingame.Groups.Invariant.{IsSound}
use ingame.Groups.Rules.{role_of, is_staff_role, succeeded}
use ingame.Coordination.Repo.{
  is_session, is_rsvp, answered, insert_rsvp, SessionPatch, create_activity_event,
}
use ingame.Coordination.Responses.{rsvp_to_response, activity_to_response}
use ingame.Coordination.Access.{ensure_member, ensure_session_editor}
use ingame.Coordination.Sessions.{upsert_rsvp, update_session, delete_session}

-- The answer of a user to a session, if there is one.
unfoldable pub rsvp_of : ℕ → ℕ → List SessionRsvp → Option RsvpAnswer
unfolding find_row
rsvp_of s u rows = elim (find_row (is_rsvp s u) rows) [ none ↦ none | some r ↦ some r.response ]

module _ (id u : ℕ) (rows : List SessionRsvp) where
  rsvp_of-answered :
      (response : RsvpAnswer) (stamp : DateTime) (s v : ℕ) {r : SessionRsvp}
      → find_row (is_rsvp id u) rows ≡ some r
      → rsvp_of s v (update_rows (is_rsvp id u) (answered response stamp) rows)
        ≡ (if s == id && v == u then some response else rsvp_of s v rows)
  unfolding rsvp_of
  rsvp_of-answered response stamp s v {r} e = elim (Bool-cases (s == id && v == u)) [
    | inl q ↦
        let a : s ≡ id = ground arith in
        let b : v ≡ u = ground arith in
        rw (a, b)
          (ground (
            arith,
            find-update_same (is_rsvp id u) (answered response stamp) rows {r = r} (λ t. refl) e,
          ))
    | inr q ↦ ground (
      arith,
      find-update_other (is_rsvp s v) (is_rsvp id u) (answered response stamp) rows
          (λ t x. ground arith) (λ t x. ground arith),
    )
  ]

  rsvp_of-inserted :
      (t : SessionRsvp) (s v : ℕ)
      → t.session_id ≡ id
      → t.user_id ≡ u
      → find_row (is_rsvp id u) rows ≡ none
      → rsvp_of s v (rows ++ t ∷ [])
        ≡ (if s == id && v == u then some t.response else rsvp_of s v rows)
  unfolding rsvp_of
  rsvp_of-inserted t s v x y e = elim (Bool-cases (s == id && v == u)) [
    | inl q ↦
        let a : s ≡ id = ground arith in
        let b : v ≡ u = ground arith in
        rw (a, b) (ground (arith, x, y, find-append_new (is_rsvp id u) rows t e))
    | inr q ↦ ground (arith, x, y, find-append_other (is_rsvp s v) rows t)
  ]

module _ (g u : ℕ) (w : World) where
  ensure_member_reads : (ensure_member g u w).1 ≡ w
  unfolding ensure_member
  ensure_member_reads = ground arith

  ensure_session_editor_reads : (session : Session) → (ensure_session_editor session u w).1 ≡ w
  unfolding ensure_session_editor
  ensure_session_editor_reads session = ground arith

rsvp_to_response_reads : (r : SessionRsvp) (w : World) → (rsvp_to_response r w).1 ≡ w
unfolding rsvp_to_response
rsvp_to_response_reads r w = ground arith

activity_to_response_reads : (r : GroupActivityEvent) (w : World) → (activity_to_response r w).1 ≡ w
unfolding activity_to_response
activity_to_response_reads r w = ground arith

rsvps-create_activity_event :
    (r : GroupActivityEvent) (w : World) → (create_activity_event r w).1.rsvps ≡ w.rsvps
unfolding create_activity_event
rsvps-create_activity_event r w = ground arith

module _ (rsvp_id activity_id now : ℕ) (stamp : DateTime) (g id : ℕ) (user : User)
    (response : RsvpAnswer) (w : World) (once : count (is_rsvp id user.id) w.rsvps ≤ 1) where
  abbrev new_rsvp : SessionRsvp
  new_rsvp = record {
    id = rsvp_id;
    session_id = id;
    user_id = user.id;
    response = response;
    updated_at = stamp;
  }

  found : one_or_none (is_rsvp id user.id) w.rsvps ≡ ok (find_row (is_rsvp id user.id) w.rsvps)
  found = one_or_none-eq-find (is_rsvp id user.id) w.rsvps once

  rsvps-upsert_rsvp :
      succeeded (upsert_rsvp rsvp_id activity_id now stamp g id user response w).0 ≡ true
      → (upsert_rsvp rsvp_id activity_id now stamp g id user response w).1.rsvps ≡ (
          if is_some (find_row (is_rsvp id user.id) w.rsvps)
          then update_rows (is_rsvp id user.id) (answered response stamp) w.rsvps
          else w.rsvps ++ new_rsvp ∷ [])
  unfolding upsert_rsvp insert_rsvp
  rsvps-upsert_rsvp h = grind (
    arith, found, ensure_member_reads, rsvp_to_response_reads, activity_to_response_reads,
    rsvps-create_activity_event, insert_row-eq-ok,
  )

  -- Where a user has at most one answer to the session and `upsert_rsvp` succeeds, the user's answer to the session is
  -- the new one afterwards, and every other answer, of any user to any session, is as it was.
  pub rsvp_of-upsert_rsvp :
      (s v : ℕ)
      → succeeded (upsert_rsvp rsvp_id activity_id now stamp g id user response w).0 ≡ true
      → rsvp_of s v (upsert_rsvp rsvp_id activity_id now stamp g id user response w).1.rsvps
        ≡ (if s == id && v == user.id then some response else rsvp_of s v w.rsvps)
  rsvp_of-upsert_rsvp s v h = elim (Option-cases (find_row (is_rsvp id user.id) w.rsvps)) [
    | inl e ↦ ground (
      arith,
      e,
      rsvps-upsert_rsvp h,
      rsvp_of-inserted id user.id w.rsvps new_rsvp s v refl refl e,
    )
    | inr (r, e) ↦ ground (
      arith,
      e,
      rsvps-upsert_rsvp h,
      rsvp_of-answered id user.id w.rsvps response stamp s v {r = r} e,
    )
  ]

-- What a change of a session asks of the actor: membership of the group of the session, and being its
-- proposer, an admin or the owner.
unfoldable pub may_edit : ℕ → ℕ → Session → List GroupMembership → Bool
may_edit g u session ms =
    session.group_id == g
    && is_some (role_of g u ms)
    && (session.proposed_by == u || is_staff_role (role_of g u ms))

module _ (g id : ℕ) (user : User) (session : Session) (w : World) (s : IsSound w.db)
    (once : count (is_session id) w.sessions ≤ 1)
    (e : find_row (is_session id) w.sessions ≡ some session) where
  member :
      one_or_none (is_membership g user.id) w.memberships
      ≡ ok (find_row (is_membership g user.id) w.memberships)
  unfolding IsSound
  member = one_or_none-eq-find (is_membership g user.id) w.memberships (s.0.members g user.id)

  found_session : one_or_none (is_session id) w.sessions ≡ ok (some session)
  found_session = one_or_none-eq-find (is_session id) w.sessions once ∙ ap ok e

  editor_lem :
      session.group_id ≡ g
      → succeeded (ensure_session_editor session user.id w).0
        ≡ (session.proposed_by == user.id || is_staff_role (role_of g user.id w.memberships))
  unfolding ensure_session_editor role_of
  editor_lem q =
      let m : one_or_none (is_membership session.group_id user.id) w.memberships
          ≡ ok (find_row (is_membership g user.id) w.memberships) =
        rw q member in
      ground (arith, m)

  member_lem :
      succeeded (ensure_member g user.id w).0 ≡ true
      → is_some (role_of g user.id w.memberships) ≡ true
  unfolding ensure_member role_of
  member_lem h = ground (arith, member)

  -- Where the tables are sound and the session is the only one with its id, `update_session` succeeds only for a member of the
  -- session's group who proposed it or is an admin or the owner.
  pub update_session_requires :
      (activity_id now : ℕ) (stamp : Option DateTime) (p : SessionPatch)
      → succeeded (update_session activity_id now stamp g id user p w).0 ≡ true
      → may_edit g user.id session w.memberships ≡ true
  unfolding update_session may_edit
  update_session_requires activity_id now stamp p h = ground (
    arith,
    found_session,
    editor_lem,
    member_lem,
    ensure_member_reads g user.id w,
    ensure_session_editor_reads g user.id w session,
  )

  -- Where the tables are sound and the session is the only one with its id, `delete_session` succeeds only for a member of the
  -- session's group who proposed it or is an admin or the owner.
  pub delete_session_requires :
      (activity_id now : ℕ)
      → succeeded (delete_session activity_id now g id user w).0 ≡ true
      → may_edit g user.id session w.memberships ≡ true
  unfolding delete_session may_edit
  delete_session_requires activity_id now h = ground (
    arith,
    found_session,
    editor_lem,
    member_lem,
    ensure_member_reads g user.id w,
    ensure_session_editor_reads g user.id w session,
  )
