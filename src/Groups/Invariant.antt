-- ===== src/Groups/Invariant.antt =====
-- The invariant of the tables of groups, memberships and join requests.
use ingame.Prelude.{ℕ, ◌≤◌, ◌≡◌, Bool, true, ◌&&◌, List, [], arith, ◌==◌, refl, ◌∷◌}
use ingame.Db.Table.{count}
use ingame.Db.Models.{Group, GroupMembership, JoinRequest, InviteCode, is_owner, code_eq}
use ingame.World.{Db}
use ingame.Groups.Repo.{is_group, has_code, in_group, is_membership}
use ingame.JoinRequests.Repo.{is_request, is_pending_of}

abbrev pub is_owner_of : ℕ → GroupMembership → Bool
is_owner_of g m = m.group_id == g && is_owner m.role

-- Ids and invite codes are unique, a user is in a group at most once, a group that exists has one
-- owner and none has an owner otherwise, and no membership outlives its group.
pub record Rows (groups : List Group) (memberships : List GroupMembership) : Type 0 where
  pub ids : (g : ℕ) → count (is_group g) groups ≤ 1
  pub codes : (c : InviteCode) → count (has_code c) groups ≤ 1
  pub members : (g u : ℕ) → count (is_membership g u) memberships ≤ 1
  pub owners : (g : ℕ) → count (is_owner_of g) memberships ≡ count (is_group g) groups
  pub orphans : (g : ℕ) → count (is_group g) groups ≡ 0 → count (in_group g) memberships ≡ 0

-- Ids of join requests are unique, and a user has at most one pending request for a group.
pub record RequestRows (requests : List JoinRequest) : Type 0 where
  pub ids : (id : ℕ) → count (is_request id) requests ≤ 1
  pub pendings : (g u : ℕ) → count (is_pending_of g u) requests ≤ 1

unfoldable pub IsSound : Db → Type 0
IsSound db = Rows db.groups db.memberships × RequestRows db.join_requests

-- Codes that pass the test are the same.
pub code_eq-eq : (a b : InviteCode) → code_eq a b ≡ true → a ≡ b
unfolding code_eq
code_eq-eq [] [] e = refl
code_eq-eq [] (d ∷ ds) e = cc
code_eq-eq (c ∷ cs) [] e = cc
code_eq-eq (c ∷ cs) (d ∷ ds) e = ground (arith, code_eq-eq cs ds)

pub code_eq_refl : (a : InviteCode) → code_eq a a ≡ true
unfolding code_eq
code_eq_refl [] = refl
code_eq_refl (c ∷ cs) = ground (arith, code_eq_refl cs)
