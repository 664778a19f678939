-- ===== src/Groups/Listing.antt =====
-- The services that list groups (backend/app/api/v1/groups/service.py).
use ingame.Prelude.{ℕ, String, Bool, false, some, List, [], ◌∷◌}
use ingame.Errors.{Exec, ok, not_found, group_invite_code_invalid, or_raise, pure, ◌>>=◌}
use ingame.Db.Models.{User, Group, InviteCode}
use ingame.Schemas.{GroupDict}
use ingame.World.{World}
use ingame.Groups.Repo
use ingame.Groups.Repo.{get_by_invite_code, get_member_count, list_discoverable}
use ingame.JoinRequests.Repo.{has_pending_request}
use ingame.Groups.Access.{group_to_dict}

unfoldable user_group_dicts : List Group → Exec World (List GroupDict)
unfolding get_member_count
user_group_dicts [] w = (ok [], w)
user_group_dicts (g ∷ groups) w =
    (do
      count ← get_member_count g.id
      results ← user_group_dicts groups
      pure (group_to_dict g false count ∷ results))
      w

unfoldable pub list_user_groups : User → Exec World (List GroupDict)
unfolding Repo.list_user_groups user_group_dicts
list_user_groups user = do groups ← Repo.list_user_groups user.id; user_group_dicts groups

unfoldable discoverable_group_dicts : ℕ → List Group → Exec World (List GroupDict)
unfolding get_member_count has_pending_request
discoverable_group_dicts u [] w = (ok [], w)
discoverable_group_dicts u (g ∷ groups) w =
    (do
      count ← get_member_count g.id
      pending ← has_pending_request g.id u
      results ← discoverable_group_dicts u groups
      pure (group_to_dict g pending count ∷ results))
      w

-- `matches` is the test of the search text on a name.
unfoldable pub list_discoverable_groups : (String → Bool) → ℕ → Exec World (List GroupDict)
unfolding list_discoverable discoverable_group_dicts
list_discoverable_groups matches u = do
  groups ← list_discoverable matches (some u)
  discoverable_group_dicts u groups

unfoldable pub preview_group_by_invite_code : InviteCode → User → Exec World GroupDict
unfolding get_by_invite_code get_member_count has_pending_request
preview_group_by_invite_code code user = do
  found ← get_by_invite_code code
  group ← or_raise found (not_found group_invite_code_invalid)
  member_count ← get_member_count group.id
  pending ← has_pending_request group.id user.id
  pure (group_to_dict group pending member_count)
