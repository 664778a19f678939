-- ===== src/Coordination/Access.antt =====
-- Who may change a window or a session (backend/app/api/v1/coordination/service.py).
use ingame.Prelude.{ℕ, is_none, ◌==◌, if◌then◌else◌}
use ingame.Errors.{
  Exec, ok, ErrorCode, not_found, forbidden, group_not_found, group_member_required,
  coordination_window_edit_forbidden, coordination_session_edit_forbidden, raise_if, or_raise,
  ◌>>=◌,
}
use ingame.Db.Models.{ScheduledReadyWindow, Session}
use ingame.World.{World}
use ingame.Groups.Repo.{get_by_id, get_membership}
use ingame.Groups.Access.{lacks_staff}

-- `_ensure_member`
unfoldable pub ensure_member : ℕ → ℕ → Exec World (Unit {0})
unfolding get_by_id get_membership
ensure_member g u = do
  found ← get_by_id g
  group ← or_raise found (not_found group_not_found)
  membership ← get_membership g u
  raise_if (is_none membership) (forbidden group_member_required)

-- The part that `_ensure_window_editor` and `_ensure_session_editor` share.
unfoldable pub ensure_editor : ErrorCode → ℕ → ℕ → ℕ → Exec World (Unit {0})
unfolding get_membership
ensure_editor code author g u w =
    if author == u
    then (ok tt, w)
    else (do membership ← get_membership g u; raise_if (lacks_staff membership) (forbidden code)) w

unfoldable pub ensure_window_editor : ScheduledReadyWindow → ℕ → Exec World (Unit {0})
unfolding ensure_editor
ensure_window_editor window u =
    ensure_editor coordination_window_edit_forbidden window.user_id window.group_id u

unfoldable pub ensure_session_editor : Session → ℕ → Exec World (Unit {0})
unfolding ensure_editor
ensure_session_editor session u =
    ensure_editor coordination_session_edit_forbidden session.proposed_by session.group_id u
