-- ===== src/Groups/MemberRepo.antt =====
-- The memberships of `GroupRepository` (backend/app/db/repositories/group_repo.py).
use ingame.Prelude.{ℕ, Bool, true, false, ◌&&◌, ◌||◌, Option, none, some, List, ◌==◌, if◌then◌else◌}
use ingame.Errors.{Exec, Result, ok, err, integrity_error, ◌>>=◌}
use ingame.Db.Table.{update_rows, delete_rows, insert_row}
use ingame.Db.Models.{GroupMembership, Role}
use ingame.World.{Db, World}
use ingame.Groups.Repo.{is_user, is_group, is_membership, exists_row, get_membership}

-- The flush of a new membership: its user and group have rows, and the pair is new.
unfoldable pub insert_membership : Db → GroupMembership → Result (List GroupMembership)
insert_membership db m =
    if exists_row (is_group m.group_id) db.groups && exists_row (is_user m.user_id) db.users
    then insert_row (λ r. r.id == m.id || is_membership m.group_id m.user_id r) m db.memberships
    else err integrity_error

abbrev pub set_memberships : {A : Type 0} → A → Result (List GroupMembership) → Exec World A
set_memberships a (ok rows) w = (ok a, record w { db = record w.db { memberships = rows } })
set_memberships a (err e) w = (err e, w)

unfoldable pub add_member : ℕ → ℕ → ℕ → ℕ → Role → Exec World GroupMembership
add_member id now g u role w =
    let m : GroupMembership = record {
      id = id;
      user_id = u;
      group_id = g;
      role = role;
      joined_at = now;
    } in
    set_memberships m (insert_membership w.db m) w

abbrev pub remove_found : ℕ → ℕ → Option GroupMembership → Exec World Bool
remove_found g u none w = (ok false, w)
remove_found g u (some _) w = (
  ok true,
  record w { db = record w.db { memberships = delete_rows (is_membership g u) w.memberships } },
)

unfoldable pub remove_member : ℕ → ℕ → Exec World Bool
unfolding get_membership
remove_member g u = do membership ← get_membership g u; remove_found g u membership

abbrev pub with_role : Role → GroupMembership → GroupMembership
with_role role m = record m { role = role }

-- `membership.role = role`, on the rows of the table
abbrev pub set_role : ℕ → ℕ → Role → World → World
set_role g u role w = record w {
  db = record w.db { memberships = update_rows (is_membership g u) (with_role role) w.memberships };
}

abbrev pub update_found_role :
    ℕ → ℕ → Role → Option GroupMembership → Exec World (Option GroupMembership)
update_found_role g u role none w = (ok none, w)
update_found_role g u role (some m) w = (ok (some (with_role role m)), set_role g u role w)

unfoldable pub update_membership_role : ℕ → ℕ → Role → Exec World (Option GroupMembership)
unfolding get_membership
update_membership_role g u role = do m ← get_membership g u; update_found_role g u role m

abbrev pub swap_roles :
    ℕ → ℕ → ℕ → Option GroupMembership → Option GroupMembership → Exec World Bool
swap_roles g old new (some _) (some _) w =
    (ok true, set_role g new Role.owner (set_role g old Role.admin w))
swap_roles g old new _ _ w = (ok false, w)

-- `transfer_ownership`; the result is whether it is not `None`.
unfoldable pub transfer_ownership : ℕ → ℕ → ℕ → Exec World Bool
unfolding get_membership
transfer_ownership g current_owner_id new_owner_id = do
  current_owner ← get_membership g current_owner_id
  new_owner ← get_membership g new_owner_id
  swap_roles g current_owner_id new_owner_id current_owner new_owner
