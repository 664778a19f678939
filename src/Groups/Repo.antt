-- ===== src/Groups/Repo.antt =====
-- `GroupRepository` without its join requests (backend/app/db/repositories/group_repo.py). A new
-- row's id and its time stamp come from outside (`uuid.uuid4`, `func.now`) and are arguments.
use ingame.Prelude.{
  ℕ, zero, suc, String, Bool, true, false, not, ◌&&◌, ◌||◌, Option, none, some, List, is_some, ◌==◌,
  ◌≡◌, ◌<◌, arith, if◌then◌else◌,
}
use ingame.Errors.{Exec, Result, ok, err, integrity_error, asks, pure, ◌>>=◌}
use ingame.Db.Table.{select, count, one_or_none, update_rows, delete_rows, insert_row}
use ingame.Db.Models.{
  User, Group, GroupMembership, JoinRequest, ScheduledReadyWindow, Session, SessionRsvp,
  GroupActivityEvent, JoinMode, InviteCode, code_eq,
}
use ingame.World.{Db, World}

abbrev pub is_user : ℕ → User → Bool
is_user u r = r.id == u

abbrev pub is_group : ℕ → Group → Bool
is_group g r = r.id == g

abbrev pub has_code : InviteCode → Group → Bool
has_code code r = code_eq r.invite_code code

abbrev pub in_group : ℕ → GroupMembership → Bool
in_group g m = m.group_id == g

abbrev pub is_membership : ℕ → ℕ → GroupMembership → Bool
is_membership g u m = m.group_id == g && m.user_id == u

-- Whether a foreign key has its row.
unfoldable pub exists_row : {R : Type 0} → (R → Bool) → List R → Bool
exists_row p rows = elim (count p rows) [ zero ↦ false | suc _ ↦ true ]

unfoldable pub get_by_id : ℕ → Exec World (Option Group)
get_by_id g = asks (λ w. one_or_none (is_group g) w.groups)

unfoldable pub get_by_invite_code : InviteCode → Exec World (Option Group)
get_by_invite_code code = asks (λ w. one_or_none (has_code code) w.groups)

unfoldable pub get_membership : ℕ → ℕ → Exec World (Option GroupMembership)
get_membership g u = asks (λ w. one_or_none (is_membership g u) w.memberships)

unfoldable pub get_user_by_id : ℕ → Exec World (Option User)
get_user_by_id u = asks (λ w. one_or_none (is_user u) w.users)

unfoldable pub get_member_count : ℕ → Exec World ℕ
get_member_count g = asks (λ w. ok (count (in_group g) w.memberships))

unfoldable pub list_members : ℕ → Exec World (List GroupMembership)
list_members g = asks (λ w. ok (select (in_group g) w.memberships))

-- The join of the two tables; the unique pair of a membership lets each group stand once.
unfoldable pub list_user_groups : ℕ → Exec World (List Group)
list_user_groups u =
    asks (λ w. ok (select (λ g. exists_row (is_membership g.id u) w.memberships) w.groups))

-- The escaped search text and `ilike` are the database's: `matches` is the test on a name.
unfoldable pub list_discoverable : (String → Bool) → Option ℕ → Exec World (List Group)
list_discoverable matches exclude_user_id = asks λ w. ok (
    select
      (λ g.
        g.is_discoverable
        && (elim exclude_user_id [
          | none ↦ true
          | some u ↦ not (exists_row (is_membership g.id u) w.memberships)
        ])
        && matches g.name)
      w.groups)

-- `session.add(group)` and the flush: the invite code is unique, and the creator has a row.
unfoldable pub insert_group : Db → Group → Result (List Group)
insert_group db group =
    if exists_row (is_user group.created_by) db.users
    then insert_row (λ r. r.id == group.id || has_code group.invite_code r) group db.groups
    else err integrity_error

abbrev pub set_groups : {A : Type 0} → A → Result (List Group) → Exec World A
set_groups a (ok rows) w = (ok a, record w { db = record w.db { groups = rows } })
set_groups a (err e) w = (err e, w)

unfoldable pub create : Group → Exec World Group
create group w = set_groups group (insert_group w.db group) w

-- The keyword arguments of `update`: `none` is a key that is absent. The columns of the first,
-- third and fourth cannot hold `None`, which the request's schema lets through.
pub record GroupPatch : Type 0 where
  pub name : Option (Option String)
  pub description : Option (Option String)
  pub is_discoverable : Option (Option Bool)
  pub join_mode : Option (Option JoinMode)
  pub avatar_url : Option (Option String)

abbrev pub no_changes : GroupPatch
no_changes = record {
  name = none;
  description = none;
  is_discoverable = none;
  join_mode = none;
  avatar_url = none;
}

-- `not kwargs`
abbrev pub is_empty_patch : GroupPatch → Bool
is_empty_patch p = not (
    is_some p.name
    || is_some p.description
    || is_some p.is_discoverable
    || is_some p.join_mode
    || is_some p.avatar_url)

-- `setattr` on a column that is not nullable; `None` breaks the constraint at the flush.
abbrev pub assign : {A : Type 0} → Option (Option A) → A → Result A
assign none old = ok old
assign (some none) old = err integrity_error
assign (some (some new)) old = ok new

abbrev pub assign_nullable : {A : Type 0} → Option (Option A) → Option A → Option A
assign_nullable none old = old
assign_nullable (some new) old = new

-- the new row, with the stamp that `onupdate` leaves in it
unfoldable pub patched : GroupPatch → Option ℕ → Group → Result Group
patched p stamp g = elim (assign p.name g.name) [
  | err e ↦ err e
  | ok name ↦ elim (assign p.is_discoverable g.is_discoverable) [
    | err e ↦ err e
    | ok is_discoverable ↦ elim (assign p.join_mode g.join_mode) [
      | err e ↦ err e
      | ok join_mode ↦ ok (record g {
        name = name;
        description = assign_nullable p.description g.description;
        is_discoverable = is_discoverable;
        join_mode = join_mode;
        avatar_url = assign_nullable p.avatar_url g.avatar_url;
        updated_at = stamp;
      })
    ]
  ]
]

abbrev pub write_group : Result Group → ℕ → Exec World (Option Group)
write_group (err e) g w = (err e, w)
write_group (ok new) g w = (
  ok (some new),
  record w { db = record w.db { groups = update_rows (is_group g) (λ _. new) w.groups } },
)

abbrev pub update_found : GroupPatch → Option ℕ → ℕ → Option Group → Exec World (Option Group)
update_found p stamp g none = pure none
update_found p stamp g (some group) = write_group (patched p stamp group) g

unfoldable pub update : ℕ → GroupPatch → Option ℕ → Exec World (Option Group)
unfolding get_by_id
update g p stamp = do group ← get_by_id g; update_found p stamp g group

-- The rows that `ON DELETE CASCADE` removes with a group: memberships, join requests, windows,
-- sessions with their RSVPs, and activity events.
unfoldable pub delete_group_rows : ℕ → Db → Db
delete_group_rows g db = record db {
  groups = delete_rows (is_group g) db.groups;
  memberships = delete_rows (in_group g) db.memberships;
  join_requests = delete_rows (λ (r : JoinRequest). r.group_id == g) db.join_requests;
  windows = delete_rows (λ (r : ScheduledReadyWindow). r.group_id == g) db.windows;
  sessions = delete_rows (λ (r : Session). r.group_id == g) db.sessions;
  rsvps =
      delete_rows
        (λ (r : SessionRsvp).
          exists_row (λ (s : Session). s.id == r.session_id && s.group_id == g) db.sessions)
        db.rsvps;
  activities = delete_rows (λ (r : GroupActivityEvent). r.group_id == g) db.activities;
}

abbrev pub delete_found : ℕ → Option Group → Exec World Bool
delete_found g none w = (ok false, w)
delete_found g (some _) w = (ok true, record w { db = delete_group_rows g w.db })

unfoldable pub delete : ℕ → Exec World Bool
unfolding get_by_id
delete g = do group ← get_by_id g; delete_found g group

pub exists_row-pos :
    {R : Type 0} (p : R → Bool) (rows : List R) → exists_row p rows ≡ true → 0 < count p rows
unfolding exists_row
exists_row-pos p rows e = ground arith
