-- ===== src/Groups/Preserve.antt =====
-- Each operation of the group services keeps the invariant, whether it returns or raises.
use ingame.Prelude.{ℕ, ◌≡◌, true, false, Option, some, String, List, arith, ◌==◌}
use ingame.Errors.{Result, ok}
use ingame.Db.Table.{update_rows, delete_rows, one_or_none, insert_row-eq-ok}
use ingame.Db.Models.{Group, GroupMembership, Role, InviteCode, is_owner, User}
use ingame.World.{Db, World, transaction}
use ingame.Avatars.LedgerRepo.{mark_committed, create_pending}
use ingame.Groups.Repo.{
  is_group, is_membership, insert_group, patched, GroupPatch, exists_row-pos, delete_group_rows,
}
use ingame.Groups.MemberRepo.{set_role, insert_membership}
use ingame.Groups.Service.{
  update_group, delete_group, join_by_invite_code, init_group_avatar_upload, create_group,
  ensure_may_update_reads, find_code_reads, Upload, NewGroup,
}
use ingame.Groups.Membership.{
  add_member, remove_member, update_member_role, transfer_ownership, ensure_may_remove_reads,
  ensure_may_remove_admin_reads,
}
use ingame.Groups.Invariant.{IsSound, Rows}
use ingame.Groups.RowChanges.{set_role-Rows, delete-Rows, append-Rows, transfer-Rows}
use ingame.Groups.GroupChanges.{patch-Rows, delete_group-Rows, new_group-Rows}
use ingame.Groups.RequestChanges.{delete-RequestRows}

insert_membership-Rows :
    (db : Db) (m : GroupMembership) {rows : List GroupMembership}
    → Rows db.groups db.memberships
    → insert_membership db m ≡ ok rows
    → is_owner m.role ≡ false
    → Rows db.groups rows
unfolding insert_membership
insert_membership-Rows db m s e plain = grind (arith, append-Rows, insert_row-eq-ok, exists_row-pos)

module _ (g : ℕ) (w : World) (s : IsSound w.db) where
  pub set_role-IsSound :
      (u : ℕ) (role : Role) {m : GroupMembership}
      → one_or_none (is_membership g u) w.memberships ≡ ok (some m)
      → is_owner m.role ≡ false
      → is_owner role ≡ false
      → IsSound (set_role g u role w).db
  unfolding IsSound
  set_role-IsSound u role e old new = (set_role-Rows s.0 g u role e old new, s.1)

  pub remove-IsSound :
      (u : ℕ) {m : GroupMembership}
      → one_or_none (is_membership g u) w.memberships ≡ ok (some m)
      → is_owner m.role ≡ false
      → IsSound (record w.db { memberships = delete_rows (is_membership g u) w.memberships })
  unfolding IsSound
  remove-IsSound u e old = (delete-Rows s.0 g u e old, s.1)

  pub transfer-IsSound :
      (old new : ℕ) {a b : GroupMembership}
      → (old == new) ≡ false
      → one_or_none (is_membership g old) w.memberships ≡ ok (some a)
      → is_owner a.role ≡ true
      → one_or_none (is_membership g new) w.memberships ≡ ok (some b)
      → is_owner b.role ≡ false
      → IsSound (set_role g new Role.owner (set_role g old Role.admin w)).db
  unfolding IsSound
  transfer-IsSound old new ne ea oa eb ob = (transfer-Rows s.0 g old new ne ea oa eb ob, s.1)

  pub delete_group_rows-IsSound : IsSound (delete_group_rows g w.db)
  unfolding IsSound delete_group_rows
  delete_group_rows-IsSound =
      (delete_group-Rows s.0 g, delete-RequestRows s.1 (λ r. r.group_id == g))

  pub patched-IsSound :
      (p : GroupPatch) (stamp : Option ℕ) {group new : Group}
      → one_or_none (is_group g) w.groups ≡ ok (some group)
      → patched p stamp group ≡ ok new
      → IsSound (record w.db { groups = update_rows (is_group g) (λ _. new) w.groups })
  unfolding IsSound patched
  patched-IsSound p stamp {group} {new} e q =
      (patch-Rows s.0 g new e (ground arith) (ground arith), s.1)

-- The invariant is about the groups and the memberships alone.
IsSound-same :
    (d e : Db)
    → IsSound d
    → e.groups ≡ d.groups
    → e.memberships ≡ d.memberships
    → e.join_requests ≡ d.join_requests
    → IsSound e
unfolding IsSound
IsSound-same d e s p q r = rw (p, q, r) s

module _ (w : World) (s : IsSound w.db) where
  pub mark_committed-IsSound :
      (now u : ℕ) (url : String) → IsSound (mark_committed now u url w).1.db
  unfolding mark_committed
  mark_committed-IsSound now u url =
      IsSound-same w.db (mark_committed now u url w).1.db s (ground arith) (ground arith)
        (ground arith)

  pub create_pending-IsSound :
      (id now u : ℕ) (key url : String) → IsSound (create_pending id now u key url w).1.db
  unfolding create_pending
  create_pending-IsSound id now u key url =
      IsSound-same w.db (create_pending id now u key url w).1.db s (ground arith) (ground arith)
        (ground arith)

module _ (db : Db) (s : IsSound db) where
  pub new_group-IsSound :
      (group : Group) (m : GroupMembership) {groups : List Group} {ms : List GroupMembership}
      → insert_group db group ≡ ok groups
      → insert_membership (record db { groups = groups }) m ≡ ok ms
      → m.group_id ≡ group.id
      → is_owner m.role ≡ true
      → IsSound (record db { groups = groups; memberships = ms })
  unfolding IsSound insert_group insert_membership
  new_group-IsSound group m e f same owns =
      (grind (arith, new_group-Rows s.0 group m, insert_row-eq-ok), s.1)

  pub insert_membership-IsSound :
      (m : GroupMembership) {rows : List GroupMembership}
      → insert_membership db m ≡ ok rows
      → is_owner m.role ≡ false
      → IsSound (record db { memberships = rows })
  unfolding IsSound
  insert_membership-IsSound m e plain = (insert_membership-Rows db m s.0 e plain, s.1)

module _ (g : ℕ) (user : User) (w : World) (s : IsSound w.db) where
  pub update_member_role-IsSound :
      (target : ℕ) (role : Role) → IsSound (update_member_role g user target role w).1.db
  unfolding update_member_role
  update_member_role-IsSound target role = grind (arith, set_role-IsSound g w s)

  pub remove_member-IsSound : (target : ℕ) → IsSound (remove_member g user target w).1.db
  unfolding remove_member
  remove_member-IsSound target =
      grind (arith, remove-IsSound g w s, ensure_may_remove_reads, ensure_may_remove_admin_reads)

  pub transfer_ownership-IsSound : (target : ℕ) → IsSound (transfer_ownership g user target w).1.db
  unfolding transfer_ownership
  transfer_ownership-IsSound target = grind (arith, transfer-IsSound g w s)

  pub delete_group-IsSound : IsSound (delete_group g user w).1.db
  unfolding delete_group
  delete_group-IsSound = grind (arith, delete_group_rows-IsSound)

  pub add_member-IsSound :
      (id now target : ℕ) (role : Role)
      → is_owner role ≡ false
      → IsSound (add_member id now g user target role w).1.db
  unfolding add_member
  add_member-IsSound id now target role plain = grind (arith, insert_membership-IsSound)

  pub update_group-IsSound :
      (managed_key : Option String → Option String) (now : ℕ) (stamp : Option ℕ) (p : GroupPatch)
      → IsSound (update_group managed_key now stamp g user p w).1.db
  unfolding update_group
  update_group-IsSound managed_key now stamp p =
      grind (arith, patched-IsSound, mark_committed-IsSound, ensure_may_update_reads)

  pub init_group_avatar_upload-IsSound :
      (presign : ℕ → String → Result Upload) (max_size id now : ℕ) (content_type : String)
      (size : ℕ)
      → IsSound (init_group_avatar_upload presign max_size id now g user content_type size w).1.db
  unfolding init_group_avatar_upload
  init_group_avatar_upload-IsSound presign max_size id now content_type size =
      grind (arith, create_pending-IsSound)

module _ (user : User) (w : World) (s : IsSound w.db) where
  pub join_by_invite_code-IsSound :
      (code : InviteCode) (id now : ℕ) → IsSound (join_by_invite_code code id now user w).1.db
  unfolding join_by_invite_code
  join_by_invite_code-IsSound code id now = grind (arith, insert_membership-IsSound)

  pub create_group-IsSound :
      (draw : ℕ → InviteCode) (group_id membership_id now : ℕ) (new : NewGroup)
      → IsSound (transaction (create_group draw group_id membership_id now user new) w).1.db
  unfolding create_group transaction
  create_group-IsSound draw group_id membership_id now new =
      grind (arith, new_group-IsSound, find_code_reads)
