-- ===== src/Avatars/LedgerRepo.antt =====
-- `AvatarUploadLedgerRepository` (backend/app/db/repositories/avatar_upload_ledger_repo.py).
use ingame.Prelude.{
  ℕ, String, Bool, ◌&&◌, ◌||◌, Option, none, some, List, str_eq, ◌==◌, if◌then◌else◌, is_none, ltb,
}
use ingame.Errors.{Exec, Result, ok, err, integrity_error, asks, ◌>>=◌}
use ingame.Db.Table.{select, one_or_none, update_rows, delete_rows, insert_row}
use ingame.Db.Models.{AvatarUploadLedger}
use ingame.World.{Db, World}
use ingame.Groups.Repo.{is_user, exists_row}

abbrev pub is_record : ℕ → AvatarUploadLedger → Bool
is_record id r = r.id == id

abbrev pub is_upload_of : ℕ → String → AvatarUploadLedger → Bool
is_upload_of user_id avatar_url r = r.user_id == user_id && str_eq r.avatar_url avatar_url

abbrev pub set_ledger : List AvatarUploadLedger → World → World
set_ledger rows w = record w { db = record w.db { ledger = rows } }

abbrev pub store_record :
    AvatarUploadLedger → Result (List AvatarUploadLedger) → Exec World AvatarUploadLedger
store_record r (ok rows) w = (ok r, set_ledger rows w)
store_record r (err e) w = (err e, w)

-- the flush of a new record: its user has a row, and the object key is new
unfoldable pub insert_record : Db → AvatarUploadLedger → Result (List AvatarUploadLedger)
insert_record db r =
    if exists_row (is_user r.user_id) db.users
    then insert_row (λ s. s.id == r.id || str_eq s.object_key r.object_key) r db.ledger
    else err integrity_error

unfoldable pub create_pending : ℕ → ℕ → ℕ → String → String → Exec World AvatarUploadLedger
unfolding insert_record
create_pending id now user_id object_key avatar_url w =
    let r : AvatarUploadLedger = record {
      id = id;
      user_id = user_id;
      object_key = object_key;
      avatar_url = avatar_url;
      created_at = now;
      committed_at = none;
    } in
    store_record r (insert_record w.db r) w

unfoldable pub get_by_id : ℕ → Exec World (Option AvatarUploadLedger)
get_by_id id = asks (λ w. one_or_none (is_record id) w.ledger)

abbrev pub commit_record : ℕ → AvatarUploadLedger → AvatarUploadLedger
commit_record now r = if is_none r.committed_at then record r { committed_at = some now } else r

abbrev pub commit_found :
    ℕ → ℕ → String → Option AvatarUploadLedger → Exec World (Option AvatarUploadLedger)
commit_found now user_id avatar_url none w = (ok none, w)
commit_found now user_id avatar_url (some r) w = (
  ok (some (commit_record now r)),
  set_ledger (update_rows (is_upload_of user_id avatar_url) (commit_record now) w.ledger) w,
)

unfoldable pub mark_committed : ℕ → ℕ → String → Exec World (Option AvatarUploadLedger)
mark_committed now user_id avatar_url = do
  found ← asks (λ w. one_or_none (is_upload_of user_id avatar_url) w.ledger)
  commit_found now user_id avatar_url found

-- The order by age is left out: the janitor treats each record by itself.
unfoldable pub list_expired_pending : ℕ → Exec World (List AvatarUploadLedger)
list_expired_pending created_before =
    asks
      (λ w. ok (select (λ r. is_none r.committed_at && ltb r.created_at created_before) w.ledger))

unfoldable pub delete : ℕ → Exec World (Unit {0})
delete id w = (ok tt, set_ledger (delete_rows (is_record id) w.ledger) w)
