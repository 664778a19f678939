-- ===== src/Avatars/Janitor.antt =====
-- The janitor of avatar uploads (backend/app/jobs/avatar_upload_janitor.py, and `delete_avatar_object_by_key` of
-- backend/app/storage/avatar_uploads.py). The client of the object storage is a parameter.
use ingame.Prelude.{
  ℕ, suc, ◌-◌, ◌*◌, String, Bool, true, false, Option, none, some, List, [], ◌∷◌, ◌++◌, is_some,
  if◌then◌else◌,
}
use ingame.Errors.{
  Exec, Result, ok, err, service_unavailable, user_avatar_upload_unavailable, pure, ◌>>=◌,
}
use ingame.Db.Models.{AvatarUploadLedger}
use ingame.World.{World}
use ingame.Avatars.LedgerRepo.{get_by_id, list_expired_pending, delete}

-- What the storage's settings and its client decide: `raises` says of which keys the call of
-- `delete_object`, or making the client for it, raises.
pub record Bucket : Type 0 where
  pub is_configured : Bool
  pub raises : String → Bool

-- The database beside the keys of the objects that were deleted, the latest last
pub record Shelf : Type 0 where
  pub world : World
  pub deleted : List String

abbrev pub on_world : {A : Type 0} → Exec World A → Exec Shelf A
on_world m s = let (r, w) = m s.world in (r, record s { world = w })

abbrev delete_object : Bool → String → Exec Shelf (Unit {0})
delete_object true key s = (err (service_unavailable user_avatar_upload_unavailable), s)
delete_object false key s = (ok tt, record s { deleted = s.deleted ++ key ∷ [] })

unfoldable pub delete_avatar_object_by_key : Bucket → Option String → Exec Shelf (Unit {0})
delete_avatar_object_by_key x none s = (ok tt, s)
delete_avatar_object_by_key x (some key) s =
    if x.is_configured then delete_object (x.raises key) key s else (ok tt, s)

-- `avatar_upload_unclaimed_cutoff`
unfoldable pub avatar_upload_unclaimed_cutoff : ℕ → ℕ → ℕ
avatar_upload_unclaimed_cutoff now unclaimed_ttl_hours = now - unclaimed_ttl_hours * 3600

-- The `except` of an iteration: the database is as it was, and what was deleted from the storage stays so.
abbrev or_rollback : World → Result (Unit {0}) × Shelf → Result Bool × Shelf
or_rollback w (ok a, s) = (ok true, s)
or_rollback w (err e, s) = (ok false, record s { world = w })

-- `repo.delete` and the commit, which an exception before them skips
abbrev delete_after : ℕ → Result (Unit {0}) × Shelf → Result (Unit {0}) × Shelf
delete_after id (ok a, s) = on_world (delete id) s
delete_after id (err e, s) = (err e, s)

-- The `try` of an iteration, which begins on what the last commit or rollback left
unfoldable pub delete_upload : Bucket → AvatarUploadLedger → Exec Shelf Bool
unfolding delete_avatar_object_by_key delete
delete_upload x current s =
    or_rollback s.world
      (delete_after current.id (delete_avatar_object_by_key x (some current.object_key) s))

abbrev pub if_pending : Bucket → Option AvatarUploadLedger → Exec Shelf Bool
if_pending x none s = (ok false, s)
if_pending x (some current) s =
    if is_some current.committed_at then (ok false, s) else delete_upload x current s

unfoldable pub clean_record : Bucket → AvatarUploadLedger → Exec Shelf Bool
unfolding get_by_id delete_upload
clean_record x record_ = do current ← on_world (get_by_id record_.id); if_pending x current

-- `for record in expired_uploads`
unfoldable pub clean_records : Bucket → List AvatarUploadLedger → Exec Shelf ℕ
unfolding clean_record
clean_records x [] s = (ok 0, s)
clean_records x (r ∷ rows) s =
    (do
      done ← clean_record x r
      deleted_count ← clean_records x rows
      pure (if done then suc deleted_count else deleted_count))
      s

unfoldable pub run_avatar_upload_janitor_once : Bucket → ℕ → Exec Shelf ℕ
unfolding list_expired_pending clean_records
run_avatar_upload_janitor_once x cutoff = do
  expired_uploads ← on_world (list_expired_pending cutoff)
  clean_records x expired_uploads
