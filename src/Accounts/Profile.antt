-- ===== src/Accounts/Profile.antt =====
-- A user's profile (backend/app/api/v1/users/service.py), and who makes a request (backend/app/auth/dependencies.py). The
-- object storage of avatars (backend/app/storage/avatar_uploads.py) is a parameter.
use ingame.Prelude.{
  ℕ, String, Bool, false, not, ◌||◌, Option, none, some, str_eq, is_none, is_some, ltb, ◌&&◌,
  if◌then◌else◌,
}
use ingame.Errors.{
  Exec, Result, ok, not_found, unauthorized, conflict, validation, asks, pure, raise_if, or_raise,
  ◌>>=◌, ◌>>◌,
}
use ingame.Errors.{
  user_not_found, user_email_taken, user_avatar_content_type_invalid, user_avatar_file_too_large,
  auth_missing_credentials, auth_access_token_invalid, auth_access_token_type_invalid,
  auth_access_token_user_not_found,
}
use ingame.Db.Models.{User}
use ingame.Groups.Repo.{get_user_by_id}
use ingame.Avatars.LedgerRepo.{create_pending, mark_committed}
use ingame.Tokens.{Jwt, decode_token, is_access}
use ingame.Accounts.Site.{Site, in_world}
use ingame.Accounts.Users.{get_by_email, update}
use ingame.Accounts.Response.{sync_legacy_provider_identities}
use ingame.Accounts.SignIn.{Call}
use ingame.Accounts.Links.{is_other}

-- `get_current_user`: `none` is a request without credentials.
unfoldable pub get_current_user : Jwt → Call → Option String → Exec Site User
unfolding decode_token get_user_by_id
get_current_user j c credentials = do
  token ← or_raise credentials (unauthorized auth_missing_credentials)
  payload ← or_raise (decode_token j c.now token) (unauthorized auth_access_token_invalid)
  raise_if (not (is_access payload.type)) (unauthorized auth_access_token_type_invalid)
  found ← in_world (get_user_by_id payload.user_id)
  or_raise found (unauthorized auth_access_token_user_not_found)

-- The fields that `update_profile` is given; of `avatar_url` the outer option says whether it was
-- given, since `None` clears it.
pub record ProfileUpdate : Type 0 where
  pub email : Option String
  pub display_name : Option String
  pub bio : Option String
  pub timezone : Option String
  pub preferred_gaming_hours : Option String
  pub avatar_url : Option (Option String)

abbrev or_old : Option String → Option String → Option String
or_old none old = old
or_old (some v) old = some v

abbrev or_old_text : Option String → String → String
or_old_text none old = old
or_old_text (some v) old = v

abbrev or_old_url : Option (Option String) → Option String → Option String
or_old_url none old = old
or_old_url (some v) old = v

unfoldable pub apply_update : ProfileUpdate → User → User
apply_update p v = record v {
  email = or_old p.email v.email;
  display_name = or_old_text p.display_name v.display_name;
  bio = or_old p.bio v.bio;
  timezone = or_old_text p.timezone v.timezone;
  preferred_gaming_hours = or_old p.preferred_gaming_hours v.preferred_gaming_hours;
  avatar_url = or_old_url p.avatar_url v.avatar_url;
}

-- `not update_data`
abbrev is_empty : ProfileUpdate → Bool
is_empty p =
    is_none p.email
    && is_none p.display_name
    && is_none p.bio
    && is_none p.timezone
    && is_none p.preferred_gaming_hours
    && is_none p.avatar_url

pub record ProfileUpdateResult : Type 0 where
  pub user : User
  pub avatar_url_to_cleanup : Option String
  pub should_sweep_avatar_prefix : Bool

abbrev pub same_url : String → Option String → Bool
same_url u none = false
same_url u (some v) = str_eq u v

-- `managed` is `managed_avatar_object_key_from_public_url`.
unfoldable pub avatar_url_to_cleanup :
    (String → Option String) → Option String → Option String → Option String
avatar_url_to_cleanup managed none next = none
avatar_url_to_cleanup managed (some previous) next =
    if str_eq previous "" || same_url previous next || is_none (managed previous)
    then none
    else some previous

abbrev cleanup_of :
    (String → Option String) → Option String → Option (Option String) → Option String
cleanup_of managed previous none = none
cleanup_of managed previous (some next) = avatar_url_to_cleanup managed previous next

-- `if email is not None and email != user.email`
abbrev check_email : User → Option String → Exec Site (Unit {0})
check_email user none s = (ok tt, s)
check_email user (some email) s =
    if same_url email user.email
    then (ok tt, s)
    else (do
      existing ← in_world (get_by_email email)
      raise_if (is_other user existing) (conflict user_email_taken))
        s

abbrev commit_avatar : Call → User → Option (Option String) → Exec Site (Unit {0})
commit_avatar c user none s = (ok tt, s)
commit_avatar c user (some none) s = (ok tt, s)
commit_avatar c user (some (some url)) s =
    if str_eq url ""
    then (ok tt, s)
    else (do _ ← in_world (mark_committed c.now user.id url); pure tt) s

unfoldable pub update_profile :
    (String → Option String) → Call → User → ProfileUpdate → Exec Site ProfileUpdateResult
unfolding get_by_email update apply_update mark_committed avatar_url_to_cleanup
update_profile managed c user p s = if is_empty p then (ok unchanged, s) else changed s
  where
    unchanged : ProfileUpdateResult
    unchanged = record {
      user = user;
      avatar_url_to_cleanup = none;
      should_sweep_avatar_prefix = false;
    }

    changed : Exec Site ProfileUpdateResult
    changed = do
      _ ← check_email user p.email
      written ← in_world (update user.id (apply_update p))
      updated ← or_raise written (not_found user_not_found)
      _ ← commit_avatar c user p.avatar_url
      pure (record {
        user = updated;
        avatar_url_to_cleanup = cleanup_of managed user.avatar_url p.avatar_url;
        should_sweep_avatar_prefix = is_some p.avatar_url;
      })

-- An upload that `create_presigned_avatar_upload` answers
pub record Upload : Type 0 where
  pub object_key : String
  pub avatar_url : String

-- The settings and the storage that `init_avatar_upload` calls: `presign` may raise.
pub record Uploads : Type 0 where
  pub avatar_upload_max_file_size_bytes : ℕ
  pub is_allowed_content_type : String → Bool
  pub presign : ℕ → String → Result Upload

unfoldable pub generate_avatar_upload : Uploads → String → User → Exec Site Upload
generate_avatar_upload x content_type user = do
  raise_if (not (x.is_allowed_content_type content_type))
      (validation user_avatar_content_type_invalid)
  asks (λ s. x.presign user.id content_type)

-- `new_record` is the id of the ledger's new row.
unfoldable pub init_avatar_upload : Uploads → Call → ℕ → User → String → ℕ → Exec Site Upload
unfolding generate_avatar_upload create_pending
init_avatar_upload x c new_record user content_type byte_size = do
  raise_if (ltb x.avatar_upload_max_file_size_bytes byte_size)
      (validation user_avatar_file_too_large)
  upload ← generate_avatar_upload x content_type user
  _ ← in_world (create_pending new_record c.now user.id upload.object_key upload.avatar_url)
  pure upload

-- `get_user_by_id` of the service
unfoldable pub get_public_user : ℕ → ℕ → ℕ → Exec Site User
unfolding get_user_by_id sync_legacy_provider_identities
get_public_user steam_row apple_row user_id = do
  found ← in_world (get_user_by_id user_id)
  user ← or_raise found (not_found user_not_found)
  _ ← sync_legacy_provider_identities steam_row apple_row user
  pure user
