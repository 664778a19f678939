-- ===== src/Errors.antt =====
-- The errors that a request can end with (backend/app/core/error_codes.py and exceptions.py), and
-- the actions that read and write a state and may raise.
use ingame.Prelude.{Bool, Option, none, some, if◌then◌else◌}

-- `class ErrorCode`: the codes of the `auth`, `user`, `group`, `join_request`, `coordination` and
-- `notification` families.
pub data ErrorCode : Type 0 where
  auth_missing_credentials auth_access_token_invalid auth_access_token_type_invalid : ErrorCode
  auth_access_token_user_not_found auth_email_taken auth_invalid_credentials : ErrorCode
  auth_refresh_token_invalid auth_refresh_token_type_invalid auth_refresh_token_revoked : ErrorCode
  auth_refresh_token_user_not_found auth_steam_openid_invalid : ErrorCode
  auth_steam_profile_unavailable auth_discord_unavailable auth_discord_oauth_invalid : ErrorCode
  auth_discord_profile_unavailable auth_apple_token_invalid auth_steam_relink_required : ErrorCode
  auth_discord_relink_required auth_apple_relink_required : ErrorCode
  user_not_found user_steam_account_already_linked user_discord_account_already_linked : ErrorCode
  user_apple_account_already_linked user_email_password_already_set user_email_taken : ErrorCode
  user_last_auth_method_required user_provider_identity_invalid : ErrorCode
  user_avatar_content_type_invalid user_avatar_file_too_large : ErrorCode
  user_avatar_upload_unavailable : ErrorCode
  group_not_found group_invite_code_generation_failed group_invite_code_invalid : ErrorCode
  group_member_already_exists group_delete_requires_owner group_admin_or_owner_required : ErrorCode
  group_owner_required group_owner_cannot_be_removed group_owner_cannot_leave : ErrorCode
  group_member_not_found group_invalid_role_change group_transfer_invalid_target : ErrorCode
  group_member_required : ErrorCode
  join_request_not_found join_request_pending_already_exists : ErrorCode
  join_request_admin_or_owner_required join_request_required join_request_not_required : ErrorCode
  join_request_already_resolved : ErrorCode
  coordination_window_not_found coordination_window_edit_forbidden : ErrorCode
  coordination_window_time_invalid coordination_session_not_found : ErrorCode
  coordination_session_edit_forbidden coordination_session_time_invalid : ErrorCode
  coordination_session_status_invalid coordination_rsvp_invalid : ErrorCode
  notification_device_not_found notification_invalid_platform : ErrorCode

-- What a handler can raise. The first six are the subclasses of `AppHTTPException`; the rest come
-- from below it: SQLAlchemy's `MultipleResultsFound` and `IntegrityError`, the `AttributeError` of
-- an attribute of `None`, the `OverflowError` of a date out of range, and an error of a call over HTTP.
pub data Error : Type 0 where
  not_found unauthorized conflict validation forbidden service_unavailable : ErrorCode → Error
  multiple_results_found integrity_error attribute_error overflow_error http_error : Error

pub data Result (A : Type 0) : Type 0 where
  ok : A → Result A
  err : Error → Result A

-- An action on a state. The state comes back beside an error too: what was written before the
-- raise stays written until the transaction is rolled back.
abbrev pub Exec : Type 0 → Type 0 → Type 0
Exec S A = S → Result A × S

module _ {S A : Type 0} where
  abbrev pub pure : A → Exec S A
  pure a s = (ok a, s)

  abbrev pub raise : Error → Exec S A
  raise e s = (err e, s)

  -- a computation that only reads the state
  abbrev pub asks : (S → Result A) → Exec S A
  asks f s = (f s, s)

  abbrev pub or_raise : Option A → Error → Exec S A
  or_raise none e s = (err e, s)
  or_raise (some a) e s = (ok a, s)

infixl 5 ◌>>=◌ ◌>>◌
abbrev pub ◌>>=◌ : {S A B : Type 0} → Exec S A → (A → Exec S B) → Exec S B
◌>>=◌ m f s = let (r, s') = m s in elim r [ ok a ↦ f a s' | err e ↦ (err e, s') ]

abbrev pub ◌>>◌ : {S A B : Type 0} → Exec S A → Exec S B → Exec S B
m >> k = m >>= λ _. k

abbrev pub modify : {S : Type 0} → (S → S) → Exec S (Unit {0})
modify f s = (ok tt, f s)

-- `if test: raise e`
abbrev pub raise_if : {S : Type 0} → Bool → Error → Exec S (Unit {0})
raise_if b e s = (if b then err e else ok tt, s)
