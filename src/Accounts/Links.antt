-- ===== src/Accounts/Links.antt =====
-- A user's ways to sign in (backend/app/api/v1/users/service.py): linking and unlinking providers, and setting a password.
use ingame.Prelude.{
  ℕ, ◌+◌, String, Bool, false, not, Option, none, some, List, leb, ◌==◌, ◌&&◌, if◌then◌else◌,
}
use ingame.Errors.{
  Exec, ok, not_found, conflict, validation, service_unavailable, pure, raise_if, or_raise, ◌>>=◌,
  ◌>>◌,
}
use ingame.Errors.{
  user_not_found, user_steam_account_already_linked, user_discord_account_already_linked,
  user_apple_account_already_linked, user_email_password_already_set, user_email_taken,
  user_last_auth_method_required, auth_steam_openid_invalid, auth_steam_profile_unavailable,
  auth_apple_token_invalid, auth_discord_oauth_invalid,
}
use ingame.Db.Table.{count}
use ingame.Db.Models.{User}
use ingame.Groups.Repo.{get_user_by_id}
use ingame.Accounts.Gateway.{Gateway, SteamProfile}
use ingame.Accounts.Site.{
  Site, Provider, AuthMode, IdentityFields, no_fields, ProviderIdentity, provider_supports_login,
  in_world,
}
use ingame.Accounts.Users.{get_by_email, get_by_steam_id, get_by_apple_id, update}
use ingame.Accounts.Identities.{
  list_for_user, get_for_user, get_by_provider_external_id, upsert, delete_for_user, upsert_revoked,
  delete_revoked,
}
use ingame.Accounts.Response.{truthy}
use ingame.Accounts.SignIn.{
  Call, seed_avatar_if_missing, discord_login, discord_fields, apple_fields, or_text,
}

abbrev pub has_password : User → Bool
has_password user = truthy user.email && truthy user.password_hash

abbrev pub is_login : ProviderIdentity → Bool
is_login r = provider_supports_login r.provider

unfoldable pub count_auth_methods : User → Exec Site ℕ
unfolding list_for_user count provider_supports_login
count_auth_methods user = do
  identities ← list_for_user user.id
  pure ((if has_password user then 1 else 0) + count is_login identities)

-- `existing and existing.id != user.id`
abbrev pub is_other : User → Option User → Bool
is_other user none = false
is_other user (some existing) = not (existing.id == user.id)

abbrev pub is_others : User → Option ProviderIdentity → Bool
is_others user none = false
is_others user (some existing) = not (existing.user_id == user.id)

abbrev linked_steam_fields : Call → String → SteamProfile → User → IdentityFields
linked_steam_fields c steam_id p user = record (no_fields AuthMode.official_openid) {
  external_id = some steam_id;
  display_name = some (or_text (some p.display_name) user.display_name);
  avatar_url = p.avatar_url;
  profile_url = p.profile_url;
  last_synced_at = some c.now;
}

unfoldable pub link_steam : Gateway → Call → User → List (String × String) → Exec Site User
unfolding get_by_steam_id get_by_provider_external_id update seed_avatar_if_missing upsert
    delete_revoked
link_steam x c user openid_params = do
  steam_id ← or_raise (x.validate_steam_login openid_params) (validation auth_steam_openid_invalid)
  existing ← in_world (get_by_steam_id steam_id)
  existing_identity ← get_by_provider_external_id Provider.steam steam_id
  raise_if (is_other user existing) (conflict user_steam_account_already_linked)
  raise_if (is_others user existing_identity) (conflict user_steam_account_already_linked)
  profile ←
      or_raise (x.get_steam_profile steam_id) (service_unavailable auth_steam_profile_unavailable)
  written ← in_world (update user.id (λ v. record v { steam_id = some steam_id }))
  updated ← or_raise written (not_found user_not_found)
  seeded ← seed_avatar_if_missing updated profile.avatar_url
  _ ← upsert c.new_identity user.id Provider.steam (linked_steam_fields c steam_id profile seeded)
  _ ← delete_revoked Provider.steam steam_id
  pure seeded

unfoldable pub link_apple : Gateway → Call → User → String → Exec Site User
unfolding get_by_apple_id get_by_provider_external_id update upsert delete_revoked
link_apple x c user identity_token = do
  apple_info ←
      or_raise (x.validate_apple_token identity_token) (validation auth_apple_token_invalid)
  existing ← in_world (get_by_apple_id apple_info.sub)
  existing_identity ← get_by_provider_external_id Provider.apple apple_info.sub
  raise_if (is_other user existing) (conflict user_apple_account_already_linked)
  raise_if (is_others user existing_identity) (conflict user_apple_account_already_linked)
  written ← in_world (update user.id (λ v. record v { apple_id = some apple_info.sub }))
  updated ← or_raise written (not_found user_not_found)
  _ ← upsert c.new_identity user.id Provider.apple (apple_fields apple_info)
  _ ← delete_revoked Provider.apple apple_info.sub
  pure updated

-- The user is never `None` after the avatar, so that the checks at the end find nothing to do.
unfoldable pub link_discord : Gateway → Call → User → String → String → String → Exec Site User
unfolding get_by_provider_external_id upsert delete_revoked seed_avatar_if_missing
link_discord x c user code code_verifier redirect_uri = do
  answered ←
      or_raise (discord_login x code code_verifier redirect_uri)
        (validation auth_discord_oauth_invalid)
  existing_identity ← get_by_provider_external_id Provider.discord answered.1.external_id
  raise_if (is_others user existing_identity) (conflict user_discord_account_already_linked)
  _ ← upsert c.new_identity user.id Provider.discord (discord_fields c answered.0 answered.1)
  _ ← delete_revoked Provider.discord answered.1.external_id
  seed_avatar_if_missing user answered.1.avatar_url

unfoldable pub set_email_password : Gateway → User → String → String → Exec Site User
unfolding get_by_email update
set_email_password x user email password = do
  raise_if (has_password user) (conflict user_email_password_already_set)
  existing ← in_world (get_by_email email)
  raise_if (is_other user existing) (conflict user_email_taken)
  written ← in_world (
      update user.id
        (λ v. record v { email = some email; password_hash = some (x.hash_password password) }))
  or_raise written (not_found user_not_found)

-- What the three functions check first; the row of the user
unfoldable pub unlinkable : User → Exec Site User
unfolding count_auth_methods get_user_by_id
unlinkable user = do
  methods ← count_auth_methods user
  raise_if (leb methods 1) (validation user_last_auth_method_required)
  found ← in_world (get_user_by_id user.id)
  or_raise found (not_found user_not_found)

-- the attribute of the row is cleared; the flush writes it
abbrev clear_column : User → (User → User) → Exec Site User
clear_column r f = do
  written ← in_world (update r.id f)
  or_raise written (not_found user_not_found)

abbrev pub remove_link : Call → User → Provider → Option String → (User → User) → Exec Site User
remove_link c r p none f s = (ok r, s)
remove_link c r p (some external_id) f s =
    (do
      updated ← clear_column r f
      _ ← upsert_revoked c.new_link r.id p external_id
      _ ← delete_for_user r.id p
      pure updated)
      s

unfoldable pub unlink_steam : Call → User → Exec Site User
unfolding unlinkable update upsert_revoked delete_for_user
unlink_steam c user = do
  user_record ← unlinkable user
  remove_link c user_record Provider.steam user_record.steam_id (λ v. record v { steam_id = none })

unfoldable pub unlink_apple : Call → User → Exec Site User
unfolding unlinkable update upsert_revoked delete_for_user
unlink_apple c user = do
  user_record ← unlinkable user
  remove_link c user_record Provider.apple user_record.apple_id (λ v. record v { apple_id = none })

abbrev pub external_id_of : Option ProviderIdentity → Option String
external_id_of none = none
external_id_of (some r) = r.external_id

abbrev pub remove_identity : Call → User → Option String → Exec Site User
remove_identity c r none s = (ok r, s)
remove_identity c r (some external_id) s =
    (do
      _ ← upsert_revoked c.new_link r.id Provider.discord external_id
      _ ← delete_for_user r.id Provider.discord
      pure r)
      s

unfoldable pub unlink_discord : Call → User → Exec Site User
unfolding unlinkable get_for_user upsert_revoked delete_for_user
unlink_discord c user = do
  user_record ← unlinkable user
  identity ← get_for_user user_record.id Provider.discord
  remove_identity c user_record (external_id_of identity)
