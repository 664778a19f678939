-- ===== src/Accounts/Social.antt =====
-- The linked accounts that a user enters by hand, and those that are brought up to date
-- (backend/app/api/v1/users/service.py).
use ingame.Prelude.{
  ℕ, ◌+◌, ◌*◌, String, Bool, true, not, ◌||◌, Option, none, some, List, [], ◌∷◌, str_eq, ltb,
  if◌then◌else◌,
}
use Prim.Native.String.{◌++◌ as append}
use ingame.Errors.{
  Exec, ok, not_found, validation, http_error, pure, raise_if, or_raise, ◌>>=◌, ◌>>◌,
}
use ingame.Errors.{user_not_found, user_provider_identity_invalid}
use ingame.Db.Models.{User}
use ingame.Groups.Repo.{get_user_by_id}
use ingame.Accounts.Gateway.{Gateway}
use ingame.Accounts.Site.{
  Site, Provider, is_manual, AuthMode, IdentityFields, no_fields, ProviderIdentity, in_world,
}
use ingame.Accounts.Identities.{list_for_user, upsert, delete_for_user}
use ingame.Accounts.Response.{UserResponse, build_user_response, sync_legacy_provider_identities}
use ingame.Accounts.SignIn.{Call, or_text, discord_access_expiry}

-- `_manual_identity_payload`: `none` is a `ValidationError`; a provider of `none` is a text that is no key.
abbrev stripped : Gateway → Option String → Option String
stripped x none = none
stripped x (some t) = if str_eq t "" then none else some (x.strip t)

abbrev xbox_fields : Gateway → String → Option IdentityFields
xbox_fields x gamertag =
    if str_eq gamertag ""
    then none
    else some (record (no_fields AuthMode.manual_unverified) {
      external_id = some gamertag;
      username = some gamertag;
      profile_url =
          some (append "https://account.xbox.com/en-us/profile?gamertag=" (x.quote gamertag));
    })

abbrev playstation_fields : Gateway → String → Option String → Option IdentityFields
playstation_fields x share_link username =
    if str_eq share_link ""
    then none
    else some (record (no_fields AuthMode.manual_unverified) {
      username = stripped x username;
      profile_url = some share_link;
    })

abbrev nintendo_fields : Gateway → String → Option String → Option IdentityFields
nintendo_fields x friend_code display_name =
    if str_eq friend_code ""
    then none
    else some (record (no_fields AuthMode.manual_unverified) {
      external_id = some friend_code;
      display_name = stripped x display_name;
      metadata = some friend_code;
    })

unfoldable pub manual_identity_payload :
    Gateway
    → Provider
    → Option String
    → Option String
    → Option String
    → Option String
    → Option IdentityFields
manual_identity_payload x Provider.xbox external_id username display_name profile_url =
    xbox_fields x (x.strip (or_text username (or_text external_id "")))
manual_identity_payload x Provider.playstation external_id username display_name profile_url =
    playstation_fields x (x.strip (or_text profile_url "")) username
manual_identity_payload x Provider.nintendo external_id username display_name profile_url =
    nintendo_fields x (x.strip (or_text external_id "")) display_name
manual_identity_payload x Provider.steam external_id username display_name profile_url = none
manual_identity_payload x Provider.discord external_id username display_name profile_url = none
manual_identity_payload x Provider.apple external_id username display_name profile_url = none

abbrev user_again : User → Exec Site User
user_again user = do
  updated ← in_world (get_user_by_id user.id)
  or_raise updated (not_found user_not_found)

unfoldable pub upsert_manual_social_identity :
    Gateway
    → Call
    → User
    → Option Provider
    → Option String
    → Option String
    → Option String
    → Option String
    → Exec Site User
unfolding manual_identity_payload upsert get_user_by_id
upsert_manual_social_identity x c user provider external_id username display_name profile_url = do
  p ← or_raise provider (validation user_provider_identity_invalid)
  payload ←
      or_raise (manual_identity_payload x p external_id username display_name profile_url)
        (validation user_provider_identity_invalid)
  _ ← upsert c.new_identity user.id p payload
  user_again user

unfoldable pub delete_manual_social_identity : User → Option Provider → Exec Site User
unfolding delete_for_user get_user_by_id
delete_manual_social_identity user provider = do
  p ← or_raise provider (validation user_provider_identity_invalid)
  raise_if (not (is_manual p)) (validation user_provider_identity_invalid)
  _ ← delete_for_user user.id p
  user_again user

-- `last_synced_at is None or last_synced_at.timestamp() < stale_before`
abbrev is_stale : Call → ProviderIdentity → Bool
is_stale c r = elim r.last_synced_at [ none ↦ true | some t ↦ ltb (t + 24 * 60 * 60) c.now ]

abbrev refreshed_steam : Gateway → Call → User → ProviderIdentity → String → Exec Site (Unit {0})
refreshed_steam x c user r external_id = do
  profile ← or_raise (x.get_steam_profile external_id) http_error
  _ ← upsert c.new_identity user.id Provider.steam (record (no_fields r.auth_mode) {
    external_id = some external_id;
    display_name = some profile.display_name;
    avatar_url = profile.avatar_url;
    profile_url = profile.profile_url;
    last_synced_at = some c.now;
  })
  pure tt

abbrev or_token : Option String → String → Option String
or_token none old = some old
or_token (some t) old = some t

abbrev refreshed_discord : Gateway → Call → User → ProviderIdentity → String → Exec Site (Unit {0})
refreshed_discord x c user r token = do
  token_data ← or_raise (x.refresh_discord_token token) http_error
  profile ← or_raise (x.get_discord_profile token_data.access_token) http_error
  _ ← upsert c.new_identity user.id Provider.discord (record (no_fields r.auth_mode) {
    external_id = some profile.external_id;
    username = profile.username;
    display_name = profile.display_name;
    email = profile.email;
    avatar_url = profile.avatar_url;
    profile_url = profile.profile_url;
    refresh_token = or_token token_data.refresh_token token;
    access_token_expires_at = discord_access_expiry c token_data.expires_in;
    last_synced_at = some c.now;
  })
  pure tt

abbrev refresh_identity :
    Gateway
    → Call
    → User
    → ProviderIdentity
    → Provider
    → Option String
    → Option String
    → Exec Site (Unit {0})
refresh_identity x c user r Provider.steam (some e) token s =
    if str_eq e "" then (ok tt, s) else refreshed_steam x c user r e s
refresh_identity x c user r Provider.discord (some e) (some token) s =
    if str_eq e "" || str_eq token "" then (ok tt, s) else refreshed_discord x c user r token s
refresh_identity x c user r _ _ _ s = (ok tt, s)

abbrev refresh_if_stale : Gateway → Call → User → ProviderIdentity → Exec Site (Unit {0})
refresh_if_stale x c user r s =
    if is_stale c r
    then refresh_identity x c user r r.provider r.external_id r.refresh_token s
    else (ok tt, s)

-- `for identity in identities`
unfoldable pub refresh_all : Gateway → Call → User → List ProviderIdentity → Exec Site (Unit {0})
unfolding upsert
refresh_all x c user [] s = (ok tt, s)
refresh_all x c user (r ∷ rows) s =
    (do _ ← refresh_if_stale x c user r; refresh_all x c user rows) s

unfoldable pub refresh_stale_official_identities : Gateway → Call → User → Exec Site (Unit {0})
unfolding list_for_user refresh_all
refresh_stale_official_identities x c user = do
  identities ← list_for_user user.id
  refresh_all x c user identities

-- `apple_row` is the id of a second new row.
unfoldable pub get_current_user_profile : Gateway → Call → ℕ → User → Exec Site UserResponse
unfolding sync_legacy_provider_identities refresh_stale_official_identities get_user_by_id
    build_user_response
get_current_user_profile x c apple_row user = do
  _ ← sync_legacy_provider_identities c.new_identity apple_row user
  _ ← refresh_stale_official_identities x c user
  refreshed ← in_world (get_user_by_id user.id)
  refreshed_user ← or_raise refreshed (not_found user_not_found)
  build_user_response refreshed_user
