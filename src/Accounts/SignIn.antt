-- ===== src/Accounts/SignIn.antt =====
-- Signing in (backend/app/api/v1/auth/service.py).
use ingame.Prelude.{
  ℕ, String, not, ◌+◌, ◌*◌, ◌||◌, Option, none, some, List, str_eq, is_none, is_some, leb, ◌==◌,
  ◌&&◌, if◌then◌else◌,
}
use Prim.Native.String.{◌++◌ as append}
use ingame.Errors.{
  Exec, ok, unauthorized, conflict, validation, service_unavailable, asks, pure, raise_if, or_raise,
  ◌>>=◌, ◌>>◌,
}
use ingame.Errors.{
  auth_email_taken, auth_invalid_credentials, auth_refresh_token_invalid,
  auth_refresh_token_type_invalid, auth_refresh_token_revoked, auth_refresh_token_user_not_found,
  auth_steam_openid_invalid, auth_steam_profile_unavailable, auth_discord_unavailable,
  auth_discord_oauth_invalid, auth_apple_token_invalid, auth_steam_relink_required,
  auth_discord_relink_required, auth_apple_relink_required,
}
use ingame.Db.Models.{User}
use ingame.Groups.Repo.{get_user_by_id}
use ingame.Tokens.{is_refresh, decode_token, create_access_token, create_refresh_token}
use ingame.Accounts.Gateway.{Gateway, SteamProfile, TokenData, DiscordProfile, AppleInfo}
use ingame.Accounts.Site.{
  Site, Provider, AuthMode, IdentityFields, no_fields, ProviderIdentity, in_world,
}
use ingame.Accounts.Users.{text_is, get_by_email, get_by_steam_id, get_by_apple_id, create, update}
use ingame.Accounts.Identities.{get_by_provider_external_id, upsert, get_revoked, delete_revoked}
use ingame.Accounts.Response.{AuthResponse, build_auth_response, truthy}

-- What a request takes from its surroundings: the time, and the ids of the rows that it may add
pub record Call : Type 0 where
  pub now : ℕ
  pub new_user : ℕ
  pub new_identity : ℕ
  pub new_link : ℕ

unfoldable pub store_refresh_token : Gateway → Call → ℕ → String → Site → Site
store_refresh_token x c u token s = record s {
  stored_tokens = λ v.
      if v == u
      then some
          (record { token = token; dropped_at = c.now + x.jwt.refresh_token_expire_days * 86400 })
      else s.stored_tokens v;
}

-- `redis.get(f"user:{user_id}:session")`
unfoldable pub stored_token : Call → ℕ → Site → Option String
stored_token c u s = elim (s.stored_tokens u) [
  | none ↦ none
  | some t ↦ if leb t.dropped_at c.now then none else some t.token
]

-- The end that all ways to sign in have
unfoldable pub sign_in : Gateway → Call → User → Exec Site AuthResponse
unfolding create_access_token create_refresh_token store_refresh_token build_auth_response
sign_in x c user s =
    build_auth_response (create_access_token x.jwt c.now user.id)
      (create_refresh_token x.jwt c.now user.id) user
      (store_refresh_token x c user.id (create_refresh_token x.jwt c.now user.id) s)

unfoldable pub seed_avatar_if_missing : User → Option String → Exec Site User
unfolding update
seed_avatar_if_missing user avatar_url s =
    if truthy user.avatar_url || not (truthy avatar_url) then (ok user, s) else seeded s
  where
    or_user : Option User → User
    or_user none = user
    or_user (some updated) = updated

    seeded : Exec Site User
    seeded = do
      updated ← in_world (update user.id (λ v. record v { avatar_url = avatar_url }))
      pure (or_user updated)

unfoldable pub register : Gateway → Call → String → String → String → Exec Site AuthResponse
unfolding get_by_email create sign_in
register x c email password display_name = do
  existing ← in_world (get_by_email email)
  raise_if (is_some existing) (conflict auth_email_taken)
  user ← in_world (
      create c.new_user c.now (record {
        email = some email;
        password_hash = some (x.hash_password password);
        display_name = display_name;
        avatar_url = none;
        steam_id = none;
        apple_id = none;
      }))
  sign_in x c user

abbrev verified : Gateway → String → Option User → Option User
verified x password none = none
verified x password (some user) = elim user.password_hash [
  | none ↦ none
  | some h ↦ if x.verify_password password h then some user else none
]

unfoldable pub login : Gateway → Call → String → String → Exec Site AuthResponse
unfolding get_by_email sign_in
login x c email password = do
  found ← in_world (get_by_email email)
  user ← or_raise (verified x password found) (unauthorized auth_invalid_credentials)
  sign_in x c user

unfoldable pub refresh : Gateway → Call → String → Exec Site AuthResponse
unfolding decode_token stored_token get_user_by_id sign_in
refresh x c refresh_token = do
  payload ←
      or_raise (decode_token x.jwt c.now refresh_token) (unauthorized auth_refresh_token_invalid)
  raise_if (not (is_refresh payload.type)) (unauthorized auth_refresh_token_type_invalid)
  stored ← asks (λ s. ok (stored_token c payload.user_id s))
  raise_if (not (text_is refresh_token stored)) (unauthorized auth_refresh_token_revoked)
  found ← in_world (get_user_by_id payload.user_id)
  user ← or_raise found (unauthorized auth_refresh_token_user_not_found)
  sign_in x c user

-- `if user is None and identity is not None: user = await repo.get_by_id(identity.user_id)`
unfoldable pub user_of_identity : Option User → Option ProviderIdentity → Exec Site (Option User)
unfolding get_user_by_id
user_of_identity (some user) identity s = (ok (some user), s)
user_of_identity none none s = (ok none, s)
user_of_identity none (some r) s = in_world (get_user_by_id r.user_id) s

abbrev steam_fields : Call → String → SteamProfile → IdentityFields
steam_fields c steam_id p = record (no_fields AuthMode.official_openid) {
  external_id = some steam_id;
  display_name = some p.display_name;
  avatar_url = p.avatar_url;
  profile_url = p.profile_url;
  last_synced_at = some c.now;
}

abbrev or_same : User → Option User → User
or_same user none = user
or_same user (some updated) = updated

-- `if user.steam_id != steam_id`
abbrev with_steam_id : String → User → Exec Site User
with_steam_id steam_id user s = if text_is steam_id user.steam_id then (ok user, s) else changed s
  where
    changed : Exec Site User
    changed = do
      updated ← in_world (update user.id (λ v. record v { steam_id = some steam_id }))
      pure (or_same user updated)

abbrev steam_user : Call → String → SteamProfile → Option User → Exec Site User
steam_user c steam_id p none = in_world (
    create c.new_user c.now (record {
      email = none;
      password_hash = none;
      display_name = p.display_name;
      avatar_url = p.avatar_url;
      steam_id = some steam_id;
      apple_id = none;
    }))
steam_user c steam_id p (some found) = do
  user ← with_steam_id steam_id found
  seed_avatar_if_missing user p.avatar_url

unfoldable pub steam_auth : Gateway → Call → List (String × String) → Exec Site AuthResponse
unfolding get_by_steam_id get_by_provider_external_id user_of_identity get_revoked create update
    seed_avatar_if_missing upsert sign_in
steam_auth x c openid_params = do
  steam_id ← or_raise (x.validate_steam_login openid_params) (validation auth_steam_openid_invalid)
  owner ← in_world (get_by_steam_id steam_id)
  identity ← get_by_provider_external_id Provider.steam steam_id
  found ← user_of_identity owner identity
  revoked_link ← get_revoked Provider.steam steam_id
  raise_if (is_none found && is_some revoked_link) (conflict auth_steam_relink_required)
  profile ←
      or_raise (x.get_steam_profile steam_id) (service_unavailable auth_steam_profile_unavailable)
  user ← steam_user c steam_id profile found
  _ ← upsert c.new_identity user.id Provider.steam (steam_fields c steam_id profile)
  sign_in x c user

-- `discord_access_expiry(int(token_data["expires_in"]) if token_data.get("expires_in") else None)`
abbrev pub discord_access_expiry : Call → Option ℕ → Option ℕ
discord_access_expiry c none = none
discord_access_expiry c (some seconds) = if seconds == 0 then none else some (c.now + seconds)

abbrev pub discord_fields : Call → TokenData → DiscordProfile → IdentityFields
discord_fields c t p = record (no_fields AuthMode.official_oauth) {
  external_id = some p.external_id;
  username = p.username;
  display_name = p.display_name;
  email = p.email;
  avatar_url = p.avatar_url;
  profile_url = p.profile_url;
  refresh_token = t.refresh_token;
  access_token_expires_at = discord_access_expiry c t.expires_in;
  last_synced_at = some c.now;
}

-- `x or y`, where `y` is a text
abbrev pub or_text : Option String → String → String
or_text none u = u
or_text (some t) u = if str_eq t "" then u else t

-- the token and the profile of a code
abbrev pub discord_login : Gateway → String → String → String → Option (TokenData × DiscordProfile)
discord_login x code code_verifier redirect_uri =
    elim (x.exchange_discord_code code code_verifier redirect_uri) [
      | none ↦ none
      | some t ↦ elim (x.get_discord_profile t.access_token) [ none ↦ none | some p ↦ some (t, p) ]
    ]

abbrev discord_user : Gateway → Call → DiscordProfile → Option User → Exec Site User
discord_user x c p none = in_world (
    create c.new_user c.now (record {
      email = p.email;
      password_hash = none;
      display_name =
          or_text p.display_name
            (or_text p.username (append "Discord_" (x.first_eight p.external_id)));
      avatar_url = p.avatar_url;
      steam_id = none;
      apple_id = none;
    }))
discord_user x c p (some found) = seed_avatar_if_missing found p.avatar_url

unfoldable pub discord_auth : Gateway → Call → String → String → String → Exec Site AuthResponse
unfolding get_by_provider_external_id user_of_identity get_revoked create seed_avatar_if_missing
    upsert delete_revoked sign_in
discord_auth x c code code_verifier redirect_uri = do
  raise_if (not x.has_discord_client_id) (service_unavailable auth_discord_unavailable)
  answered ←
      or_raise (discord_login x code code_verifier redirect_uri)
        (validation auth_discord_oauth_invalid)
  identity ← get_by_provider_external_id Provider.discord answered.1.external_id
  found ← user_of_identity none identity
  revoked_link ← get_revoked Provider.discord answered.1.external_id
  raise_if (is_none found && is_some revoked_link) (conflict auth_discord_relink_required)
  user ← discord_user x c answered.1 found
  _ ← upsert c.new_identity user.id Provider.discord (discord_fields c answered.0 answered.1)
  _ ← delete_revoked Provider.discord answered.1.external_id
  sign_in x c user

abbrev pub apple_fields : AppleInfo → IdentityFields
apple_fields a = record (no_fields AuthMode.official_oauth) {
  external_id = some a.sub;
  email = a.email;
}

abbrev apple_user : Gateway → Call → AppleInfo → Option String → Option User → Exec Site User
apple_user x c a display_name none = in_world (
    create c.new_user c.now (record {
      email = a.email;
      password_hash = none;
      display_name = or_text display_name (or_text a.email (append "Apple_" (x.first_eight a.sub)));
      avatar_url = none;
      steam_id = none;
      apple_id = some a.sub;
    }))
apple_user x c a display_name (some user) = pure user

unfoldable pub apple_auth : Gateway → Call → String → Option String → Exec Site AuthResponse
unfolding get_by_apple_id get_by_provider_external_id user_of_identity get_revoked create upsert
    sign_in
apple_auth x c identity_token display_name = do
  apple_info ←
      or_raise (x.validate_apple_token identity_token) (validation auth_apple_token_invalid)
  owner ← in_world (get_by_apple_id apple_info.sub)
  identity ← get_by_provider_external_id Provider.apple apple_info.sub
  found ← user_of_identity owner identity
  revoked_link ← get_revoked Provider.apple apple_info.sub
  raise_if (is_none found && is_some revoked_link) (conflict auth_apple_relink_required)
  user ← apple_user x c apple_info display_name found
  _ ← upsert c.new_identity user.id Provider.apple (apple_fields apple_info)
  sign_in x c user
