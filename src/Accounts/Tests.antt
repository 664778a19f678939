-- ===== src/Accounts/Tests.antt =====
-- Accounts at work: a user signs in with an email, and with Discord.
use ingame.Prelude.{
  ℕ, ◌≤◌, ◌≡◌, ◌≢◌, refl, true, String, none, some, [], ◌∷◌, arith, str_eq, ◌+◌, ◌*◌,
}
use ingame.Errors.{ok, err, unauthorized, conflict}
use ingame.Errors.{
  auth_refresh_token_revoked, auth_refresh_token_type_invalid, auth_access_token_type_invalid,
  auth_discord_relink_required,
}
use ingame.Db.Models.{User}
use ingame.Db.Table.{count, select, scalar_one_or_none, one_or_none, delete_rows, insert_row}
use ingame.World.{empty_db}
use ingame.Groups.Repo.{is_user, get_user_by_id, exists_row}
use ingame.Tokens.{
  TokenType, create_access_token, create_refresh_token, decode_token,
  decode_token-create_refresh_token,
}
use ingame.Tokens.Sample.{jwt, jwt-JwtLaws, encode-exp}
use ingame.Accounts.Gateway.{Gateway, TokenData, DiscordProfile}
use ingame.Accounts.Site.{
  Site, Provider, AuthMode, no_fields, ProviderIdentity, capabilities_for_provider,
  provider_supports_login,
}
use ingame.Accounts.Identities.{
  is_identity, insert_by_provider, sort_by_provider, list_for_user, get_for_user, delete_for_user,
  get_revoked, upsert_revoked, insert_revoked,
}
use ingame.Accounts.Response.{
  AuthResponse, build_auth_response, build_user_response, user_response_of,
}
use ingame.Accounts.SignIn.{Call, sign_in, refresh, discord_auth}
use ingame.Accounts.Links.{
  count_auth_methods, unlinkable, unlink_steam, unlink_apple, unlink_discord,
}
use ingame.Accounts.Profile.{get_current_user}
use ingame.Accounts.Sessions.{refresh-sign_in, refresh-revoked, tokens_kept_apart}
use ingame.Accounts.Methods.{HasMethod, HasMethod-unlink}
use ingame.Accounts.Relink.{is_linked, discord_auth-unlink_discord}

abbrev profile : DiscordProfile
profile = record {
  external_id = "77";
  username = some "ann";
  display_name = some "Ann";
  email = none;
  avatar_url = none;
  profile_url = none;
}

abbrev token_data : TokenData
token_data = record { access_token = "at"; refresh_token = none; expires_in = some 600 }

abbrev gateway : Gateway
gateway = record {
  jwt = jwt;
  hash_password = λ p. p;
  verify_password = λ p h. str_eq p h;
  validate_steam_login = λ p. none;
  get_steam_profile = λ p. none;
  validate_apple_token = λ p. none;
  exchange_discord_code = λ c v r. some token_data;
  get_discord_profile = λ t. some profile;
  refresh_discord_token = λ t. none;
  has_discord_client_id = true;
  strip = λ t. t;
  first_eight = λ t. t;
  quote = λ t. t;
}

abbrev ann : User
ann = record {
  id = 1;
  email = some "ann@example.org";
  password_hash = some "secret";
  display_name = "Ann";
  avatar_url = none;
  bio = none;
  timezone = "UTC";
  preferred_gaming_hours = none;
  steam_id = none;
  apple_id = none;
  created_at = 0;
  updated_at = none;
}

abbrev identity : ProviderIdentity
identity = record {
  id = 3;
  user_id = 1;
  provider = Provider.discord;
  fields = record (no_fields AuthMode.official_oauth) { external_id = some "77" };
}

abbrev site : Site
site = record {
  world = record { db = record empty_db { users = ann ∷ [] }; published = []; enqueued = [] };
  identities = identity ∷ [];
  revoked = [];
  stored_tokens = λ u. none;
}

abbrev at : ℕ → Call
at now = record { now = now; new_user = 2; new_identity = 4; new_link = 5 }

ann_row : one_or_none (is_user 1) site.users ≡ ok (some ann)
unfolding one_or_none scalar_one_or_none select
ann_row = refl

abbrev answer : AuthResponse
answer = record {
  access_token = create_access_token jwt 1000 1;
  refresh_token = create_refresh_token jwt 1000 1;
  user = user_response_of ann (identity ∷ []);
}

abbrev signed_in : Site
signed_in = (sign_in gateway (at 1000) ann site).1

signed_in_lem : sign_in gateway (at 1000) ann site ≡ (ok answer, signed_in)
unfolding sign_in build_auth_response build_user_response list_for_user sort_by_provider
    insert_by_provider select
signed_in_lem = refl

refresh-sign_in_example :
    refresh gateway (at 2000) answer.refresh_token signed_in
    ≡ sign_in gateway (at 2000) ann signed_in
refresh-sign_in_example =
    refresh-sign_in gateway (at 1000) ann site jwt-JwtLaws (at 2000) ann answer signed_in
      signed_in_lem ann_row (omega arith)

abbrev older : String
older = create_refresh_token jwt 900 1

older-decoded :
    decode_token jwt 2000 older ≡ some (record { user_id = 1; type = some TokenType.refresh })
older-decoded = decode_token-create_refresh_token jwt jwt-JwtLaws 900 2000 1 (omega arith)

older-other : older ≢ answer.refresh_token
unfolding create_refresh_token
older-other e = absurd (omega (arith, encode-exp _ _ e))

refresh-revoked_example :
    refresh gateway (at 2000) older signed_in
    ≡ (err (unauthorized auth_refresh_token_revoked), signed_in)
refresh-revoked_example =
    refresh-revoked gateway (at 1000) ann site (at 2000) answer signed_in older signed_in_lem
      older-other older-decoded

tokens_kept_apart_example :
    (2000 ≤ 1000 + 30 * 24 * 60 * 60
      → get_current_user jwt (at 2000) (some (create_refresh_token jwt 1000 1)) site
        ≡ (err (unauthorized auth_access_token_type_invalid), site))
    × (2000 ≤ 1000 + 15 * 60
        → refresh gateway (at 2000) (create_access_token jwt 1000 1) site
          ≡ (err (unauthorized auth_refresh_token_type_invalid), site))
tokens_kept_apart_example = tokens_kept_apart gateway jwt-JwtLaws (at 2000) 1000 1 site

HasMethod-unlink_example :
    HasMethod (unlink_steam (at 1000) ann site)
    × HasMethod (unlink_apple (at 1000) ann site)
    × HasMethod (unlink_discord (at 1000) ann site)
HasMethod-unlink_example = HasMethod-unlink (at 1000) ann site ann_row

abbrev unlinked : Site
unlinked = (unlink_discord (at 1000) ann site).1

unlinked_lem : unlink_discord (at 1000) ann site ≡ (ok ann, unlinked)
unfolding unlink_discord unlinkable count_auth_methods list_for_user insert_by_provider
    sort_by_provider select count get_user_by_id one_or_none scalar_one_or_none get_for_user
    upsert_revoked get_revoked insert_revoked insert_row exists_row delete_for_user delete_rows
    capabilities_for_provider provider_supports_login
unlinked_lem = refl

identity_row : one_or_none (is_identity 1 Provider.discord) site.identities ≡ ok (some identity)
unfolding one_or_none scalar_one_or_none select
identity_row = refl

one_link : count (is_linked Provider.discord "77") site.identities ≤ 1
unfolding count
one_link = omega arith

discord_auth-unlink_discord_example :
    discord_auth gateway (at 2000) "code" "verifier" "uri" unlinked
    ≡ (err (conflict auth_discord_relink_required), unlinked)
discord_auth-unlink_discord_example =
    discord_auth-unlink_discord (at 1000) ann site unlinked identity "77" ann ann_row identity_row
      refl one_link unlinked_lem gateway (at 2000) "code" "verifier" "uri" token_data profile refl
      refl refl
