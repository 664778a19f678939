-- ===== src/Accounts/Response.antt =====
-- What an account's endpoints answer (backend/app/api/v1/user_response.py).
use ingame.Prelude.{
  ℕ, String, Bool, true, false, ◌||◌, Option, none, some, List, [], ◌∷◌, is_some, str_eq,
  if◌then◌else◌,
}
use ingame.Errors.{Exec, ok, err, pure, ◌>>=◌}
use ingame.Db.Models.{User}
use ingame.Db.Find.{find_row}
use ingame.Accounts.Site.{
  Site, Provider, provider_eq, Capabilities, capabilities_for_provider, AuthMode, IdentityFields,
  no_fields, ProviderIdentity, in_world,
}
use ingame.Accounts.Users.{update}
use ingame.Accounts.Identities.{list_for_user, get_for_user, upsert}

pub record IdentityResponse : Type 0 where
  pub provider : Provider
  pub auth_mode : AuthMode
  pub external_id : Option String
  pub username : Option String
  pub display_name : Option String
  pub email : Option String
  pub avatar_url : Option String
  pub profile_url : Option String
  pub metadata : Option String
  pub last_synced_at : Option ℕ
  pub capabilities : Capabilities

unfoldable pub serialize_identity : ProviderIdentity → IdentityResponse
unfolding capabilities_for_provider
serialize_identity r = record {
  provider = r.provider;
  auth_mode = r.auth_mode;
  external_id = r.external_id;
  username = r.username;
  display_name = r.display_name;
  email = r.email;
  avatar_url = r.avatar_url;
  profile_url = r.profile_url;
  metadata = r.metadata;
  last_synced_at = r.last_synced_at;
  capabilities = capabilities_for_provider r.provider;
}

unfoldable pub serialize_identities : List ProviderIdentity → List IdentityResponse
unfolding serialize_identity
serialize_identities [] = []
serialize_identities (r ∷ rows) = serialize_identity r ∷ serialize_identities rows

pub record UserResponse : Type 0 where
  pub id : ℕ
  pub email : Option String
  pub display_name : String
  pub has_password_login : Bool
  pub avatar_url : Option String
  pub bio : Option String
  pub timezone : String
  pub preferred_gaming_hours : Option String
  pub steam_id : Option String
  pub apple_id : Option String
  pub provider_identities : List IdentityResponse
  pub created_at : ℕ
  pub updated_at : Option ℕ

abbrev id_of : Option ProviderIdentity → Option String → Option String
id_of none column = column
id_of (some r) column = r.external_id

unfoldable pub user_response_of : User → List ProviderIdentity → UserResponse
unfolding find_row serialize_identities
user_response_of user identities = record {
  id = user.id;
  email = user.email;
  display_name = user.display_name;
  has_password_login = is_some user.password_hash;
  avatar_url = user.avatar_url;
  bio = user.bio;
  timezone = user.timezone;
  preferred_gaming_hours = user.preferred_gaming_hours;
  steam_id = id_of (find_row (λ r. provider_eq r.provider Provider.steam) identities) user.steam_id;
  apple_id = id_of (find_row (λ r. provider_eq r.provider Provider.apple) identities) user.apple_id;
  provider_identities = serialize_identities identities;
  created_at = user.created_at;
  updated_at = user.updated_at;
}

unfoldable pub build_user_response : User → Exec Site UserResponse
unfolding list_for_user user_response_of
build_user_response user = do
  identities ← list_for_user user.id
  pure (user_response_of user identities)

pub record AuthResponse : Type 0 where
  pub access_token : String
  pub refresh_token : String
  pub user : UserResponse

unfoldable pub build_auth_response : String → String → User → Exec Site AuthResponse
unfolding build_user_response
build_auth_response access_token refresh_token user = do
  response ← build_user_response user
  pure (record { access_token = access_token; refresh_token = refresh_token; user = response })

-- `bool(text)`
abbrev pub truthy : Option String → Bool
truthy none = false
truthy (some t) = if str_eq t "" then false else true

-- `if user.steam_id and await identity_repo.get_for_user(user.id, "steam") is None`
abbrev upsert_missing :
    ℕ → ℕ → Provider → IdentityFields → Option ProviderIdentity → Exec Site (Unit {0})
upsert_missing id u p f (some r) s = (ok tt, s)
upsert_missing id u p f none s = (do r ← upsert id u p f; pure tt) s

unfoldable pub sync_missing :
    ℕ → ℕ → Provider → Option String → IdentityFields → Exec Site (Unit {0})
unfolding get_for_user upsert
sync_missing id u p external_id f s = if truthy external_id then synced s else (ok tt, s)
  where
    synced : Exec Site (Unit {0})
    synced = do found ← get_for_user u p; upsert_missing id u p f found

-- `steam_id` and `apple_id` are those of the new rows.
unfoldable pub sync_legacy_provider_identities : ℕ → ℕ → User → Exec Site (Unit {0})
unfolding sync_missing update
sync_legacy_provider_identities steam_row apple_row user = do
  _ ←
      sync_missing steam_row user.id Provider.steam user.steam_id
        (record (no_fields AuthMode.official_openid) {
          external_id = user.steam_id;
          display_name = some user.display_name;
          avatar_url = user.avatar_url;
        })
  _ ←
      sync_missing apple_row user.id Provider.apple user.apple_id
        (record (no_fields AuthMode.official_oauth) {
          external_id = user.apple_id;
          email = user.email;
        })
  write_back (truthy user.steam_id || truthy user.apple_id)
  where
    write_back : Bool → Exec Site (Unit {0})
    write_back b s =
        if b
        then (let (r, s') =
              in_world
                (update user.id
                  (λ v. record v { steam_id = user.steam_id; apple_id = user.apple_id }))
                s in
            (elim r [ ok _ ↦ ok tt | err e ↦ err e ], s'))
        else (ok tt, s)
