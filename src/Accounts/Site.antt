-- ===== src/Accounts/Site.antt =====
-- Linked accounts of providers (backend/app/core/provider_identity.py, backend/app/db/models/provider_identity.py and
-- revoked_auth_link.py), and the state of the requests about accounts. What the database sets and no code reads, the
-- `created_at`, `updated_at` and `revoked_at` of these rows, is left out.
use ingame.Prelude.{ℕ, String, Bool, true, false, Option, none, List, ◌==◌}
use ingame.Errors.{Exec}
use ingame.World.{World}

-- The keys of `PROVIDER_CAPABILITIES`, in the order of their texts
pub data Provider : Type 0 where
  apple discord nintendo playstation steam xbox : Provider

abbrev pub rank : Provider → ℕ
rank Provider.apple = 0
rank Provider.discord = 1
rank Provider.nintendo = 2
rank Provider.playstation = 3
rank Provider.steam = 4
rank Provider.xbox = 5

abbrev pub provider_eq : Provider → Provider → Bool
provider_eq p q = rank p == rank q

pub record Capabilities : Type 0 where
  pub supports_login : Bool
  pub supports_refresh : Bool
  pub supports_direct_profile_link : Bool
  pub supports_manual_entry : Bool
  pub supports_copy_only_action : Bool
  pub is_social_identity : Bool

abbrev capabilities : Bool → Bool → Bool → Bool → Bool → Bool → Capabilities
capabilities login refresh direct manual copy social = record {
  supports_login = login;
  supports_refresh = refresh;
  supports_direct_profile_link = direct;
  supports_manual_entry = manual;
  supports_copy_only_action = copy;
  is_social_identity = social;
}

unfoldable pub capabilities_for_provider : Provider → Capabilities
capabilities_for_provider Provider.steam = capabilities true true true false false true
capabilities_for_provider Provider.discord = capabilities true true true false false true
capabilities_for_provider Provider.apple = capabilities true false false false false false
capabilities_for_provider Provider.xbox = capabilities false false true true false true
capabilities_for_provider Provider.playstation = capabilities false false true true false true
capabilities_for_provider Provider.nintendo = capabilities false false false true true true

unfoldable pub provider_supports_login : Provider → Bool
unfolding capabilities_for_provider
provider_supports_login p = (capabilities_for_provider p).supports_login

-- `MANUAL_PROVIDER_KEYS`
abbrev pub is_manual : Provider → Bool
is_manual Provider.xbox = true
is_manual Provider.playstation = true
is_manual Provider.nintendo = true
is_manual Provider.steam = false
is_manual Provider.discord = false
is_manual Provider.apple = false

pub data AuthMode : Type 0 where
  official_openid official_oauth manual_unverified : AuthMode

-- What `upsert` writes in a row of `provider_identities`; of `metadata`, the friend code, its only key.
pub record IdentityFields : Type 0 where
  pub auth_mode : AuthMode
  pub external_id : Option String
  pub username : Option String
  pub display_name : Option String
  pub email : Option String
  pub avatar_url : Option String
  pub profile_url : Option String
  pub metadata : Option String
  pub refresh_token : Option String
  pub access_token_expires_at : Option ℕ
  pub last_synced_at : Option ℕ

-- the defaults of `upsert`
abbrev pub no_fields : AuthMode → IdentityFields
no_fields mode = record {
  auth_mode = mode;
  external_id = none;
  username = none;
  display_name = none;
  email = none;
  avatar_url = none;
  profile_url = none;
  metadata = none;
  refresh_token = none;
  access_token_expires_at = none;
  last_synced_at = none;
}

-- `class ProviderIdentity`
pub record ProviderIdentity : Type 0 where
  pub id : ℕ
  pub user_id : ℕ
  pub provider : Provider
  pub fields : IdentityFields
  pub open fields use *

-- `class RevokedAuthLink`
pub record RevokedAuthLink : Type 0 where
  pub id : ℕ
  pub user_id : ℕ
  pub provider : Provider
  pub external_id : String

-- The value of `user:{user_id}:session` in Redis, and when the key's time to live is over
pub record StoredToken : Type 0 where
  pub token : String
  pub dropped_at : ℕ

pub record Site : Type 0 where
  pub world : World
  pub open world use *
  pub identities : List ProviderIdentity
  pub revoked : List RevokedAuthLink
  pub stored_tokens : ℕ → Option StoredToken

-- an action on the tables that the other services share
abbrev pub in_world : {A : Type 0} → Exec World A → Exec Site A
in_world m s = let (r, w) = m s.world in (r, record s { world = w })
