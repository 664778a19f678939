-- ===== src/Accounts/Gateway.antt =====
-- What the account services call outside the repository: the providers over HTTP (through backend/app/auth/steam.py,
-- discord.py and apple.py), the hashing of passwords (backend/app/auth/password.py), the token library, and Python's
-- functions on texts.
use ingame.Prelude.{ℕ, String, Bool, Option, List}
use ingame.Tokens.{Jwt}

pub record SteamProfile : Type 0 where
  pub display_name : String
  pub avatar_url : Option String
  pub profile_url : Option String

-- What `exchange_discord_code` and `refresh_discord_token` return
pub record TokenData : Type 0 where
  pub access_token : String
  pub refresh_token : Option String
  pub expires_in : Option ℕ

pub record DiscordProfile : Type 0 where
  pub external_id : String
  pub username : Option String
  pub display_name : Option String
  pub email : Option String
  pub avatar_url : Option String
  pub profile_url : Option String

pub record AppleInfo : Type 0 where
  pub sub : String
  pub email : Option String

-- `none` is an exception that the callers turn into an error.
pub record Gateway : Type 0 where
  pub jwt : Jwt
  pub hash_password : String → String
  pub verify_password : String → String → Bool
  pub validate_steam_login : List (String × String) → Option String
  pub get_steam_profile : String → Option SteamProfile
  pub validate_apple_token : String → Option AppleInfo
  pub exchange_discord_code : String → String → String → Option TokenData
  pub get_discord_profile : String → Option DiscordProfile
  pub refresh_discord_token : String → Option TokenData
  -- `settings.discord_client_id.strip()` is not empty
  pub has_discord_client_id : Bool
  -- `s.strip()`, `s[:8]` and `urllib.parse.quote(s)`
  pub strip : String → String
  pub first_eight : String → String
  pub quote : String → String
