-- ===== src/Tokens/Tests.antt =====
-- Tokens at work.
use ingame.Prelude.{◌≡◌, some, arith}
use ingame.Tokens.{
  TokenType, create_access_token, create_refresh_token, decode_token,
  decode_token-create_access_token, decode_token-create_refresh_token,
}
use ingame.Tokens.Sample.{jwt, jwt-JwtLaws}

decode_token-create_access_token_example :
    decode_token jwt 900 (create_access_token jwt 0 7)
    ≡ some (record { user_id = 7; type = some TokenType.access })
decode_token-create_access_token_example =
    decode_token-create_access_token jwt jwt-JwtLaws 0 900 7 (omega arith)

decode_token-create_refresh_token_example :
    decode_token jwt 2592000 (create_refresh_token jwt 0 7)
    ≡ some (record { user_id = 7; type = some TokenType.refresh })
decode_token-create_refresh_token_example =
    decode_token-create_refresh_token jwt jwt-JwtLaws 0 2592000 7 (omega arith)
