-- ===== src/Tokens.antt =====
-- Access and refresh tokens (backend/app/auth/jwt.py). Encoding and decoding a signed token is the JWT library's and
-- stands as a parameter, as does the text of an id.
pub mod Sample
pub mod Tests
use ingame.Prelude.{ℕ, ◌+◌, ◌*◌, ◌≤◌, ◌≡◌, String, Bool, true, false, Option, none, some, arith}

-- The `type` claim.
pub data TokenType : Type 0 where
  access refresh : TokenType
  other : String → TokenType

abbrev pub is_access : Option TokenType → Bool
is_access (some TokenType.access) = true
is_access (some TokenType.refresh) = false
is_access (some (TokenType.other _)) = false
is_access none = false

abbrev pub is_refresh : Option TokenType → Bool
is_refresh (some TokenType.access) = false
is_refresh (some TokenType.refresh) = true
is_refresh (some (TokenType.other _)) = false
is_refresh none = false

-- The claims that the code writes and reads; `exp` is in seconds.
pub record Claims : Type 0 where
  pub sub : Option String
  pub exp : ℕ
  pub type : Option TokenType

-- `jwt.encode` and, at a time, `jwt.decode` under the secret, `str` and `uuid.UUID`, and the settings.
pub record Jwt : Type 0 where
  pub encode : Claims → String
  pub decode : ℕ → String → Option Claims
  pub show_uuid : ℕ → String
  pub read_uuid : String → Option ℕ
  pub access_token_expire_minutes : ℕ
  pub refresh_token_expire_days : ℕ

-- What the code relies on: a token that was encoded is decoded until it expires, and an id is read
-- back from its text.
pub record JwtLaws (j : Jwt) : Type 0 where
  pub decode-encode : (now : ℕ) (c : Claims) → now ≤ c.exp → j.decode now (j.encode c) ≡ some c
  pub read-show : (u : ℕ) → j.read_uuid (j.show_uuid u) ≡ some u

unfoldable pub create_access_token : Jwt → ℕ → ℕ → String
create_access_token j now user_id = j.encode (record {
  sub = some (j.show_uuid user_id);
  exp = now + j.access_token_expire_minutes * 60;
  type = some TokenType.access;
})

unfoldable pub create_refresh_token : Jwt → ℕ → ℕ → String
create_refresh_token j now user_id = j.encode (record {
  sub = some (j.show_uuid user_id);
  exp = now + j.refresh_token_expire_days * 24 * 60 * 60;
  type = some TokenType.refresh;
})

pub record TokenPayload : Type 0 where
  pub user_id : ℕ
  pub type : Option TokenType

abbrev with_user : Option TokenType → Option ℕ → Option TokenPayload
with_user type none = none
with_user type (some u) = some (record { user_id = u; type = type })

abbrev payload_of : Jwt → Option Claims → Option TokenPayload
payload_of j none = none
payload_of j (some c) = elim c.sub [ none ↦ none | some sub ↦ with_user c.type (j.read_uuid sub) ]

-- `decode_token`: `none` is a `ValueError`, which a text that is no id raises too.
unfoldable pub decode_token : Jwt → ℕ → String → Option TokenPayload
decode_token j now token = payload_of j (j.decode now token)

module _ (j : Jwt) (l : JwtLaws j) (issued now u : ℕ) where
  -- Where the token library decodes what it encoded until it expires, an access token decodes to its user and
  -- the type access from its issue until `access_token_expire_minutes` later.
  pub decode_token-create_access_token :
      now ≤ issued + j.access_token_expire_minutes * 60
      → decode_token j now (create_access_token j issued u)
        ≡ some (record { user_id = u; type = some TokenType.access })
  unfolding decode_token create_access_token
  decode_token-create_access_token h = ground (
    arith,
    l.decode-encode now
        (record {
          sub = some (j.show_uuid u);
          exp = issued + j.access_token_expire_minutes * 60;
          type = some TokenType.access;
        })
        h,
    l.read-show u,
  )

  -- Where the token library decodes what it encoded until it expires, a refresh token decodes to its user and
  -- the type refresh from its issue until `refresh_token_expire_days` later.
  pub decode_token-create_refresh_token :
      now ≤ issued + j.refresh_token_expire_days * 24 * 60 * 60
      → decode_token j now (create_refresh_token j issued u)
        ≡ some (record { user_id = u; type = some TokenType.refresh })
  unfolding decode_token create_refresh_token
  decode_token-create_refresh_token h = ground (
    arith,
    l.decode-encode now
        (record {
          sub = some (j.show_uuid u);
          exp = issued + j.refresh_token_expire_days * 24 * 60 * 60;
          type = some TokenType.refresh;
        })
        h,
    l.read-show u,
  )
