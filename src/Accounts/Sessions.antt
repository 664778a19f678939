-- ===== src/Accounts/Sessions.antt =====
-- Which tokens a user can go on with after signing in (backend/app/api/v1/auth/service.py, backend/app/auth/dependencies.py).
use ingame.Prelude.{
  ℕ, ◌+◌, ◌*◌, ◌<◌, ◌≤◌, ◌≡◌, ◌≢◌, refl, sym, ◌∙◌, String, true, false, none, some, arith, str_eq,
  eq_iff, if◌then◌else◌, Bool-cases, inl, inr, leb,
}
use ingame.Errors.{ok, err, unauthorized}
use ingame.Errors.{
  auth_refresh_token_revoked, auth_refresh_token_type_invalid, auth_access_token_type_invalid,
}
use ingame.Db.Models.{User}
use ingame.Db.Table.{one_or_none}
use ingame.Groups.Repo.{is_user, get_user_by_id}
use ingame.Tokens.{
  JwtLaws, TokenType, decode_token, create_access_token, create_refresh_token,
  decode_token-create_access_token, decode_token-create_refresh_token,
}
use ingame.Accounts.Gateway.{Gateway}
use ingame.Accounts.Site.{Site}
use ingame.Accounts.SignIn.{Call, store_refresh_token, stored_token, sign_in, refresh}
use ingame.Accounts.Response.{AuthResponse, build_auth_response, build_user_response}
use ingame.Accounts.Identities.{list_for_user}
use ingame.Accounts.Profile.{get_current_user}

str_eq_refl : (t : String) → str_eq t t ≡ true
str_eq_refl t = (eq_iff t t).1 refl

str_eq-false : (t u : String) → t ≢ u → str_eq t u ≡ false
str_eq-false t u n = elim (Bool-cases (str_eq t u)) [
  | inl e ↦ absurd (n ((eq_iff t u).0 e))
  | inr e ↦ e
]

module _ (x : Gateway) (c : Call) (user : User) (s : Site) where
  abbrev token : String
  token = create_refresh_token x.jwt c.now user.id

  sign_in_lem :
      (a : AuthResponse) (s' : Site)
      → sign_in x c user s ≡ (ok a, s')
      → (a.refresh_token ≡ token) × (s' ≡ store_refresh_token x c user.id token s)
  unfolding sign_in build_auth_response build_user_response list_for_user
  sign_in_lem a s' e = ground (arith, e)

  stored_token-sign_in :
      (c' : Call)
      → stored_token c' user.id (store_refresh_token x c user.id token s) ≡ (
          if leb (c.now + x.jwt.refresh_token_expire_days * 86400) c'.now then none else some token)
  unfolding stored_token store_refresh_token
  stored_token-sign_in c' = ground arith

  world-sign_in : (store_refresh_token x c user.id token s).world ≡ s.world
  unfolding store_refresh_token
  world-sign_in = refl

  -- Where the token library decodes what it encoded until it expires, and the user has one row when the token is used:
  -- the refresh token that a sign-in answers signs that row's user in again at any time before
  -- `refresh_token_expire_days` are over.
  pub refresh-sign_in :
      JwtLaws x.jwt
      → (c' : Call) (row : User) (a : AuthResponse) (s' : Site) → sign_in x c user s ≡ (ok a, s')
      → one_or_none (is_user user.id) s.users ≡ ok (some row)
      → c'.now < c.now + x.jwt.refresh_token_expire_days * 86400
      → refresh x c' a.refresh_token s' ≡ sign_in x c' row s'
  unfolding refresh get_user_by_id
  refresh-sign_in l c' row a s' e o h =
      let (p, q) = sign_in_lem a s' e in
      let d : decode_token x.jwt c'.now token
          ≡ some (record { user_id = user.id; type = some TokenType.refresh }) =
        decode_token-create_refresh_token x.jwt l c.now c'.now user.id (omega (arith, h)) in
      ground (arith, p, q, d, stored_token-sign_in c', str_eq_refl token, world-sign_in, o, h)

  -- After a sign-in, no refresh token of the user but the one it answered is taken, whatever was stored before:
  -- the request ends as revoked and changes nothing.
  pub refresh-revoked :
      (c' : Call) (a : AuthResponse) (s' : Site) (t : String)
      → sign_in x c user s ≡ (ok a, s')
      → t ≢ a.refresh_token
      → decode_token x.jwt c'.now t
        ≡ some (record { user_id = user.id; type = some TokenType.refresh })
      → refresh x c' t s' ≡ (err (unauthorized auth_refresh_token_revoked), s')
  unfolding refresh
  refresh-revoked c' a s' t e n d =
      let (p, q) = sign_in_lem a s' e in
      let f : str_eq token t ≡ false = str_eq-false token t (λ i. n (sym i ∙ sym p)) in
      ground (arith, p, q, d, stored_token-sign_in c', f)

module _ (x : Gateway) (l : JwtLaws x.jwt) (c : Call) (issued u : ℕ) (s : Site) where
  -- Where the token library decodes what it encoded until it expires: a refresh token is not taken where an access
  -- token is asked for, nor an access token where a refresh token is, and either request changes nothing.
  pub tokens_kept_apart :
      (c.now ≤ issued + x.jwt.refresh_token_expire_days * 24 * 60 * 60
        → get_current_user x.jwt c (some (create_refresh_token x.jwt issued u)) s
          ≡ (err (unauthorized auth_access_token_type_invalid), s))
      × (c.now ≤ issued + x.jwt.access_token_expire_minutes * 60
          → refresh x c (create_access_token x.jwt issued u) s
            ≡ (err (unauthorized auth_refresh_token_type_invalid), s))
  unfolding get_current_user refresh
  tokens_kept_apart = (
    λ h. ground (arith, decode_token-create_refresh_token x.jwt l issued c.now u h),
    λ h. ground (arith, decode_token-create_access_token x.jwt l issued c.now u h),
  )
