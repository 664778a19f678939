-- ===== src/Accounts/Methods.antt =====
-- Unlinking a provider leaves a way to sign in (backend/app/api/v1/users/service.py).
use ingame.Prelude.{
  ℕ, ◌≤◌, ◌≡◌, refl, sym, ap, String, Option, none, some, arith, Bool, true, false, not, ◌+◌, ◌==◌,
  ◌&&◌, str_eq, List, [], ◌∷◌, Bool-cases, inl, inr, if◌then◌else◌,
}
use mathlib.Core.Path.{subst}
use ingame.Errors.{Error, Exec, Result, ok, err, ◌>>=◌}
use ingame.Db.Models.{User}
use ingame.World.{World}
use ingame.Db.Table.{one_or_none, count}
use ingame.Groups.Repo.{is_user}
use ingame.Accounts.Site.{
  Site, Provider, ProviderIdentity, provider_supports_login, capabilities_for_provider,
}
use ingame.Accounts.Users.{update}
use ingame.Accounts.Identities.{is_identity, get_for_user, delete_for_user, upsert_revoked}
use ingame.Accounts.SignIn.{Call}
use ingame.Accounts.Response.{truthy}
use ingame.Accounts.Links.{
  has_password, unlinkable, unlink_steam, unlink_apple, unlink_discord, external_id_of, remove_link,
  remove_identity,
}
use ingame.Accounts.Counting.{
  methods, login_of, unlinkable_lem, methods-delete_for_user, same-upsert_revoked, same-update,
}

module _ (c : Call) (r : User) (s s' : Site) (user : User)
    (m : 2 ≤ methods (has_password r) r.id s.identities) where
  removed_identity :
      (external_id : Option String)
      → remove_identity c r external_id s ≡ (ok user, s')
      → (user ≡ r) × (1 ≤ methods (has_password r) r.id s'.identities)
  removed_identity none e = ground (arith, e, m)
  removed_identity (some x) e =
      let s1 : Site = (upsert_revoked c.new_link r.id Provider.discord x s).1 in
      let s2 : Site = (delete_for_user r.id Provider.discord s1).1 in
      ground (
        arith,
        e,
        m,
        same-upsert_revoked c.new_link r.id Provider.discord x s,
        methods-delete_for_user (has_password r) r.id Provider.discord s1 s2 tt,
      )

  module _ (p : Provider) (x : String) (f : User → User) (k : has_password (f r) ≡ has_password r)
      (i : (f r).id ≡ r.id) (o : one_or_none (is_user r.id) s.users ≡ ok (some r))
      (e : remove_link c r p (some x) f s ≡ (ok user, s')) where
    linked :
        (q : Result (Option User)) (w : World)
        → update r.id f s.world ≡ (q, w)
        → (has_password user ≡ has_password r)
          × (user.id ≡ r.id)
          × (1 ≤ methods (has_password r) r.id s'.identities)
    linked (err y) w d = ground (arith, d, e)
    linked (ok none) w d = ground (arith, same-update f r s none w o d)
    linked (ok (some v)) w d =
        let s0 : Site = record s { world = w } in
        let s1 : Site = (upsert_revoked c.new_link r.id p x s0).1 in
        let s2 : Site = (delete_for_user r.id p s1).1 in
        ground (
          arith,
          d,
          e,
          m,
          k,
          i,
          same-update f r s (some v) w o d,
          same-upsert_revoked c.new_link r.id p x s0,
          methods-delete_for_user (has_password r) r.id p s1 s2 tt,
        )

  removed_link :
      (p : Provider) (external_id : Option String) (f : User → User)
      → has_password (f r) ≡ has_password r
      → (f r).id ≡ r.id
      → one_or_none (is_user r.id) s.users ≡ ok (some r)
      → remove_link c r p external_id f s ≡ (ok user, s')
      → (has_password user ≡ has_password r)
        × (user.id ≡ r.id)
        × (1 ≤ methods (has_password r) r.id s'.identities)
  removed_link p none f k i o e = ground (arith, e, m)
  removed_link p (some x) f k i o e =
      linked p x f k i o e (update r.id f s.world).0 (update r.id f s.world).1 refl

abbrev is_filled : Option String → Bool
is_filled none = false
is_filled (some t) = not (str_eq t "")

-- Steam, Discord and Apple are the providers one can sign in with.
abbrev is_sign_in_provider : Provider → Bool
is_sign_in_provider Provider.steam = true
is_sign_in_provider Provider.discord = true
is_sign_in_provider Provider.apple = true
is_sign_in_provider Provider.xbox = false
is_sign_in_provider Provider.playstation = false
is_sign_in_provider Provider.nintendo = false

-- an email address with a password, and the links to those providers
abbrev ways_in : User → List ProviderIdentity → ℕ
ways_in user rows =
    (if is_filled user.email && is_filled user.password_hash then 1 else 0)
    + count (λ r. r.user_id == user.id && is_sign_in_provider r.provider) rows

-- After an answer of one of the three functions, the user can still sign in.
abbrev pub HasMethod : Result User × Site → Type 0
HasMethod (ok user, s) = 1 ≤ ways_in user s.identities
HasMethod (err e, s) = Unit {0}

truthy_lem : (t : Option String) → truthy t ≡ is_filled t
truthy_lem none = refl
truthy_lem (some t) = elim (Bool-cases (str_eq t "")) [
  | inl e ↦ ground (arith, e)
  | inr e ↦ ground (arith, e)
]

provider_supports_login_lem : (p : Provider) → provider_supports_login p ≡ is_sign_in_provider p
unfolding provider_supports_login capabilities_for_provider
provider_supports_login_lem Provider.steam = refl
provider_supports_login_lem Provider.discord = refl
provider_supports_login_lem Provider.apple = refl
provider_supports_login_lem Provider.xbox = refl
provider_supports_login_lem Provider.playstation = refl
provider_supports_login_lem Provider.nintendo = refl

count-login_of :
    (u : ℕ) (rows : List ProviderIdentity)
    → count (login_of u) rows ≡ count (λ r. r.user_id == u && is_sign_in_provider r.provider) rows
unfolding count
count-login_of u [] = refl
count-login_of u (r ∷ rows) =
    ground (arith, provider_supports_login_lem r.provider, count-login_of u rows)

methods-ways_in :
    (user : User) (rows : List ProviderIdentity)
    → methods (has_password user) user.id rows ≡ ways_in user rows
methods-ways_in user rows =
    ground
      (arith, truthy_lem user.email, truthy_lem user.password_hash, count-login_of user.id rows)

HasMethod-answer :
    (answer : Result User × Site)
    → ((user : User) (s' : Site)
        → answer ≡ (ok user, s')
        → 1 ≤ methods (has_password user) user.id s'.identities)
    → HasMethod answer
HasMethod-answer (ok user, s') h =
    subst (λ n. 1 ≤ n) (methods-ways_in user s'.identities) (h user s' refl)
HasMethod-answer (err e, s') h = tt

module _ {A B : Type 0} (n : Exec Site A) (k : A → Exec Site B) (s t : Site) where
  pub bind-ok : (a : A) → n s ≡ (ok a, t) → (n >>= k) s ≡ k a t
  bind-ok a e = ap (λ (q : Result A × Site). elim q.0 [ ok b ↦ k b q.1 | err x ↦ (err x, q.1) ]) e

  pub bind-err : (x : Error) → n s ≡ (err x, t) → (n >>= k) s ≡ (err x, t)
  bind-err x e = ap (λ (q : Result A × Site). elim q.0 [ ok b ↦ k b q.1 | err y ↦ (err y, q.1) ]) e

module _ (user : User) (s : Site) (o : one_or_none (is_user user.id) s.users ≡ ok (some user))
    (k : User → Exec Site User) where
  checked :
      (2 ≤ methods (has_password user) user.id s.identities → HasMethod (k user s))
      → (r : Result User) (t : Site) → unlinkable user s ≡ (r, t)
      → HasMethod ((unlinkable user >>= k) s)
  checked h (err x) t d = subst HasMethod (sym (bind-err (unlinkable user) k s t x d)) tt
  checked h (ok r) t d =
      let (a, b, m) = unlinkable_lem user r s t o d in
      subst HasMethod (sym (bind-ok (unlinkable user) k s t r d)) (rw (a, b) (h m))

module _ (c : Call) (user : User) (s : Site)
    (o : one_or_none (is_user user.id) s.users ≡ ok (some user))
    (m : 2 ≤ methods (has_password user) user.id s.identities) where
  HasMethod-remove_link :
      (p : Provider) (external_id : Option String) (f : User → User)
      → has_password (f user) ≡ has_password user
      → (f user).id ≡ user.id
      → HasMethod (remove_link c user p external_id f s)
  HasMethod-remove_link p external_id f k i =
      HasMethod-answer (remove_link c user p external_id f s) (λ user' s' e.
        let (a, b, n) = removed_link c user s s' user' m p external_id f k i o e in rw (a, b) n)

  HasMethod-remove_identity :
      (external_id : Option String) → HasMethod (remove_identity c user external_id s)
  HasMethod-remove_identity external_id =
      HasMethod-answer (remove_identity c user external_id s)
        (λ user' s' e. let (a, n) = removed_identity c user s s' user' m external_id e in rw a n)

  HasMethod-remove_found :
      (q : Result (Option ProviderIdentity))
      → get_for_user user.id Provider.discord s ≡ (q, s)
      → HasMethod (
          (get_for_user user.id Provider.discord >>= λ r. remove_identity c user (external_id_of r))
            s)
  HasMethod-remove_found (err x) d =
      subst HasMethod
        (sym (
          bind-err (get_for_user user.id Provider.discord)
            (λ r. remove_identity c user (external_id_of r)) s s x d))
        tt
  HasMethod-remove_found (ok r) d =
      subst HasMethod
        (sym (
          bind-ok (get_for_user user.id Provider.discord)
            (λ r. remove_identity c user (external_id_of r)) s s r d))
        (HasMethod-remove_identity (external_id_of r))

-- Unlinking Steam, Apple or Discord, where it is answered at all, leaves the user at least one way to sign in: an
-- email address with a password, neither of them empty, or a linked account of Steam, Discord or Apple.
-- The user is given as the row stands.
pub HasMethod-unlink :
    (c : Call) (user : User) (s : Site)
    → one_or_none (is_user user.id) s.users ≡ ok (some user)
    → HasMethod (unlink_steam c user s)
      × HasMethod (unlink_apple c user s)
      × HasMethod (unlink_discord c user s)
unfolding unlink_steam unlink_apple unlink_discord get_for_user
HasMethod-unlink c user s o = (
  checked user s o
      (λ r. remove_link c r Provider.steam r.steam_id (λ v. record v { steam_id = none }))
      (λ m.
        HasMethod-remove_link c user s o m Provider.steam user.steam_id
          (λ v. record v { steam_id = none }) refl refl)
      (unlinkable user s).0 (unlinkable user s).1 refl,
  checked user s o
      (λ r. remove_link c r Provider.apple r.apple_id (λ v. record v { apple_id = none }))
      (λ m.
        HasMethod-remove_link c user s o m Provider.apple user.apple_id
          (λ v. record v { apple_id = none }) refl refl)
      (unlinkable user s).0 (unlinkable user s).1 refl,
  checked user s o
      (λ r. get_for_user r.id Provider.discord >>= λ i. remove_identity c r (external_id_of i))
      (λ m.
        HasMethod-remove_found c user s o m
          (one_or_none (is_identity user.id Provider.discord) s.identities) refl)
      (unlinkable user s).0 (unlinkable user s).1 refl,
)
