-- ===== src/Accounts/Counting.antt =====
-- How many ways to sign in a user has, and what the steps of unlinking leave of them
-- (backend/app/api/v1/users/service.py).
use ingame.Prelude.{
  ℕ, suc, ◌+◌, ◌≤◌, ◌≡◌, refl, String, Bool, ◌&&◌, Option, none, some, List, [], ◌∷◌, arith, ◌==◌,
  if◌then◌else◌,
}
use ingame.Errors.{Result, ok, err}
use ingame.Db.Models.{User}
use ingame.World.{World}
use ingame.Db.Table.{
  count, select, one_or_none, delete_rows, count-select, count-delete_rows, count-le,
  one_or_none-one,
}
use ingame.Groups.Repo.{is_user, get_user_by_id}
use ingame.Accounts.Site.{Site, Provider, ProviderIdentity}
use ingame.Accounts.Users.{update, flush_user}
use ingame.Accounts.Identities.{
  is_identity, insert_by_provider, sort_by_provider, list_for_user, get_for_user, delete_for_user,
  upsert_revoked, get_revoked,
}
use ingame.Accounts.Links.{has_password, is_login, count_auth_methods, unlinkable}

count-insert_by_provider :
    (p : ProviderIdentity → Bool) (r : ProviderIdentity) (rows : List ProviderIdentity)
    → count p (insert_by_provider r rows) ≡ count p (r ∷ rows)
unfolding count insert_by_provider
count-insert_by_provider p r [] = refl
count-insert_by_provider p r (s ∷ rows) = ground (arith, count-insert_by_provider p r rows)

count-sort_by_provider :
    (p : ProviderIdentity → Bool) (rows : List ProviderIdentity)
    → count p (sort_by_provider rows) ≡ count p rows
unfolding count sort_by_provider
count-sort_by_provider p [] = refl
count-sort_by_provider p (r ∷ rows) =
    ground
      (arith, count-insert_by_provider p r (sort_by_provider rows), count-sort_by_provider p rows)

abbrev pub login_of : ℕ → ProviderIdentity → Bool
login_of u r = (r.user_id == u) && is_login r

-- the ways to sign in of a user whose password stands or not
abbrev pub methods : Bool → ℕ → List ProviderIdentity → ℕ
methods password u rows = (if password then 1 else 0) + count (login_of u) rows

count_auth_methods_lem :
    (user : User) (s : Site)
    → count_auth_methods user s ≡ (ok (methods (has_password user) user.id s.identities), s)
unfolding count_auth_methods list_for_user
count_auth_methods_lem user s = ground (
  arith,
  count-sort_by_provider is_login (select (λ r. r.user_id == user.id) s.identities),
  count-select (λ r. r.user_id == user.id) is_login s.identities,
)

module _ (password : Bool) (u : ℕ) (p : Provider) where
  methods-delete_rows :
      (rows : List ProviderIdentity)
      → count (is_identity u p) rows ≡ 1
      → methods password u rows ≤ suc (methods password u (delete_rows (is_identity u p) rows))
  methods-delete_rows rows e = omega (
    arith,
    e,
    count-delete_rows (login_of u) (is_identity u p) rows,
    count-le (login_of u) (is_identity u p) rows,
  )

  deleted :
      (s s' : Site) (a : Unit {0}) (o : Result (Option ProviderIdentity))
      → one_or_none (is_identity u p) s.identities ≡ o
      → delete_for_user u p s ≡ (ok a, s')
      → methods password u s.identities ≤ suc (methods password u s'.identities)
  unfolding delete_for_user get_for_user
  deleted s s' a (err x) o e = ground (arith, o, e)
  deleted s s' a (ok none) o e = ground (arith, o, e)
  deleted s s' a (ok (some r)) o e = ground (
    arith,
    o,
    e,
    methods-delete_rows s.identities (one_or_none-one (is_identity u p) s.identities o),
  )

  -- A deletion takes one way to sign in at most.
  pub methods-delete_for_user :
      (s s' : Site) (a : Unit {0})
      → delete_for_user u p s ≡ (ok a, s')
      → methods password u s.identities ≤ suc (methods password u s'.identities)
  methods-delete_for_user s s' a e =
      deleted s s' a (one_or_none (is_identity u p) s.identities) refl e

pub same-upsert_revoked :
    (id u : ℕ) (p : Provider) (external_id : String) (s : Site)
    → (upsert_revoked id u p external_id s).1.identities ≡ s.identities
unfolding upsert_revoked get_revoked
same-upsert_revoked id u p external_id s = ground arith

pub unlinkable_lem :
    (user r : User) (s s' : Site)
    → one_or_none (is_user user.id) s.users ≡ ok (some user)
    → unlinkable user s ≡ (ok r, s')
    → (r ≡ user) × (s' ≡ s) × (2 ≤ methods (has_password user) user.id s.identities)
unfolding unlinkable get_user_by_id
unlinkable_lem user r s s' o e = ground (arith, o, e, count_auth_methods_lem user s)

-- What the database lets be: a row that an update answers is the one that was found, changed.
pub same-update :
    (f : User → User) (r : User) (s : Site) (found : Option User) (w : World)
    → one_or_none (is_user r.id) s.users ≡ ok (some r)
    → update r.id f s.world ≡ (ok found, w)
    → found ≡ some (f r)
unfolding update flush_user
same-update f r s found w o e = ground (arith, o, e)
