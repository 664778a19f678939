-- ===== src/Accounts/Identities.antt =====
-- `ProviderIdentityRepository` and `RevokedAuthLinkRepository` (backend/app/db/repositories/provider_identity_repo.py and
-- revoked_auth_link_repo.py).
use ingame.Prelude.{
  ℕ, String, Bool, ◌&&◌, ◌||◌, Option, none, some, List, [], ◌∷◌, str_eq, ◌==◌, ltb, if◌then◌else◌,
}
use ingame.Errors.{Exec, Result, ok, err, integrity_error, asks, ◌>>=◌}
use ingame.Db.Table.{select, one_or_none, update_rows, delete_rows, insert_row}
use ingame.Groups.Repo.{is_user, exists_row}
use ingame.Accounts.Site.{
  Site, Provider, rank, provider_eq, IdentityFields, ProviderIdentity, RevokedAuthLink,
}
use ingame.Accounts.Users.{text_is}

abbrev pub is_identity : ℕ → Provider → ProviderIdentity → Bool
is_identity u p r = r.user_id == u && provider_eq r.provider p

-- `order_by(ProviderIdentity.provider.asc())`
unfoldable pub insert_by_provider : ProviderIdentity → List ProviderIdentity → List ProviderIdentity
insert_by_provider r [] = r ∷ []
insert_by_provider r (s ∷ rows) =
    if ltb (rank s.provider) (rank r.provider) then s ∷ insert_by_provider r rows else r ∷ s ∷ rows

unfoldable pub sort_by_provider : List ProviderIdentity → List ProviderIdentity
unfolding insert_by_provider
sort_by_provider [] = []
sort_by_provider (r ∷ rows) = insert_by_provider r (sort_by_provider rows)

unfoldable pub list_for_user : ℕ → Exec Site (List ProviderIdentity)
unfolding sort_by_provider
list_for_user u = asks (λ s. ok (sort_by_provider (select (λ r. r.user_id == u) s.identities)))

unfoldable pub get_for_user : ℕ → Provider → Exec Site (Option ProviderIdentity)
get_for_user u p = asks (λ s. one_or_none (is_identity u p) s.identities)

unfoldable pub get_by_provider_external_id : Provider → String → Exec Site (Option ProviderIdentity)
get_by_provider_external_id p external_id = asks (λ s.
    one_or_none (λ r. provider_eq r.provider p && text_is external_id r.external_id) s.identities)

abbrev pub set_identities : List ProviderIdentity → Site → Site
set_identities rows s = record s { identities = rows }

abbrev store_identity :
    ProviderIdentity → Result (List ProviderIdentity) → Exec Site ProviderIdentity
store_identity r (ok rows) s = (ok r, set_identities rows s)
store_identity r (err e) s = (err e, s)

-- the flush of a new row: its user has a row, and no other row is of its user and provider
unfoldable pub insert_identity : ProviderIdentity → Site → Result (List ProviderIdentity)
unfolding exists_row insert_row
insert_identity r s =
    if exists_row (is_user r.user_id) s.users
    then insert_row (λ t. t.id == r.id || is_identity r.user_id r.provider t) r s.identities
    else err integrity_error

abbrev with_fields : IdentityFields → ProviderIdentity → ProviderIdentity
with_fields f r = record r { fields = f }

abbrev upsert_found :
    ℕ → ℕ → Provider → IdentityFields → Option ProviderIdentity → Exec Site ProviderIdentity
upsert_found id u p f none s =
    let r : ProviderIdentity = record { id = id; user_id = u; provider = p; fields = f } in
    store_identity r (insert_identity r s) s
upsert_found id u p f (some r) s = (
  ok (with_fields f r),
  set_identities (update_rows (is_identity u p) (with_fields f) s.identities) s,
)

-- `id` is that of a new row.
unfoldable pub upsert : ℕ → ℕ → Provider → IdentityFields → Exec Site ProviderIdentity
unfolding get_for_user insert_identity
upsert id u p f = do found ← get_for_user u p; upsert_found id u p f found

-- `session.delete(identity)`: the row that was found is the only one of its user and provider
abbrev delete_found : ℕ → Provider → Option ProviderIdentity → Exec Site (Unit {0})
delete_found u p none s = (ok tt, s)
delete_found u p (some r) s = (ok tt, set_identities (delete_rows (is_identity u p) s.identities) s)

unfoldable pub delete_for_user : ℕ → Provider → Exec Site (Unit {0})
unfolding get_for_user
delete_for_user u p = do found ← get_for_user u p; delete_found u p found

abbrev pub is_revoked : Provider → String → RevokedAuthLink → Bool
is_revoked p external_id r = provider_eq r.provider p && str_eq r.external_id external_id

abbrev pub set_revoked : List RevokedAuthLink → Site → Site
set_revoked rows s = record s { revoked = rows }

unfoldable pub get_revoked : Provider → String → Exec Site (Option RevokedAuthLink)
get_revoked p external_id = asks (λ s. one_or_none (is_revoked p external_id) s.revoked)

abbrev store_revoked : RevokedAuthLink → Result (List RevokedAuthLink) → Exec Site RevokedAuthLink
store_revoked r (ok rows) s = (ok r, set_revoked rows s)
store_revoked r (err e) s = (err e, s)

-- the flush of a new row: its user has a row, and no other row is of its provider and external id
unfoldable pub insert_revoked : RevokedAuthLink → Site → Result (List RevokedAuthLink)
unfolding exists_row insert_row
insert_revoked r s =
    if exists_row (is_user r.user_id) s.users
    then insert_row (λ t. t.id == r.id || is_revoked r.provider r.external_id t) r s.revoked
    else err integrity_error

abbrev with_owner : ℕ → String → RevokedAuthLink → RevokedAuthLink
with_owner u external_id r = record r { user_id = u; external_id = external_id }

abbrev revoke_found : ℕ → ℕ → Provider → String → Option RevokedAuthLink → Exec Site RevokedAuthLink
revoke_found id u p external_id none s =
    let r : RevokedAuthLink = record {
      id = id;
      user_id = u;
      provider = p;
      external_id = external_id;
    } in
    store_revoked r (insert_revoked r s) s
revoke_found id u p external_id (some r) s = (
  ok (with_owner u external_id r),
  set_revoked (update_rows (is_revoked p external_id) (with_owner u external_id) s.revoked) s,
)

unfoldable pub upsert_revoked : ℕ → ℕ → Provider → String → Exec Site RevokedAuthLink
unfolding get_revoked insert_revoked
upsert_revoked id u p external_id = do
  found ← get_revoked p external_id
  revoke_found id u p external_id found

unfoldable pub delete_revoked : Provider → String → Exec Site (Unit {0})
delete_revoked p external_id s =
    (ok tt, set_revoked (delete_rows (is_revoked p external_id) s.revoked) s)
