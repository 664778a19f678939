-- ===== src/Accounts/Relink.antt =====
-- A login that was unlinked (backend/app/api/v1/users/service.py, backend/app/api/v1/auth/service.py).
use ingame.Prelude.{
  ℕ, ◌≤◌, ◌≡◌, refl, ◌||◌, String, Bool, true, ◌&&◌, Option, none, some, List, arith, ◌==◌,
  Bool-cases, inl, inr, eq_iff, ==_refl,
}
use ingame.Errors.{Result, ok, err, conflict}
use ingame.Errors.{auth_discord_relink_required}
use ingame.Db.Models.{User}
use ingame.Db.Table.{
  count, one_or_none, delete_rows, count-delete_rows, count-insert, count-update_rows_same,
  one_or_none-one, one_or_none-count, one_or_none-meets, one_or_none_total, one_or_none-none,
  insert_row-eq-ok,
}
use ingame.Groups.Repo.{is_user, exists_row}
use ingame.Accounts.Gateway.{Gateway, TokenData, DiscordProfile}
use ingame.Accounts.Site.{Site, Provider, rank, provider_eq, ProviderIdentity, RevokedAuthLink}
use ingame.Accounts.Users.{text_is}
use ingame.Accounts.Identities.{
  is_identity, get_for_user, delete_for_user, is_revoked, upsert_revoked, get_revoked,
  insert_revoked, get_by_provider_external_id, set_identities,
}
use ingame.Accounts.SignIn.{Call, discord_login, discord_auth, user_of_identity}
use ingame.Accounts.Links.{unlinkable, unlink_discord, remove_identity}
use ingame.Accounts.Counting.{unlinkable_lem}

module _ {R : Type 0} (p : R → Bool) (rows : List R) where
  one_or_none-zero : count p rows ≡ 0 → one_or_none p rows ≡ ok none
  one_or_none-zero e = let (o, f) = one_or_none_total p rows (omega (arith, e)) in zero_of o f
    where
      zero_of : (o : Option R) → one_or_none p rows ≡ ok o → one_or_none p rows ≡ ok none
      zero_of none q = q
      zero_of (some r) q = ground (arith, e, one_or_none-one p rows q)

  one_or_none-found : count p rows ≡ 1 → (r : R) × (one_or_none p rows ≡ ok (some r))
  one_or_none-found e = let (o, f) = one_or_none_total p rows (omega (arith, e)) in found_of o f
    where
      found_of :
          (o : Option R) → one_or_none p rows ≡ ok o → (r : R) × (one_or_none p rows ≡ ok (some r))
      found_of none q = absurd (omega (arith, e, one_or_none-none p rows q))
      found_of (some r) q = (r, q)

module _ (id u : ℕ) (p : Provider) (x : String) (s t : Site) (l : RevokedAuthLink) where
  is_revoked-new :
      is_revoked p x (record { id = id; user_id = u; provider = p; external_id = x }) ≡ true
  is_revoked-new = ground (arith, ==_refl (rank p), (eq_iff x x).1 refl)

  inserted :
      (q : Result (List RevokedAuthLink)) (r : RevokedAuthLink)
      → insert_revoked r s ≡ q
      → one_or_none (is_revoked p x) s.revoked ≡ ok none
      → (rows : List RevokedAuthLink) → q ≡ ok rows
      → is_revoked p x r ≡ true
      → count (is_revoked p x) rows ≡ 1
  unfolding insert_revoked
  inserted q r d o rows e i = elim (Bool-cases (exists_row (is_user r.user_id) s.users)) [
    | inl b ↦ ground (
      arith,
      b,
      d,
      e,
      i,
      one_or_none-none (is_revoked p x) s.revoked o,
      count-insert (is_revoked p x) r s.revoked,
      insert_row-eq-ok (λ v. v.id == r.id || is_revoked r.provider r.external_id v) r s.revoked
          {rows' = rows},
    )
    | inr b ↦ ground (arith, b, d, e)
  ]

  upserted :
      (o : Result (Option RevokedAuthLink))
      → one_or_none (is_revoked p x) s.revoked ≡ o
      → upsert_revoked id u p x s ≡ (ok l, t)
      → count (is_revoked p x) t.revoked ≡ 1
  unfolding upsert_revoked get_revoked
  upserted (err y) o e = ground (arith, o, e)
  upserted (ok none) o e =
      let r : RevokedAuthLink = record { id = id; user_id = u; provider = p; external_id = x } in
      ground (arith, o, e, is_revoked-new, inserted (insert_revoked r s) r refl o t.revoked)
  upserted (ok (some r)) o e = ground (
    arith,
    o,
    e,
    one_or_none-one (is_revoked p x) s.revoked o,
    count-update_rows_same (is_revoked p x) (is_revoked p x)
        (λ v. record v { user_id = u; external_id = x }) s.revoked
        (λ v h. ground (arith, h, (eq_iff x x).1 refl)),
  )

  same-upserted : upsert_revoked id u p x s ≡ (ok l, t) → t.identities ≡ s.identities
  unfolding upsert_revoked get_revoked
  same-upserted e = ground (arith, e)

  same-upserted_world : upsert_revoked id u p x s ≡ (ok l, t) → t.world ≡ s.world
  unfolding upsert_revoked get_revoked
  same-upserted_world e = ground (arith, e)

abbrev pub is_linked : Provider → String → ProviderIdentity → Bool
is_linked p x r = provider_eq r.provider p && text_is x r.external_id

module _ (u : ℕ) (p : Provider) (x : String) (s t : Site) (a : Unit {0})
    (i : ProviderIdentity) where
  unlinked :
      one_or_none (is_identity u p) s.identities ≡ ok (some i)
      → i.external_id ≡ some x
      → count (is_linked p x) s.identities ≤ 1
      → delete_for_user u p s ≡ (ok a, t)
      → (one_or_none (is_linked p x) t.identities ≡ ok none) × (t.revoked ≡ s.revoked)
  unfolding delete_for_user get_for_user
  unlinked o e n d =
      let m : is_identity u p i ≡ true = one_or_none-meets (is_identity u p) s.identities o in
      let q : t ≡ set_identities (delete_rows (is_identity u p) s.identities) s =
        ground (arith, o, d) in
      let z : count (is_linked p x) (delete_rows (is_identity u p) s.identities) ≡ 0 = ground (
        arith,
        n,
        m,
        e,
        (eq_iff x x).1 refl,
        count-delete_rows (is_linked p x) (is_identity u p) s.identities,
        one_or_none-count (is_identity u p) (is_linked p x) s.identities o,
      ) in
      rw q (one_or_none-zero (is_linked p x) (delete_rows (is_identity u p) s.identities) z, refl)

module _ (x : Gateway) (c : Call) (code code_verifier redirect_uri : String) (s : Site)
    (t : TokenData) (p : DiscordProfile) where
  refused :
      x.has_discord_client_id ≡ true
      → discord_login x code code_verifier redirect_uri ≡ some (t, p)
      → one_or_none (is_linked Provider.discord p.external_id) s.identities ≡ ok none
      → (l : RevokedAuthLink)
      → one_or_none (is_revoked Provider.discord p.external_id) s.revoked ≡ ok (some l)
      → discord_auth x c code code_verifier redirect_uri s
        ≡ (err (conflict auth_discord_relink_required), s)
  unfolding discord_auth get_by_provider_external_id user_of_identity get_revoked
  refused h d n l r = ground (arith, h, d, n, r)

module _ (c : Call) (user : User) (s s' : Site) (i : ProviderIdentity) (external_id : String) where
  removed :
      (answer : User)
      → one_or_none (is_identity user.id Provider.discord) s.identities ≡ ok (some i)
      → i.external_id ≡ some external_id
      → count (is_linked Provider.discord external_id) s.identities ≤ 1
      → remove_identity c user (some external_id) s ≡ (ok answer, s')
      → (one_or_none (is_linked Provider.discord external_id) s'.identities ≡ ok none)
        × (count (is_revoked Provider.discord external_id) s'.revoked ≡ 1)
  removed answer o e n d =
      revoke (upsert_revoked c.new_link user.id Provider.discord external_id s).0 _ refl
    where
      delete :
          (l : RevokedAuthLink) (s1 : Site)
          → upsert_revoked c.new_link user.id Provider.discord external_id s ≡ (ok l, s1)
          → (q : Result (Unit {0})) (s2 : Site)
          → delete_for_user user.id Provider.discord s1 ≡ (q, s2)
          → (one_or_none (is_linked Provider.discord external_id) s'.identities ≡ ok none)
            × (count (is_revoked Provider.discord external_id) s'.revoked ≡ 1)
      delete l s1 f (err y) s2 g = ground (arith, d, f, g)
      delete l s1 f (ok unit) s2 g =
          let same : s1.identities ≡ s.identities =
            same-upserted c.new_link user.id Provider.discord external_id s s1 l f in
          let same' : s' ≡ s2 = ground (arith, d, f, g) in
          let (a, b) =
            unlinked user.id Provider.discord external_id s1 s2 unit i (rw same o) e (rw same n)
              g in
          let c1 : count (is_revoked Provider.discord external_id) s1.revoked ≡ 1 =
            upserted c.new_link user.id Provider.discord external_id s s1 l
              (one_or_none (is_revoked Provider.discord external_id) s.revoked) refl f in
          rw same' (a, rw b c1)

      revoke :
          (q : Result RevokedAuthLink) (s1 : Site)
          → upsert_revoked c.new_link user.id Provider.discord external_id s ≡ (q, s1)
          → (one_or_none (is_linked Provider.discord external_id) s'.identities ≡ ok none)
            × (count (is_revoked Provider.discord external_id) s'.revoked ≡ 1)
      revoke (err y) s1 f = ground (arith, d, f)
      revoke (ok l) s1 f =
          delete l s1 f (delete_for_user user.id Provider.discord s1).0
            (delete_for_user user.id Provider.discord s1).1 refl

  removal :
      (answer : User) (r : Result User) (t : Site)
      → one_or_none (is_user user.id) s.users ≡ ok (some user)
      → one_or_none (is_identity user.id Provider.discord) s.identities ≡ ok (some i)
      → i.external_id ≡ some external_id
      → unlinkable user s ≡ (r, t)
      → unlink_discord c user s ≡ (ok answer, s')
      → remove_identity c user (some external_id) s ≡ (ok answer, s')
  unfolding unlink_discord get_for_user
  removal answer (err y) t w o e q d = ground (arith, q, d)
  removal answer (ok r) t w o e q d =
      let (a, b, m) = unlinkable_lem user r s t w q in ground (arith, q, a, b, o, e, d)

  -- A user, given as the row stands, unlinks Discord, and the Discord account is linked to nobody else: signing in
  -- with that account then ends with the error that asks to link it again, and changes nothing. So no
  -- second user is made of it.
  pub discord_auth-unlink_discord :
      (answer : User)
      → one_or_none (is_user user.id) s.users ≡ ok (some user)
      → one_or_none (is_identity user.id Provider.discord) s.identities ≡ ok (some i)
      → i.external_id ≡ some external_id
      → count (is_linked Provider.discord external_id) s.identities ≤ 1
      → unlink_discord c user s ≡ (ok answer, s')
      → (x : Gateway) (c' : Call) (code code_verifier redirect_uri : String) (t : TokenData)
        (p : DiscordProfile)
      → x.has_discord_client_id ≡ true
      → discord_login x code code_verifier redirect_uri ≡ some (t, p)
      → p.external_id ≡ external_id
      → discord_auth x c' code code_verifier redirect_uri s'
        ≡ (err (conflict auth_discord_relink_required), s')
  discord_auth-unlink_discord answer w o e n d x c' code code_verifier redirect_uri t p h f v =
      let m : remove_identity c user (some external_id) s ≡ (ok answer, s') =
        removal answer (unlinkable user s).0 (unlinkable user s).1 w o e refl d in
      let (a, b) = removed answer o e n m in
      let (l, k) = one_or_none-found (is_revoked Provider.discord external_id) s'.revoked b in
      refused x c' code code_verifier redirect_uri s' t p h f (rw v a) l (rw v k)
