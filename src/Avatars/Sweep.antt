-- ===== src/Avatars/Sweep.antt =====
-- What a sweep of a prefix deletes (backend/app/storage/avatar_uploads.py).
use ingame.Prelude.{
  ℕ, zero, suc, ◌≤◌, ◌≡◌, refl, sym, ap, String, Bool, true, false, not, ◌&&◌, ◌||◌, Option, none,
  some, List, [], ◌∷◌, ◌++◌, length, ltb, if◌then◌else◌, arith, str_eq, Bool-cases, inl, inr,
  eq_iff,
}
use ingame.Errors.{ok, err, service_unavailable, user_avatar_upload_unavailable}
use ingame.Avatars.Storage.{
  Texts, StorageSettings, managed_avatar_object_key_from_public_url, Page, Client, is_kept,
  stale_of, next_token, list_stale, sweep_avatar_prefix, swept, is_blank,
}
use ingame.Avatars.Storage.{listed}

-- The client answers a listing from a token on with these pages, the last of which names no next one.
abbrev pub Serves : Client → String → Option String → List Page → Type 0
Serves c prefix token [] = ⊥
Serves c prefix token (p ∷ []) = (c.list_objects_v2 prefix token ≡ some p) × (next_token p ≡ none)
Serves c prefix token (p ∷ q ∷ pages) =
    (c.list_objects_v2 prefix token ≡ some p)
    × ((t : String) × (next_token p ≡ some t) × Serves c prefix (some t) (q ∷ pages))

abbrev pub contents : List Page → List String
contents [] = []
contents (p ∷ []) = p.contents
contents (p ∷ q ∷ pages) = p.contents ++ contents (q ∷ pages)

stale_of-append :
    (keep : Option String) (xs ys : List String)
    → stale_of keep (xs ++ ys) ≡ stale_of keep xs ++ stale_of keep ys
unfolding stale_of
stale_of-append keep [] ys = refl
stale_of-append keep (x ∷ xs) ys = ground (arith, stale_of-append keep xs ys)

list_stale_lem :
    (c : Client) (prefix : String) (keep token : Option String) (pages : List Page) (fuel : ℕ)
    → Serves c prefix token pages
    → length pages ≤ fuel
    → list_stale c prefix keep fuel token ≡ listed (stale_of keep (contents pages))
unfolding list_stale
list_stale_lem c prefix keep token [] fuel s h = absurd s
list_stale_lem c prefix keep token (p ∷ []) (suc fuel) (a, b) h = ground (arith, a, b)
list_stale_lem c prefix keep token (p ∷ q ∷ pages) (suc fuel) (a, (t, b, s)) h = ground (
  arith,
  a,
  b,
  stale_of-append keep p.contents (contents (q ∷ pages)),
  list_stale_lem c prefix keep (some t) (q ∷ pages) fuel s (omega (arith, h)),
)
list_stale_lem c prefix keep token (p ∷ []) zero s h = absurd (omega (arith, h))
list_stale_lem c prefix keep token (p ∷ q ∷ pages) zero s h = absurd (omega (arith, h))

-- `key in keys`
unfoldable pub has : String → List String → Bool
has key [] = false
has key (k ∷ keys) = str_eq key k || has key keys

-- the key of the avatar to keep, if it has one
abbrev pub names : Option String → String → Bool
names none key = false
names (some keep) key = str_eq key keep

is_kept-eq :
    (keep : Option String) (key k : String)
    → str_eq key k ≡ true
    → is_kept keep k ≡ is_kept keep key
is_kept-eq keep key k e = ap (is_kept keep) (sym ((eq_iff key k).0 e))

is_kept-names : (keep : Option String) (key : String) → is_kept keep key ≡ names keep key
is_kept-names none key = refl
is_kept-names (some keep) key = refl

has-stale_of :
    (keep : Option String) (key : String) (keys : List String)
    → has key (stale_of keep keys) ≡ (has key keys && not (names keep key))
unfolding has stale_of
has-stale_of keep key [] = refl
has-stale_of keep key (k ∷ keys) = elim (Bool-cases (is_kept keep k)) [
  | inl e ↦
      ground (arith, e, has-stale_of keep key keys, is_kept-eq keep key k, is_kept-names keep key)
  | inr e ↦
      ground (arith, e, has-stale_of keep key keys, is_kept-eq keep key k, is_kept-names keep key)
]

swept-listed :
    (c : Client) (keys : List String)
    → swept c (listed keys)
      ≡ some (
          if ltb 0 (length keys) && c.delete_objects_raises keys
          then err (service_unavailable user_avatar_upload_unavailable)
          else ok keys)
swept-listed c [] = ground arith
swept-listed c (k ∷ keys) = ground arith

-- Where the storage is configured and its client answers the listing of the prefix in pages, as many as the fuel at
-- most: the stale keys are exactly those that were listed but the one of the avatar to keep; and the
-- sweep ends, with one deletion of them all, whether they are few or many. It raises
-- `service_unavailable` exactly where there are stale keys and that deletion raises, and deletes
-- them otherwise.
pub sweep_avatar_prefix_lem :
    (x : Texts) (s : StorageSettings) (c : Client) (fuel : ℕ) (prefix : String)
    (keep_avatar_url : Option String) (pages : List Page)
    → is_blank s.bucket ≡ false
    → is_blank s.public_base_url ≡ false
    → Serves c prefix none pages
    → length pages ≤ fuel
    → (stale : List String) × (sweep_avatar_prefix x s c fuel prefix keep_avatar_url
        ≡ some (
            if ltb 0 (length stale) && c.delete_objects_raises stale
            then err (service_unavailable user_avatar_upload_unavailable)
            else ok stale))
      × ((key : String)
          → has key stale ≡ (
              has key (contents pages)
              && not (names (managed_avatar_object_key_from_public_url x s keep_avatar_url) key)))
unfolding sweep_avatar_prefix
sweep_avatar_prefix_lem x s c fuel prefix keep_avatar_url pages b u v h =
    let keep : Option String = managed_avatar_object_key_from_public_url x s keep_avatar_url in
    let keys : List String = stale_of keep (contents pages) in
    let l : list_stale c prefix keep fuel none ≡ listed keys =
      list_stale_lem c prefix keep none pages fuel v h in
    (
      keys,
      ground (arith, b, u, l, swept-listed c keys),
      λ key. has-stale_of keep key (contents pages),
    )
