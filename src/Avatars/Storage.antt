-- ===== src/Avatars/Storage.antt =====
-- The object storage of avatars (backend/app/storage/avatar_uploads.py). The client of the storage, whose calls may
-- raise, and Python's functions on texts and URLs are parameters.
use ingame.Prelude.{
  ℕ, zero, suc, String, Bool, false, not, ◌&&◌, ◌||◌, Option, none, some, List, [], ◌∷◌, ◌++◌,
  str_eq, if◌then◌else◌,
}
use Prim.Native.String.{◌++◌ as append}
use ingame.Errors.{Result, ok, err, service_unavailable, user_avatar_upload_unavailable}

-- What `urlsplit` answers
pub record SplitUrl : Type 0 where
  pub scheme : String
  pub netloc : String
  pub path : String
  pub query : String
  pub fragment : String

-- `s.strip()`, `s.rstrip("/")`, `s.lstrip("/")`, `s.removeprefix(p)` where `s` starts with `p`, and the functions of
-- `urllib.parse`
pub record Texts : Type 0 where
  pub strip : String → String
  pub rstrip_slash : String → String
  pub lstrip_slash : String → String
  pub after_prefix : String → String → Option String
  pub urlsplit : String → SplitUrl
  pub urlunsplit : SplitUrl → String

pub record StorageSettings : Type 0 where
  pub bucket : String
  pub public_base_url : String
  pub upload_base_url : String
  pub presign_expires_seconds : ℕ
  pub max_file_size_bytes : ℕ

abbrev pub is_blank : String → Bool
is_blank t = str_eq t ""

abbrev pub unavailable : {A : Type 0} → Result A
unavailable = err (service_unavailable user_avatar_upload_unavailable)

abbrev join_path : String → String → String
join_path base path = if is_blank base then path else append base path

abbrev on_base : Texts → SplitUrl → SplitUrl → Result String
on_base x base presigned =
    if is_blank base.scheme || is_blank base.netloc
    then unavailable
    else ok (
        x.urlunsplit (record {
          scheme = base.scheme;
          netloc = base.netloc;
          path = join_path (x.rstrip_slash base.path) presigned.path;
          query = presigned.query;
          fragment = presigned.fragment;
        }))

unfoldable pub resolve_upload_url : Texts → StorageSettings → String → Result String
resolve_upload_url x s presigned_url =
    if is_blank (x.strip s.upload_base_url)
    then ok presigned_url
    else on_base x (x.urlsplit (x.strip s.upload_base_url)) (x.urlsplit presigned_url)

abbrev is_foreign : SplitUrl → SplitUrl → Bool
is_foreign base avatar =
    is_blank base.scheme
    || is_blank base.netloc
    || not (str_eq avatar.scheme base.scheme && str_eq avatar.netloc base.netloc)
    || not (is_blank avatar.query)
    || not (is_blank avatar.fragment)

abbrev key_of : Texts → Option String → Option String
key_of x none = none
key_of x (some rest) = if is_blank (x.lstrip_slash rest) then none else some (x.lstrip_slash rest)

abbrev pub key_below : Texts → SplitUrl → SplitUrl → Option String
key_below x base avatar =
    if is_foreign base avatar
    then none
    else key_of x (x.after_prefix avatar.path (append (x.rstrip_slash base.path) "/"))

unfoldable pub managed_avatar_object_key_from_public_url :
    Texts → StorageSettings → Option String → Option String
managed_avatar_object_key_from_public_url x s none = none
managed_avatar_object_key_from_public_url x s (some url) =
    if is_blank url || is_blank (x.rstrip_slash (x.strip s.public_base_url))
    then none
    else key_below x (x.urlsplit (x.rstrip_slash (x.strip s.public_base_url))) (x.urlsplit url)

-- `str(id)` is the parameter `text`.
unfoldable pub avatar_object_prefix : String → String
avatar_object_prefix text = append "users/" (append text "/avatars/")

unfoldable pub group_avatar_object_prefix : String → String
group_avatar_object_prefix text = append "groups/" (append text "/avatars/")

-- What `list_objects_v2` answers; `none` is an exception.
pub record Page : Type 0 where
  pub contents : List String
  pub is_truncated : Bool
  pub next_continuation_token : Option String

pub record Client : Type 0 where
  pub list_objects_v2 : String → Option String → Option Page
  pub delete_objects_raises : List String → Bool

abbrev pub is_kept : Option String → String → Bool
is_kept none key = false
is_kept (some keep) key = str_eq key keep

unfoldable pub stale_of : Option String → List String → List String
stale_of keep [] = []
stale_of keep (key ∷ keys) =
    if is_kept keep key then stale_of keep keys else key ∷ stale_of keep keys

-- The result of a listing: out of fuel, an exception, or the keys that are stale
pub data Listing : Type 0 where
  out_of_fuel raised : Listing
  listed : List String → Listing

abbrev pub prepend : List String → Listing → Listing
prepend keys out_of_fuel = out_of_fuel
prepend keys raised = raised
prepend keys (listed rest) = listed (keys ++ rest)

-- The token of the next page, if the loop goes on
abbrev pub next_token : Page → Option String
next_token p =
    if p.is_truncated
    then (elim p.next_continuation_token [
      | none ↦ none
      | some t ↦ if is_blank t then none else some t
    ])
    else none

-- `while True`, for at most as many pages as the fuel
unfoldable pub list_stale : Client → String → Option String → ℕ → Option String → Listing
unfolding stale_of
list_stale c prefix keep zero token = out_of_fuel
list_stale c prefix keep (suc fuel) token = elim (c.list_objects_v2 prefix token) [
  | none ↦ raised
  | some p ↦ elim (next_token p) [
    | none ↦ listed (stale_of keep p.contents)
    | some t ↦ prepend (stale_of keep p.contents) (list_stale c prefix keep fuel (some t))
  ]
]

-- The keys that `delete_objects` deletes; `none` where the fuel ran out.
abbrev pub swept : Client → Listing → Option (Result (List String))
swept c out_of_fuel = none
swept c raised = some unavailable
swept c (listed []) = some (ok [])
swept c (listed (key ∷ keys)) =
    some (if c.delete_objects_raises (key ∷ keys) then unavailable else ok (key ∷ keys))

unfoldable pub sweep_avatar_prefix :
    Texts → StorageSettings → Client → ℕ → String → Option String → Option (Result (List String))
unfolding managed_avatar_object_key_from_public_url list_stale
sweep_avatar_prefix x s c fuel prefix keep_avatar_url =
    if is_blank s.bucket || is_blank s.public_base_url
    then some (ok [])
    else swept c (
        list_stale c prefix (managed_avatar_object_key_from_public_url x s keep_avatar_url) fuel
          none)
