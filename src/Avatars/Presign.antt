-- ===== src/Avatars/Presign.antt =====
-- Presigned uploads (backend/app/storage/avatar_uploads.py). The client's call that signs is a parameter.
use ingame.Prelude.{
  ℕ, ◌≡◌, refl, ap, ◌∙◌, String, Bool, true, false, ◌||◌, Option, none, some, List, [], ◌∷◌, arith,
  str_eq, eq_iff, if◌then◌else◌,
}
use Prim.Native.String.{◌++◌ as append}
use ingame.Errors.{Result, ok, err}
use ingame.Avatars.Storage.{
  Texts, SplitUrl, StorageSettings, is_blank, unavailable, resolve_upload_url, avatar_object_prefix,
  group_avatar_object_prefix, managed_avatar_object_key_from_public_url, key_below,
}

-- The keys of `ALLOWED_AVATAR_CONTENT_TYPES`, which the services check first
pub data ContentType : Type 0 where
  jpeg png webp : ContentType

abbrev pub extension : ContentType → String
extension ContentType.jpeg = "jpg"
extension ContentType.png = "png"
extension ContentType.webp = "webp"

-- What `generate_presigned_post` answers
pub record Presigned : Type 0 where
  pub url : String
  pub fields : List (String × String)

pub record UploadAnswer : Type 0 where
  pub upload_url : String
  pub upload_fields : List (String × String)
  pub object_key : String
  pub avatar_url : String
  pub expires_in_seconds : ℕ
  pub max_file_size_bytes : ℕ
  pub allowed_content_types : List ContentType

abbrev public_url : Texts → StorageSettings → String → String
public_url x s key = append (append (x.rstrip_slash s.public_base_url) "/") key

abbrev upload_answer :
    Texts → StorageSettings → String → Presigned → Result String → Result UploadAnswer
upload_answer x s key p (err e) = err e
upload_answer x s key p (ok url) = ok (record {
  upload_url = url;
  upload_fields = p.fields;
  object_key = key;
  avatar_url = public_url x s key;
  expires_in_seconds = s.presign_expires_seconds;
  max_file_size_bytes = s.max_file_size_bytes;
  allowed_content_types = ContentType.jpeg ∷ ContentType.png ∷ ContentType.webp ∷ [];
})

abbrev with_presigned : Texts → StorageSettings → String → Option Presigned → Result UploadAnswer
with_presigned x s key none = unavailable
with_presigned x s key (some p) = upload_answer x s key p (resolve_upload_url x s p.url)

-- What both functions do from the prefix on; `presign` raises where it is `none`, and `text` is that of a new id.
unfoldable pub presigned_upload :
    Texts
    → StorageSettings
    → (String → ContentType → Option Presigned)
    → String
    → String
    → ContentType
    → Result UploadAnswer
unfolding resolve_upload_url
presigned_upload x s presign prefix text content_type =
    if is_blank s.bucket || is_blank s.public_base_url
    then unavailable
    else (let key : String = append prefix (append text (append "." (extension content_type))) in
        with_presigned x s key (presign key content_type))

unfoldable pub generate_avatar_upload :
    Texts
    → StorageSettings
    → (String → ContentType → Option Presigned)
    → String
    → String
    → ContentType
    → Result UploadAnswer
unfolding presigned_upload avatar_object_prefix
generate_avatar_upload x s presign user_text text content_type =
    presigned_upload x s presign (avatar_object_prefix user_text) text content_type

unfoldable pub generate_group_avatar_upload :
    Texts
    → StorageSettings
    → (String → ContentType → Option Presigned)
    → String
    → String
    → ContentType
    → Result UploadAnswer
unfolding presigned_upload group_avatar_object_prefix
generate_group_avatar_upload x s presign group_text text content_type =
    presigned_upload x s presign (group_avatar_object_prefix group_text) text content_type

-- What the code relies on of Python's functions for a base URL and a key below it: neither is changed by stripping, the
-- base has a scheme and a host, a URL below the base splits at the end of the base, and a prefix is taken off.
pub record BaseLaws (x : Texts) (base key : String) : Type 0 where
  pub stripped : x.strip base ≡ base
  pub unslashed : x.rstrip_slash base ≡ base
  pub key_unslashed : x.lstrip_slash key ≡ key
  pub key_text : is_blank key ≡ false
  pub scheme : is_blank (x.urlsplit base).scheme ≡ false
  pub netloc : is_blank (x.urlsplit base).netloc ≡ false
  pub url_text : is_blank (append (append base "/") key) ≡ false
  pub below : x.urlsplit (append (append base "/") key) ≡ record {
    scheme = (x.urlsplit base).scheme;
    netloc = (x.urlsplit base).netloc;
    path = append (append (x.rstrip_slash (x.urlsplit base).path) "/") key;
    query = "";
    fragment = "";
  }
  pub taken_off : (p t : String) → x.after_prefix (append p t) p ≡ some t

-- A URL whose parts lie below those of the base has the rest of its path as its key.
key_below-below :
    (x : Texts) (base : SplitUrl) (path key : String)
    → is_blank base.scheme ≡ false
    → is_blank base.netloc ≡ false
    → x.after_prefix path (append (x.rstrip_slash base.path) "/") ≡ some key
    → x.lstrip_slash key ≡ key
    → is_blank key ≡ false
    → key_below x base (record {
      scheme = base.scheme;
      netloc = base.netloc;
      path = path;
      query = "";
      fragment = "";
    })
      ≡ some key
key_below-below x base path key a b c d e =
    let f : str_eq base.scheme base.scheme ≡ true = (eq_iff base.scheme base.scheme).1 refl in
    let g : str_eq base.netloc base.netloc ≡ true = (eq_iff base.netloc base.netloc).1 refl in
    rw (a, b, c, d, e, f, g) refl

module _ (x : Texts) (s : StorageSettings) where
  managed_of_base :
      (key url : String)
      → x.rstrip_slash (x.strip s.public_base_url) ≡ s.public_base_url
      → is_blank s.public_base_url ≡ false
      → is_blank url ≡ false
      → managed_avatar_object_key_from_public_url x s (some url)
        ≡ key_below x (x.urlsplit s.public_base_url) (x.urlsplit url)
  unfolding managed_avatar_object_key_from_public_url
  managed_of_base key url a b u = rw (a, b, u) refl

  managed_of_public :
      (key : String)
      → BaseLaws x s.public_base_url key
      → is_blank s.public_base_url ≡ false
      → managed_avatar_object_key_from_public_url x s
          (some (append (append s.public_base_url "/") key))
        ≡ some key
  managed_of_public key l b =
      let base : SplitUrl = x.urlsplit s.public_base_url in
      let path : String = append (append (x.rstrip_slash base.path) "/") key in
      managed_of_base key (append (append s.public_base_url "/") key)
        (ap x.rstrip_slash l.stripped ∙ l.unslashed) b l.url_text
      ∙ ap (key_below x base) l.below
      ∙ key_below-below x base path key l.scheme l.netloc
          (l.taken_off (append (x.rstrip_slash base.path) "/") key) l.key_unslashed l.key_text

  module _ (presign : String → ContentType → Option Presigned) (prefix text : String)
      (content_type : ContentType) (a : UploadAnswer) where
    answered_url :
        (q : Presigned) (r : Result String) (key : String)
        → upload_answer x s key q r ≡ ok a
        → a.avatar_url ≡ public_url x s a.object_key
    answered_url q (err y) key e = ground (arith, e)
    answered_url q (ok url) key e = ground (arith, e)

    answered :
        (p : Option Presigned) (key : String)
        → with_presigned x s key p ≡ ok a
        → a.avatar_url ≡ public_url x s a.object_key
    answered none key e = ground (arith, e)
    answered (some q) key e = answered_url q (resolve_upload_url x s q.url) key e

    configured :
        {r : Result UploadAnswer} (b : Bool)
        → (if b then unavailable else r) ≡ ok a
        → (b ≡ false) × (r ≡ ok a)
    configured true e = ground (arith, e)
    configured false e = (refl, e)

    presigned_upload_lem :
        presigned_upload x s presign prefix text content_type ≡ ok a
        → (is_blank s.public_base_url ≡ false) × (a.avatar_url ≡ public_url x s a.object_key)
    unfolding presigned_upload
    presigned_upload_lem e =
        let key : String = append prefix (append text (append "." (extension content_type))) in
        let (f, g) = configured (is_blank s.bucket || is_blank s.public_base_url) e in
        (ground (arith, f), answered (presign key content_type) key g)

    -- Where Python's functions on texts and URLs take the public base URL, which ends in no slash, and the answered key
    -- apart as they were put together: the URL that an answered upload will have is one of the storage's own, and its key is
    -- the key of the upload.
    pub managed-presigned_upload :
        presigned_upload x s presign prefix text content_type ≡ ok a
        → BaseLaws x s.public_base_url a.object_key
        → managed_avatar_object_key_from_public_url x s (some a.avatar_url) ≡ some a.object_key
    managed-presigned_upload e l =
        let (b, u) = presigned_upload_lem e in
        let v : a.avatar_url ≡ append (append s.public_base_url "/") a.object_key =
          u ∙ ap (λ t. append (append t "/") a.object_key) l.unslashed in
        ap (λ t. managed_avatar_object_key_from_public_url x s (some t)) v
        ∙ managed_of_public a.object_key l b
