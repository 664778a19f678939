-- ===== src/Avatars/Urls.antt =====
-- Tests of presigned uploads: a base URL, and functions on texts that take a key below it apart.
use ingame.Prelude.{
  ◌≡◌, refl, ap, ◌∙◌, String, Option, none, some, arith, ==_refl, ◌==◌, if◌then◌else◌, List,
}
use Prim.Native.String.{◌++◌, [], ◌∷◌}
use Prim.Native.String.append
use Prim.Native.Char.{code}
use ingame.Errors.{ok}
use ingame.Avatars.Storage.{
  Texts, SplitUrl, StorageSettings, managed_avatar_object_key_from_public_url, resolve_upload_url,
}
use ingame.Avatars.Presign.{
  ContentType, Presigned, UploadAnswer, presigned_upload, BaseLaws, managed-presigned_upload,
}

unfoldable drop_prefix : String → String → Option String
drop_prefix t [] = some t
drop_prefix [] (c ∷ p) = none
drop_prefix (d ∷ t) (c ∷ p) = if code d == code c then drop_prefix t p else none

drop_prefix-append : (p t : String) → drop_prefix (p ++ t) p ≡ some t
unfolding drop_prefix
drop_prefix-append [] t = ap some (append.nil t)
drop_prefix-append (c ∷ p) t =
    ap (λ u. drop_prefix u (c ∷ p)) (append.cons c p t)
    ∙ ground (arith, ==_refl (code c), drop_prefix-append p t)

abbrev below : String → Option String → SplitUrl
below t none = record { scheme = ""; netloc = ""; path = t; query = ""; fragment = "" }
below t (some path) = record {
  scheme = "https";
  netloc = "cdn";
  path = path;
  query = "";
  fragment = "";
}

abbrev texts : Texts
texts = record {
  strip = λ t. t;
  rstrip_slash = λ t. t;
  lstrip_slash = λ t. t;
  after_prefix = drop_prefix;
  urlsplit = λ t. below t (drop_prefix t "https://cdn");
  urlunsplit = λ u. u.path;
}

abbrev settings : StorageSettings
settings = record {
  bucket = "avatars";
  public_base_url = "https://cdn";
  upload_base_url = "";
  presign_expires_seconds = 300;
  max_file_size_bytes = 2097152;
}

abbrev presigned : Presigned
presigned = record { url = "https://s3"; fields = List.[] }

abbrev upload : UploadAnswer
upload = record {
  upload_url = "https://s3";
  upload_fields = List.[];
  object_key = "users/7/avatars/9.png";
  avatar_url = "https://cdn/users/7/avatars/9.png";
  expires_in_seconds = 300;
  max_file_size_bytes = 2097152;
  allowed_content_types =
      List.◌∷◌ ContentType.jpeg (List.◌∷◌ ContentType.png (List.◌∷◌ ContentType.webp List.[]));
}

base_laws : BaseLaws texts "https://cdn" "users/7/avatars/9.png"
unfolding drop_prefix
base_laws = record {
  stripped = refl;
  unslashed = refl;
  key_unslashed = refl;
  key_text = refl;
  scheme = refl;
  netloc = refl;
  url_text = refl;
  below = refl;
  taken_off = λ p t. drop_prefix-append p t;
}

upload_answered :
    presigned_upload texts settings (λ key c. some presigned) "users/7/avatars/" "9" ContentType.png
    ≡ ok upload
unfolding presigned_upload resolve_upload_url
upload_answered = refl

managed-presigned_upload_example :
    managed_avatar_object_key_from_public_url texts settings
      (some "https://cdn/users/7/avatars/9.png")
    ≡ some "users/7/avatars/9.png"
managed-presigned_upload_example =
    managed-presigned_upload texts settings (λ key c. some presigned) "users/7/avatars/" "9"
      ContentType.png upload upload_answered base_laws
