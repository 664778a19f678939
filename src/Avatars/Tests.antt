-- ===== src/Avatars/Tests.antt =====
-- The janitor at work: an upload that was never committed, and a committed one.
use ingame.Prelude.{
  ◌≡◌, refl, true, false, String, none, some, List, [], ◌∷◌, arith, ◌&&◌, not, ℕ, ◌+◌, ◌||◌, length,
  ltb, leb, is_some, if◌then◌else◌,
}
use ingame.Errors.{ok, err, service_unavailable, user_avatar_upload_unavailable}
use ingame.Db.Models.{AvatarUploadLedger}
use ingame.Db.Table.{count, select}
use ingame.World.{empty_db}
use ingame.Avatars.Janitor.{Bucket, Shelf, run_avatar_upload_janitor_once}
use ingame.Avatars.Cleaning.{committed, committed-run_avatar_upload_janitor_once}
use ingame.Avatars.Storage.{
  Texts, StorageSettings, Page, Client, managed_avatar_object_key_from_public_url,
  sweep_avatar_prefix,
}
use ingame.Avatars.Sweep.{has, contents, names, sweep_avatar_prefix_lem}
use ingame.Avatars.Overdue.{IsKeyed}
use ingame.Avatars.Expired.{ledger-run_avatar_upload_janitor_once}

abbrev bucket : Bucket
bucket = record { is_configured = true; raises = λ key. false }

abbrev broken : Bucket
broken = record { is_configured = true; raises = λ key. true }

abbrev abandoned : AvatarUploadLedger
abandoned = record {
  id = 1;
  user_id = 7;
  object_key = "a";
  avatar_url = "https://a";
  created_at = 100;
  committed_at = none;
}

abbrev claimed : AvatarUploadLedger
claimed = record {
  id = 2;
  user_id = 7;
  object_key = "b";
  avatar_url = "https://b";
  created_at = 100;
  committed_at = some 200;
}

abbrev shelf : Shelf
shelf = record {
  world = record {
    db = record empty_db { ledger = abandoned ∷ claimed ∷ [] };
    published = [];
    enqueued = [];
  };
  deleted = [];
}

shelf-IsKeyed : IsKeyed shelf.world.ledger
unfolding count
shelf-IsKeyed i = ground arith

committed-run_avatar_upload_janitor_once_example :
    committed (run_avatar_upload_janitor_once broken 1000 shelf).1 ≡ committed shelf
committed-run_avatar_upload_janitor_once_example =
    committed-run_avatar_upload_janitor_once broken 1000 shelf

ledger-run_avatar_upload_janitor_once_example :
    let (q, t) = run_avatar_upload_janitor_once bucket 1000 shelf in
    ((m : ℕ) × (q ≡ ok m) × (m + length t.world.ledger ≡ length shelf.world.ledger))
    × (t.world.ledger
        ≡ select (λ r. is_some r.committed_at || leb 1000 r.created_at) shelf.world.ledger)
ledger-run_avatar_upload_janitor_once_example =
    ledger-run_avatar_upload_janitor_once bucket 1000 (λ key. refl) shelf shelf-IsKeyed

abbrev texts : Texts
texts = record {
  strip = λ t. t;
  rstrip_slash = λ t. t;
  lstrip_slash = λ t. t;
  after_prefix = λ t p. some t;
  urlsplit = λ t. record { scheme = "https"; netloc = "cdn"; path = t; query = ""; fragment = "" };
  urlunsplit = λ u. u.path;
}

abbrev settings : StorageSettings
settings = record {
  bucket = "avatars";
  public_base_url = "https://cdn";
  upload_base_url = "";
  presign_expires_seconds = 300;
  max_file_size_bytes = 2097152;
}

abbrev first_page : Page
first_page = record {
  contents = "k1" ∷ "k2" ∷ [];
  is_truncated = true;
  next_continuation_token = some "t";
}

abbrev last_page : Page
last_page = record { contents = "k3" ∷ []; is_truncated = false; next_continuation_token = none }

abbrev client : Client
client = record {
  list_objects_v2 = λ prefix token. elim token [ none ↦ some first_page | some t ↦ some last_page ];
  delete_objects_raises = λ keys. ltb 1000 (length keys);
}

sweep_avatar_prefix_lem_example :
    (stale : List String) × (sweep_avatar_prefix texts settings client 5 "users/7/avatars/"
        (some "k2")
      ≡ some (
          if ltb 0 (length stale) && ltb 1000 (length stale)
          then err (service_unavailable user_avatar_upload_unavailable)
          else ok stale))
    × ((key : String)
        → has key stale ≡ (
            has key (contents (first_page ∷ last_page ∷ []))
            && not
                (names (managed_avatar_object_key_from_public_url texts settings (some "k2")) key)))
sweep_avatar_prefix_lem_example =
    sweep_avatar_prefix_lem texts settings client 5 "users/7/avatars/" (some "k2")
      (first_page ∷ last_page ∷ []) refl refl (refl, ("t", refl, (refl, refl))) (omega arith)
