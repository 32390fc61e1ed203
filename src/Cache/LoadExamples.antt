-- ===== src/Cache/LoadExamples.antt =====
-- The theorems about Load at a concrete file system, with a file that does not read.
use ociregistry.Base.{◌≡◌, refl, true, false, none, some, [], ◌∷◌, ◌++◌, lit, contains, Map}
use ociregistry.Imgpull.{ManifestHolder, Env, written}
use ociregistry.Serialize.{File, manifest, unreadable, Files, walk_files}
use ociregistry.Cache.{reset_cache}
use ociregistry.Cache.Loading.{load_one, load, IsComplete, load-IsComplete, load_unreadable}

abbrev disk : Env
disk = record {
  layers = λ mh. [];
  is_image_manifest = λ mh. true;
  is_latest_manifest = λ mh. some (contains mh.image_url (lit ":latest"));
  image_manifest_digests = λ mh. [];
  marshal_fails = λ mh. false;
  unmarshalled = λ mh. some mh;
  added_visited = λ entries. [];
  write_outcome = λ l d. written;
  remove_fails = λ d. false;
  directory_size = 4096;
}

abbrev newest : ManifestHolder
newest = record {
  image_url = lit "quay.io/x:latest";
  digest = lit "c";
  created = lit "2025-01-01T00:00:00";
  pulled = lit "2025-01-01T00:00:00";
  bytes = [];
}

abbrev pub readable : Map File
readable = (lit "c", manifest newest) ∷ []

abbrev later : Map File
later = (lit "e", manifest (record newest { image_url = lit "quay.io/y:latest" })) ∷ []

abbrev files : Files
files = record { lts = readable ++ (lit "d", unreadable) ∷ later; img = []; blobs = [] }

load-IsComplete_example :
    IsComplete disk files (load disk files).0.manifests
    × IsComplete disk files (load disk files).0.latest
load-IsComplete_example = load-IsComplete disk files

load_unreadable_example :
    load disk files ≡ (walk_files (load_one disk) readable (reset_cache files, none)).0
load_unreadable_example = load_unreadable disk files readable later (lit "d") refl
