-- ===== src/Subcmd/Prune/Examples.antt =====
-- The theorems about the prune of files at a concrete file system: two images that share a blob.
use ociregistry.Base.{
  ℕ, zero, suc, ◌+◌, ◌≡◌, refl, true, false, none, some, [], ◌∷◌, Str, lit, str_eq, lookup, insert,
  delete, is_empty, if◌then◌else◌, ok, ◌==◌,
}
use ociregistry.Imgpull.{ManifestHolder, Layer, Env, written}
use ociregistry.Serialize.{
  manifest, Files, sub_dir, with_sub_dir, get_all_blobs, rm_blob_file, rm_manifest_file, walk_files,
  walk_the_cache,
}
use ociregistry.Serialize.Digest.{get_digest_from, last_run, hex_run, is_hex}
use ociregistry.Subcmd.Prune.{
  Matches, do_prune, add_image_manifests, tally_blob_count, tally_one, tally_layers,
  dec_blob_counts, dec_layers, remove_all, remove_blobs, remove_manifests,
}
use ociregistry.Subcmd.Prune.Tally.{file_references, match_references}
use ociregistry.Subcmd.Prune.Removal.{AreFiles}
use ociregistry.Subcmd.Prune.Safety.{IsStore, do_prune_lem}

abbrev repeat : ℕ → ℕ → Str
repeat zero c = []
repeat (suc n) c = c ∷ repeat n c

abbrev layer_a : Layer
layer_a = record { digest = repeat 64 b'a'; size = 3 }

abbrev layer_b : Layer
layer_b = record { digest = repeat 64 b'b'; size = 5 }

-- The first image has two layers, every other one.
abbrev disk : Env
disk = record {
  layers = λ mh. if str_eq mh.digest (lit "1") then layer_a ∷ layer_b ∷ [] else layer_b ∷ [];
  is_image_manifest = λ mh. true;
  is_latest_manifest = λ mh. some false;
  image_manifest_digests = λ mh. [];
  marshal_fails = λ mh. false;
  unmarshalled = λ mh. some mh;
  added_visited = λ entries. [];
  write_outcome = λ l d. written;
  remove_fails = λ d. false;
  directory_size = 4096;
}

abbrev first : ManifestHolder
first = record {
  image_url = lit "quay.io/x:v1";
  digest = lit "1";
  created = lit "2025-01-01T00:00:00";
  pulled = lit "2025-01-01T00:00:00";
  bytes = [];
}

abbrev second : ManifestHolder
second = record first { image_url = lit "quay.io/x:v2"; digest = lit "2" }

abbrev files : Files
files = record {
  lts = [];
  img = (lit "1", manifest first) ∷ (lit "2", manifest second) ∷ [];
  blobs = (layer_a.digest, 3) ∷ (layer_b.digest, 5) ∷ [];
}

abbrev matches : Matches
matches = (first.image_url, first) ∷ []

abbrev files_left : Files
files_left = record {
  lts = [];
  img = (lit "2", manifest second) ∷ [];
  blobs = (layer_b.digest, 5) ∷ [];
}

files-IsStore : IsStore files
unfolding lookup str_eq
files-IsStore = record {
  lts_keys = tt;
  img_keys = (refl, (refl, tt));
  blob_keys = (refl, (refl, tt));
  lts_read = tt;
  img_read = tt;
}

no_lists : add_image_manifests disk matches files matches ≡ ok matches
unfolding add_image_manifests
no_lists = refl

matches-AreFiles : AreFiles disk matches files
unfolding sub_dir lookup str_eq
matches-AreFiles = ((false, refl, refl), tt)

pruned : do_prune disk false matches files ≡ (files_left, ok tt)
unfolding do_prune add_image_manifests tally_blob_count tally_one tally_layers walk_the_cache
    walk_files get_all_blobs dec_blob_counts dec_layers remove_all remove_blobs remove_manifests
    rm_blob_file rm_manifest_file sub_dir with_sub_dir lookup insert delete str_eq get_digest_from
    last_run hex_run is_hex is_empty
pruned = refl

do_prune_lem_example :
    (lookup layer_b.digest files_left.blobs ≡ (
      if file_references disk files_left layer_b.digest == 0
      then none
      else lookup layer_b.digest files.blobs))
    × (file_references disk files layer_b.digest
        ≡ match_references disk matches layer_b.digest
          + file_references disk files_left layer_b.digest)
do_prune_lem_example =
    do_prune_lem disk matches matches files files_left files-IsStore no_lists matches-AreFiles
      pruned layer_b.digest
