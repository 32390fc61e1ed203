-- ===== src/Cache/Examples.antt =====
-- The theorems about the cache at concrete inputs: an image of two layers, pulled from quay.io.
use ociregistry.Base.{
  ℕ, zero, suc, ◌+◌, ◌<◌, ◌≡◌, refl, true, false, ◌&&◌, ◌||◌, none, some, List, [], ◌∷◌, ◌++◌,
  arith, Str, lit, is_empty, has_prefix, contains, contains_byte, to_lower, str_eq, str_eq_refl,
  lookup, insert, delete, cut, split, if◌then◌else◌, ok, ltb, ◌==◌,
}
use ociregistry.Base.Int.{pos}
use ociregistry.Imgpull.{ManifestHolder, Layer, Env, written}
use ociregistry.PullRequest.{
  url_with_digest, new_pull_request_from_url, split_reference, PullRequest, by_tag, is_by_tag,
  type_from_ref, separator, url, is_latest, sha256_prefix,
}
use ociregistry.PullRequest.RoundTrip.{IsCanonical}
use ociregistry.Serialize.{blob_size?, blob_exists}
use ociregistry.Serialize.Digest.{get_digest_from, last_run, hex_run, is_hex, IsDigest}
use ociregistry.Cache.Counts.{occurrences, HaveBlobs, AreRemovable}
use ociregistry.Cache.RefCounts.{references, IsCounted, home}
use ociregistry.Cache.Adding.{add_to_cache-IsCounted, add_to_cache-maps, lookup-add_manifest}
use ociregistry.Cache.Pruning.{IsPrunable, prune_blob_files, prune-IsCounted, lookup-prune}
use ociregistry.Cache.PullThenPrune.{add_to_cache-IsPrunable, prune-add}
use ociregistry.Cache.Replacing.{replace_in_cache-IsCounted}
use ociregistry.Cache.DoublePull.{IsSameImage, double_add}
use ociregistry.Server.{not_found, handle_v2_blobs_digest}
use ociregistry.Server.Blobs.{from_file, handle_v2_blobs_digest_lem}
use ociregistry.Cache.{
  Cache, replace_in_cache, rm_manifest, delete_manifest, from_cache, is_cached, digest_key,
  add_manifest_to_cache, add_layers, add_blobs_to_cache, add_to_cache, get_manifest_from_cache,
  prune, ref_count,
}

abbrev pub repeat : ℕ → ℕ → Str
repeat zero c = []
repeat (suc n) c = c ∷ repeat n c

abbrev digest_a : Str
digest_a = repeat 64 b'a'

abbrev digest_b : Str
digest_b = repeat 64 b'b'

abbrev two_layers : List Layer
two_layers =
    record { digest = sha256_prefix ++ digest_a; size = 3 }
    ∷ record { digest = sha256_prefix ++ digest_b; size = 5 }
    ∷ []

abbrev pub disk : Env
disk = record {
  layers = λ mh. two_layers;
  is_image_manifest = λ mh. true;
  is_latest_manifest = λ mh. some (contains mh.image_url (lit ":latest"));
  image_manifest_digests = λ mh. [];
  marshal_fails = λ mh. false;
  unmarshalled = λ mh. some mh;
  added_visited = λ entries. [];
  write_outcome = λ l d. written;
  remove_fails = λ d. false;
  directory_size = 4096;
}

abbrev pub argocd : PullRequest
argocd = record {
  pull_type = by_tag;
  repository = lit "argoproj/argocd";
  reference = lit "v2.11.11";
  remote = lit "quay.io";
}

argocd-IsCanonical : IsCanonical argocd
unfolding contains_byte is_empty to_lower has_prefix type_from_ref
argocd-IsCanonical = record {
  remote_dot = refl;
  remote_slash = refl;
  remote_lower = refl;
  repository_some = refl;
  repository_at = refl;
  repository_colon = refl;
  repository_lower = refl;
  reference_at = refl;
  reference_lower = refl;
  reference_type = refl;
  tag_colon = λ e. refl;
}

abbrev pub argocd_mh : ManifestHolder
argocd_mh = record {
  image_url = lit "quay.io/argoproj/argocd:v2.11.11";
  digest = repeat 64 b'c';
  created = lit "2025-01-01T00:00:00";
  pulled = lit "2025-01-01T00:00:00";
  bytes = b'{' ∷ b'}' ∷ [];
}

-- The blobs of the image are on the file system, and nothing is cached.
abbrev pub fresh : Cache
fresh = record {
  manifests = [];
  latest = [];
  blobs = [];
  files = record { lts = []; img = []; blobs = (digest_a, 3) ∷ (digest_b, 5) ∷ [] };
}

digest_a-IsDigest : IsDigest digest_a
unfolding hex_run is_hex
digest_a-IsDigest = record { hex = refl; size = refl }

digest_b-IsDigest : IsDigest digest_b
unfolding hex_run is_hex
digest_b-IsDigest = record { hex = refl; size = refl }

own_url : argocd_mh.image_url ≡ url argocd
unfolding url separator has_prefix
own_url = refl

fresh-IsCounted : IsCounted disk fresh
unfolding references lookup ociregistry.Cache.Sums.sum_map
fresh-IsCounted = record { manifest_keys = tt; latest_keys = tt; counts = λ d. refl }

none_cached : (u : Str) → from_cache u fresh ≡ none
unfolding from_cache lookup
none_cached u = refl

have : HaveBlobs disk two_layers fresh.files
unfolding blob_exists blob_size? get_digest_from last_run hex_run is_hex is_empty lookup str_eq
have = (refl, (refl, tt))

removable : AreRemovable disk two_layers
unfolding get_digest_from last_run hex_run is_hex is_empty
removable = ((refl, refl), ((refl, refl), tt))

abbrev one : Cache
one = (add_to_cache disk argocd argocd_mh fresh).0

add_to_cache-IsCounted_example :
    ((add_to_cache disk argocd argocd_mh fresh).1 ≡ ok tt) × IsCounted disk one
add_to_cache-IsCounted_example =
    add_to_cache-IsCounted disk argocd argocd_mh fresh fresh-IsCounted argocd-IsCanonical own_url
      (none_cached _) (none_cached _) have

one-IsCounted : IsCounted disk one
one-IsCounted =
    (add_to_cache-IsCounted disk argocd argocd_mh fresh fresh-IsCounted argocd-IsCanonical own_url
      (none_cached _) (none_cached _) have).1

one-IsPrunable : IsPrunable argocd argocd_mh one
one-IsPrunable = add_to_cache-IsPrunable disk argocd argocd_mh fresh argocd-IsCanonical own_url

prune_blob_files_example : lookup digest_a (prune disk argocd_mh one).files.blobs ≡ (
    if ltb 0 (occurrences digest_a two_layers)
      && references disk (prune disk argocd_mh one) digest_a == 0
    then none
    else lookup digest_a one.files.blobs)
prune_blob_files_example =
    prune_blob_files disk argocd argocd_mh one one-IsCounted one-IsPrunable removable refl digest_a

prune-IsCounted_example : IsCounted disk (prune disk argocd_mh one)
prune-IsCounted_example =
    prune-IsCounted disk argocd argocd_mh one one-IsCounted one-IsPrunable removable

two_keys : (is_latest argocd || is_by_tag argocd.pull_type) ≡ true
unfolding is_latest str_eq to_lower
two_keys = refl

lookup-prune_example :
    (lookup (url argocd) (home argocd (prune disk argocd_mh one)) ≡ none)
    × (lookup (digest_key argocd argocd_mh.digest) (home argocd (prune disk argocd_mh one)) ≡ none)
lookup-prune_example =
    lookup-prune disk argocd argocd_mh one one-IsCounted one-IsPrunable removable two_keys

prune-add_example : lookup digest_a (prune disk argocd_mh one).blobs ≡ lookup digest_a fresh.blobs
prune-add_example =
    prune-add disk argocd argocd_mh fresh fresh-IsCounted argocd-IsCanonical own_url (none_cached _)
      (none_cached _) have removable digest_a

lookup-add_manifest_example :
    lookup (url argocd) (home argocd (add_manifest_to_cache argocd argocd_mh fresh)) ≡ (
      if str_eq (url argocd) (url argocd)
        || ((is_latest argocd || is_by_tag argocd.pull_type)
            && str_eq (digest_key argocd argocd_mh.digest) (url argocd))
      then some argocd_mh
      else lookup (url argocd) (home argocd fresh))
lookup-add_manifest_example = lookup-add_manifest argocd argocd_mh fresh (url argocd)

-- The same image, pulled a second time.
abbrev again : ManifestHolder
again = record argocd_mh { pulled = lit "2025-01-01T00:00:01" }

again-IsSameImage : IsSameImage disk argocd_mh again
again-IsSameImage = record { image_url = refl; digest = refl; layers = refl; is_image = refl }

home-one : home argocd one ≡ home argocd (add_manifest_to_cache argocd argocd_mh fresh)
home-one = let (m, l, _) = add_to_cache-maps disk argocd argocd_mh fresh in cc (m, l)

second_key : lookup (digest_key argocd again.digest) (home argocd one) ≡ some argocd_mh
second_key =
    rw (home-one, lookup-add_manifest, two_keys, str_eq_refl (digest_key argocd argocd_mh.digest))
      (ground arith)

one_have : HaveBlobs disk two_layers one.files
one_have = rw (add_to_cache-maps disk argocd argocd_mh fresh).2 have

used : 0 < occurrences digest_a two_layers
unfolding occurrences get_digest_from last_run hex_run is_hex is_empty str_eq
used = omega arith

double_add_example :
    (references disk (add_to_cache disk argocd again one).0 digest_a ≡ references disk one digest_a)
    × (lookup digest_a (add_to_cache disk argocd again one).0.blobs
        ≡ some (pos (occurrences digest_a two_layers + references disk one digest_a)))
double_add_example =
    double_add disk argocd argocd_mh again one again-IsSameImage one-IsPrunable.cached second_key
      digest_a one-IsCounted refl one_have used

-- The same tag, moved to another manifest.
abbrev moved : ManifestHolder
moved = record argocd_mh { digest = repeat 64 b'd' }

abbrev without_old : Cache
without_old = rm_manifest disk argocd_mh one

one-cached : from_cache (url argocd) one ≡ some argocd_mh
unfolding from_cache lookup insert delete add_to_cache add_manifest_to_cache add_blobs_to_cache
    add_layers is_latest str_eq to_lower digest_key url url_with_digest separator has_prefix
    rm_manifest delete_manifest new_pull_request_from_url cut split split_reference contains_byte
    is_empty type_from_ref blob_exists blob_size? get_digest_from last_run hex_run is_hex
one-cached = refl

url-not_cached : from_cache (url argocd) without_old ≡ none
unfolding from_cache lookup insert delete add_to_cache add_manifest_to_cache add_blobs_to_cache
    add_layers is_latest str_eq to_lower digest_key url url_with_digest separator has_prefix
    rm_manifest delete_manifest new_pull_request_from_url cut split split_reference contains_byte
    is_empty type_from_ref blob_exists blob_size? get_digest_from last_run hex_run is_hex
url-not_cached = refl

digest_key-not_cached : from_cache (digest_key argocd moved.digest) without_old ≡ none
unfolding from_cache lookup insert delete add_to_cache add_manifest_to_cache add_blobs_to_cache
    add_layers is_latest str_eq to_lower digest_key url url_with_digest separator has_prefix
    rm_manifest delete_manifest new_pull_request_from_url cut split split_reference contains_byte
    is_empty type_from_ref blob_exists blob_size? get_digest_from last_run hex_run is_hex
digest_key-not_cached = refl

replace_in_cache-IsCounted_example : IsCounted disk (replace_in_cache disk argocd moved one).0
replace_in_cache-IsCounted_example =
    replace_in_cache-IsCounted disk argocd argocd_mh moved one one-IsCounted one-IsPrunable
      one-cached own_url url-not_cached digest_key-not_cached one_have removable

handle_v2_blobs_digest_lem_example :
    handle_v2_blobs_digest disk (λ f. false) false (lit "sha256:" ++ digest_a) one ≡ (
      if references disk one digest_a == 0
      then not_found
      else from_file (λ f. false) false digest_a (lookup digest_a one.files.blobs))
handle_v2_blobs_digest_lem_example =
    handle_v2_blobs_digest_lem disk (λ f. false) false (lit "sha256:") digest_a one one-IsCounted
      digest_a-IsDigest
