-- ===== src/Cache/Query.antt =====
-- impl/cache/query.go: GetManifestsCompare and GetBlobsSubstr, and doPrune of impl/cache/prune.go.
pub mod Selection
pub mod PrunedKeys
use ociregistry.Base.{
  ℕ, zero, suc, ◌+◌, Bool, true, false, not, ◌&&◌, ◌||◌, List, [], ◌∷◌, ◌++◌, Str, str_eq, is_empty,
  contains, Map, ltb, ◌==◌, if◌then◌else◌,
}
use ociregistry.Base.Int.{ℤ, pos, negsuc}
use ociregistry.Imgpull.{ManifestHolder, Env}
use ociregistry.Cache.{Cache, prune}

-- ManifestComparer
abbrev pub ManifestComparer : Type 0
ManifestComparer = ManifestHolder → Bool

-- count == noLimit
abbrev pub is_no_limit : ℤ → Bool
is_no_limit (pos n) = false
is_no_limit (negsuc n) = n == 0

-- matches > count
abbrev pub exceeds : ℕ → ℤ → Bool
exceeds n (pos count) = ltb count n
exceeds n (negsuc count) = true

-- allManifests: first the manifests that are not latest, then those that are.
unfoldable pub all_manifests : Cache → List (Str × ManifestHolder)
all_manifests c = c.manifests ++ c.latest

-- The loop of GetManifestsCompare, `matches` of them found so far.
unfoldable pub select : ManifestComparer → ℤ → ℕ → List (Str × ManifestHolder) → List ManifestHolder
select comparer count matches [] = []
select comparer count matches ((url, mh) ∷ entries) =
    let passed = str_eq url mh.image_url && comparer mh in
    let rest = select comparer count (if passed then suc matches else matches) entries in
    if not passed
    then rest
    else if not (is_no_limit count) && exceeds (suc matches) count
    then []
    else mh ∷ rest

-- GetManifestsCompare
unfoldable pub get_manifests_compare : ManifestComparer → ℤ → Cache → List ManifestHolder
get_manifests_compare comparer count c = select comparer count 0 (all_manifests c)

-- The loop of doPrune.
unfoldable pub prune_all : Env → List ManifestHolder → Bool → Cache → Cache
prune_all env [] dry_run c = c
prune_all env (mh ∷ mhs) dry_run c =
    prune_all env mhs dry_run (if dry_run then c else prune env mh c)

-- doPrune
unfoldable pub do_prune : Env → ManifestComparer → ℤ → Bool → Cache → Cache
do_prune env comparer count dry_run c =
    prune_all env (get_manifests_compare comparer count c) dry_run c

-- blobResult
pub record BlobResult : Type 0 where
  pub digest : Str
  pub ref_cnt : ℤ

-- The loop of GetBlobsSubstr, `found` of them so far.
unfoldable pub select_blobs : Str → ℤ → ℕ → Map ℤ → List BlobResult
select_blobs substr count found [] = []
select_blobs substr count found ((digest, ref_cnt) ∷ blobs) =
    let passed = is_empty substr || contains digest substr in
    let rest = select_blobs substr count (if passed then suc found else found) blobs in
    if not passed
    then rest
    else if exceeds (suc found) count
    then []
    else record { digest = digest; ref_cnt = ref_cnt } ∷ rest

-- GetBlobsSubstr
unfoldable pub get_blobs_substr : Str → ℤ → Cache → List BlobResult
get_blobs_substr substr count c = select_blobs substr count 0 c.blobs
