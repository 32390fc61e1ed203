-- ===== src/Cache.antt =====
-- impl/cache/cache.go and impl/cache/prune.go: the manifests and the blob reference counts in memory, with
-- the files behind them. The two mutexes `mc` and `bc` are held for the whole of each operation of this
-- module, so an operation is one step. Counts do not wrap.
pub mod Sums
pub mod Counts
mod Releases
pub mod RefCounts
pub mod Adding
pub mod Pruning
pub mod PullThenPrune
pub mod Replacing
pub mod Loading
pub mod StaleCopy
pub mod DoublePull
pub mod Gauge
pub mod Query
pub mod Readers
pub mod Criteria
pub mod Waiters
mod Examples
pub mod LoadExamples
mod LatestExamples
use ociregistry.Base.{
  ℕ, Bool, true, false, not, Option, none, some, List, [], ◌∷◌, ◌++◌, Str, is_empty, str_eq, Map,
  lookup, insert, delete, if◌then◌else◌, Result, ok, err,
}
use ociregistry.Base.Int.{ℤ, pos, inc, dec, is_zero, is_neg}
use ociregistry.Imgpull.{ManifestHolder, Layer, Env}
use ociregistry.PullRequest.{
  PullRequest, is_by_tag, sha256_prefix, url, url_with_digest, alt_docker_url, is_latest,
  new_pull_request_from_url,
}
use ociregistry.Serialize.{Files, blob_exists, mh_to_filesystem, rm_blob_file, rm_manifest_file}
use ociregistry.Serialize.Digest.{get_digest_from}

-- manifestCache and blobCache, and the image path's files.
pub record Cache : Type 0 where
  pub manifests : Map ManifestHolder
  pub latest : Map ManifestHolder
  pub blobs : Map ℤ
  pub files : Files

-- `blob_missing`: a layer has no file; `not_removed`: its file could not be removed;
-- `negative_count`: more references were dropped than taken.
pub data CacheError : Type 0 where
  blob_missing not_removed negative_count : CacheError

-- ResetCache
unfoldable pub reset_cache : Files → Cache
reset_cache files = record { manifests = []; latest = []; blobs = []; files = files }

-- bc.blobs[digest]: a missing key reads as zero.
unfoldable pub ref_count : Str → Cache → ℤ
ref_count digest c = elim (lookup digest c.blobs) [ some n ↦ n | none ↦ pos 0 ]

-- GetBlob
unfoldable pub get_blob : Str → Cache → ℤ
get_blob = ref_count

-- fromCache
unfoldable pub from_cache : Str → Cache → Option ManifestHolder
from_cache u c = elim (lookup u c.manifests) [ some mh ↦ some mh | none ↦ lookup u c.latest ]

abbrev pub is_some {ℓ} : {A : Type ℓ} → Option A → Bool
is_some (some a) = true
is_some none = false

-- IsCached
unfoldable pub is_cached : PullRequest → Cache → Bool
is_cached pr c = is_some (from_cache (url pr) c)

-- The key of a manifest's second entry.
unfoldable pub digest_key : PullRequest → Str → Str
digest_key pr digest = url_with_digest pr (sha256_prefix ++ digest)

-- addManifestToCache
unfoldable pub add_manifest_to_cache : PullRequest → ManifestHolder → Cache → Cache
add_manifest_to_cache pr mh c =
    if is_latest pr
    then record c { latest = insert (digest_key pr mh.digest) mh (insert (url pr) mh c.latest) }
    else let primary = insert (url pr) mh c.manifests in
      record c {
        manifests =
            if is_by_tag pr.pull_type then insert (digest_key pr mh.digest) mh primary else primary;
      }

-- delete of manifestCache
unfoldable pub delete_manifest : PullRequest → Str → Cache → Cache
delete_manifest pr digest c =
    if is_latest pr
    then record c { latest = delete (digest_key pr digest) (delete (url pr) c.latest) }
    else let others = delete (url pr) c.manifests in
      record c {
        manifests = if is_by_tag pr.pull_type then delete (digest_key pr digest) others else others;
      }

module _ (env : Env) where
  -- The loop of addBlobsToCache.
  unfoldable pub add_layers : List Layer → Cache → Cache × Result CacheError (Unit {0})
  add_layers [] c = (c, ok tt)
  add_layers (layer ∷ layers) c =
      let digest = get_digest_from layer.digest in
      let c' = record c { blobs = insert digest (inc (ref_count digest c)) c.blobs } in
      let rest = add_layers layers c' in
      if not (blob_exists env digest c.files) then (c', err blob_missing) else rest

  -- addBlobsToCache
  unfoldable pub add_blobs_to_cache : ManifestHolder → Cache → Cache × Result CacheError (Unit {0})
  add_blobs_to_cache mh c = add_layers (env.layers mh) c

  -- addToCache
  unfoldable pub add_to_cache :
      PullRequest → ManifestHolder → Cache → Cache × Result CacheError (Unit {0})
  add_to_cache pr mh c =
      let c' = add_manifest_to_cache pr mh c in
      if env.is_image_manifest mh then add_blobs_to_cache mh c' else (c', ok tt)

  -- rmBlob
  unfoldable pub rm_blob : Str → Cache → Cache × Result CacheError (Unit {0})
  rm_blob digest c =
      let n = dec (ref_count digest c) in
      if is_zero n
      then (let (files, r) = rm_blob_file env digest c.files in
          let c' = record c { blobs = delete digest c.blobs; files = files } in
          elim r [ ok _ ↦ (c', ok tt) | err _ ↦ (c', err not_removed) ])
      else (let c' = record c { blobs = insert digest n c.blobs } in
          if is_neg n then (c', err negative_count) else (c', ok tt))

  -- The loop of rmBlobs.
  unfoldable pub rm_layers : List Layer → Cache → Cache × Result CacheError (Unit {0})
  rm_layers [] c = (c, ok tt)
  rm_layers (layer ∷ layers) c =
      let (c', r) = rm_blob (get_digest_from layer.digest) c in
      elim r [ ok _ ↦ rm_layers layers c' | err e ↦ (c', err e) ]

  -- rmBlobs
  unfoldable pub rm_blobs : ManifestHolder → Cache → Cache × Result CacheError (Unit {0})
  rm_blobs mh c = rm_layers (env.layers mh) c

  -- rmManifest: an error of the file system is logged only.
  unfoldable pub rm_manifest : ManifestHolder → Cache → Cache
  rm_manifest mh c = elim (new_pull_request_from_url mh.image_url) [
    | err _ ↦ c
    | ok pr ↦
        let c' = delete_manifest pr mh.digest c in
        record c' { files = (rm_manifest_file env mh c'.files).0 }
  ]

  -- prune
  unfoldable pub prune : ManifestHolder → Cache → Cache
  prune mh c =
      let c' = rm_manifest mh c in if env.is_image_manifest mh then (rm_blobs mh c').0 else c'

  -- The part of replaceInCache where another manifest is cached under the url.
  unfoldable pub replace_existing : PullRequest → ManifestHolder → ManifestHolder → Cache → Cache
  replace_existing pr old new c =
      let c' = add_manifest_to_cache pr new (rm_manifest old c) in
      let added = if env.is_image_manifest new then (add_blobs_to_cache new c').0 else c' in
      if env.is_image_manifest old then (rm_blobs old added).0 else added

  -- replaceInCache
  unfoldable pub replace_in_cache :
      PullRequest → ManifestHolder → Cache → Cache × Result CacheError (Unit {0})
  replace_in_cache pr new c = elim (from_cache (url pr) c) [
    | none ↦ add_to_cache pr new c
    | some old ↦
        if str_eq old.digest new.digest then (c, ok tt) else (replace_existing pr old new c, ok tt)
  ]

  -- The lookup of getManifestFromCache: under the url, then under the alternative docker url.
  unfoldable pub find_manifest : PullRequest → Cache → Option (Str × ManifestHolder)
  find_manifest pr c = elim (from_cache (url pr) c) [
    | some mh ↦ some (url pr, mh)
    | none ↦
        if is_empty (alt_docker_url pr) then none else elim (from_cache (alt_docker_url pr) c) [
          | some mh ↦ some (alt_docker_url pr, mh)
          | none ↦ none
        ]
  ]

  -- What getManifestFromCache does with a manifest that it found: `now` is globals.CurTime().
  unfoldable pub touch :
      Str → PullRequest → Str → ManifestHolder → Cache → Cache × Option ManifestHolder
  touch now pr key mh c =
      let mh' = record mh { pulled = now } in
      let (files, r) = mh_to_filesystem env mh' true c.files in
      let c' =
        if is_latest pr
        then record c { latest = insert key mh' c.latest; files = files }
        else record c { manifests = insert key mh' c.manifests; files = files } in
      elim r [ ok _ ↦ (c', some mh') | err _ ↦ (c', none) ]

  -- getManifestFromCache
  unfoldable pub get_manifest_from_cache : Str → PullRequest → Cache → Cache × Option ManifestHolder
  get_manifest_from_cache now pr c = elim (find_manifest pr c) [
    | some (key, mh) ↦ touch now pr key mh c
    | none ↦ (c, none)
  ]

  -- canAdd
  unfoldable pub can_add_layers : List Layer → Files → Bool
  can_add_layers [] files = true
  can_add_layers (layer ∷ layers) files =
      let rest = can_add_layers layers files in
      if blob_exists env (get_digest_from layer.digest) files then rest else false

  unfoldable pub can_add : ManifestHolder → Files → Bool
  can_add mh files = can_add_layers (env.layers mh) files
