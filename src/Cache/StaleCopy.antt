-- ===== src/Cache/StaleCopy.antt =====
-- getManifestFromCache of impl/cache/cache.go, for a manifest tagged `latest` that is asked for by its
-- digest: it is found among the latest ones, and is written back among the others, where prune and
-- replaceInCache do not look for it.
use ociregistry.Base.{
  ◌≡◌, refl, ap, ◌∙◌, true, false, some, arith, Str, str_eq, str_eq_refl, to_lower, List, [], ◌∷◌,
  ◌++◌, lookup, insert, lookup-insert,
}
use ociregistry.Imgpull.{ManifestHolder, Layer, Env}
use ociregistry.PullRequest.{PullRequest, sha256_prefix, url, is_latest}
use ociregistry.PullRequest.RoundTrip.{IsCanonical, with_digest}
use ociregistry.Serialize.Digest.{get_digest_from}
use ociregistry.Cache.Pruning.{rm_manifest_lem}
use ociregistry.Cache.{
  Cache, is_some, from_cache, get_manifest_from_cache, find_manifest, touch, delete_manifest,
  rm_manifest, is_cached, prune, rm_blobs, rm_blob, rm_layers,
}

rm_layers-maps :
    (env : Env) (layers : List Layer) (c : Cache)
    → ((rm_layers env layers c).0.manifests ≡ c.manifests)
      × ((rm_layers env layers c).0.latest ≡ c.latest)
unfolding rm_layers rm_blob
rm_layers-maps env [] c = (refl, refl)
rm_layers-maps env (layer ∷ layers) c =
    ground (arith, rm_layers-maps env layers (rm_blob env (get_digest_from layer.digest) c).0)

prune-manifests :
    (env : Env) (mh : ManifestHolder) (c : Cache)
    → (prune env mh c).manifests ≡ (rm_manifest env mh c).manifests
unfolding prune rm_blobs
prune-manifests env mh c = ground (arith, rm_layers-maps env (env.layers mh) (rm_manifest env mh c))

-- Removing a manifest that is tagged `latest` looks at the latest ones only.
prune_latest-manifests :
    (env : Env) (pr : PullRequest) (mh : ManifestHolder) (c : Cache)
    → IsCanonical pr
    → mh.image_url ≡ url pr
    → is_latest pr ≡ true
    → (prune env mh c).manifests ≡ c.manifests
unfolding delete_manifest
prune_latest-manifests env pr mh c can own latest =
    rw (prune-manifests env mh c, rm_manifest_lem env pr mh c can own) (rw latest)

-- A manifest that is found is written back among the latest or the others as the request says.
pub get-manifests :
    (env : Env) (now : Str) (pr : PullRequest) (mh : ManifestHolder) (c : Cache)
    → from_cache (url pr) c ≡ some mh
    → is_latest pr ≡ false
    → (get_manifest_from_cache env now pr c).0.manifests
      ≡ insert (url pr) (record mh { pulled = now }) c.manifests
unfolding get_manifest_from_cache find_manifest touch
get-manifests env now pr mh c here other = ground arith

cached_of_lookup :
    (u : Str) (mh : ManifestHolder) (c : Cache)
    → lookup u c.manifests ≡ some mh
    → is_some (from_cache u c) ≡ true
unfolding from_cache
cached_of_lookup u mh c h = rw (h, from_cache)

abbrev pub by_digest_of : PullRequest → ManifestHolder → PullRequest
by_digest_of pr mh = with_digest pr (sha256_prefix ++ mh.digest)

not_latest : (pr : PullRequest) (mh : ManifestHolder) → is_latest (by_digest_of pr mh) ≡ false
unfolding is_latest to_lower str_eq
not_latest pr mh = refl

-- Let the manifest of a canonical request tagged `latest`, with the url of the request, be found in the
-- cache under its digest, and let a request by that digest look it up. When the manifest is then
-- pruned, IsCached still holds of requests by the digest.
pub stale_after_prune :
    (env : Env) (now : Str) (pr : PullRequest) (mh : ManifestHolder) (c : Cache)
    → IsCanonical pr
    → mh.image_url ≡ url pr
    → is_latest pr ≡ true
    → from_cache (url (by_digest_of pr mh)) c ≡ some mh
    → is_cached
        (by_digest_of pr mh)
        (prune env mh (get_manifest_from_cache env now (by_digest_of pr mh) c).0)
      ≡ true
unfolding is_cached
stale_after_prune env now pr mh c can own latest here =
    cached_of_lookup (url (by_digest_of pr mh)) (record mh { pulled = now }) _
      (ap (lookup (url (by_digest_of pr mh))) (
          prune_latest-manifests env pr mh _ can own latest
          ∙ get-manifests env now (by_digest_of pr mh) mh c here (not_latest pr mh))
        ∙ rw (lookup-insert, str_eq_refl))
