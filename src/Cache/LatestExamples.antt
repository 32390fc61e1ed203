-- ===== src/Cache/LatestExamples.antt =====
-- The theorems about manifests tagged `latest`, and about queries, at a concrete cache.
use ociregistry.Base.{
  ◌≡◌, refl, true, some, [], ◌∷◌, lit, is_empty, has_prefix, contains_byte, to_lower, str_eq,
  lookup,
}
use ociregistry.Imgpull.{ManifestHolder}
use ociregistry.PullRequest.{PullRequest, type_from_ref, separator, url, is_latest}
use ociregistry.PullRequest.RoundTrip.{IsCanonical}
use ociregistry.Cache.StaleCopy.{by_digest_of, stale_after_prune}
use ociregistry.Cache.{Cache, from_cache, is_cached, get_manifest_from_cache, prune}
use ociregistry.Cache.Examples.{disk, argocd, argocd_mh, fresh}

-- `latest` of the same repository, cached with its two entries.
abbrev newest : PullRequest
newest = record argocd { reference = lit "latest" }

newest-IsCanonical : IsCanonical newest
unfolding contains_byte is_empty to_lower has_prefix type_from_ref
newest-IsCanonical = record {
  remote_dot = refl;
  remote_slash = refl;
  remote_lower = refl;
  repository_some = refl;
  repository_at = refl;
  repository_colon = refl;
  repository_lower = refl;
  reference_at = refl;
  reference_lower = refl;
  reference_type = refl;
  tag_colon = λ e. refl;
}

abbrev newest_mh : ManifestHolder
newest_mh = record argocd_mh { image_url = lit "quay.io/argoproj/argocd:latest" }

newest-url : newest_mh.image_url ≡ url newest
unfolding url separator has_prefix
newest-url = refl

abbrev with_newest : Cache
with_newest = record fresh {
  latest = (url newest, newest_mh) ∷ (url (by_digest_of newest newest_mh), newest_mh) ∷ [];
}

newest-is_latest : is_latest newest ≡ true
unfolding is_latest str_eq to_lower
newest-is_latest = refl

newest_cached : from_cache (url (by_digest_of newest newest_mh)) with_newest ≡ some newest_mh
unfolding from_cache lookup str_eq url separator has_prefix
newest_cached = refl

stale_after_prune_example :
    is_cached (by_digest_of newest newest_mh) (
      prune disk newest_mh
        (get_manifest_from_cache disk
          (lit "2025-01-02T00:00:00")
          (by_digest_of newest newest_mh)
          with_newest).0)
    ≡ true
stale_after_prune_example =
    stale_after_prune disk (lit "2025-01-02T00:00:00") newest newest_mh with_newest
      newest-IsCanonical newest-url newest-is_latest newest_cached
