-- ===== src/Cache/Gauge/Examples.antt =====
-- The theorem about the gauge of the cached manifests, at an image that is pulled into an empty cache.
use ociregistry.Base.{◌≡◌, ◌↔◌, refl, true, [], lit}
use ociregistry.Base.Int.{pos}
use ociregistry.Imgpull.{ManifestHolder}
use ociregistry.Metrics.{Metrics}
use ociregistry.PullRequest.{PullRequest, by_tag}
use ociregistry.Cache.{Cache, add_manifest_to_cache}
use ociregistry.Cache.Gauge.{len, count_added, count_deleted, AreFree, count_added-len_iff}

abbrev x_v1 : PullRequest
x_v1 = record {
  pull_type = by_tag;
  repository = lit "x";
  reference = lit "v1";
  remote = lit "quay.io";
}

abbrev pulled : ManifestHolder
pulled = record {
  image_url = lit "quay.io/x:v1";
  digest = lit "c";
  created = lit "2025-01-01T00:00:00";
  pulled = lit "2025-01-01T00:00:00";
  bytes = [];
}

abbrev empty : Cache
empty = record {
  manifests = [];
  latest = [];
  blobs = [];
  files = record { lts = []; img = []; blobs = [] };
}

abbrev zero_metrics : Metrics
zero_metrics = record {
  registered = true;
  cached_pulls_by_ns = [];
  upstream_pulls_by_ns = [];
  manifest_pulls = pos 0;
  blob_pulls = pos 0;
  blob_bytes_on_disk = pos 0;
  manifest_bytes_on_disk = pos 0;
  cached_manifest_count = pos 0;
  cached_blob_count = pos 0;
  v2_api_endpoint_hits = pos 0;
  api_errors = pos 0;
}

none_cached : zero_metrics.cached_manifest_count ≡ pos (len empty)
unfolding len
none_cached = refl

count_added-len_iff_example :
    (((count_added x_v1 zero_metrics).cached_manifest_count
        ≡ pos (len (add_manifest_to_cache x_v1 pulled empty)))
      ↔ AreFree x_v1 pulled.digest empty)
    × ((count_deleted x_v1 (count_added x_v1 zero_metrics)).cached_manifest_count
        ≡ zero_metrics.cached_manifest_count)
count_added-len_iff_example = count_added-len_iff x_v1 pulled empty zero_metrics refl none_cached
