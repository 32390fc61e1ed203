-- ===== src/Metrics.antt =====
-- impl/metrics/ociregistry.go and InitMetrics of impl/metrics/metrics.go: the metrics of the server. The
-- objects of the library prometheus are kept as their values, the counters with a label as maps from its
-- values; a float64 is exact for the whole numbers that are added.
use ociregistry.Base.{Bool, true, none, some, Str, Map, lookup, insert, if◌then◌else◌}
use ociregistry.Base.Int.{ℤ, pos, add_ℤ, is_zero}

-- `registered` is whether the functions of the package have been assigned; until then they do nothing.
pub record Metrics : Type 0 where
  pub registered : Bool
  pub cached_pulls_by_ns : Map ℤ
  pub upstream_pulls_by_ns : Map ℤ
  pub manifest_pulls : ℤ
  pub blob_pulls : ℤ
  pub blob_bytes_on_disk : ℤ
  pub manifest_bytes_on_disk : ℤ
  pub cached_manifest_count : ℤ
  pub cached_blob_count : ℤ
  pub v2_api_endpoint_hits : ℤ
  pub api_errors : ℤ

-- With(labels).Add(1)
abbrev add_one : Str → Map ℤ → Map ℤ
add_one ns m = insert ns (add_ℤ (elim (lookup ns m) [ some n ↦ n | none ↦ pos 0 ]) (pos 1)) m

unfoldable pub inc_cached_pulls_by_ns : Str → Metrics → Metrics
inc_cached_pulls_by_ns ns m =
    if m.registered then record m { cached_pulls_by_ns = add_one ns m.cached_pulls_by_ns } else m

unfoldable pub inc_upstream_pulls_by_ns : Str → Metrics → Metrics
inc_upstream_pulls_by_ns ns m =
    if m.registered
    then record m { upstream_pulls_by_ns = add_one ns m.upstream_pulls_by_ns }
    else m

unfoldable pub inc_manifest_pulls : Metrics → Metrics
inc_manifest_pulls m =
    if m.registered then record m { manifest_pulls = add_ℤ m.manifest_pulls (pos 1) } else m

unfoldable pub inc_blob_pulls : Metrics → Metrics
inc_blob_pulls m = if m.registered then record m { blob_pulls = add_ℤ m.blob_pulls (pos 1) } else m

unfoldable pub delta_blob_bytes_on_disk : ℤ → Metrics → Metrics
delta_blob_bytes_on_disk delta m =
    if m.registered then record m { blob_bytes_on_disk = add_ℤ m.blob_bytes_on_disk delta } else m

unfoldable pub delta_manifest_bytes_on_disk : ℤ → Metrics → Metrics
delta_manifest_bytes_on_disk delta m =
    if m.registered
    then record m { manifest_bytes_on_disk = add_ℤ m.manifest_bytes_on_disk delta }
    else m

unfoldable pub delta_cached_manifest_count : ℤ → Metrics → Metrics
delta_cached_manifest_count delta m =
    if m.registered
    then record m { cached_manifest_count = add_ℤ m.cached_manifest_count delta }
    else m

unfoldable pub delta_cached_blob_count : ℤ → Metrics → Metrics
delta_cached_blob_count delta m =
    if m.registered then record m { cached_blob_count = add_ℤ m.cached_blob_count delta } else m

unfoldable pub inc_v2_api_endpoint_hits : Metrics → Metrics
inc_v2_api_endpoint_hits m =
    if m.registered
    then record m { v2_api_endpoint_hits = add_ℤ m.v2_api_endpoint_hits (pos 1) }
    else m

unfoldable pub inc_api_error_results : Metrics → Metrics
inc_api_error_results m =
    if m.registered then record m { api_errors = add_ℤ m.api_errors (pos 1) } else m

-- InitMetrics, less the metrics of the runtime and the server that shows them.
unfoldable pub init_metrics : ℤ → Metrics → Metrics
init_metrics port m = if is_zero port then m else record m { registered = true }
