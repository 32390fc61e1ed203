-- ===== src/Server/ServedAgain/Examples.antt =====
-- The theorem about a second request, for an image that the first one pulls.
use ociregistry.Base.{
  ◌≡◌, refl, ap, true, false, none, [], ◌∷◌, Str, lit, contains, contains_byte, is_empty, to_lower,
  has_prefix, join, str_eq, cut, lookup, insert, arith,
}
use ociregistry.Cache.{
  Cache, from_cache, find_manifest, get_manifest_from_cache, add_to_cache, add_manifest_to_cache,
  add_blobs_to_cache, add_layers,
}
use ociregistry.Config.Upstreams.{find_registry, config_for, default_opts}
use ociregistry.PullRequest.{
  new_pull_request, choose_remote, remote_from_ns, remote_from_segments, repository_from,
  alt_docker_url, type_from_ref, url, separator, is_latest,
}
use ociregistry.Serialize.{write_manifest, mh_to_filesystem, sub_dir, with_sub_dir}
use ociregistry.Server.{
  Upstream, OciRegistry, Response, manifest, store_pulled, do_pull, keep_pulled, pull_manifest,
  get_manifest, handle_v2_manifests_reference,
}
use ociregistry.Server.AirGapped.{CanWrite}
use ociregistry.Server.Examples.{disk, mh, one, has_it, has_nothing}
use ociregistry.Server.ServedAgain.{served_again}

abbrev empty : Cache
empty = record one { manifests = [] }

abbrev online : OciRegistry
online = record { always_pull_latest = false; air_gapped = false; default_ns = [] }

abbrev asked : Upstream → Str → Cache → Cache × Response
asked up now c =
    handle_v2_manifests_reference disk up now online [] none true (lit "v1")
      (lit "quay.io" ∷ lit "x" ∷ []) c

abbrev later : Cache
later = (asked has_it (lit "now") empty).0

disk-CanWrite : (c : Cache) → CanWrite disk c
unfolding mh_to_filesystem write_manifest
disk-CanWrite c mh = ground arith

first :
    (asked has_it (lit "now") empty).1
    ≡ manifest 2 (lit "sha256:c") (record mh { created = lit "now"; pulled = lit "now" }) true
unfolding handle_v2_manifests_reference get_manifest new_pull_request choose_remote remote_from_ns
    remote_from_segments repository_from is_empty contains_byte get_manifest_from_cache
    find_manifest from_cache lookup alt_docker_url str_eq pull_manifest do_pull config_for
    find_registry default_opts cut has_prefix join to_lower type_from_ref url separator is_latest
    mh_to_filesystem write_manifest sub_dir with_sub_dir store_pulled keep_pulled add_to_cache
    add_manifest_to_cache add_blobs_to_cache add_layers insert contains
first = refl

served_again_example :
    (asked has_nothing (lit "then") later).1
    ≡ manifest 2 (lit "sha256:c") (record mh { created = lit "now"; pulled = lit "then" }) true
served_again_example =
    served_again disk has_it has_nothing (lit "now") (lit "then") online [] none true (lit "v1")
      (lit "quay.io" ∷ lit "x" ∷ []) empty later 2 (lit "sha256:c")
      (record mh { created = lit "now"; pulled = lit "now" }) true refl (disk-CanWrite empty)
      (disk-CanWrite later) (ap (λ r. (later, r)) first)
