-- ===== src/Server/AirGapped.antt =====
-- impl/handlers.go: a server in air-gapped mode and its upstreams.
use ociregistry.Base.{
  ◌≡◌, refl, Bool, true, false, inl, inr, Option, Option-cases, List, Str, arith, Result-cases, ok,
}
use ociregistry.Imgpull.{ManifestHolder, Env}
use ociregistry.PullRequest.{PullRequest, url, new_pull_request}
use ociregistry.Serialize.{mh_to_filesystem}
use ociregistry.Cache.{
  Cache, is_some, is_cached, from_cache, find_manifest, touch, get_manifest_from_cache,
}
use ociregistry.Server.{
  Upstream, OciRegistry, Request, get_manifest, handle_v2_manifests_reference, serve,
}

-- The files can be written.
abbrev pub CanWrite : Env → Cache → Type 0
CanWrite env c = (mh : ManifestHolder) → (mh_to_filesystem env mh true c.files).1 ≡ ok tt

touch-is_some :
    (env : Env) (now : Str) (pr : PullRequest) (key : Str) (mh : ManifestHolder) (c : Cache)
    → CanWrite env c
    → is_some (touch env now pr key mh c).1 ≡ true
unfolding touch
touch-is_some env now pr key mh c w = ground (arith, w (record mh { pulled = now }))

cached-is_some :
    (env : Env) (now : Str) (pr : PullRequest) (c : Cache)
    → CanWrite env c
    → is_cached pr c ≡ true
    → is_some (get_manifest_from_cache env now pr c).1 ≡ true
unfolding is_cached get_manifest_from_cache find_manifest
cached-is_some env now pr c w h = elim (Option-cases (from_cache (url pr) c)) [
  | inl e ↦ ground arith
  | inr (mh, e) ↦ ground (arith, touch-is_some env now pr (url pr) mh c w)
]

get_manifest-cached :
    (env : Env) (up up' : Upstream) (now : Str) (pr : PullRequest) (c : Cache)
    → CanWrite env c
    → is_cached pr c ≡ true
    → get_manifest env up now pr false c ≡ get_manifest env up' now pr false c
unfolding get_manifest
get_manifest-cached env up up' now pr c w h = ground (arith, cached-is_some env now pr c w h)

manifests-offline :
    (env : Env) (up up' : Upstream) (now : Str) (r : OciRegistry) (hdr : Str) (ns : Option Str)
    (is_get : Bool) (reference : Str) (segments : List Str) (c : Cache)
    → r.air_gapped ≡ true
    → r.always_pull_latest ≡ false
    → CanWrite env c
    → handle_v2_manifests_reference env up now r hdr ns is_get reference segments c
      ≡ handle_v2_manifests_reference env up' now r hdr ns is_get reference segments c
unfolding handle_v2_manifests_reference
manifests-offline env up up' now r hdr ns is_get reference segments c a l w =
    elim (Result-cases (new_pull_request hdr ns r.default_ns reference segments)) [
      | inl (pr, e) ↦ ground (arith, get_manifest-cached env up up' now pr c w)
      | inr (x, e) ↦ ground arith
    ]

-- In air-gapped mode, without the option that always pulls latest images, no request depends on what
-- the upstreams are or do, in its response or in the cache that it leaves, provided that the files
-- of manifests can be written.
pub air_gapped_offline :
    (env : Env) (up up' : Upstream) (now : Str) (open_fails : Str → Bool) (ranged : Bool)
    (r : OciRegistry) (request : Request) (c : Cache)
    → r.air_gapped ≡ true
    → r.always_pull_latest ≡ false
    → CanWrite env c
    → serve env up now open_fails ranged r request c
      ≡ serve env up' now open_fails ranged r request c
unfolding serve
air_gapped_offline env up up' now open_fails ranged r Request.root c a l w = refl
air_gapped_offline env up up' now open_fails ranged r Request.v2_auth c a l w = refl
air_gapped_offline env up up' now open_fails ranged r Request.v2_default c a l w = refl
air_gapped_offline env up up' now open_fails ranged r Request.v2_head_default c a l w = refl
air_gapped_offline env up up' now open_fails ranged r Request.unimplemented c a l w = refl
air_gapped_offline env up up' now open_fails ranged r (Request.v2_get_blobs_digest s d) c a l w =
    refl
air_gapped_offline env up up' now open_fails ranged r
      (Request.v2_head_manifests_reference s ref ns hdr) c a l w =
    manifests-offline env up up' now r _ ns _ ref _ c a l w
air_gapped_offline env up up' now open_fails ranged r
      (Request.v2_get_manifests_reference s ref ns hdr) c a l w =
    manifests-offline env up up' now r _ ns _ ref _ c a l w
