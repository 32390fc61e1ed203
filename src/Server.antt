-- ===== src/Server.antt =====
-- impl/ociregistry.go and impl/handlers.go: the REST server, and GetManifest and doPull of
-- impl/cache/cache.go. A handler is what one request does while no other request runs: then
-- nobody pulls the url of a request, and GetManifest does not wait. Pulls that overlap are the
-- subject of Cache/Waiters.antt.
pub mod AirGapped
pub mod ServedAgain
pub mod Blobs
pub mod Commands
pub mod Examples
mod PruneExamples
use ociregistry.Base.{
  ℕ, Bool, true, false, not, ◌&&◌, ◌||◌, Option, none, some, List, [], ◌∷◌, ◌++◌, Str, lit, str_eq,
  is_empty, contains, split, length, if◌then◌else◌, Result, ok, err, ◌>>=◌,
}
use ociregistry.Base.Int.{ℤ, pos, negsuc, is_pos}
use ociregistry.Auth.{Providers}
use ociregistry.Config.{RegistryConfig}
use ociregistry.Config.Upstreams.{Machine, config_for}
use ociregistry.Imgpull.{ManifestHolder, PullerOpts, Layer, Env}
use ociregistry.PullRequest.{PullRequest, new_pull_request, new_pull_request_from_url, url}
use ociregistry.Serialize.{Files, mh_to_filesystem, blob_size?}
use ociregistry.Serialize.Digest.{get_digest_from}
use ociregistry.Cache.{
  Cache, CacheError, get_blob, is_cached, add_to_cache, replace_in_cache, get_manifest_from_cache,
  can_add,
}
use ociregistry.Cache.Query.{ManifestComparer, BlobResult, get_manifests_compare, get_blobs_substr}

-- What doPull works with: what ConfigFor reads, and the package imgpull. `accepts` is NewPullerWith; `fetch`
-- is GetManifest of a puller, with the time as its created and pulled times yet to be set; `pull_blobs`
-- is PullBlobs, which writes blob files.
pub record Upstream : Type 0 where
  pub machine : Machine
  pub providers : Providers
  pub registries : List RegistryConfig
  pub accepts : PullerOpts → Bool
  pub fetch : PullerOpts → Option ManifestHolder
  pub pull_blobs : PullerOpts → ManifestHolder → Files → Files × Bool

-- OciRegistry, without the image path, the time limit and the channel
pub record OciRegistry : Type 0 where
  pub always_pull_latest : Bool
  pub air_gapped : Bool
  pub default_ns : Str

-- The responses of the manifest and blob handlers. The arguments of `manifest` are what the headers
-- and the body are made of; its last says whether the body is sent. Those of `blob` are the header
-- Content-Length, if it is set, and the digest whose file is sent.
pub data Response : Type 0 where
  bad_request not_found server_error method_not_allowed json_null token json_true : Response
  manifest : ℕ → Str → ManifestHolder → Bool → Response
  blob : Option ℕ → Str → Response

module _ (env : Env) (up : Upstream) (now : Str) where
  -- doPull, its part after the manifest was received
  unfoldable pub store_pulled : PullerOpts → ManifestHolder → Cache → Cache × Option ManifestHolder
  store_pulled opts mh c =
      let (files, r) = mh_to_filesystem env mh true c.files in
      elim r [
        | err _ ↦ (record c { files = files }, none)
        | ok _ ↦
            if env.is_image_manifest mh
            then (let (files', pulled) = up.pull_blobs opts mh files in
                (record c { files = files' }, if pulled then some mh else none))
            else (record c { files = files }, some mh)
      ]

  -- doPull
  unfoldable pub do_pull : PullRequest → Cache → Cache × Option ManifestHolder
  do_pull pr c = elim (config_for up.machine up.providers up.registries pr.remote) [
    | err e ↦ (c, none)
    | ok configured ↦
        let opts = record configured { url = url pr } in
        if up.accepts opts
        then elim (up.fetch opts) [
          | some mh ↦ store_pulled opts (record mh { created = now; pulled = now }) c
          | none ↦ (c, none)
        ]
        else (c, none)
  ]

  -- What GetManifest does with a manifest that was pulled.
  unfoldable pub keep_pulled :
      PullRequest → Bool → ManifestHolder → Cache → Cache × Option ManifestHolder
  keep_pulled pr force mh c =
      let (c', r) = if force then replace_in_cache env pr mh c else add_to_cache env pr mh c in
      elim r [ ok _ ↦ (c', some mh) | err _ ↦ (c', none) ]

  -- The branch of GetManifest that pulls.
  unfoldable pub pull_manifest : PullRequest → Bool → Cache → Cache × Option ManifestHolder
  pull_manifest pr force c =
      let (c', r) = do_pull pr c in
      elim r [ some mh ↦ keep_pulled pr force mh c' | none ↦ (c', none) ]

  -- GetManifest
  unfoldable pub get_manifest : PullRequest → Bool → Cache → Cache × Option ManifestHolder
  get_manifest pr force c =
      if force
      then pull_manifest pr force c
      else (let (c', r) = get_manifest_from_cache env now pr c in
          elim r [ some mh ↦ (c', some mh) | none ↦ pull_manifest pr force c' ])

  -- handleV2ManifestsReference; `is_get` is verb == http.MethodGet
  unfoldable pub handle_v2_manifests_reference :
      OciRegistry → Str → Option Str → Bool → Str → List Str → Cache → Cache × Response
  handle_v2_manifests_reference r hdr ns is_get reference segments c =
      elim (new_pull_request hdr ns r.default_ns reference segments) [
        | err _ ↦ (c, bad_request)
        | ok pr ↦
            if r.air_gapped && not (is_cached pr c)
            then (c, not_found)
            else (let force = r.always_pull_latest && str_eq pr.reference (lit "latest") in
                let (c', o) = get_manifest pr force c in
                elim o [
                  | some mh ↦
                      (c', manifest (length mh.bytes) (lit "sha256:" ++ mh.digest) mh is_get)
                  | none ↦ (c', server_error)
                ])
      ]

-- x_registry_hdr; `none` is a header that the request has not
unfoldable pub x_registry_hdr : Option (List Str) → Str
x_registry_hdr (some (h ∷ [])) = h
x_registry_hdr (some []) = []
x_registry_hdr (some (h ∷ (j ∷ hs))) = []
x_registry_hdr none = []

-- handleV2BlobsDigest; `ranged` is whether the request has a Range header, `open_fails` is os.Open.
unfoldable pub handle_v2_blobs_digest : Env → (Str → Bool) → Bool → Str → Cache → Response
handle_v2_blobs_digest env open_fails ranged digest c =
    let d = get_digest_from digest in
    if not (is_pos (get_blob d c))
    then not_found
    else elim (blob_size? env (get_digest_from d) c.files) [
      | none ↦ server_error
      | some size ↦
          if open_fails (get_digest_from d)
          then server_error
          else blob (if ranged then none else some size) (get_digest_from d)
    ]

-- The paths of the routes: one to four segments.
pub data Segments : Type 0 where
  s1 : Str → Segments
  s2 : Str → Str → Segments
  s3 : Str → Str → Str → Segments
  s4 : Str → Str → Str → Str → Segments

unfoldable pub segments : Segments → List Str
segments (s1 a) = a ∷ []
segments (s2 a b) = a ∷ b ∷ []
segments (s3 a b c) = a ∷ b ∷ c ∷ []
segments (s4 a b c d) = a ∷ b ∷ c ∷ d ∷ []

-- The methods of the distribution API. `unimplemented` is each of the methods that answer 405.
pub data Request : Type 0 where
  root v2_auth v2_default v2_head_default unimplemented : Request
  v2_get_blobs_digest : Segments → Str → Request
  v2_head_manifests_reference v2_get_manifests_reference :
      Segments → Str → Option Str → Option (List Str) → Request

unfoldable pub serve :
    Env → Upstream → Str → (Str → Bool) → Bool → OciRegistry → Request → Cache → Cache × Response
serve env up now open_fails ranged r root c = (c, json_null)
serve env up now open_fails ranged r v2_auth c = (c, token)
serve env up now open_fails ranged r v2_default c = (c, json_true)
serve env up now open_fails ranged r v2_head_default c = (c, json_true)
serve env up now open_fails ranged r unimplemented c = (c, method_not_allowed)
serve env up now open_fails ranged r (v2_get_blobs_digest s digest) c =
    (c, handle_v2_blobs_digest env open_fails ranged digest c)
serve env up now open_fails ranged r (v2_head_manifests_reference s reference ns hdr) c =
    handle_v2_manifests_reference env up now r (x_registry_hdr hdr) ns false reference (segments s)
      c
serve env up now open_fails ranged r (v2_get_manifests_reference s reference ns hdr) c =
    handle_v2_manifests_reference env up now r (x_registry_hdr hdr) ns true reference (segments s) c
