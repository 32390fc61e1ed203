-- ===== src/Server/ServedAgain.antt =====
-- impl/handlers.go: a manifest that was served once is served from the cache.
pub mod Finding
pub mod Pulling
mod Examples
use ociregistry.Base.{
  ◌≡◌, refl, sym, ap, ◌∙◌, Bool, true, false, not, ◌++◌, ◌&&◌, ◌||◌, inl, inr, Option, none, some,
  Option-cases, Bool-cases, ℕ, List, Str, lit, str_eq, arith, Result-cases, ok, err, if◌then◌else◌,
  length,
}
use ociregistry.Imgpull.{ManifestHolder, Env}
use ociregistry.PullRequest.{PullRequest, url, new_pull_request}
use ociregistry.Serialize.{Files, mh_to_filesystem}
use ociregistry.Cache.{
  Cache, is_some, is_cached, from_cache, find_manifest, touch, get_manifest_from_cache,
}
use ociregistry.Server.{
  Upstream, OciRegistry, Response, not_found, server_error, manifest, pull_manifest, get_manifest,
  handle_v2_manifests_reference,
}
use ociregistry.Server.AirGapped.{CanWrite}
use ociregistry.Server.ServedAgain.Finding.{
  pulled_at, FindsAt, from_cache-touch, find_manifest-touch,
}
use ociregistry.Server.ServedAgain.Pulling.{find_manifest-some, pull_manifest-finds}

module _ (env : Env) (pr : PullRequest) where
  touch-writes :
      (now key : Str) (mh : ManifestHolder) (c : Cache)
      → CanWrite env c
      → (touch env now pr key mh c).1 ≡ some (pulled_at now mh)
  unfolding touch
  touch-writes now key mh c w = ground (arith, w (pulled_at now mh))

  get_manifest_from_cache-FindsAt :
      (t now : Str) (mh : ManifestHolder) (c : Cache)
      → CanWrite env c
      → FindsAt env t pr mh c
      → (m : ManifestHolder) × ((get_manifest_from_cache env now pr c).1 ≡ some (pulled_at now m))
        × (pulled_at t m ≡ pulled_at t mh)
  unfolding get_manifest_from_cache FindsAt
  get_manifest_from_cache-FindsAt t now mh c w (key, m, e, same) =
      (m, rw (get_manifest_from_cache, e) (touch-writes now key m c w), same)

  module _ (up : Upstream) (now : Str) where
    -- A manifest that is found is answered as it is written back.
    get_manifest-found :
        (key : Str) (mh m : ManifestHolder) (c c' : Cache)
        → CanWrite env c
        → find_manifest env pr c ≡ some (key, m)
        → get_manifest env up now pr false c ≡ (c', some mh)
        → (c' ≡ (touch env now pr key m c).0) × (pulled_at now m ≡ mh)
    unfolding get_manifest get_manifest_from_cache
    get_manifest-found key mh m c c' w e h =
        let written = touch-writes now key m c w in
        (grind (arith, h, e, written), grind (arith, h, e, written))

    get_manifest-FindsAt :
        (t : Str) (mh : ManifestHolder) (c c' : Cache)
        → CanWrite env c
        → get_manifest env up now pr false c ≡ (c', some mh)
        → FindsAt env t pr mh c'
    unfolding get_manifest get_manifest_from_cache FindsAt
    get_manifest-FindsAt t mh c c' w h = elim (Option-cases (find_manifest env pr c)) [
      | inl e ↦
          let pulled : pull_manifest env up now pr false c ≡ (c', some mh) = grind (arith, h, e) in
          (url pr, mh, pull_manifest-finds env up now pr mh c c' e pulled, refl)
      | inr ((key, m), e) ↦
          let (same, answer) = get_manifest-found key mh m c c' w e h in
          let (k, m', f, s) = find_manifest-touch env t pr c now key m e in
          (k, m', ap (find_manifest env pr) same ∙ f, s ∙ ap (pulled_at t) answer)
    ]

    get_manifest-is_cached :
        (mh : ManifestHolder) (c c' : Cache)
        → CanWrite env c
        → is_cached pr c ≡ true
        → get_manifest env up now pr false c ≡ (c', some mh)
        → is_cached pr c' ≡ true
    unfolding is_cached
    get_manifest-is_cached mh c c' w cached h = elim (Option-cases (from_cache (url pr) c)) [
      | inl e ↦ grind (arith, cached, e)
      | inr (m, e) ↦
          let (same, answer) =
            get_manifest-found (url pr) mh m c c' w (find_manifest-some env pr m c e) h in
          let (m', f, s) = from_cache-touch env now pr (url pr) m c now e in rw (same, f) refl
    ]

  get_manifest-again :
      (up up' : Upstream) (now now' : Str) (mh : ManifestHolder) (c c' : Cache)
      → CanWrite env c
      → CanWrite env c'
      → get_manifest env up now pr false c ≡ (c', some mh)
      → (get_manifest env up' now' pr false c').1 ≡ some (pulled_at now' mh)
  unfolding get_manifest
  get_manifest-again up up' now now' mh c c' w w' h =
      let (m, e, same) =
        get_manifest_from_cache-FindsAt now' now' mh c' w'
          (get_manifest-FindsAt up now now' mh c c' w h) in
      let found = e ∙ ap some same in grind (arith, found)

-- The answer to a request that makes a pull request, without the option that always pulls.
answer : Env → Upstream → Str → Bool → Bool → PullRequest → Cache → Cache × Response
answer env up now air_gapped is_get pr c =
    if air_gapped && not (is_cached pr c)
    then (c, not_found)
    else (let (c', o) = get_manifest env up now pr false c in
        elim o [
          | some mh ↦ (c', manifest (length mh.bytes) (lit "sha256:" ++ mh.digest) mh is_get)
          | none ↦ (c', server_error)
        ])

handle-answer :
    (env : Env) (up : Upstream) (now : Str) (r : OciRegistry) (hdr : Str) (ns : Option Str)
    (is_get : Bool) (reference : Str) (segments : List Str) (c : Cache) (pr : PullRequest)
    → r.always_pull_latest ≡ false
    → new_pull_request hdr ns r.default_ns reference segments ≡ ok pr
    → handle_v2_manifests_reference env up now r hdr ns is_get reference segments c
      ≡ answer env up now r.air_gapped is_get pr c
unfolding handle_v2_manifests_reference answer
handle-answer env up now r hdr ns is_get reference segments c pr a e = grind (arith, e, a)

module _ (env : Env) (air_gapped is_get : Bool) (pr : PullRequest) where
  answer-manifest :
      (up : Upstream) (now : Str) (c c' : Cache) (n : ℕ) (d : Str) (mh : ManifestHolder) (g : Bool)
      → answer env up now air_gapped is_get pr c ≡ (c', manifest n d mh g)
      → (get_manifest env up now pr false c ≡ (c', some mh))
        × ((air_gapped && not (is_cached pr c)) ≡ false)
        × (manifest (length mh.bytes) (lit "sha256:" ++ mh.digest) mh is_get ≡ manifest n d mh g)
  unfolding answer
  answer-manifest up now c c' n d mh g h = elim (Bool-cases (air_gapped && not (is_cached pr c))) [
    | inl b ↦ grind (arith, h, b)
    | inr b ↦ elim (Option-cases (get_manifest env up now pr false c).1) [
      | inl o ↦ grind (arith, h, b, o)
      | inr (m, o) ↦ (grind (arith, h, b, o), b, grind (arith, h, b, o))
    ]
  ]

  answer-again :
      (up up' : Upstream) (now now' : Str) (c c' : Cache) (n : ℕ) (d : Str) (mh : ManifestHolder)
      (g : Bool)
      → CanWrite env c
      → CanWrite env c'
      → answer env up now air_gapped is_get pr c ≡ (c', manifest n d mh g)
      → (answer env up' now' air_gapped is_get pr c').1 ≡ manifest n d (pulled_at now' mh) g
  unfolding answer
  answer-again up up' now now' c c' n d mh g w w' h =
      let (got, b, same) = answer-manifest up now c c' n d mh g h in
      let again = get_manifest-again env pr up up' now now' mh c c' w w' got in
      let cached = get_manifest-is_cached env pr up now mh c c' w in
      elim (Bool-cases (is_cached pr c)) [
        | inl k ↦ grind (arith, same, again, cached k got)
        | inr k ↦ grind (arith, same, again, b, k)
      ]

-- Let the option that always pulls latest images be off, and let the files of manifests be writable before
-- and after a request. If the request for a manifest is answered with one, the same request is then
-- answered with the same manifest, but for the time of its last pull, whatever the upstreams are or do
-- by then.
pub served_again :
    (env : Env) (up up' : Upstream) (now now' : Str) (r : OciRegistry) (hdr : Str) (ns : Option Str)
    (is_get : Bool) (reference : Str) (segments : List Str) (c c' : Cache) (n : ℕ) (d : Str)
    (mh : ManifestHolder) (g : Bool)
    → r.always_pull_latest ≡ false
    → CanWrite env c
    → CanWrite env c'
    → handle_v2_manifests_reference env up now r hdr ns is_get reference segments c
      ≡ (c', manifest n d mh g)
    → (handle_v2_manifests_reference env up' now' r hdr ns is_get reference segments c').1
      ≡ manifest n d (pulled_at now' mh) g
unfolding handle_v2_manifests_reference
served_again env up up' now now' r hdr ns is_get reference segments c c' n d mh g a w w' h =
    elim (Result-cases (new_pull_request hdr ns r.default_ns reference segments)) [
      | inr (x, e) ↦ grind (arith, h, e)
      | inl (pr, e) ↦
          let first = handle-answer env up now r hdr ns is_get reference segments c pr a e in
          let second = handle-answer env up' now' r hdr ns is_get reference segments c' pr a e in
          ap (λ (x : Cache × Response). x.1) second
          ∙ answer-again env r.air_gapped is_get pr up up' now now' c c' n d mh g w w'
              (sym first ∙ h)
    ]
