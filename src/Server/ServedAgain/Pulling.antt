-- ===== src/Server/ServedAgain/Pulling.antt =====
-- GetManifest and doPull of impl/cache/cache.go: what is found in the cache after a manifest was pulled.
use ociregistry.Base.{
  ◌≡◌, refl, ap, ◌∙◌, true, false, inl, inr, none, some, Option-cases, Bool-cases, Str, str_eq_refl,
  lookup, arith, Result-cases,
}
use ociregistry.Config.Upstreams.{config_for}
use ociregistry.Imgpull.{ManifestHolder, PullerOpts, Env}
use ociregistry.PullRequest.{PullRequest, url, is_latest}
use ociregistry.Serialize.{mh_to_filesystem}
use ociregistry.Cache.{Cache, from_cache, find_manifest, add_to_cache, add_manifest_to_cache}
use ociregistry.Cache.Adding.{lookup-add_manifest, add_to_cache-maps}
use ociregistry.Server.{Upstream, store_pulled, do_pull, keep_pulled, pull_manifest}

-- The pull of a manifest leaves the maps of the cache alone.
module _ (env : Env) (up : Upstream) (now : Str) (c : Cache) where
  store_pulled-maps :
      (opts : PullerOpts) (mh : ManifestHolder)
      → ((store_pulled env up now opts mh c).0.manifests ≡ c.manifests)
        × ((store_pulled env up now opts mh c).0.latest ≡ c.latest)
  unfolding store_pulled
  store_pulled-maps opts mh = elim (Result-cases (mh_to_filesystem env mh true c.files).1) [
    | inl (u, e) ↦ ground (arith, e)
    | inr (x, e) ↦ ground (arith, e)
  ]

  do_pull-maps :
      (pr : PullRequest)
      → ((do_pull env up now pr c).0.manifests ≡ c.manifests)
        × ((do_pull env up now pr c).0.latest ≡ c.latest)
  unfolding do_pull
  do_pull-maps pr =
      elim (Result-cases (config_for up.machine up.providers up.registries pr.remote)) [
        | inr (e, h) ↦ rw (h, do_pull) (refl, refl)
        | inl (o, h) ↦
            let opts = record o { url = url pr } in
            elim (Bool-cases (up.accepts opts)) [
              | inr a ↦ rw (h, do_pull, a) (refl, refl)
              | inl a ↦ elim (Option-cases (up.fetch opts)) [
                | inl f ↦ rw (h, do_pull, a, f) (refl, refl)
                | inr (m, f) ↦
                    rw (h, do_pull, a, f)
                      (store_pulled-maps opts (record m { created = now; pulled = now }))
              ]
            ]
      ]

other_map :
    (pr : PullRequest) (mh : ManifestHolder) (c : Cache)
    → is_latest pr ≡ true
    → (add_manifest_to_cache pr mh c).manifests ≡ c.manifests
unfolding add_manifest_to_cache
other_map pr mh c h = ground (arith, h)

from_cache-add_manifest :
    (pr : PullRequest) (mh : ManifestHolder) (c : Cache)
    → from_cache (url pr) c ≡ none
    → from_cache (url pr) (add_manifest_to_cache pr mh c) ≡ some mh
unfolding from_cache
from_cache-add_manifest pr mh c h =
    let added = lookup-add_manifest pr mh c (url pr) in
    let same = str_eq_refl (url pr) in
    elim (Option-cases (lookup (url pr) c.manifests)) [
      | inr (m, f) ↦ grind (arith, h, f)
      | inl f ↦ elim (Bool-cases (is_latest pr)) [
        | inl e ↦ grind (arith, f, e, other_map pr mh c e, added, same)
        | inr e ↦ grind (arith, f, e, added, same)
      ]
    ]

from_cache-same :
    (key : Str) (a b : Cache)
    → a.manifests ≡ b.manifests
    → a.latest ≡ b.latest
    → from_cache key a ≡ from_cache key b
unfolding from_cache
from_cache-same key a b m l = rw (m, l) refl

find_manifest-none :
    (env : Env) (pr : PullRequest) (c : Cache)
    → find_manifest env pr c ≡ none
    → from_cache (url pr) c ≡ none
unfolding find_manifest
find_manifest-none env pr c h = elim (Option-cases (from_cache (url pr) c)) [
  | inl e ↦ e
  | inr (m, e) ↦ grind (arith, h, e)
]

pub find_manifest-some :
    (env : Env) (pr : PullRequest) (mh : ManifestHolder) (c : Cache)
    → from_cache (url pr) c ≡ some mh
    → find_manifest env pr c ≡ some (url pr, mh)
unfolding find_manifest
find_manifest-some env pr mh c h = rw (find_manifest, h) refl

module _ (env : Env) (up : Upstream) (now : Str) (pr : PullRequest) where
  keep_pulled-some :
      (mh m : ManifestHolder) (c c' : Cache)
      → keep_pulled env up now pr false m c ≡ (c', some mh)
      → (c' ≡ (add_to_cache env pr m c).0) × (m ≡ mh)
  unfolding keep_pulled
  keep_pulled-some mh m c c' h = elim (Result-cases (add_to_cache env pr m c).1) [
    | inl (u, e) ↦ (grind (arith, h, e), grind (arith, h, e))
    | inr (x, e) ↦ (grind (arith, h, e), grind (arith, h, e))
  ]

  pull_manifest-some :
      (mh : ManifestHolder) (c c' : Cache)
      → pull_manifest env up now pr false c ≡ (c', some mh)
      → c' ≡ (add_to_cache env pr mh (do_pull env up now pr c).0).0
  unfolding pull_manifest
  pull_manifest-some mh c c' h = elim (Option-cases (do_pull env up now pr c).1) [
    | inl e ↦ grind (arith, h, e)
    | inr (m, e) ↦
        let kept : keep_pulled env up now pr false m (do_pull env up now pr c).0 ≡ (c', some mh) =
          grind (arith, h, e) in
        let (same, is_mh) = keep_pulled-some mh m (do_pull env up now pr c).0 c' kept in
        same ∙ ap (λ x. (add_to_cache env pr x (do_pull env up now pr c).0).0) is_mh
  ]

  pub pull_manifest-finds :
      (mh : ManifestHolder) (c c' : Cache)
      → find_manifest env pr c ≡ none
      → pull_manifest env up now pr false c ≡ (c', some mh)
      → find_manifest env pr c' ≡ some (url pr, mh)
  pull_manifest-finds mh c c' n h =
      let c1 = (do_pull env up now pr c).0 in
      let (m, l) = do_pull-maps env up now c pr in
      let (m', l', f') = add_to_cache-maps env pr mh c1 in
      let missed = from_cache-same (url pr) c1 c m l ∙ find_manifest-none env pr c n in
      let added =
        from_cache-same (url pr) (add_to_cache env pr mh c1).0 (add_manifest_to_cache pr mh c1) m'
          l'
        ∙ from_cache-add_manifest pr mh c1 missed in
      rw (pull_manifest-some mh c c' h) (find_manifest-some env pr mh _ added)
