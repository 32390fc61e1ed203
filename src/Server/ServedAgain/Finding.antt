-- ===== src/Server/ServedAgain/Finding.antt =====
-- getManifestFromCache and doPull of impl/cache/cache.go: what is found in the cache after a manifest was
-- written back.
use ociregistry.Base.{
  ◌≡◌, refl, false, ◌⊎◌, inl, inr, none, some, Option-cases, Bool-cases, Str, str_eq, str_eq_iff,
  str_eq_refl, is_empty, lookup, insert, lookup-insert, arith, if◌then◌else◌,
}
use ociregistry.Imgpull.{ManifestHolder, Env}
use ociregistry.PullRequest.{PullRequest, url, alt_docker_url, is_latest}
use ociregistry.Cache.{Cache, from_cache, find_manifest, touch}

-- A manifest with another time of its last pull.
abbrev pub pulled_at : Str → ManifestHolder → ManifestHolder
pulled_at now mh = record mh { pulled = now }

module _ (env : Env) (now : Str) (pr : PullRequest) (key : Str) (mh : ManifestHolder)
    (c : Cache) where
  touch-maps :
      ((touch env now pr key mh c).0.manifests
        ≡ (if is_latest pr then c.manifests else insert key (pulled_at now mh) c.manifests))
      × ((touch env now pr key mh c).0.latest
          ≡ (if is_latest pr then insert key (pulled_at now mh) c.latest else c.latest))
  unfolding touch
  touch-maps = ground arith

  pub from_cache-touch :
      (t : Str)
      → from_cache key c ≡ some mh
      → (m : ManifestHolder) × (from_cache key (touch env now pr key mh c).0 ≡ some m)
        × (pulled_at t m ≡ pulled_at t mh)
  unfolding from_cache
  from_cache-touch t h =
      let (ms, ls) = touch-maps in
      elim (Bool-cases (is_latest pr)) [
        | inr e ↦ (
          pulled_at now mh,
          grind
              (arith, ms, e, lookup-insert key key (pulled_at now mh) c.manifests, str_eq_refl key),
          refl,
        )
        | inl e ↦ elim (Option-cases (lookup key c.manifests)) [
          | inl f ↦ (
            pulled_at now mh,
            grind (
              arith,
              ms,
              ls,
              e,
              f,
              lookup-insert key key (pulled_at now mh) c.latest,
              str_eq_refl key,
            ),
            refl,
          )
          | inr (m, f) ↦ (mh, grind (arith, ms, e, f, h), refl)
        ]
      ]

  from_cache-touch_other :
      (k : Str) → str_eq key k ≡ false → from_cache k (touch env now pr key mh c).0 ≡ from_cache k c
  unfolding from_cache
  from_cache-touch_other k h =
      let (ms, ls) = touch-maps in
      grind (
        arith,
        ms,
        ls,
        h,
        lookup-insert key k (pulled_at now mh) c.manifests,
        lookup-insert key k (pulled_at now mh) c.latest,
      )

-- What getManifestFromCache finds.
unfoldable pub FindsAt : Env → Str → PullRequest → ManifestHolder → Cache → Type 0
FindsAt env t pr mh c =
    (key : Str) × (m : ManifestHolder) × (find_manifest env pr c ≡ some (key, m))
    × (pulled_at t m ≡ pulled_at t mh)

module _ (env : Env) (t : Str) (pr : PullRequest) (c : Cache) where
  -- A manifest that is found stands under the url, or under the alternative docker url and not under the url.
  find_manifest-key :
      (key : Str) (mh : ManifestHolder)
      → find_manifest env pr c ≡ some (key, mh)
      → (from_cache key c ≡ some mh)
        × ((key ≡ url pr)
            ⊎ ((key ≡ alt_docker_url pr)
                × (is_empty (alt_docker_url pr) ≡ false)
                × (from_cache (url pr) c ≡ none)))
  unfolding find_manifest
  find_manifest-key key mh h = elim (Option-cases (from_cache (url pr) c)) [
    | inr (m, e) ↦ grind (arith, h, e)
    | inl e ↦ elim (Bool-cases (is_empty (alt_docker_url pr))) [
      | inl n ↦ grind (arith, h, e, n)
      | inr n ↦ elim (Option-cases (from_cache (alt_docker_url pr) c)) [
        | inl f ↦ grind (arith, h, e, n, f)
        | inr (m, f) ↦
            let k : key ≡ alt_docker_url pr = grind (arith, h, e, n, f) in
            let same : m ≡ mh = grind (arith, h, e, n, f) in (cc (k, f, same), inr (k, n, e))
      ]
    ]
  ]

  pub find_manifest-touch :
      (now key : Str) (mh : ManifestHolder)
      → find_manifest env pr c ≡ some (key, mh)
      → FindsAt env t pr mh (touch env now pr key mh c).0
  unfolding FindsAt find_manifest
  find_manifest-touch now key mh h =
      let (at_key, which) = find_manifest-key key mh h in
      let (m, e, same) = from_cache-touch env now pr key mh c t at_key in
      elim which [
        | inl k ↦ (key, m, grind (arith, k, e), same)
        | inr (k, n, u) ↦ elim (Bool-cases (str_eq key (url pr))) [
          | inl f ↦ (key, m, grind (arith, e, (str_eq_iff key (url pr)).0 f), same)
          | inr f ↦
              let o = from_cache-touch_other env now pr key mh c (url pr) f in
              (key, m, grind (arith, k, e, n, u, o), same)
        ]
      ]
