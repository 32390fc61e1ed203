-- ===== src/Cache/RefCounts.antt =====
-- The invariant of the blob counts of impl/cache/cache.go. An image is cached under its own url; its
-- second entry, by digest, does not count.
use ociregistry.Base.{
  ℕ, ◌+◌, ◌≡◌, inl, inr, Bool-cases, true, false, ◌&&◌, ◌||◌, ◌++◌, none, some, arith, Str, str_eq,
  str_eq_iff, str_eq_refl, str_eq_ne, Map, lookup, IsMap, if◌then◌else◌,
}
use ociregistry.Imgpull.{ManifestHolder, Env}
use ociregistry.PullRequest.{PullRequest, is_by_tag, url, is_latest, sha256_prefix}
use ociregistry.PullRequest.RoundTrip.{IsCanonical, latest_or_tag, url-ne-url_with_digest}
use ociregistry.Cache.Sums.{
  sum_map, sum_map-insert_new, sum_map-insert_two, sum_map-delete, sum_map-delete_two,
}
use ociregistry.Cache.Counts.{occurrences, Counts}
use ociregistry.Cache.{Cache, from_cache, digest_key, add_manifest_to_cache, delete_manifest}

-- The two keys of a manifest that has two differ.
pub apart :
    (pr : PullRequest) (digest : Str)
    → IsCanonical pr
    → (is_latest pr || is_by_tag pr.pull_type) ≡ true
    → str_eq (url pr) (digest_key pr digest) ≡ false
unfolding digest_key
apart pr digest c h =
    str_eq_ne _ _ (url-ne-url_with_digest pr (sha256_prefix ++ digest) (latest_or_tag pr c h))

-- The map that a request's manifests are kept in.
abbrev pub home : PullRequest → Cache → Map ManifestHolder
home pr c = if is_latest pr then c.latest else c.manifests

module _ (env : Env) where
  -- The references to blob `d` that an entry of the maps holds.
  unfoldable pub weight : Str → Str → ManifestHolder → ℕ
  weight d key mh =
      if str_eq key mh.image_url && env.is_image_manifest mh
      then occurrences d (env.layers mh)
      else 0

  unfoldable pub references : Cache → Str → ℕ
  references c d = sum_map (weight d) c.manifests + sum_map (weight d) c.latest

  pub record IsCounted (c : Cache) : Type 0 where
    pub manifest_keys : IsMap c.manifests
    pub latest_keys : IsMap c.latest
    pub counts : Counts (references c) c.blobs

  weight_primary :
      (pr : PullRequest) (mh : ManifestHolder) (d : Str)
      → mh.image_url ≡ url pr
      → weight d (url pr) mh
        ≡ (if env.is_image_manifest mh then occurrences d (env.layers mh) else 0)
  unfolding weight
  weight_primary pr mh d own = rw (own, str_eq_refl)

  weight_copy :
      (pr : PullRequest) (mh : ManifestHolder) (d : Str)
      → mh.image_url ≡ url pr
      → str_eq (url pr) (digest_key pr mh.digest) ≡ false
      → weight d (digest_key pr mh.digest) mh ≡ 0
  unfolding weight
  weight_copy pr mh d own apart = ground (
    arith,
    str_eq_iff (url pr) (digest_key pr mh.digest),
    str_eq_iff (digest_key pr mh.digest) mh.image_url,
  )

  missing :
      (c : Cache) (u : Str)
      → from_cache u c ≡ none
      → (lookup u c.manifests ≡ none) × (lookup u c.latest ≡ none)
  unfolding from_cache
  missing c u h = ground arith

  weight_other :
      (d key : Str) (mh : ManifestHolder) → str_eq key mh.image_url ≡ false → weight d key mh ≡ 0
  unfolding weight
  weight_other d key mh h = rw h

  -- What adding a manifest under fresh keys does to the references.
  pub references-add :
      (pr : PullRequest) (mh : ManifestHolder) (c : Cache) (d : Str)
      → from_cache (url pr) c ≡ none
      → from_cache (digest_key pr mh.digest) c ≡ none
      → mh.image_url ≡ url pr
      → IsCanonical pr
      → references (add_manifest_to_cache pr mh c) d
        ≡ (if env.is_image_manifest mh then occurrences d (env.layers mh) else 0) + references c d
  unfolding references add_manifest_to_cache
  references-add pr mh c d fresh fresh' own can = elim (Bool-cases (is_latest pr)) [
    | inl e ↦ rw e (
        omega (
          arith,
          weight_primary pr mh d own,
          weight_copy pr mh d own (apart pr mh.digest can (rw e)),
          sum_map-insert_two (weight d) (url pr) (digest_key pr mh.digest) mh c.latest
              (missing c _ fresh).1 (missing c _ fresh').1 (apart pr mh.digest can (rw e)),
        ))
    | inr e ↦ rw e (elim (Bool-cases (is_by_tag pr.pull_type)) [
      | inl t ↦ rw t (
          omega (
            arith,
            weight_primary pr mh d own,
            weight_copy pr mh d own (apart pr mh.digest can (rw (e, t))),
            sum_map-insert_two (weight d) (url pr) (digest_key pr mh.digest) mh c.manifests
                (missing c _ fresh).0 (missing c _ fresh').0 (apart pr mh.digest can (rw (e, t))),
          ))
      | inr t ↦ rw t (
          omega (
            arith,
            weight_primary pr mh d own,
            sum_map-insert_new (weight d) (url pr) mh c.manifests (missing c _ fresh).0,
          ))
    ])
  ]

  -- What deleting a manifest, and the entry under its digest, does to the references, where that
  -- second entry is no image of its own.
  pub references-delete :
      (pr : PullRequest) (mh : ManifestHolder) (c : Cache) (d : Str)
      → IsMap c.manifests
      → IsMap c.latest
      → mh.image_url ≡ url pr
      → IsCanonical pr
      → lookup (url pr) (home pr c) ≡ some mh
      → ((v : ManifestHolder)
          → lookup (digest_key pr mh.digest) (home pr c) ≡ some v
          → (is_latest pr || is_by_tag pr.pull_type) ≡ true
          → str_eq (digest_key pr mh.digest) v.image_url ≡ false)
      → references c d
        ≡ (if env.is_image_manifest mh then occurrences d (env.layers mh) else 0)
          + references (delete_manifest pr mh.digest c) d
  unfolding references delete_manifest
  references-delete pr mh c d um ul own can here copy = elim (Bool-cases (is_latest pr)) [
    | inl e ↦ rw e (
        omega (
          arith,
          weight_primary pr mh d own,
          sum_map-delete_two (weight d) (url pr) (digest_key pr mh.digest) mh c.latest ul
              (rw e at here) (apart pr mh.digest can (rw e))
              (λ w h. weight_other d _ w (copy w (rw e h) (rw e))),
        ))
    | inr e ↦ rw e (elim (Bool-cases (is_by_tag pr.pull_type)) [
      | inl t ↦ rw t (
          omega (
            arith,
            weight_primary pr mh d own,
            sum_map-delete_two (weight d) (url pr) (digest_key pr mh.digest) mh c.manifests um
                (rw e at here) (apart pr mh.digest can (rw (e, t)))
                (λ w h. weight_other d _ w (copy w (rw e h) (rw (e, t)))),
          ))
      | inr t ↦ rw t (
          omega (
            arith,
            weight_primary pr mh d own,
            sum_map-delete (weight d) (url pr) mh c.manifests um (rw e at here),
          ))
    ])
  ]
