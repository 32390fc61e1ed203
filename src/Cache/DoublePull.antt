-- ===== src/Cache/DoublePull.antt =====
-- addToCache of impl/cache/cache.go, for an image that is cached. The lookup of getManifestOrEnqueue and
-- its enqueuePull are two critical sections: a goroutine whose lookup fails, and that enqueues after
-- another has pulled the image, added it and signalled, pulls it again and calls addToCache again.
use ociregistry.Base.{
  ℕ, zero, suc, ◌+◌, ◌<◌, ◌≡◌, refl, sym, subst, ap, ◌∙◌, inl, inr, Bool-cases, true, some, arith,
  Str, lookup,
}
use ociregistry.Base.Int.{pos}
use ociregistry.Imgpull.{ManifestHolder, Env}
use ociregistry.PullRequest.{PullRequest, is_by_tag, url, is_latest}
use ociregistry.Cache.Sums.{sum_map-insert_same, sum_map-insert_two_same}
use ociregistry.Cache.Counts.{occurrences, entry, HaveBlobs, add_layers_lem}
use ociregistry.Cache.RefCounts.{weight, references, IsCounted, home}
use ociregistry.Cache.Adding.{references-maps, add_manifest-rest}
use ociregistry.Cache.{
  Cache, add_layers, add_blobs_to_cache, digest_key, add_manifest_to_cache, add_to_cache,
}

-- The same image, pulled at another time.
pub record IsSameImage (env : Env) (old new : ManifestHolder) : Type 0 where
  pub image_url : new.image_url ≡ old.image_url
  pub digest : new.digest ≡ old.digest
  pub layers : env.layers new ≡ env.layers old
  pub is_image : env.is_image_manifest new ≡ env.is_image_manifest old

entry_pos : (n : ℕ) → 0 < n → entry n ≡ some (pos n)
entry_pos zero h = absurd (omega arith)
entry_pos (suc n) h = refl

module _ (env : Env) (pr : PullRequest) (old new : ManifestHolder) (c : Cache)
    (same : IsSameImage env old new) (cached : lookup (url pr) (home pr c) ≡ some old)
    (copy : lookup (digest_key pr new.digest) (home pr c) ≡ some old) where
  same_weight : (d key : Str) → weight env d key new ≡ weight env d key old
  unfolding weight
  same_weight d key = ground (arith, same.image_url, same.layers, same.is_image)

  references-readd :
      (d : Str) → references env (add_manifest_to_cache pr new c) d ≡ references env c d
  unfolding references add_manifest_to_cache
  references-readd d = elim (Bool-cases (is_latest pr)) [
    | inl e ↦ rw e (
        omega (
          arith,
          sum_map-insert_two_same (weight env d) (url pr) (digest_key pr new.digest) new old
              c.latest (rw e at cached) (rw e at copy) (same_weight d (url pr))
              (same_weight d (digest_key pr new.digest)),
        ))
    | inr e ↦ rw e (elim (Bool-cases (is_by_tag pr.pull_type)) [
      | inl t ↦ rw t (
          omega (
            arith,
            sum_map-insert_two_same (weight env d) (url pr) (digest_key pr new.digest) new old
                c.manifests (rw e at cached) (rw e at copy) (same_weight d (url pr))
                (same_weight d (digest_key pr new.digest)),
          ))
      | inr t ↦ rw t (
          omega (
            arith,
            sum_map-insert_same (weight env d) (url pr) new old c.manifests (rw e at cached)
                (same_weight d (url pr)),
          ))
    ])
  ]

  -- Let an image be cached under the url of a request and under its digest, with the counts right and
  -- its blobs on the file system. When the same image is added again, a blob of it is referred to
  -- as often as before, and its count is that number and once more for each of the image's layers
  -- that has it.
  pub double_add :
      (d : Str)
      → IsCounted env c
      → env.is_image_manifest new ≡ true
      → HaveBlobs env (env.layers new) c.files
      → 0 < occurrences d (env.layers new)
      → (references env (add_to_cache env pr new c).0 d ≡ references env c d)
        × (lookup d (add_to_cache env pr new c).0.blobs
            ≡ some (pos (occurrences d (env.layers new) + references env c d)))
  unfolding add_to_cache add_blobs_to_cache
  double_add d inv image have used =
      let c' : Cache = add_manifest_to_cache pr new c in
      let rest = add_manifest-rest pr new c in
      let (_, counts, ms, ls, _) =
        add_layers_lem env (env.layers new) (references env c) c'
          (λ j. ap (lookup j) rest.0 ∙ inv.counts j)
          (subst (HaveBlobs env (env.layers new)) (sym rest.1) have) in
      rw image (
        references-maps env c' (add_layers env (env.layers new) c').0 d ms ls ∙ references-readd d,
        counts d ∙ entry_pos (occurrences d (env.layers new) + references env c d) (omega arith),
      )
