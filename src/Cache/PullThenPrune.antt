-- ===== src/Cache/PullThenPrune.antt =====
-- addToCache of impl/cache/cache.go, followed by prune of impl/cache/prune.go.
use ociregistry.Base.{
  ◌+◌, ◌≡◌, sym, ap, ◌∙◌, none, some, arith, Str, str_eq_iff, str_eq_refl, lookup, if◌then◌else◌,
}
use ociregistry.Imgpull.{ManifestHolder, Env}
use ociregistry.PullRequest.{PullRequest, url}
use ociregistry.PullRequest.RoundTrip.{IsCanonical}
use ociregistry.Cache.Counts.{occurrences, entry, HaveBlobs, AreRemovable}
use ociregistry.Cache.RefCounts.{references, IsCounted, references-add, home, apart}
use ociregistry.Cache.Adding.{
  references-maps, lookup-add_manifest, add_to_cache-maps, add_to_cache-IsCounted,
}
use ociregistry.Cache.Pruning.{IsPrunable, prune-IsCounted, removed, prune-maps}
use ociregistry.Cache.{
  Cache, from_cache, digest_key, add_manifest_to_cache, add_to_cache, rm_manifest, prune,
}

home-add :
    (env : Env) (pr : PullRequest) (mh : ManifestHolder) (c : Cache)
    → home pr (add_to_cache env pr mh c).0 ≡ home pr (add_manifest_to_cache pr mh c)
home-add env pr mh c = rw ((add_to_cache-maps env pr mh c).0, (add_to_cache-maps env pr mh c).1)

-- What addToCache has put in can be pruned.
pub add_to_cache-IsPrunable :
    (env : Env) (pr : PullRequest) (mh : ManifestHolder) (c : Cache)
    → IsCanonical pr
    → mh.image_url ≡ url pr
    → IsPrunable pr mh (add_to_cache env pr mh c).0
add_to_cache-IsPrunable env pr mh c can own = record {
  canonical = can;
  own_url = own;
  cached = rw (home-add env pr mh c, lookup-add_manifest pr mh c (url pr), str_eq_refl (url pr));
  second_entry = λ v h two.
      let e : lookup (digest_key pr mh.digest) (home pr (add_manifest_to_cache pr mh c)) ≡ some mh =
        rw (
          lookup-add_manifest,
          two,
          str_eq_refl (digest_key pr mh.digest),
          apart pr mh.digest can two,
        ) in
      let same : mh ≡ v = cc (e, h, home-add env pr mh c) in
      ground (
        arith,
        own,
        ap (λ (m : ManifestHolder). m.image_url) same,
        apart pr mh.digest can two,
        str_eq_iff (url pr) (digest_key pr mh.digest),
        str_eq_iff (digest_key pr mh.digest) v.image_url,
      );
}

module _ (env : Env) (pr : PullRequest) (mh : ManifestHolder) (c : Cache) (inv : IsCounted env c)
    (can : IsCanonical pr) (own : mh.image_url ≡ url pr) (fresh : from_cache (url pr) c ≡ none)
    (fresh' : from_cache (digest_key pr mh.digest) c ≡ none)
    (have : HaveBlobs env (env.layers mh) c.files)
    (removable : AreRemovable env (env.layers mh)) where
  -- Where every blob is counted once for each layer of each cached image that has it, a canonical
  -- manifest that is added under keys that were not in use, with its blobs on the file system, and
  -- is then pruned, with a file system that lets go of its blobs, leaves the reference count of
  -- every blob as it was.
  pub prune-add :
      (d : Str) → lookup d (prune env mh (add_to_cache env pr mh c).0).blobs ≡ lookup d c.blobs
  prune-add d =
      (prune-IsCounted env pr mh _ counted prunable removable).counts d
      ∙ ap entry (omega (arith, taken, given, pruned, added))
      ∙ sym (inv.counts d)
    where
      counted : IsCounted env (add_to_cache env pr mh c).0
      counted = (add_to_cache-IsCounted env pr mh c inv can own fresh fresh' have).1

      prunable : IsPrunable pr mh (add_to_cache env pr mh c).0
      prunable = add_to_cache-IsPrunable env pr mh c can own

      taken :
          references env (add_to_cache env pr mh c).0 d
          ≡ (if env.is_image_manifest mh then occurrences d (env.layers mh) else 0)
            + references env (rm_manifest env mh (add_to_cache env pr mh c).0) d
      taken = removed env pr mh _ counted prunable removable d

      given :
          references env (add_manifest_to_cache pr mh c) d
          ≡ (if env.is_image_manifest mh then occurrences d (env.layers mh) else 0)
            + references env c d
      given = references-add env pr mh c d fresh fresh' own can

      pruned :
          references env (prune env mh (add_to_cache env pr mh c).0) d
          ≡ references env (rm_manifest env mh (add_to_cache env pr mh c).0) d
      pruned =
          let (m, l) = prune-maps env pr mh _ counted prunable removable in
          references-maps env (rm_manifest env mh (add_to_cache env pr mh c).0) _ d m l

      added :
          references env (add_to_cache env pr mh c).0 d
          ≡ references env (add_manifest_to_cache pr mh c) d
      added =
          let (m, l, _) = add_to_cache-maps env pr mh c in
          references-maps env (add_manifest_to_cache pr mh c) _ d m l
