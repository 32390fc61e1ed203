-- ===== src/Cache/Adding.antt =====
-- addToCache of impl/cache/cache.go, and the invariant of the blob counts.
use ociregistry.Base.{
  ◌+◌, ◌≡◌, refl, sym, subst, ap, lookup, ◌∙◌, inl, inr, Bool-cases, none, some, List, str_eq,
  lookup-insert, ◌&&◌, ◌||◌, ◌∷◌, [], arith, Str, insert, IsMap, insert-IsMap, if◌then◌else◌, ok,
}
use ociregistry.Imgpull.{ManifestHolder, Layer, Env}
use ociregistry.Base.Int.{inc}
use ociregistry.Serialize.Digest.{get_digest_from}
use ociregistry.PullRequest.{PullRequest, is_by_tag, url, is_latest}
use ociregistry.PullRequest.RoundTrip.{IsCanonical}
use ociregistry.Cache.Counts.{occurrences, entry, Counts, HaveBlobs, add_layers_lem}
use ociregistry.Cache.RefCounts.{references, IsCounted, home, references-add}
use ociregistry.Cache.{
  Cache, ref_count, add_layers, from_cache, digest_key, add_manifest_to_cache, add_blobs_to_cache,
  add_to_cache,
}

-- The count depends on the two maps alone.
pub references-maps :
    (env : Env) (c c' : Cache) (d : Str)
    → c'.manifests ≡ c.manifests
    → c'.latest ≡ c.latest
    → references env c' d ≡ references env c d
unfolding references
references-maps env c c' d m l = rw (m, l)

pub add_manifest-keys :
    (pr : PullRequest) (mh : ManifestHolder) (c : Cache)
    → IsMap c.manifests
    → IsMap c.latest
    → IsMap (add_manifest_to_cache pr mh c).manifests × IsMap (add_manifest_to_cache pr mh c).latest
unfolding add_manifest_to_cache
add_manifest-keys pr mh c m l = ground (
  arith,
  insert-IsMap (url pr) mh c.manifests m,
  insert-IsMap (digest_key pr mh.digest) mh (insert (url pr) mh c.manifests)
      (insert-IsMap (url pr) mh c.manifests m),
  insert-IsMap (digest_key pr mh.digest) mh (insert (url pr) mh c.latest)
      (insert-IsMap (url pr) mh c.latest l),
)

pub add_manifest-rest :
    (pr : PullRequest) (mh : ManifestHolder) (c : Cache)
    → ((add_manifest_to_cache pr mh c).blobs ≡ c.blobs)
      × ((add_manifest_to_cache pr mh c).files ≡ c.files)
unfolding add_manifest_to_cache
add_manifest-rest pr mh c = ground arith

-- addManifestToCache puts the manifest under its url, and under its digest if it was asked for by a tag,
-- and changes no other key of the manifests of its kind.
pub lookup-add_manifest :
    (pr : PullRequest) (mh : ManifestHolder) (c : Cache) (key : Str)
    → lookup key (home pr (add_manifest_to_cache pr mh c)) ≡ (
        if str_eq (url pr) key
          || ((is_latest pr || is_by_tag pr.pull_type) && str_eq (digest_key pr mh.digest) key)
        then some mh
        else lookup key (home pr c))
unfolding add_manifest_to_cache
lookup-add_manifest pr mh c key = elim (Bool-cases (is_latest pr)) [
  | inl e ↦ rw e (simp lookup-insert (ground arith))
  | inr e ↦ rw e (elim (Bool-cases (is_by_tag pr.pull_type)) [
    | inl t ↦ rw t (simp lookup-insert (ground arith))
    | inr t ↦ rw t (simp lookup-insert (ground arith))
  ])
]

add_layers-maps :
    (env : Env) (layers : List Layer) (c : Cache)
    → ((add_layers env layers c).0.manifests ≡ c.manifests)
      × ((add_layers env layers c).0.latest ≡ c.latest)
      × ((add_layers env layers c).0.files ≡ c.files)
unfolding add_layers
add_layers-maps env [] c = (refl, refl, refl)
add_layers-maps env (layer ∷ layers) c =
    let d = get_digest_from layer.digest in
    ground (
      arith,
      add_layers-maps env layers (record c { blobs = insert d (inc (ref_count d c)) c.blobs }),
    )

-- Whatever addToCache answers, it has put the manifest in.
pub add_to_cache-maps :
    (env : Env) (pr : PullRequest) (mh : ManifestHolder) (c : Cache)
    → ((add_to_cache env pr mh c).0.manifests ≡ (add_manifest_to_cache pr mh c).manifests)
      × ((add_to_cache env pr mh c).0.latest ≡ (add_manifest_to_cache pr mh c).latest)
      × ((add_to_cache env pr mh c).0.files ≡ c.files)
unfolding add_to_cache add_blobs_to_cache
add_to_cache-maps env pr mh c = ground (
  arith,
  add_layers-maps env (env.layers mh) (add_manifest_to_cache pr mh c),
  add_manifest-rest pr mh c,
)

-- Where every blob is counted once for each layer of each cached image that has it, adding a canonical
-- manifest, whose own url is that of the request, under keys that are not in use succeeds if its
-- blobs are on the file system, and every blob is counted in that way afterwards.
pub add_to_cache-IsCounted :
    (env : Env) (pr : PullRequest) (mh : ManifestHolder) (c : Cache)
    → IsCounted env c
    → IsCanonical pr
    → mh.image_url ≡ url pr
    → from_cache (url pr) c ≡ none
    → from_cache (digest_key pr mh.digest) c ≡ none
    → HaveBlobs env (env.layers mh) c.files
    → ((add_to_cache env pr mh c).1 ≡ ok tt) × IsCounted env (add_to_cache env pr mh c).0
unfolding add_to_cache add_blobs_to_cache
add_to_cache-IsCounted env pr mh c inv can own fresh fresh' have =
    elim (Bool-cases (env.is_image_manifest mh)) [
      | inl image ↦
          let (done, counts, ms, ls, fs) =
            add_layers_lem env (env.layers mh) (references env c) c' before
              (subst (HaveBlobs env (env.layers mh)) (sym rest.1) have) in
          rw image (
            done,
            record {
              manifest_keys = subst IsMap (sym ms) keys.0;
              latest_keys = subst IsMap (sym ls) keys.1;
              counts = λ d.
                  counts d
                  ∙ ap entry (
                      sym (rw image at (added d))
                      ∙ sym (references-maps env c' (add_layers env (env.layers mh) c').0 d ms ls));
            },
          )
      | inr other ↦ rw other (
        refl,
        record {
          manifest_keys = keys.0;
          latest_keys = keys.1;
          counts = λ d. before d ∙ ap entry (omega (arith, rw other at (added d)));
        },
      )
    ]
  where
    c' : Cache
    c' = add_manifest_to_cache pr mh c

    keys : IsMap c'.manifests × IsMap c'.latest
    keys = add_manifest-keys pr mh c inv.manifest_keys inv.latest_keys

    rest : (c'.blobs ≡ c.blobs) × (c'.files ≡ c.files)
    rest = add_manifest-rest pr mh c

    before : Counts (references env c) c'.blobs
    before d = ap (lookup d) rest.0 ∙ inv.counts d

    added :
        (d : Str)
        → references env c' d
          ≡ (if env.is_image_manifest mh then occurrences d (env.layers mh) else 0)
            + references env c d
    added d = references-add env pr mh c d fresh fresh' own can
