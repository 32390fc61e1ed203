-- ===== src/Cache/Releases.antt =====
-- rmBlobs of impl/cache/prune.go: what its loop over the layers of a manifest does to the counts.
use ociregistry.Base.{
  ℕ, zero, suc, ◌+◌, ◌≡◌, refl, ap, ◌∙◌, inl, inr, Option-cases, false, ◌&&◌, none, List, [], ◌∷◌,
  arith, Str, str_eq, str_eq_iff, str_eq_refl, is_empty, lookup, insert, delete, lookup-insert,
  lookup-delete, if◌then◌else◌, ok, ltb, ◌==◌,
}
use ociregistry.Base.Int.{pos, dec, dec-suc}
use ociregistry.Imgpull.{Layer, Env}
use ociregistry.Serialize.{Files, rm_blob_file}
use ociregistry.Serialize.Digest.{get_digest_from}
use ociregistry.Cache.Sums.{delete_missing}
use ociregistry.Cache.{Cache, ref_count, rm_blob, rm_layers}
use ociregistry.Cache.Counts.{occurrences, entry, Counts, AreRemovable, ref_count-entry}

-- From `c` to `c'` the layers' references are dropped, and `g` are left: the files of blobs that have
-- no reference left are gone, and nothing else has changed.
pub record Released (layers : List Layer) (g : Str → ℕ) (c c' : Cache) : Type 0 where
  pub counts : Counts g c'.blobs
  pub manifests : c'.manifests ≡ c.manifests
  pub latest : c'.latest ≡ c.latest
  pub lts : c'.files.lts ≡ c.files.lts
  pub img : c'.files.img ≡ c.files.img
  pub blob_files :
      (d : Str)
      → lookup d c'.files.blobs
        ≡ (if ltb 0 (occurrences d layers) && g d == 0 then none else lookup d c.files.blobs)

ref_count-suc :
    (d : Str) (g : Str → ℕ) (c : Cache)
    → Counts (λ j. (if str_eq d j then 1 else 0) + g j) c.blobs
    → dec (ref_count d c) ≡ pos (g d)
ref_count-suc d g c h =
    rw (ref_count-entry d (suc (g d)) c (h d ∙ ap entry one_more)) (dec-suc (g d))
  where
    one_more : (if str_eq d d then 1 else 0) + g d ≡ suc (g d)
    one_more = rw (str_eq_refl d) (omega arith)

rm_blob_file_lem :
    (env : Env) (d : Str) (files : Files)
    → is_empty d ≡ false
    → env.remove_fails d ≡ false
    → rm_blob_file env d files ≡ (record files { blobs = delete d files.blobs }, ok tt)
unfolding rm_blob_file
rm_blob_file_lem env d files ne rf = elim (Option-cases (lookup d files.blobs)) [
  | inl e ↦ rw (ne, e, delete_missing d files.blobs e)
  | inr (size, e) ↦ rw (ne, e, rf)
]

-- The two ways in which rmBlob ends well.
rm_blob_last :
    (env : Env) (d : Str) (c : Cache)
    → dec (ref_count d c) ≡ pos 0
    → is_empty d ≡ false
    → env.remove_fails d ≡ false
    → rm_blob env d c ≡ (
      record c {
        blobs = delete d c.blobs;
        files = record c.files { blobs = delete d c.files.blobs };
      },
      ok tt,
    )
unfolding rm_blob
rm_blob_last env d c e ne rf = ground (arith, rm_blob_file_lem env d c.files ne rf)

rm_blob_other :
    (env : Env) (d : Str) (n : ℕ) (c : Cache)
    → dec (ref_count d c) ≡ pos (suc n)
    → rm_blob env d c ≡ (record c { blobs = insert d (pos (suc n)) c.blobs }, ok tt)
unfolding rm_blob
rm_blob_other env d n c e = ground arith

module _ (env : Env) (layer : Layer) (g : Str → ℕ) (c : Cache)
    (h : Counts (λ j. occurrences j (layer ∷ []) + g j) c.blobs)
    (ne : is_empty (get_digest_from layer.digest) ≡ false)
    (rf : env.remove_fails (get_digest_from layer.digest) ≡ false) where
  last_reference :
      g (get_digest_from layer.digest) ≡ 0
      → Released (layer ∷ []) g c (record c {
        blobs = delete (get_digest_from layer.digest) c.blobs;
        files = record c.files { blobs = delete (get_digest_from layer.digest) c.files.blobs };
      })
  unfolding occurrences
  last_reference z = record {
    counts =
        λ j. rw lookup-delete (ground (arith, h j, str_eq_iff (get_digest_from layer.digest) j));
    manifests = refl;
    latest = refl;
    lts = refl;
    img = refl;
    blob_files =
        λ j. rw lookup-delete (ground (arith, h j, str_eq_iff (get_digest_from layer.digest) j));
  }

  other_reference :
      (n : ℕ)
      → g (get_digest_from layer.digest) ≡ suc n
      → Released
          (layer ∷ [])
          g
          c
          (record c { blobs = insert (get_digest_from layer.digest) (pos (suc n)) c.blobs })
  unfolding occurrences
  other_reference n z = record {
    counts =
        λ j. rw lookup-insert (ground (arith, h j, str_eq_iff (get_digest_from layer.digest) j));
    manifests = refl;
    latest = refl;
    lts = refl;
    img = refl;
    blob_files = λ j. ground (arith, h j, str_eq_iff (get_digest_from layer.digest) j);
  }

rm_blob_lem :
    (env : Env) (layer : Layer) (g : Str → ℕ) (c : Cache)
    → Counts (λ j. occurrences j (layer ∷ []) + g j) c.blobs
    → is_empty (get_digest_from layer.digest) ≡ false
    → env.remove_fails (get_digest_from layer.digest) ≡ false
    → ((rm_blob env (get_digest_from layer.digest) c).1 ≡ ok tt)
      × Released (layer ∷ []) g c (rm_blob env (get_digest_from layer.digest) c).0
rm_blob_lem env layer g c h ne rf = go (g d) refl
  where
    d : Str
    d = get_digest_from layer.digest

    e : dec (ref_count d c) ≡ pos (g d)
    e = ref_count-suc d g c (λ j. unfold occurrences in (h j ∙ ap entry (omega arith)))

    go :
        (n : ℕ)
        → g d ≡ n
        → ((rm_blob env d c).1 ≡ ok tt) × Released (layer ∷ []) g c (rm_blob env d c).0
    go zero z =
        rw (rm_blob_last env d c (e ∙ ap pos z) ne rf)
          (refl, last_reference env layer g c h ne rf z)
    go (suc n) z =
        rw (rm_blob_other env d n c (e ∙ ap pos z))
          (refl, other_reference env layer g c h ne rf n z)

Released-trans :
    (layer : Layer) (layers : List Layer) (g : Str → ℕ) (c c' c'' : Cache)
    → Released (layer ∷ []) (λ d. occurrences d layers + g d) c c'
    → Released layers g c' c''
    → Released (layer ∷ layers) g c c''
unfolding occurrences
Released-trans layer layers g c c' c'' r s = record {
  counts = s.counts;
  manifests = s.manifests ∙ r.manifests;
  latest = s.latest ∙ r.latest;
  lts = s.lts ∙ r.lts;
  img = s.img ∙ r.img;
  blob_files = λ d. ground (arith, s.blob_files d, r.blob_files d);
}

rm_layers-cons :
    (env : Env) (layer : Layer) (layers : List Layer) (c : Cache)
    → (rm_blob env (get_digest_from layer.digest) c).1 ≡ ok tt
    → rm_layers env (layer ∷ layers) c
      ≡ rm_layers env layers (rm_blob env (get_digest_from layer.digest) c).0
unfolding rm_layers
rm_layers-cons env layer layers c e = rw (e, rm_layers)

-- Dropping the references of all the layers succeeds, and releases exactly what only they held.
pub rm_layers_lem :
    (env : Env) (layers : List Layer) (g : Str → ℕ) (c : Cache)
    → Counts (λ d. occurrences d layers + g d) c.blobs
    → AreRemovable env layers
    → ((rm_layers env layers c).1 ≡ ok tt) × Released layers g c (rm_layers env layers c).0
unfolding occurrences
rm_layers_lem env [] g c h r =
    unfold rm_layers in
    (
      refl,
      record {
        counts = λ d. h d ∙ ap entry (omega arith);
        manifests = refl;
        latest = refl;
        lts = refl;
        img = refl;
        blob_files = λ d. refl;
      },
    )
rm_layers_lem env (layer ∷ layers) g c h r =
    let g' : Str → ℕ = λ j. occurrences j layers + g j in
    let (one, first) =
      rm_blob_lem env layer g' c (λ j. h j ∙ ap entry (unfold occurrences in omega arith)) r.0.0
        r.0.1 in
    let c' = (rm_blob env (get_digest_from layer.digest) c).0 in
    let (all, rest) = rm_layers_lem env layers g c' first.counts r.1 in
    rw (rm_layers-cons env layer layers c one)
      (all, Released-trans layer layers g c c' (rm_layers env layers c').0 first rest)
