-- ===== src/Cache/Pruning.antt =====
-- prune of impl/cache/prune.go: the entries, the counts and the blob files after it.
use ociregistry.Base.{
  ◌+◌, ◌≡◌, refl, sym, ap, ◌∙◌, inl, inr, Bool-cases, true, false, ◌&&◌, ◌||◌, none, some, arith,
  Str, str_eq, str_eq_refl, lookup, delete, lookup-delete, IsMap, delete-IsMap, if◌then◌else◌, ok,
  ltb, ◌==◌,
}
use ociregistry.Imgpull.{ManifestHolder, Env}
use ociregistry.PullRequest.{PullRequest, is_by_tag, url, is_latest, new_pull_request_from_url}
use ociregistry.PullRequest.RoundTrip.{IsCanonical, from_url-url}
use ociregistry.Serialize.{Files, rm_manifest_file, with_sub_dir}
use ociregistry.Cache.Counts.{occurrences, entry, AreRemovable}
use ociregistry.Cache.Releases.{Released, rm_layers_lem}
use ociregistry.Cache.RefCounts.{references, IsCounted, references-delete, home}
use ociregistry.Cache.Adding.{references-maps}
use ociregistry.Cache.{Cache, digest_key, delete_manifest, rm_layers, rm_manifest, rm_blobs, prune}

-- The manifest stands in the cache under its own url, and the entry under its digest, where it has
-- one, is no image of its own.
pub record IsPrunable (pr : PullRequest) (mh : ManifestHolder) (c : Cache) : Type 0 where
  pub canonical : IsCanonical pr
  pub own_url : mh.image_url ≡ url pr
  pub cached : lookup (url pr) (home pr c) ≡ some mh
  pub second_entry :
      (v : ManifestHolder)
      → lookup (digest_key pr mh.digest) (home pr c) ≡ some v
      → (is_latest pr || is_by_tag pr.pull_type) ≡ true
      → str_eq (digest_key pr mh.digest) v.image_url ≡ false

delete_manifest-keys :
    (pr : PullRequest) (digest : Str) (c : Cache)
    → IsMap c.manifests
    → IsMap c.latest
    → IsMap (delete_manifest pr digest c).manifests × IsMap (delete_manifest pr digest c).latest
unfolding delete_manifest
delete_manifest-keys pr digest c m l = ground (
  arith,
  delete-IsMap (url pr) c.manifests m,
  delete-IsMap (digest_key pr digest) (delete (url pr) c.manifests)
      (delete-IsMap (url pr) c.manifests m),
  delete-IsMap (digest_key pr digest) (delete (url pr) c.latest) (delete-IsMap (url pr) c.latest l),
)

delete_manifest-rest :
    (pr : PullRequest) (digest : Str) (c : Cache)
    → ((delete_manifest pr digest c).blobs ≡ c.blobs)
      × ((delete_manifest pr digest c).files ≡ c.files)
unfolding delete_manifest
delete_manifest-rest pr digest c = ground arith

delete_manifest-lookup :
    (pr : PullRequest) (digest : Str) (c : Cache)
    → (is_latest pr || is_by_tag pr.pull_type) ≡ true
    → (lookup (url pr) (home pr (delete_manifest pr digest c)) ≡ none)
      × (lookup (digest_key pr digest) (home pr (delete_manifest pr digest c)) ≡ none)
unfolding delete_manifest
delete_manifest-lookup pr digest c two = elim (Bool-cases (is_latest pr)) [
  | inl e ↦
      rw e (simp (lookup-delete, str_eq_refl) (ground arith), simp (lookup-delete, str_eq_refl))
  | inr e ↦
      let t : is_by_tag pr.pull_type ≡ true = rw e at two in
      rw (e, t)
        (simp (lookup-delete, str_eq_refl) (ground arith), simp (lookup-delete, str_eq_refl))
]

rm_manifest_file-blobs :
    (env : Env) (mh : ManifestHolder) (files : Files)
    → (rm_manifest_file env mh files).0.blobs ≡ files.blobs
unfolding rm_manifest_file with_sub_dir
rm_manifest_file-blobs env mh files = ground arith

-- The manifest's url parses back to its request, so the right entries are deleted.
pub rm_manifest_lem :
    (env : Env) (pr : PullRequest) (mh : ManifestHolder) (c : Cache)
    → IsCanonical pr
    → mh.image_url ≡ url pr
    → rm_manifest env mh c ≡ record (delete_manifest pr mh.digest c) {
      files = (rm_manifest_file env mh (delete_manifest pr mh.digest c).files).0;
    }
unfolding rm_manifest
rm_manifest_lem env pr mh c can own =
    rw (ap new_pull_request_from_url own ∙ from_url-url pr can, rm_manifest)

module _ (env : Env) (pr : PullRequest) (mh : ManifestHolder) (c : Cache) (inv : IsCounted env c)
    (p : IsPrunable pr mh c) (removable : AreRemovable env (env.layers mh)) where
  pub removed-blobs :
      ((rm_manifest env mh c).blobs ≡ c.blobs)
      × ((rm_manifest env mh c).files.blobs ≡ c.files.blobs)
  removed-blobs = rw (rm_manifest_lem env pr mh c p.canonical p.own_url) (
      let (b, f) = delete_manifest-rest pr mh.digest c in
      (b, rm_manifest_file-blobs env mh _ ∙ ap (λ (t : Files). t.blobs) f))

  pub removed-keys : IsMap (rm_manifest env mh c).manifests × IsMap (rm_manifest env mh c).latest
  removed-keys =
      rw (rm_manifest_lem env pr mh c p.canonical p.own_url)
        (delete_manifest-keys pr mh.digest c inv.manifest_keys inv.latest_keys)

  pub removed :
      (d : Str)
      → references env c d
        ≡ (if env.is_image_manifest mh then occurrences d (env.layers mh) else 0)
          + references env (rm_manifest env mh c) d
  removed d = rw (rm_manifest_lem env pr mh c p.canonical p.own_url) (
      references-delete env pr mh c d inv.manifest_keys inv.latest_keys p.own_url p.canonical
        p.cached p.second_entry
      ∙ ap (λ t. (if env.is_image_manifest mh then occurrences d (env.layers mh) else 0) + t)
          (sym (references-maps env (delete_manifest pr mh.digest c) _ d refl refl)))

  module _ (image : env.is_image_manifest mh ≡ true) where
    released :
        ((rm_layers env (env.layers mh) (rm_manifest env mh c)).1 ≡ ok tt)
        × Released
            (env.layers mh)
            (references env (rm_manifest env mh c))
            (rm_manifest env mh c)
            (rm_layers env (env.layers mh) (rm_manifest env mh c)).0
    released =
        rm_layers_lem env (env.layers mh) (references env (rm_manifest env mh c))
          (rm_manifest env mh c)
          (λ d. ap (lookup d) removed-blobs.0 ∙ inv.counts d ∙ ap entry (rw image at (removed d)))
          removable

    prune_image : prune env mh c ≡ (rm_layers env (env.layers mh) (rm_manifest env mh c)).0
    unfolding prune rm_blobs
    prune_image = rw image

    same_references :
        (d : Str) → references env (prune env mh c) d ≡ references env (rm_manifest env mh c) d
    same_references d =
        rw prune_image
          (references-maps env (rm_manifest env mh c) _ d released.1.manifests released.1.latest)

    -- Let every blob be counted once for each layer of each cached image that has it, let a canonical
    -- image be cached under its own url, its second entry being no image of its own, and let the
    -- file system let go of the blobs of its layers. Pruning the image deletes the file of a blob
    -- exactly where the image has the blob and no remaining image has it. Every other blob keeps
    -- its file.
    pub prune_blob_files :
        (d : Str)
        → lookup d (prune env mh c).files.blobs ≡ (
            if ltb 0 (occurrences d (env.layers mh)) && references env (prune env mh c) d == 0
            then none
            else lookup d c.files.blobs)
    prune_blob_files d =
        rw (same_references d) (rw prune_image (released.1.blob_files d ∙ rw removed-blobs.1))

    prune_image-IsCounted : IsCounted env (prune env mh c)
    prune_image-IsCounted = record {
      manifest_keys = rw (prune_image, released.1.manifests) removed-keys.0;
      latest_keys = rw (prune_image, released.1.latest) removed-keys.1;
      counts = λ d. rw (same_references d) (rw prune_image (released.1.counts d));
    }

  prune_list-IsCounted : env.is_image_manifest mh ≡ false → IsCounted env (prune env mh c)
  unfolding prune
  prune_list-IsCounted other = rw other (record {
    manifest_keys = removed-keys.0;
    latest_keys = removed-keys.1;
    counts = λ d.
        ap (lookup d) removed-blobs.0
        ∙ inv.counts d
        ∙ ap entry (rw other at (removed d) ∙ omega arith);
  })

  -- Where every blob is counted once for each layer of each cached image that has it, pruning a
  -- canonical manifest that is cached under its own url, with a second entry that is no image of its
  -- own and blobs that the file system lets go of, leaves every blob counted once for each layer of
  -- each remaining image that has it.
  pub prune-IsCounted : IsCounted env (prune env mh c)
  prune-IsCounted = elim (Bool-cases (env.is_image_manifest mh)) [
    | inl image ↦ prune_image-IsCounted image
    | inr other ↦ prune_list-IsCounted other
  ]

  pub prune-maps :
      ((prune env mh c).manifests ≡ (rm_manifest env mh c).manifests)
      × ((prune env mh c).latest ≡ (rm_manifest env mh c).latest)
  prune-maps = elim (Bool-cases (env.is_image_manifest mh)) [
    | inl image ↦ rw (prune_image image) ((released image).1.manifests, (released image).1.latest)
    | inr other ↦ unfold prune in rw other (refl, refl)
  ]

  -- Where every blob is counted once for each layer of each cached image that has it, a canonical manifest,
  -- tagged `latest` or by tag, that is cached under its own url, with a second entry that is no image of its
  -- own and blobs that the file system lets go of, is found under neither its url nor its digest among
  -- the manifests of its kind (tagged `latest`, or not) once it is pruned.
  pub lookup-prune :
      (is_latest pr || is_by_tag pr.pull_type) ≡ true
      → (lookup (url pr) (home pr (prune env mh c)) ≡ none)
        × (lookup (digest_key pr mh.digest) (home pr (prune env mh c)) ≡ none)
  lookup-prune two =
      rw (prune-maps.0, prune-maps.1, rm_manifest_lem env pr mh c p.canonical p.own_url)
        (delete_manifest-lookup pr mh.digest c two)
