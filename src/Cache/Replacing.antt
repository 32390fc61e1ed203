-- ===== src/Cache/Replacing.antt =====
-- replaceInCache of impl/cache/cache.go. It counts the blobs of the new manifest before it releases those
-- of the old one.
use ociregistry.Base.{
  ℕ, ◌+◌, ◌≡◌, refl, sym, subst, ap, ◌∙◌, inl, inr, Bool-cases, true, false, none, some, arith, Str,
  lookup, IsMap, List, [], ◌∷◌, str_eq, if◌then◌else◌,
}
use ociregistry.Imgpull.{ManifestHolder, Layer, Env}
use ociregistry.PullRequest.{PullRequest, url}
use ociregistry.Serialize.{Files, blob_exists, blob_size?}
use ociregistry.Cache.Counts.{occurrences, entry, Counts, HaveBlobs, AreRemovable, add_layers_lem}
use ociregistry.Cache.Releases.{rm_layers_lem}
use ociregistry.Cache.RefCounts.{references, IsCounted, references-add}
use ociregistry.Cache.Adding.{references-maps, add_manifest-keys, add_manifest-rest}
use ociregistry.Cache.Pruning.{IsPrunable, removed, removed-keys, removed-blobs}
use ociregistry.Cache.{
  Cache, from_cache, digest_key, add_manifest_to_cache, add_blobs_to_cache, rm_manifest, rm_blobs,
  replace_existing, replace_in_cache,
}

-- The references that a manifest holds.
abbrev held : Env → ManifestHolder → Str → ℕ
held env mh d = if env.is_image_manifest mh then occurrences d (env.layers mh) else 0

-- The counts are those of g, and the manifests and their files are those of c.
record Phase (g : Str → ℕ) (c c' : Cache) : Type 0 where
  counts : Counts g c'.blobs
  manifests : c'.manifests ≡ c.manifests
  latest : c'.latest ≡ c.latest

taken :
    (env : Env) (mh : ManifestHolder) (g : Str → ℕ) (c : Cache)
    → Counts g c.blobs
    → HaveBlobs env (env.layers mh) c.files
    → Phase
        (λ d. held env mh d + g d)
        c
        (if env.is_image_manifest mh then (add_blobs_to_cache env mh c).0 else c)
unfolding add_blobs_to_cache
taken env mh g c h have = elim (Bool-cases (env.is_image_manifest mh)) [
  | inl image ↦
      let (_, counts, ms, ls, _) = add_layers_lem env (env.layers mh) g c h have in
      rw image (record { counts = counts; manifests = ms; latest = ls })
  | inr other ↦
      rw other
        (record { counts = λ d. h d ∙ ap entry (omega arith); manifests = refl; latest = refl })
]

dropped :
    (env : Env) (mh : ManifestHolder) (g : Str → ℕ) (c : Cache)
    → Counts (λ d. held env mh d + g d) c.blobs
    → AreRemovable env (env.layers mh)
    → Phase g c (if env.is_image_manifest mh then (rm_blobs env mh c).0 else c)
unfolding rm_blobs
dropped env mh g c h removable = elim (Bool-cases (env.is_image_manifest mh)) [
  | inl image ↦
      let h' : Counts (λ d. occurrences d (env.layers mh) + g d) c.blobs = rw image at h in
      let r = (rm_layers_lem env (env.layers mh) g c h' removable).1 in
      rw image (record { counts = r.counts; manifests = r.manifests; latest = r.latest })
  | inr other ↦ rw other (record {
    counts = λ d. h d ∙ ap entry (ground (arith, other));
    manifests = refl;
    latest = refl;
  })
]

HaveBlobs-blobs :
    (env : Env) (layers : List Layer) (files files' : Files)
    → files'.blobs ≡ files.blobs
    → HaveBlobs env layers files
    → HaveBlobs env layers files'
unfolding blob_exists blob_size?
HaveBlobs-blobs env [] files files' e h = tt
HaveBlobs-blobs env (layer ∷ layers) files files' e h =
    (rw e h.0, HaveBlobs-blobs env layers files files' e h.1)

replace_same :
    (env : Env) (pr : PullRequest) (old new : ManifestHolder) (c : Cache)
    → from_cache (url pr) c ≡ some old
    → str_eq old.digest new.digest ≡ true
    → (replace_in_cache env pr new c).0 ≡ c
unfolding replace_in_cache
replace_same env pr old new c here same = ground arith

replace_other :
    (env : Env) (pr : PullRequest) (old new : ManifestHolder) (c : Cache)
    → from_cache (url pr) c ≡ some old
    → str_eq old.digest new.digest ≡ false
    → (replace_in_cache env pr new c).0 ≡ replace_existing env pr old new c
unfolding replace_in_cache
replace_other env pr old new c here other = ground arith

replace_existing-IsCounted :
    (env : Env) (pr : PullRequest) (old new : ManifestHolder) (c : Cache)
    → IsCounted env c
    → IsPrunable pr old c
    → new.image_url ≡ url pr
    → from_cache (url pr) (rm_manifest env old c) ≡ none
    → from_cache (digest_key pr new.digest) (rm_manifest env old c) ≡ none
    → HaveBlobs env (env.layers new) c.files
    → AreRemovable env (env.layers old)
    → IsCounted env (replace_existing env pr old new c)
unfolding replace_existing
replace_existing-IsCounted env pr old new c inv p own fresh fresh' have removable = record {
  manifest_keys = subst IsMap (sym (last.manifests ∙ first.manifests)) keys.0;
  latest_keys = subst IsMap (sym (last.latest ∙ first.latest)) keys.1;
  counts = λ d.
      last.counts d
      ∙ ap entry (
          sym (
            references-maps env c2 _ d (last.manifests ∙ first.manifests)
              (last.latest ∙ first.latest)));
}
  where
    c1 : Cache
    c1 = rm_manifest env old c

    c2 : Cache
    c2 = add_manifest_to_cache pr new c1

    keys : IsMap c2.manifests × IsMap c2.latest
    keys = let (m, l) = removed-keys env pr old c inv p removable in add_manifest-keys pr new c1 m l

    rest : (c2.blobs ≡ c1.blobs) × (c2.files ≡ c1.files)
    rest = add_manifest-rest pr new c1

    start : Counts (references env c) c2.blobs
    start d = ap (lookup d) (rest.0 ∙ (removed-blobs env pr old c inv p removable).0) ∙ inv.counts d

    -- What the old manifest held, the new one holds, and the others hold.
    sum : (d : Str) → held env new d + references env c d ≡ held env old d + references env c2 d
    sum d = omega (
      arith,
      removed env pr old c inv p removable d,
      references-add env pr new c1 d fresh fresh' own p.canonical,
    )

    files_blobs : HaveBlobs env (env.layers new) c2.files
    files_blobs =
        HaveBlobs-blobs env (env.layers new) c.files c2.files
          (ap (λ (t : Files). t.blobs) rest.1 ∙ (removed-blobs env pr old c inv p removable).1) have

    first :
        Phase
          (λ d. held env new d + references env c d)
          c2
          (if env.is_image_manifest new then (add_blobs_to_cache env new c2).0 else c2)
    first = taken env new (references env c) c2 start files_blobs

    last :
        Phase
          (references env c2)
          (if env.is_image_manifest new then (add_blobs_to_cache env new c2).0 else c2)
          (replace_existing env pr old new c)
    last = dropped env old (references env c2) _ (λ d. first.counts d ∙ ap entry (sum d)) removable

-- Where every blob is counted once for each layer of each cached image that has it, replacing a
-- canonical manifest that is cached under its own url, with a second entry that is no image of its
-- own, by another with the same url keeps it so, provided that the new manifest's keys are not in
-- use once the old one is out, that its blobs are on the file system, and that the file system lets
-- go of the old one's.
pub replace_in_cache-IsCounted :
    (env : Env) (pr : PullRequest) (old new : ManifestHolder) (c : Cache)
    → IsCounted env c
    → IsPrunable pr old c
    → from_cache (url pr) c ≡ some old
    → new.image_url ≡ url pr
    → from_cache (url pr) (rm_manifest env old c) ≡ none
    → from_cache (digest_key pr new.digest) (rm_manifest env old c) ≡ none
    → HaveBlobs env (env.layers new) c.files
    → AreRemovable env (env.layers old)
    → IsCounted env (replace_in_cache env pr new c).0
replace_in_cache-IsCounted env pr old new c inv p here own fresh fresh' have removable =
    elim (Bool-cases (str_eq old.digest new.digest)) [
      | inl same ↦ subst (IsCounted env) (sym (replace_same env pr old new c here same)) inv
      | inr other ↦
          subst (IsCounted env) (sym (replace_other env pr old new c here other))
            (replace_existing-IsCounted env pr old new c inv p own fresh fresh' have removable)
    ]
