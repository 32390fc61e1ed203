-- ===== src/Subcmd/Prune/Safety.antt =====
-- doPrune and Prune of cmd/subcmd/prune.go: which blobs are left.
use ociregistry.Base.{
  ◌++◌, ℕ, suc, ◌+◌, ◌-◌, ◌≡◌, refl, sym, subst, ap, ◌∙◌, inl, inr, Bool-cases, Option-cases,
  Result-cases, true, false, Option, none, some, List, map, [], ◌∷◌, arith, Str, Map, lookup,
  insert, IsMap, insert-IsMap, if◌then◌else◌, ok, ◌==◌,
}
use ociregistry.Imgpull.{ManifestHolder, Layer, Env}
use ociregistry.Serialize.{
  File, manifest, unreadable, Files, sub_dir, with_sub_dir, walk_files, walk_the_cache,
  get_all_blobs, rm_manifest_file,
}
use ociregistry.Serialize.Digest.{get_digest_from}
use ociregistry.Subcmd.Prune.{
  Matches, tally_layers, tally_one, tally_blob_count, dec_layers, dec_blob_counts, remove_blobs,
  remove_manifests, remove_all, do_prune, add_image_manifests,
}
use ociregistry.Subcmd.Prune.Tally.{
  AllRead, raised, file_references, match_references, tally_blob_count_lem, dec_blob_counts_lem,
}
use ociregistry.Subcmd.Prune.Removal.{gone, remove_blobs_lem, AreFiles, remove_manifests_lem}

tally_layers-IsMap : (layers : List Layer) (m : Map ℕ) → IsMap m → IsMap (tally_layers layers m)
unfolding tally_layers
tally_layers-IsMap [] m u = u
tally_layers-IsMap (layer ∷ layers) m u =
    let e = get_digest_from layer.digest in
    elim (Option-cases (lookup e m)) [
      | inl h ↦ rw h (tally_layers-IsMap layers m u)
      | inr (n, h) ↦
          rw h (tally_layers-IsMap layers (insert e (suc n) m) (insert-IsMap e (suc n) m u))
    ]

dec_layers-IsMap :
    (layers : List Layer) (m m' : Map ℕ) → IsMap m → dec_layers layers m ≡ ok m' → IsMap m'
unfolding dec_layers
dec_layers-IsMap [] m m' u h = let e : m ≡ m' = cc h in subst IsMap e u
dec_layers-IsMap (layer ∷ layers) m m' u h =
    let e = get_digest_from layer.digest in
    elim (Option-cases (lookup e m)) [
      | inl x ↦ absurd (ground arith)
      | inr (n, x) ↦
          dec_layers-IsMap layers (insert e (n - 1) m) m' (insert-IsMap e (n - 1) m u)
            (ground arith)
    ]

abbrev zeros : Map ℕ → Map ℕ
zeros m = map (λ e. (e.0, 0)) m

abbrev zeroed : Option ℕ → Option ℕ
zeroed none = none
zeroed (some n) = some 0

lookup-zeros : (d : Str) (m : Map ℕ) → lookup d (zeros m) ≡ zeroed (lookup d m)
unfolding lookup
lookup-zeros d [] = refl
lookup-zeros d ((k, n) ∷ m) = ground (arith, lookup-zeros d m)

zeros-IsMap : (m : Map ℕ) → IsMap m → IsMap (zeros m)
zeros-IsMap [] u = tt
zeros-IsMap ((k, n) ∷ m) (a, u) = (lookup-zeros k m ∙ rw a, zeros-IsMap m u)

-- The keys of each directory are apart, and every file in the manifest directories reads.
pub record IsStore (files : Files) : Type 0 where
  pub lts_keys : IsMap files.lts
  pub img_keys : IsMap files.img
  pub blob_keys : IsMap files.blobs
  pub lts_read : AllRead files.lts
  pub img_read : AllRead files.img

count_left :
    (h f f' : ℕ) (o b : Option ℕ) (bs : Option ℕ)
    → zeroed bs ≡ b
    → raised f b ≡ raised h o
    → f ≡ h + f'
    → (if gone o then none else bs) ≡ (if f' == 0 then none else bs)
count_left h f f' o b bs z e g = ground (arith, z, e, g)

module _ (env : Env) where
  walk_files-IsMap :
      (files : Map File) (m : Map ℕ) → IsMap m → IsMap (walk_files (tally_one env) files m).0
  unfolding walk_files tally_one
  walk_files-IsMap [] m u = u
  walk_files-IsMap ((name, unreadable) ∷ files) m u = u
  walk_files-IsMap ((name, manifest mh) ∷ files) m u =
      elim (Bool-cases (env.is_image_manifest mh)) [
        | inl e ↦ rw e (
            walk_files-IsMap files (tally_layers (env.layers mh) m)
              (tally_layers-IsMap (env.layers mh) m u))
        | inr e ↦ rw e (walk_files-IsMap files m u)
      ]

  tally_blob_count-IsMap :
      (files : Files) (m : Map ℕ) → IsMap m → IsMap (tally_blob_count env files m)
  unfolding tally_blob_count walk_the_cache
  tally_blob_count-IsMap files m u =
      let v = walk_files-IsMap files.lts m u in
      elim (Result-cases (walk_files (tally_one env) files.lts m).1) [
        | inl (t, h) ↦
            rw (h, tally_blob_count, walk_the_cache)
              (walk_files-IsMap files.img (walk_files (tally_one env) files.lts m).0 v)
        | inr (e, h) ↦ rw (h, tally_blob_count, walk_the_cache) v
      ]

  dec_blob_counts-IsMap :
      (ms : List (Str × ManifestHolder)) (m m' : Map ℕ)
      → IsMap m
      → dec_blob_counts env ms m ≡ ok m'
      → IsMap m'
  unfolding dec_blob_counts
  dec_blob_counts-IsMap [] m m' u h = let e : m ≡ m' = cc h in subst IsMap e u
  dec_blob_counts-IsMap ((key, mh) ∷ ms) m m' u h = elim (Bool-cases (env.is_image_manifest mh)) [
    | inr other ↦ dec_blob_counts-IsMap ms m m' u (ground arith)
    | inl image ↦ elim (Result-cases (dec_layers (env.layers mh) m)) [
      | inr (e, x) ↦ absurd (ground arith)
      | inl (m1, x) ↦
          dec_blob_counts-IsMap ms m1 m' (dec_layers-IsMap (env.layers mh) m m1 u x) (ground arith)
    ]
  ]

  AreFiles-same :
      (ms : List (Str × ManifestHolder)) (files files' : Files)
      → files'.lts ≡ files.lts
      → files'.img ≡ files.img
      → AreFiles env ms files
      → AreFiles env ms files'
  unfolding sub_dir rm_manifest_file with_sub_dir
  AreFiles-same [] files files' el ei a = tt
  AreFiles-same ((key, mh) ∷ ms) files files' el ei ((true, e, x), a) = (
    (true, e, rw el x),
    AreFiles-same ms (rm_manifest_file env mh files).0 (rm_manifest_file env mh files').0
        (ground (arith, el, ei)) (ground (arith, el, ei)) a,
  )
  AreFiles-same ((key, mh) ∷ ms) files files' el ei ((false, e, x), a) = (
    (false, e, rw ei x),
    AreFiles-same ms (rm_manifest_file env mh files).0 (rm_manifest_file env mh files').0
        (ground (arith, el, ei)) (ground (arith, el, ei)) a,
  )

  remove_all-parts :
      (ms : Matches) (m : Map ℕ) (files files' : Files)
      → remove_all env false ms m files ≡ (files', ok tt)
      → (files1 : Files) × (remove_blobs env false m files ≡ (files1, ok tt))
        × (remove_manifests env false ms files1 ≡ (files', ok tt))
  unfolding remove_all
  remove_all-parts ms m files files' h =
      let files1 = (remove_blobs env false m files).0 in
      elim (Result-cases (remove_blobs env false m files).1) [
        | inr (e, x) ↦ absurd (ground arith)
        | inl (t, x) ↦ elim (Result-cases (remove_manifests env false ms files1).1) [
          | inr (e, y) ↦ absurd (ground arith)
          | inl (t', y) ↦ (files1, ground arith, ground arith)
        ]
      ]

  do_prune-parts :
      (matches matches' : Matches) (files files' : Files)
      → add_image_manifests env (matches ++ env.added_visited matches) files matches ≡ ok matches'
      → do_prune env false matches files ≡ (files', ok tt)
      → (m : Map ℕ) × (dec_blob_counts env matches'
            (tally_blob_count env files (get_all_blobs files))
          ≡ ok m)
        × (remove_all env false matches' m files ≡ (files', ok tt))
  unfolding do_prune
  do_prune-parts matches matches' files files' a h =
      elim (Result-cases
        (dec_blob_counts env matches' (tally_blob_count env files (get_all_blobs files)))) [
          | inr (e, x) ↦ absurd (ground arith)
          | inl (m, x) ↦ (m, x, ground arith)
        ]

  file_references-same :
      (files files' : Files)
      → files'.lts ≡ files.lts
      → files'.img ≡ files.img
      → (d : Str) → file_references env files' d ≡ file_references env files d
  unfolding file_references
  file_references-same files files' el ei d = rw (el, ei)

  -- Let the keys of each directory be apart and every manifest read, and let each match, with those that are
  -- added for image lists, still be the file of its own directory and digest when the matches before it
  -- have been removed, so that no two of them are one file. If doPrune ends without an error, and it is
  -- no dry run, then a blob's file is gone exactly where no manifest that is left refers to it, and the
  -- references before are those of the matches, each counted once, with those that are left.
  pub do_prune_lem :
      (matches matches' : Matches) (files files' : Files)
      → IsStore files
      → add_image_manifests env (matches ++ env.added_visited matches) files matches ≡ ok matches'
      → AreFiles env matches' files
      → do_prune env false matches files ≡ (files', ok tt)
      → (d : Str)
      → (lookup d files'.blobs
          ≡ (if file_references env files' d == 0 then none else lookup d files.blobs))
        × (file_references env files d
            ≡ match_references env matches' d + file_references env files' d)
  unfolding get_all_blobs
  do_prune_lem matches matches' files files' store added are h d =
      let (m, dec, all) = do_prune-parts matches matches' files files' added h in
      let (files1, bs, ms) = remove_all-parts matches' m files files' all in
      let keys =
        dec_blob_counts-IsMap matches' _ m
          (tally_blob_count-IsMap files _ (zeros-IsMap files.blobs store.blob_keys)) dec in
      let (left, el, ei) = remove_blobs_lem env d m files files1 keys bs in
      let (refs, same) =
        remove_manifests_lem env d matches' files1 files' (rw el store.lts_keys)
          (rw ei store.img_keys) (AreFiles-same matches' files files1 el ei are) ms in
      let counted : raised (file_references env files d) (zeroed (lookup d files.blobs))
          ≡ raised (match_references env matches' d) (lookup d m) =
        ap (raised (file_references env files d)) (sym (lookup-zeros d files.blobs))
        ∙ sym (tally_blob_count_lem env d files (zeros files.blobs) store.lts_read store.img_read)
        ∙ dec_blob_counts_lem env d matches' _ m dec in
      let all_refs : file_references env files d
          ≡ match_references env matches' d + file_references env files' d =
        sym (file_references-same files files1 el ei d) ∙ refs in
      (
        ap (lookup d) same
            ∙ left
            ∙ count_left (match_references env matches' d) (file_references env files d)
                (file_references env files' d) (lookup d m) (zeroed (lookup d files.blobs))
                (lookup d files.blobs) refl counted all_refs,
        all_refs,
      )
