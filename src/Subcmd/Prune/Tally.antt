-- ===== src/Subcmd/Prune/Tally.antt =====
-- tallyBlobCount and decBlobCounts of cmd/subcmd/prune.go as sums over the manifests.
use ociregistry.Base.{
  ℕ, suc, ◌+◌, ◌-◌, ◌≡◌, refl, sym, ap, ◌∙◌, inl, inr, Bool-cases, Option-cases, Result-cases,
  Option, none, some, List, [], ◌∷◌, arith, Str, str_eq_iff, Map, lookup, insert, lookup-insert,
  if◌then◌else◌, ok,
}
use ociregistry.Imgpull.{ManifestHolder, Layer, Env}
use ociregistry.Serialize.{File, manifest, unreadable, Files, walk_files, walk_the_cache}
use ociregistry.Serialize.Digest.{get_digest_from}
use ociregistry.Cache.Counts.{occurrences}
use ociregistry.Cache.Sums.{sum_map}
use ociregistry.Subcmd.Prune.{
  tally_layers, tally_one, tally_blob_count, dec_layers, dec_blob_counts,
}

-- A count, raised by k.
abbrev pub raised : ℕ → Option ℕ → Option ℕ
raised k none = none
raised k (some n) = some (k + n)

raised_twice : (j k : ℕ) (o : Option ℕ) → raised j (raised k o) ≡ raised (k + j) o
raised_twice j k none = refl
raised_twice j k (some n) = ap some (omega arith)

raised_zero : (o : Option ℕ) → raised 0 o ≡ o
raised_zero none = refl
raised_zero (some n) = ap some (omega arith)

-- Every file of the directory reads as a manifest.
abbrev pub AllRead : Map File → Type 0
AllRead [] = Unit
AllRead ((name, manifest mh) ∷ m) = AllRead m
AllRead ((name, unreadable) ∷ m) = ⊥

tally_layers_lem :
    (d : Str) (layers : List Layer) (m : Map ℕ)
    → lookup d (tally_layers layers m) ≡ raised (occurrences d layers) (lookup d m)
unfolding tally_layers occurrences
tally_layers_lem d [] m = sym (raised_zero (lookup d m))
tally_layers_lem d (layer ∷ layers) m =
    let e = get_digest_from layer.digest in
    elim (Option-cases (lookup e m)) [
      | inl h ↦ rw h (ground (arith, tally_layers_lem d layers m, str_eq_iff e d))
      | inr (n, h) ↦ rw h (
          ground (
            arith,
            tally_layers_lem d layers (insert e (suc n) m),
            lookup-insert e d (suc n) m,
            str_eq_iff e d,
          ))
    ]

dec_layers_lem :
    (d : Str) (layers : List Layer) (m m' : Map ℕ)
    → dec_layers layers m ≡ ok m'
    → lookup d m ≡ raised (occurrences d layers) (lookup d m')
unfolding dec_layers occurrences
dec_layers_lem d [] m m' h = ground (arith, raised_zero (lookup d m))
dec_layers_lem d (layer ∷ layers) m m' h =
    let e = get_digest_from layer.digest in
    elim (Option-cases (lookup e m)) [
      | inl x ↦ absurd (ground arith)
      | inr (n, x) ↦ ground (
        arith,
        dec_layers_lem d layers (insert e (n - 1) m) m',
        lookup-insert e d (n - 1) m,
        str_eq_iff e d,
      )
    ]

module _ (env : Env) where
  -- The references to blob `d` that a manifest, a file, a directory and the image path hold.
  unfoldable pub held : Str → ManifestHolder → ℕ
  held d mh = if env.is_image_manifest mh then occurrences d (env.layers mh) else 0

  unfoldable pub file_held : Str → Str → File → ℕ
  file_held d name (manifest mh) = held d mh
  file_held d name unreadable = 0

  unfoldable pub file_references : Files → Str → ℕ
  file_references files d = sum_map (file_held d) files.lts + sum_map (file_held d) files.img

  unfoldable pub match_references : List (Str × ManifestHolder) → Str → ℕ
  match_references [] d = 0
  match_references ((key, mh) ∷ ms) d = held d mh + match_references ms d

  tally_one_lem :
      (d : Str) (mh : ManifestHolder) (m : Map ℕ)
      → lookup d (tally_one env mh m).0 ≡ raised (held d mh) (lookup d m)
  unfolding tally_one held
  tally_one_lem d mh m =
      ground (arith, tally_layers_lem d (env.layers mh) m, raised_zero (lookup d m))

  walk_files-tally_one :
      (d : Str) (files : Map File) (m : Map ℕ)
      → AllRead files
      → ((walk_files (tally_one env) files m).1 ≡ ok tt)
        × (lookup d (walk_files (tally_one env) files m).0
            ≡ raised (sum_map (file_held d) files) (lookup d m))
  unfolding walk_files sum_map file_held tally_one
  walk_files-tally_one d [] m h = (refl, sym (raised_zero (lookup d m)))
  walk_files-tally_one d ((name, unreadable) ∷ files) m h = elim h [ ]
  walk_files-tally_one d ((name, manifest mh) ∷ files) m h =
      let (done, counts) = walk_files-tally_one d files (tally_one env mh m).0 h in
      (
        done,
        counts
            ∙ ap (raised (sum_map (file_held d) files)) (tally_one_lem d mh m)
            ∙ raised_twice (sum_map (file_held d) files) (held d mh) (lookup d m),
      )

  -- Where every manifest reads, each blob of the map is counted once for each layer that has it.
  pub tally_blob_count_lem :
      (d : Str) (files : Files) (m : Map ℕ)
      → AllRead files.lts
      → AllRead files.img
      → lookup d (tally_blob_count env files m) ≡ raised (file_references files d) (lookup d m)
  unfolding tally_blob_count file_references walk_the_cache
  tally_blob_count_lem d files m hl hi =
      let (done, counts) = walk_files-tally_one d files.lts m hl in
      let s = (walk_files (tally_one env) files.lts m).0 in
      let (done', counts') = walk_files-tally_one d files.img s hi in
      rw (done, tally_blob_count, walk_the_cache)
        (counts'
          ∙ ap (raised (sum_map (file_held d) files.img)) counts
          ∙ raised_twice (sum_map (file_held d) files.img) (sum_map (file_held d) files.lts)
              (lookup d m))

  dec_step :
      (d key : Str) (mh : ManifestHolder) (ms : List (Str × ManifestHolder)) (m m' : Map ℕ)
      → dec_blob_counts env ((key, mh) ∷ ms) m ≡ ok m'
      → (m1 : Map ℕ) × (lookup d m ≡ raised (held d mh) (lookup d m1))
        × (dec_blob_counts env ms m1 ≡ ok m')
  unfolding dec_blob_counts held
  dec_step d key mh ms m m' h = elim (Bool-cases (env.is_image_manifest mh)) [
    | inr other ↦ (m, ground (arith, other, raised_zero (lookup d m)), ground (arith, other, h))
    | inl image ↦ elim (Result-cases (dec_layers (env.layers mh) m)) [
      | inr (e, x) ↦ absurd (ground (arith, image, x, h))
      | inl (m1, x) ↦
          (m1, rw image (dec_layers_lem d (env.layers mh) m m1 x), ground (arith, image, x, h))
    ]
  ]

  -- Where no count falls below zero, each blob is counted down once for each layer that has it.
  pub dec_blob_counts_lem :
      (d : Str) (ms : List (Str × ManifestHolder)) (m m' : Map ℕ)
      → dec_blob_counts env ms m ≡ ok m'
      → lookup d m ≡ raised (match_references ms d) (lookup d m')
  unfolding match_references
  dec_blob_counts_lem d [] m m' h =
      unfold dec_blob_counts in ground (arith, h, raised_zero (lookup d m))
  dec_blob_counts_lem d ((key, mh) ∷ ms) m m' h =
      let (m1, one, rest) = dec_step d key mh ms m m' h in
      one
      ∙ ap (raised (held d mh)) (dec_blob_counts_lem d ms m1 m' rest)
      ∙ raised_twice (held d mh) (match_references ms d) (lookup d m')
      ∙ ap (λ (k : ℕ). raised k (lookup d m')) (omega arith)
