-- ===== src/Subcmd/Prune/Removal.antt =====
-- The loops of doPrune of cmd/subcmd/prune.go that remove blobs and manifests.
use ociregistry.Base.{
  ℕ, ◌+◌, ◌≡◌, refl, ap, ◌∙◌, inl, inr, Bool-cases, Result-cases, Bool, true, false, Option, none,
  some, List, [], ◌∷◌, arith, Str, str_eq, str_eq_iff, Map, lookup, delete, lookup-delete, IsMap,
  delete-IsMap, if◌then◌else◌, ok, ◌==◌,
}
use ociregistry.Imgpull.{ManifestHolder, Env}
use ociregistry.Serialize.{manifest, Files, sub_dir, with_sub_dir, rm_blob_file, rm_manifest_file}
use ociregistry.Cache.Sums.{sum_map-delete}
use ociregistry.Subcmd.Prune.{remove_blobs, remove_manifests}
use ociregistry.Subcmd.Prune.Tally.{held, file_held, file_references, match_references}

abbrev pub gone : Option ℕ → Bool
gone none = false
gone (some n) = n == 0

module _ (env : Env) where
  rm_blob_file_lem :
      (digest d : Str) (files : Files)
      → (rm_blob_file env digest files).1 ≡ ok tt
      → (lookup d (rm_blob_file env digest files).0.blobs
          ≡ (if str_eq digest d then none else lookup d files.blobs))
        × ((rm_blob_file env digest files).0.lts ≡ files.lts)
        × ((rm_blob_file env digest files).0.img ≡ files.img)
  unfolding rm_blob_file
  rm_blob_file_lem digest d files h =
      ground (arith, lookup-delete digest d files.blobs, str_eq_iff digest d)

  -- What remains when the blobs whose count is zero have been removed without an error.
  pub remove_blobs_lem :
      (d : Str) (m : Map ℕ) (files files' : Files)
      → IsMap m
      → remove_blobs env false m files ≡ (files', ok tt)
      → (lookup d files'.blobs ≡ (if gone (lookup d m) then none else lookup d files.blobs))
        × (files'.lts ≡ files.lts)
        × (files'.img ≡ files.img)
  unfolding remove_blobs lookup
  remove_blobs_lem d [] files files' u h = ground arith
  remove_blobs_lem d ((digest, n) ∷ m) files files' u h = elim (Bool-cases (n == 0)) [
    | inr other ↦ ground (arith, remove_blobs_lem d m files files' u.1, str_eq_iff digest d)
    | inl none_left ↦ elim (Result-cases (rm_blob_file env digest files).1) [
      | inr (e, x) ↦ absurd (ground arith)
      | inl (t, x) ↦ ground (
        arith,
        remove_blobs_lem d m (rm_blob_file env digest files).0 files' u.1,
        rm_blob_file_lem digest d files,
        str_eq_iff digest d,
      )
    ]
  ]

  -- Each match is the file of its own directory and digest, when its turn to be removed comes.
  abbrev pub AreFiles : List (Str × ManifestHolder) → Files → Type 0
  AreFiles [] files = Unit
  AreFiles ((key, mh) ∷ ms) files =
      ((l : Bool) × (env.is_latest_manifest mh ≡ some l)
        × (lookup mh.digest (sub_dir l files) ≡ some (manifest mh)))
      × AreFiles ms (rm_manifest_file env mh files).0

  after_rm :
      (l : Bool) (mh : ManifestHolder) (files : Files)
      → env.is_latest_manifest mh ≡ some l
      → lookup mh.digest (sub_dir l files) ≡ some (manifest mh)
      → (rm_manifest_file env mh files).1 ≡ ok tt
      → (rm_manifest_file env mh files).0
        ≡ with_sub_dir l (delete mh.digest (sub_dir l files)) files
  unfolding rm_manifest_file
  after_rm l mh files e h r = ground arith

  removed_file :
      (d : Str) (l : Bool) (mh : ManifestHolder) (files : Files)
      → IsMap files.lts
      → IsMap files.img
      → lookup mh.digest (sub_dir l files) ≡ some (manifest mh)
      → (file_references env files d
          ≡ held env d mh
            + file_references env (with_sub_dir l (delete mh.digest (sub_dir l files)) files) d)
        × ((with_sub_dir l (delete mh.digest (sub_dir l files)) files).blobs ≡ files.blobs)
        × IsMap (with_sub_dir l (delete mh.digest (sub_dir l files)) files).lts
        × IsMap (with_sub_dir l (delete mh.digest (sub_dir l files)) files).img
  unfolding file_references sub_dir with_sub_dir file_held
  removed_file d true mh files ul ui h = (
    omega (arith, sum_map-delete (file_held env d) mh.digest (manifest mh) files.lts ul h),
    refl,
    delete-IsMap mh.digest files.lts ul,
    ui,
  )
  removed_file d false mh files ul ui h = (
    omega (arith, sum_map-delete (file_held env d) mh.digest (manifest mh) files.img ui h),
    refl,
    ul,
    delete-IsMap mh.digest files.img ui,
  )

  -- The files of the matches are removed, with the references that they hold.
  pub remove_manifests_lem :
      (d : Str) (ms : List (Str × ManifestHolder)) (files files' : Files)
      → IsMap files.lts
      → IsMap files.img
      → AreFiles ms files
      → remove_manifests env false ms files ≡ (files', ok tt)
      → (file_references env files d ≡ match_references env ms d + file_references env files' d)
        × (files'.blobs ≡ files.blobs)
  unfolding remove_manifests match_references
  remove_manifests_lem d [] files files' ul ui a h = ground arith
  remove_manifests_lem d ((key, mh) ∷ ms) files files' ul ui ((l, e, x), a) h =
      elim (Result-cases (rm_manifest_file env mh files).1) [
        | inr (er, r) ↦ absurd (ground arith)
        | inl (t, r) ↦
            let same = after_rm l mh files e x r in
            let (refs, bs, ml, mi) = removed_file d l mh files ul ui x in
            let (refs', bs') =
              remove_manifests_lem d ms (rm_manifest_file env mh files).0 files' (rw same ml)
                (rw same mi) a (ground arith) in
            (
              omega (arith, refs, refs', ap (λ (f : Files). file_references env f d) same),
              bs' ∙ ap (λ (f : Files). f.blobs) same ∙ bs,
            )
      ]
