-- ===== src/Subcmd/Prune/DryRun.antt =====
-- Prune of cmd/subcmd/prune.go with the flag --dry-run.
use ociregistry.Base.{
  ◌++◌, ◌≡◌, refl, inl, inr, Result-cases, Bool, true, Option, List, [], ◌∷◌, arith, Str, Map, ok,
  ℕ,
}
use ociregistry.Clock.{Clock}
use ociregistry.Config.{PruneConfig}
use ociregistry.Imgpull.{ManifestHolder, Env}
use ociregistry.Serialize.{Files, get_all_blobs, walk_the_cache}
use ociregistry.Subcmd.Prune.{
  Matches, Handler, remove_blobs, remove_manifests, remove_all, do_prune, prune_with, prune_files,
  choose_handler, add_image_manifests, dec_blob_counts, tally_blob_count,
}

module _ (env : Env) where
  remove_blobs-dry : (m : Map ℕ) (files : Files) → remove_blobs env true m files ≡ (files, ok tt)
  unfolding remove_blobs
  remove_blobs-dry [] files = refl
  remove_blobs-dry ((digest, n) ∷ m) files = ground (arith, remove_blobs-dry m files)

  remove_manifests-dry :
      (ms : List (Str × ManifestHolder)) (files : Files)
      → remove_manifests env true ms files ≡ (files, ok tt)
  unfolding remove_manifests
  remove_manifests-dry [] files = refl
  remove_manifests-dry ((key, mh) ∷ ms) files = remove_manifests-dry ms files

  remove_all-dry :
      (ms : Matches) (m : Map ℕ) (files : Files) → remove_all env true ms m files ≡ (files, ok tt)
  unfolding remove_all
  remove_all-dry ms m files =
      ground (arith, remove_blobs-dry m files, remove_manifests-dry ms files)

  do_prune-dry : (ms : Matches) (files : Files) → (do_prune env true ms files).0 ≡ files
  unfolding do_prune
  do_prune-dry ms files =
      elim (Result-cases (add_image_manifests env (ms ++ env.added_visited ms) files ms)) [
        | inr (e, x) ↦ rw (x, do_prune)
        | inl (ms', x) ↦
            elim (Result-cases
              (dec_blob_counts env ms' (tally_blob_count env files (get_all_blobs files)))) [
                | inr (e, y) ↦ rw (x, do_prune, y)
                | inl (m, y) ↦ rw (x, do_prune, y) (rw (remove_all-dry ms' m files))
              ]
      ]

  prune_with-dry :
      (handler : Handler) (files : Files) → (prune_with env true handler files).0 ≡ files
  unfolding prune_with
  prune_with-dry handler files =
      let walked = walk_the_cache handler files [] in
      elim (Result-cases walked.1) [
        | inr (e, x) ↦ rw (x, prune_with)
        | inl (t, x) ↦ rw (x, prune_with) (do_prune-dry walked.0 files)
      ]

  -- A dry run changes no file, whatever it is asked to prune and whatever it meets.
  pub prune_files-dry :
      (compile : Str → Option (Str → Bool)) (clock : Clock) (cfg : PruneConfig) (files : Files)
      → cfg.dry_run ≡ true
      → (prune_files env compile clock cfg files).0 ≡ files
  unfolding prune_files
  prune_files-dry compile clock cfg files h =
      elim (Result-cases (choose_handler compile clock cfg)) [
        | inr (e, x) ↦ rw (x, prune_files)
        | inl (handler, x) ↦ rw (x, prune_files, h) (prune_with-dry handler files)
      ]
