-- ===== src/Subcmd/Prune.antt =====
-- cmd/subcmd/prune.go: the prune of the files under the image path. `matches`, a Go map, is a list in
-- the order in which `range` meets its entries. addImageManifests adds to the map while it ranges over
-- it; the entries that it adds are not met again here, which is one of the orders that Go allows.
pub mod Tally
pub mod Removal
pub mod Safety
pub mod DryRun
mod Examples
use ociregistry.Base.{
  ◌++◌, ℕ, suc, ◌-◌, Bool, true, false, Option, none, some, List, [], ◌∷◌, Str, lit, str_eq, ◌==◌,
  Map, lookup, insert, split, if◌then◌else◌, Result, ok, err,
}
use ociregistry.Base.Int.{ℤ, ltb_ℤ}
use ociregistry.Clock.{Clock}
use ociregistry.Config.{PruneConfig}
use ociregistry.Imgpull.{ManifestHolder, Layer, Env}
use ociregistry.Patterns.{compile_parts, any_match}
use ociregistry.PullRequest.{PullError, new_pull_request_from_url, url_with_digest}
use ociregistry.Serialize.{
  Files, FsError, bad_date, mh_from_filesystem, rm_blob_file, rm_manifest_file, walk_the_cache,
  get_all_blobs,
}
use ociregistry.Serialize.Digest.{get_digest_from}

abbrev pub Matches : Type 0
Matches = Map ManifestHolder

pub data PruneError : Type 0 where
  unsupported_type bad_expression negative_count unknown_blob : Str → PruneError
  bad_cutoff : PruneError
  walk_error : FsError → PruneError
  bad_ref : PullError → PruneError

-- A handler for WalkTheCache that changes `matches`.
abbrev pub Handler : Type 0
Handler = ManifestHolder → Matches → Matches × Result FsError (Unit {0})

module _ (clock : Clock) where
  -- The function that dateHandler returns.
  unfoldable pub match_date : ℤ → Handler
  match_date cutoff mh matches =
      if str_eq mh.created [] then (matches, ok tt) else elim (clock.parse_time mh.created) [
        | none ↦ (matches, err bad_date)
        | some created ↦
            (if ltb_ℤ created cutoff then insert mh.image_url mh matches else matches, ok tt)
      ]

  -- dateHandler
  unfoldable pub date_handler : Str → Result PruneError Handler
  date_handler date = elim (clock.parse_time date) [
    | none ↦ err bad_cutoff
    | some cutoff ↦ ok (match_date cutoff)
  ]

-- The function that patternHandler returns.
unfoldable pub match_pattern : List (Str → Bool) → Handler
match_pattern srchs mh matches =
    (if any_match srchs mh then insert mh.image_url mh matches else matches, ok tt)

-- patternHandler
unfoldable pub pattern_handler : (Str → Option (Str → Bool)) → Str → Result PruneError Handler
pattern_handler compile pattern = elim (compile_parts compile (split pattern b',')) [
  | ok srchs ↦ ok (match_pattern srchs)
  | err ref ↦ err (bad_expression ref)
]

-- The loop over the layers in tallyBlobCount.
unfoldable pub tally_layers : List Layer → Map ℕ → Map ℕ
tally_layers [] blobs = blobs
tally_layers (layer ∷ layers) blobs =
    let digest = get_digest_from layer.digest in
    tally_layers layers
      (elim (lookup digest blobs) [ some n ↦ insert digest (suc n) blobs | none ↦ blobs ])

-- The loop over the digests of an image list in addImageManifests.
unfoldable pub add_digests : Str → List Str → Files → Matches → Result PruneError Matches
add_digests u [] files matches = ok matches
add_digests u (sha256 ∷ digests) files matches = elim (new_pull_request_from_url u) [
  | err e ↦ err (bad_ref e)
  | ok pr ↦
      let key = url_with_digest pr sha256 in
      add_digests u digests files (elim (lookup key matches) [
        | some mh ↦ matches
        | none ↦ elim (mh_from_filesystem sha256 true files) [
          | some mh ↦ insert key mh matches
          | none ↦ matches
        ]
      ])
]

-- The loop over the layers in decBlobCounts. A count that falls below zero ends it.
unfoldable pub dec_layers : List Layer → Map ℕ → Result PruneError (Map ℕ)
dec_layers [] blobs = ok blobs
dec_layers (layer ∷ layers) blobs =
    let digest = get_digest_from layer.digest in
    elim (lookup digest blobs) [
      | none ↦ err (unknown_blob digest)
      | some n ↦ elim (n == 0) [
        | true ↦ err (negative_count digest)
        | false ↦ dec_layers layers (insert digest (n - 1) blobs)
      ]
    ]

-- The switch of Prune on the type.
unfoldable pub choose_handler :
    (Str → Option (Str → Bool)) → Clock → PruneConfig → Result PruneError Handler
choose_handler compile clock cfg =
    if str_eq cfg.prune_type (lit "pattern")
    then pattern_handler compile cfg.expr
    else if str_eq cfg.prune_type (lit "date")
    then date_handler clock cfg.expr
    else err (unsupported_type cfg.prune_type)

module _ (env : Env) where
  unfoldable pub tally_one : ManifestHolder → Map ℕ → Map ℕ × Result FsError (Unit {0})
  tally_one mh blobs =
      (if env.is_image_manifest mh then tally_layers (env.layers mh) blobs else blobs, ok tt)

  -- tallyBlobCount; what WalkTheCache returns is dropped.
  unfoldable pub tally_blob_count : Files → Map ℕ → Map ℕ
  tally_blob_count files blobs = (walk_the_cache tally_one files blobs).0

  -- addImageManifests: the entries that its loop visits, and the map.
  unfoldable pub add_image_manifests :
      List (Str × ManifestHolder) → Files → Matches → Result PruneError Matches
  add_image_manifests [] files matches = ok matches
  add_image_manifests ((key, mh) ∷ entries) files matches =
      elim (if env.is_image_manifest mh
        then ok matches
        else add_digests mh.image_url (env.image_manifest_digests mh) files matches) [
          | ok matches' ↦ add_image_manifests entries files matches'
          | err e ↦ err e
        ]

  -- decBlobCounts
  unfoldable pub dec_blob_counts : List (Str × ManifestHolder) → Map ℕ → Result PruneError (Map ℕ)
  dec_blob_counts [] blobs = ok blobs
  dec_blob_counts ((key, mh) ∷ entries) blobs =
      elim (if env.is_image_manifest mh then dec_layers (env.layers mh) blobs else ok blobs) [
        | ok blobs' ↦ dec_blob_counts entries blobs'
        | err e ↦ err e
      ]

  -- The two loops of doPrune that remove.
  unfoldable pub remove_blobs : Bool → Map ℕ → Files → Files × Result FsError (Unit {0})
  remove_blobs dry_run [] files = (files, ok tt)
  remove_blobs dry_run ((digest, n) ∷ blobs) files =
      let (files', r) =
        if n == 0
        then (if dry_run then (files, ok tt) else rm_blob_file env digest files)
        else (files, ok tt) in
      elim r [ ok _ ↦ remove_blobs dry_run blobs files' | err e ↦ (files', err e) ]

  unfoldable pub remove_manifests :
      Bool → List (Str × ManifestHolder) → Files → Files × Result FsError (Unit {0})
  remove_manifests dry_run [] files = (files, ok tt)
  remove_manifests dry_run ((key, mh) ∷ entries) files =
      let (files', r) = if dry_run then (files, ok tt) else rm_manifest_file env mh files in
      elim r [ ok _ ↦ remove_manifests dry_run entries files' | err e ↦ (files', err e) ]

  -- doPrune, once the counts are known.
  unfoldable pub remove_all : Bool → Matches → Map ℕ → Files → Files × Result PruneError (Unit {0})
  remove_all dry_run matches blobs files =
      let (files', r) = remove_blobs dry_run blobs files in
      elim r [
        | err e ↦ (files', err (walk_error e))
        | ok _ ↦
            let (files'', r') = remove_manifests dry_run matches files' in
            elim r' [ err e ↦ (files'', err (walk_error e)) | ok _ ↦ (files'', ok tt) ]
      ]

  -- doPrune
  unfoldable pub do_prune : Bool → Matches → Files → Files × Result PruneError (Unit {0})
  do_prune dry_run matches files =
      elim (add_image_manifests (matches ++ env.added_visited matches) files matches) [
        | err e ↦ (files, err e)
        | ok matches' ↦
            elim (dec_blob_counts matches' (tally_blob_count files (get_all_blobs files))) [
              | err e ↦ (files, err e)
              | ok blobs ↦ remove_all dry_run matches' blobs files
            ]
      ]

  -- Prune, once there is a handler.
  unfoldable pub prune_with : Bool → Handler → Files → Files × Result PruneError (Unit {0})
  prune_with dry_run handler files =
      let (matches, r) = walk_the_cache handler files [] in
      elim r [ err e ↦ (files, err (walk_error e)) | ok _ ↦ do_prune dry_run matches files ]

  -- Prune
  unfoldable pub prune_files :
      (Str → Option (Str → Bool))
      → Clock
      → PruneConfig
      → Files
      → Files × Result PruneError (Unit {0})
  prune_files compile clock cfg files = elim (choose_handler compile clock cfg) [
    | err e ↦ (files, err e)
    | ok handler ↦ prune_with cfg.dry_run handler files
  ]
