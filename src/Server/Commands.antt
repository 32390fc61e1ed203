-- ===== src/Server/Commands.antt =====
-- impl/cmd_handlers.go: the administrative commands of the server.
pub mod Selecting
pub mod Pages
pub mod BlobPages
pub mod Pruning
use ociregistry.Base.{
  ℕ, lit, Bool, true, false, Option, none, some, List, [], ◌∷◌, Str, ◌==◌, contains, split,
  if◌then◌else◌, Result, ok, err,
}
use ociregistry.Base.Int.{ℤ, pos, negsuc}
use ociregistry.Clock.{Clock}
use ociregistry.Imgpull.{ManifestHolder, Layer, Env}
use ociregistry.Patterns.{compile_parts, any_match}
use ociregistry.Cache.{Cache}
use ociregistry.Cache.Criteria.{CriteriaError, prune_rest}
use ociregistry.Cache.Readers.{
  MhReader, BlobReader, new_mf_reader, new_mf_reader_with_blobs, new_blob_reader, read_manifest,
  read_blob, copy,
}
use ociregistry.Cache.Query.{ManifestComparer, BlobResult, get_manifests_compare, get_blobs_substr}

-- A comparer, or the expression that does not compile.
abbrev pub Comparer : Type 0
Comparer = Result Str ManifestComparer

-- What the commands that list answer: a text, or a reader whose text the web framework sends.
pub data Listing : Type 0 where
  invalid_parameters no_manifests_found : Listing
  manifests : MhReader → Listing
  blobs : BlobReader → Listing

-- What the command that prunes answers, without the log of the pruner.
pub data Answer : Type 0 where
  bad_request : CriteriaError → Answer
  pruned : Answer

abbrev pub list_or_none : {A : Type 0} → (List A → Listing) → List A → Listing
list_or_none listing [] = no_manifests_found
list_or_none listing (a ∷ as_) = listing (a ∷ as_)

-- The body of an answer, read by `fuel` reads with a buffer of `size` bytes.
unfoldable pub body : Env → ℕ → ℕ → Listing → Option Str
body env size fuel invalid_parameters = some (lit "invalid parameters\n")
body env size fuel no_manifests_found = some (lit "no manifests found\n")
body env size fuel (manifests r) = copy fuel (read_manifest env size) r
body env size fuel (blobs r) = copy fuel (read_blob size) r

-- count; 2147483647 is math.MaxInt32
unfoldable pub count : Option ℤ → ℤ
count none = pos 50
count (some (pos n)) = pos n
count (some (negsuc n)) = if n == 0 then pos 2147483647 else negsuc n

module _ (env : Env) (compile : Str → Option (Str → Bool)) where
  -- The loop over the layers of a manifest.
  unfoldable pub any_layer : Str → List Layer → Bool
  any_layer substr [] = false
  any_layer substr (layer ∷ layers) =
      let rest = any_layer substr layers in if contains layer.digest substr then true else rest

  -- makeComparer
  unfoldable pub make_comparer : Option Str → Option Str → Comparer
  make_comparer (some pattern) digest = elim (compile_parts compile (split pattern b',')) [
    | ok srchs ↦ ok (any_match srchs)
    | err e ↦ err e
  ]
  make_comparer none (some digest) = ok λ mh. any_layer digest (env.layers mh)
  make_comparer none none = ok λ mh. true

  -- CmdManifestlist
  unfoldable pub cmd_manifestlist : Option Str → Option ℤ → Cache → Listing
  cmd_manifestlist pattern n c = elim (make_comparer pattern none) [
    | ok comparer ↦
        list_or_none (λ mhs. manifests (new_mf_reader mhs))
          (get_manifests_compare comparer (count n) c)
    | err e ↦ invalid_parameters
  ]

  -- CmdBloblist
  unfoldable pub cmd_bloblist : Option Str → Option ℤ → Cache → Listing
  cmd_bloblist (some substr) n c =
      list_or_none (λ bs. blobs (new_blob_reader bs)) (get_blobs_substr substr (count n) c)
  cmd_bloblist none n c =
      list_or_none (λ bs. blobs (new_blob_reader bs)) (get_blobs_substr [] (count n) c)

  -- CmdImagelist
  unfoldable pub cmd_imagelist : Option Str → Option Str → Option ℤ → Cache → Listing
  cmd_imagelist pattern digest n c = elim (make_comparer pattern digest) [
    | ok comparer ↦
        list_or_none (λ mhs. manifests (new_mf_reader_with_blobs mhs))
          (get_manifests_compare comparer (count n) c)
    | err e ↦ invalid_parameters
  ]

  -- CmdPrune
  unfoldable pub cmd_prune :
      Clock → Str → Option Str → Option Str → Option Str → Option ℤ → Cache → Cache × Answer
  cmd_prune clock prune_type dur expr dry_run n c =
      let (c', r) = prune_rest clock compile env prune_type dur expr dry_run (some (count n)) c in
      elim r [ ok _ ↦ (c', pruned) | err e ↦ (c', bad_request e) ]
