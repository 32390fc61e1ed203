-- ===== src/Server/Blobs.antt =====
-- handleV2BlobsDigest of impl/handlers.go, over a cache whose counts are right.
use ociregistry.Base.{
  ℕ, [], ◌∷◌, ◌≡◌, refl, Bool, false, Option, none, some, ◌++◌, arith, Str, is_empty, lookup, ◌==◌,
  if◌then◌else◌,
}
use ociregistry.Base.Int.{pos}
use ociregistry.Imgpull.{Env}
use ociregistry.Serialize.{blob_size?}
use ociregistry.Serialize.Digest.{IsDigest, get_digest_from-append}
use ociregistry.Cache.{Cache, get_blob}
use ociregistry.Cache.Counts.{ref_count-entry}
use ociregistry.Cache.RefCounts.{references, IsCounted}
use ociregistry.Server.{Response, not_found, server_error, blob, handle_v2_blobs_digest}

-- What is served, by the file.
abbrev pub from_file : (Str → Bool) → Bool → Str → Option ℕ → Response
from_file open_fails ranged d none = server_error
from_file open_fails ranged d (some size) =
    if open_fails d then server_error else blob (if ranged then none else some size) d

digest-some : (d : Str) → IsDigest d → is_empty d ≡ false
unfolding is_empty
digest-some [] h = absurd (omega (arith, h.size))
digest-some (c ∷ d) h = refl

get_blob-references :
    (env : Env) (d : Str) (c : Cache) → IsCounted env c → get_blob d c ≡ pos (references env c d)
unfolding get_blob
get_blob-references env d c inv = ref_count-entry d (references env c d) c (inv.counts d)

-- Over a cache in which every blob is counted once for each layer of each cached image that has it, a
-- request for a digest, with or without a prefix, is answered with 404 exactly if no cached image
-- has the blob, and otherwise by its file: an error if it is missing or does not open, else its
-- content, with its size unless a range is asked for.
pub handle_v2_blobs_digest_lem :
    (env : Env) (open_fails : Str → Bool) (ranged : Bool) (p d : Str) (c : Cache)
    → IsCounted env c
    → IsDigest d
    → handle_v2_blobs_digest env open_fails ranged (p ++ d) c ≡ (
        if references env c d == 0
        then not_found
        else from_file open_fails ranged d (lookup d c.files.blobs))
unfolding handle_v2_blobs_digest blob_size?
handle_v2_blobs_digest_lem env open_fails ranged p d c inv h = ground (
  arith,
  get_digest_from-append p d h,
  get_digest_from-append [] d h,
  digest-some d h,
  get_blob-references env d c inv,
)
