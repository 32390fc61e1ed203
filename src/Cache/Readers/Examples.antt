-- ===== src/Cache/Readers/Examples.antt =====
-- The theorem about the readers at concrete lists, and tests of their text.
use ociregistry.Base.{
  List, ◌*◌, ◌≤◌, ◌≡◌, refl, true, some, Str, [], ◌∷◌, ◌++◌, lit, has_prefix, split, length, arith,
}
use ociregistry.Base.Decimal.{format}
use ociregistry.Base.Int.{pos}
use ociregistry.Base.Sorting.{sort_by, str_lt}
use ociregistry.Cache.Examples.{disk}
use ociregistry.Cache.Query.{BlobResult}
use ociregistry.Cache.Readers.{
  MhReader, BlobReader, new_blob_reader, read_manifest, read_blob, blob_line, header, get_elem?,
  copy, shown_url, first_digest, last_digest, digest_at, all_hex, replace_first,
}
use ociregistry.Cache.Readers.Pages.{copies_end}

abbrev hex : Str
hex = lit "0123456789abcdef0123456789abcdef0123456789abcdef0123456789abcdef"

-- The digest in a url is shortened.
check_url : shown_url (lit "quay.io/x@sha256:" ++ hex) ≡ lit "quay.io/x@sha256:0123456789"
unfolding shown_url split first_digest last_digest digest_at all_hex has_prefix replace_first
check_url = refl

abbrev two : List BlobResult
two =
    record { digest = lit "b"; ref_cnt = pos 2 }
    ∷ record { digest = lit "a"; ref_cnt = pos 13 }
    ∷ []

check_blobs : copy 3 (read_blob 32768) (new_blob_reader two) ≡ some (lit "URL REFCNT\na 13\nb 2\n")
unfolding copy read_blob new_blob_reader sort_by str_lt get_elem? header blob_line format
check_blobs = refl

-- A buffer that is too small for the first line.
check_cut : copy 3 (read_blob 8) (new_blob_reader two) ≡ some (lit "URL REFCb 2\n")
unfolding copy read_blob new_blob_reader sort_by str_lt get_elem? header blob_line format
check_cut = refl

abbrev manifests : MhReader
manifests = record {
  mh =
      record {
        image_url = lit "quay.io/x:v1";
        digest = lit "c";
        created = lit "2025-01-01T00:00:00";
        pulled = lit "2025-01-01T00:00:00";
        bytes = [];
      }
      ∷ [];
  with_blobs = true;
  idx = 0;
}

abbrev blobs : BlobReader
blobs = record { blobs = two; idx = 1 }

copies_end_example :
    ((t : Str) × (copy 3 (read_manifest disk 8) manifests ≡ some t)
      × (length t ≤ length manifests.mh * 8))
    × ((t : Str) × (copy 3 (read_blob 8) blobs ≡ some t) × (length t ≤ length blobs.blobs * 8))
copies_end_example = copies_end disk 8 3 manifests blobs (omega arith) (omega arith)
