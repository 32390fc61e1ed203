-- ===== src/Cache/Readers.antt =====
-- impl/cache/query.go: MHReader and BlobReader, which give the lists of the administrative commands as
-- text, and io.Copy of the standard library, by which the web framework sends that text.
pub mod Draining
pub mod Pages
mod Examples
use ociregistry.Base.{
  ℕ, zero, suc, ◌-◌, Bool, true, false, ◌&&◌, ◌||◌, Option, none, some, List, [], ◌∷◌, ◌++◌, Str,
  lit, has_prefix, split, take, drop, length, leb, ltb, ◌==◌, if◌then◌else◌,
}
use ociregistry.Base.Decimal.{format_ℤ}
use ociregistry.Base.Sorting.{sort_by}
use ociregistry.Imgpull.{ManifestHolder, Layer, Env}
use ociregistry.Cache.Query.{BlobResult}

pub record MhReader : Type 0 where
  pub mh : List ManifestHolder
  pub with_blobs : Bool
  pub idx : ℕ

pub record BlobReader : Type 0 where
  pub blobs : List BlobResult
  pub idx : ℕ

abbrev pub url_of : ManifestHolder → Str
url_of mh = mh.image_url

abbrev pub digest_of : BlobResult → Str
digest_of blob = blob.digest

-- NewMFReader
unfoldable pub new_mf_reader : List ManifestHolder → MhReader
new_mf_reader mh = record { mh = sort_by url_of mh; with_blobs = false; idx = 0 }

-- NewMFReaderWithBlobs
unfoldable pub new_mf_reader_with_blobs : List ManifestHolder → MhReader
new_mf_reader_with_blobs mh = record { mh = sort_by url_of mh; with_blobs = true; idx = 0 }

-- NewBlobReader
unfoldable pub new_blob_reader : List BlobResult → BlobReader
new_blob_reader blobs = record { blobs = sort_by digest_of blobs; idx = 0 }

-- mh[i], or none where the index is out of range
unfoldable pub get_elem? {ℓ} : {A : Type ℓ} → List A → ℕ → Option A
get_elem? [] i = none
get_elem? (x ∷ xs) zero = some x
get_elem? (x ∷ xs) (suc i) = get_elem? xs i

-- The expression of `re`: `.` does not match the end of a line, and the first `.*` takes as much as it
-- can, so the digest is the last one of the first line that has one.
abbrev pub is_hex : ℕ → Bool
is_hex c = (leb b'a' c && leb c b'f') || (leb b'0' c && leb c b'9')

unfoldable pub all_hex : Str → Bool
all_hex [] = true
all_hex (c ∷ s) = is_hex c && all_hex s

unfoldable pub digest_at : Str → Option Str
digest_at s =
    let d = take 64 (drop 7 s) in
    if has_prefix s (lit "sha256:") && ((length d == 64) && all_hex d) then some d else none

unfoldable pub last_digest : Str → Option Str
last_digest [] = none
last_digest (c ∷ s) = elim (last_digest s) [ some d ↦ some d | none ↦ digest_at (c ∷ s) ]

unfoldable pub first_digest : List Str → Option Str
first_digest [] = none
first_digest (l ∷ ls) = elim (last_digest l) [ some d ↦ some d | none ↦ first_digest ls ]

-- strings.Replace(s, old, new, 1), for an `old` that is not empty
unfoldable pub replace_first : Str → Str → Str → Str
replace_first [] old new = []
replace_first (c ∷ s) old new =
    let rest = replace_first s old new in
    if has_prefix (c ∷ s) old then new ++ drop (length old) (c ∷ s) else c ∷ rest

-- The url in a line of the list: its digest is cut to ten characters.
unfoldable pub shown_url : Str → Str
shown_url url = elim (first_digest (split url 10)) [
  | some dgst ↦ replace_first url dgst (take 10 dgst)
  | none ↦ url
]

unfoldable pub layer_lines : List Layer → Str
layer_lines [] = []
layer_lines (layer ∷ layers) = lit "- " ++ layer.digest ++ lit "\n" ++ layer_lines layers

unfoldable pub manifest_line : ManifestHolder → Str
manifest_line mh =
    shown_url mh.image_url
    ++ lit " "
    ++ mh.digest
    ++ lit "  "
    ++ mh.created
    ++ lit " "
    ++ mh.pulled
    ++ lit "\n"

unfoldable pub blob_line : BlobResult → Str
blob_line blob = blob.digest ++ lit " " ++ format_ℤ blob.ref_cnt ++ lit "\n"

-- The header, before the first line.
unfoldable pub header : ℕ → Str → Str
header zero hdr = hdr
header (suc idx) hdr = []

module _ (env : Env) where
  -- What a Read of a manifest writes, before it is cut to the buffer.
  unfoldable pub manifest_entry : Bool → ManifestHolder → Str
  manifest_entry with_blobs mh =
      manifest_line mh ++ (if with_blobs then layer_lines (env.layers mh) else [])

  -- MHReader.Read, with a buffer of `size` bytes; `none` is io.EOF.
  unfoldable pub read_manifest : ℕ → MhReader → MhReader × Option Str
  read_manifest size r = elim (get_elem? r.mh r.idx) [
    | none ↦ (r, none)
    | some mh ↦ (
      record r { idx = suc r.idx },
      some (
          take size
            (header r.idx (lit "URL DIGEST CREATED PULLED\n") ++ manifest_entry r.with_blobs mh)),
    )
  ]

-- BlobReader.Read
unfoldable pub read_blob : ℕ → BlobReader → BlobReader × Option Str
read_blob size r = elim (get_elem? r.blobs r.idx) [
  | none ↦ (r, none)
  | some blob ↦ (
    record r { idx = suc r.idx },
    some (take size (header r.idx (lit "URL REFCNT\n") ++ blob_line blob)),
  )
]

-- The loop of io.Copy: what a reader gives up to its end, or `none` where `fuel` reads do not reach it.
unfoldable pub copy : {R : Type 0} → ℕ → (R → R × Option Str) → R → Option Str
copy zero read r = none
copy (suc fuel) read r =
    let (r', o) = read r in
    elim o [
      | none ↦ some []
      | some bytes ↦ elim (copy fuel read r') [ none ↦ none | some rest ↦ some (bytes ++ rest) ]
    ]
