-- ===== src/Cache/Readers/Pages.antt =====
-- impl/cache/query.go: what a client receives of a list that a reader gives as text.
use ociregistry.Base.{
  ℕ, ◌*◌, ◌≤◌, ◌<◌, ◌≡◌, refl, ap, ◌∙◌, Bool, true, false, Option, some, List, Str, drop, length,
  arith,
}
use mathlib.Core.List.{Perm}
use native.Mathlib.Nat.{le_trans, mul-le-mul_right}
use ociregistry.Base.Sorting.{
  sort_by, IsAscending, sort_by-IsAscending, sort_by-perm, sort_by-All, sort_by-length,
}
use ociregistry.Imgpull.{ManifestHolder, Env}
use ociregistry.Cache.Query.{BlobResult}
use ociregistry.Cache.Readers.Draining.{
  pieces, read_item, cut_piece, copy-pieces, pieces_all, pieces-length, drop-length, table, Fits,
  mf_header, blob_header,
}
use ociregistry.Cache.Readers.{
  MhReader, BlobReader, url_of, digest_of, new_mf_reader, new_mf_reader_with_blobs, new_blob_reader,
  manifest_entry, blob_line, read_manifest, read_blob, copy,
}

module _ (env : Env) (size : ℕ) where
  mh_step :
      (l : List ManifestHolder) (b : Bool) (i : ℕ)
      → read_manifest env size (record { mh = l; with_blobs = b; idx = i })
        ≡ read_item
            (λ j. record { mh = l; with_blobs = b; idx = j })
            l
            (cut_piece size mf_header (manifest_entry env b))
            i
  unfolding read_manifest read_item cut_piece
  mh_step l b i = refl

  mh_copy :
      (l : List ManifestHolder) (b : Bool) (i fuel : ℕ)
      → length l < fuel
      → copy fuel (read_manifest env size) (record { mh = l; with_blobs = b; idx = i })
        ≡ some (pieces (cut_piece size mf_header (manifest_entry env b)) i (drop i l))
  mh_copy l b i fuel h =
      copy-pieces (read_manifest env size) _ l _ (mh_step l b) (drop i l) i fuel refl
        (omega (arith, drop-length i l, h))

module _ (size : ℕ) where
  blob_step :
      (l : List BlobResult) (i : ℕ)
      → read_blob size (record { blobs = l; idx = i })
        ≡ read_item (λ j. record { blobs = l; idx = j }) l (cut_piece size blob_header blob_line) i
  unfolding read_blob read_item cut_piece
  blob_step l i = refl

  blob_copy :
      (l : List BlobResult) (i fuel : ℕ)
      → length l < fuel
      → copy fuel (read_blob size) (record { blobs = l; idx = i })
        ≡ some (pieces (cut_piece size blob_header blob_line) i (drop i l))
  blob_copy l i fuel h =
      copy-pieces (read_blob size) _ l _ (blob_step l) (drop i l) i fuel refl
        (omega (arith, drop-length i l, h))

at_most_of :
    {A : Type 0} (size : ℕ) (hdr : Str) (entry : A → Str) (i : ℕ) (l : List A)
    → length (pieces (cut_piece size hdr entry) i (drop i l)) ≤ length l * size
at_most_of size hdr entry i l =
    le_trans (pieces-length size hdr entry i (drop i l)) (mul-le-mul_right size (drop-length i l))

-- The copy of a reader, in whatever state, ends with the reader's end for a buffer of any size, even one
-- of no bytes, after one read more than the list has items at most, and then has at most a buffer's
-- bytes of each item.
pub copies_end :
    (env : Env) (size fuel : ℕ) (r : MhReader) (b : BlobReader)
    → length r.mh < fuel
    → length b.blobs < fuel
    → ((t : Str) × (copy fuel (read_manifest env size) r ≡ some t)
        × (length t ≤ length r.mh * size))
      × ((t : Str) × (copy fuel (read_blob size) b ≡ some t) × (length t ≤ length b.blobs * size))
copies_end env size fuel r b h h' = (
  (
    _,
    mh_copy env size r.mh r.with_blobs r.idx fuel h,
    at_most_of size mf_header (manifest_entry env r.with_blobs) r.idx r.mh,
  ),
  (_, blob_copy size b.blobs b.idx fuel h', at_most_of size blob_header blob_line b.idx b.blobs),
)

-- A page of the rows: sorted, the same items, and all of their text.
abbrev pub Shows : {A : Type 0} → Option Str → Str → (A → Str) → (A → Str) → List A → Type 0
Shows {A} text hdr key entry l =
    (rows : List A) × IsAscending key rows × Perm rows l × (text ≡ some (table hdr entry rows))

sorted_pieces :
    {A : Type 0} (size : ℕ) (hdr : Str) (key entry : A → Str) (l : List A)
    → Fits size hdr entry l
    → pieces (cut_piece size hdr entry) 0 (sort_by key l) ≡ table hdr entry (sort_by key l)
sorted_pieces size hdr key entry l h =
    pieces_all size hdr entry (sort_by key l) (sort_by-All key _ l h)

module _ (env : Env) (size fuel : ℕ) where
  mh-Shows :
      (b : Bool) (l : List ManifestHolder)
      → Fits size mf_header (manifest_entry env b) l
      → length l < fuel
      → Shows
          (copy fuel
            (read_manifest env size)
            (record { mh = sort_by url_of l; with_blobs = b; idx = 0 }))
          mf_header
          url_of
          (manifest_entry env b)
          l
  mh-Shows b l f h = (
    sort_by url_of l,
    sort_by-IsAscending url_of l,
    sort_by-perm url_of l,
    mh_copy env size (sort_by url_of l) b 0 fuel (omega (arith, sort_by-length url_of l, h))
        ∙ ap some (sorted_pieces size mf_header url_of (manifest_entry env b) l f),
  )

  pub new_mf_reader-Shows :
      (l : List ManifestHolder)
      → Fits size mf_header (manifest_entry env false) l
      → length l < fuel
      → Shows
          (copy fuel (read_manifest env size) (new_mf_reader l))
          mf_header
          url_of
          (manifest_entry env false)
          l
  unfolding new_mf_reader
  new_mf_reader-Shows = mh-Shows false

  pub new_mf_reader_with_blobs-Shows :
      (l : List ManifestHolder)
      → Fits size mf_header (manifest_entry env true) l
      → length l < fuel
      → Shows
          (copy fuel (read_manifest env size) (new_mf_reader_with_blobs l))
          mf_header
          url_of
          (manifest_entry env true)
          l
  unfolding new_mf_reader_with_blobs
  new_mf_reader_with_blobs-Shows = mh-Shows true

pub new_blob_reader-Shows :
    (size fuel : ℕ) (l : List BlobResult)
    → Fits size blob_header blob_line l
    → length l < fuel
    → Shows (copy fuel (read_blob size) (new_blob_reader l)) blob_header digest_of blob_line l
unfolding new_blob_reader
new_blob_reader-Shows size fuel l f h = (
  sort_by digest_of l,
  sort_by-IsAscending digest_of l,
  sort_by-perm digest_of l,
  blob_copy size (sort_by digest_of l) 0 fuel (omega (arith, sort_by-length digest_of l, h))
      ∙ ap some (sorted_pieces size blob_header digest_of blob_line l f),
)
