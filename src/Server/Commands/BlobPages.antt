-- ===== src/Server/Commands/BlobPages.antt =====
-- impl/cmd_handlers.go: the text that `blob/list` sends.
use ociregistry.Base.{
  Bool, ℕ, zero, suc, ◌+◌, ◌<◌, ◌≡◌, refl, ◌||◌, Option, some, List, [], ◌∷◌, Str, Map, lit,
  is_empty, contains, take, length, if◌then◌else◌, arith,
}
use mathlib.Core.List.{Perm}
use mathlib.Core.List.Perm
use ociregistry.Base.Int.{ℤ, pos}
use ociregistry.Base.Sorting.{IsAscending}
use ociregistry.Imgpull.{Env}
use ociregistry.Cache.{Cache}
use ociregistry.Cache.Query.{BlobResult, select_blobs, get_blobs_substr}
use ociregistry.Cache.Readers.{digest_of, blob_line, new_blob_reader}
use ociregistry.Cache.Readers.Draining.{table, Fits, blob_header, take_le}
use ociregistry.Cache.Readers.Pages.{Shows, new_blob_reader-Shows}
use ociregistry.Server.Commands.{Listing, list_or_none, count, body, cmd_bloblist}

-- The specification: the blobs whose digest has the text.
abbrev pub blobs_with : Str → Map ℤ → List BlobResult
blobs_with substr [] = []
blobs_with substr ((digest, ref_cnt) ∷ blobs) =
    let rest = blobs_with substr blobs in
    if is_empty substr || contains digest substr
    then record { digest = digest; ref_cnt = ref_cnt } ∷ rest
    else rest

-- With `found` of them and room for k more.
select_blobs_limited :
    (substr : Str) (count found k : ℕ) (blobs : Map ℤ)
    → count ≡ found + k
    → select_blobs substr (pos count) found blobs ≡ take k (blobs_with substr blobs)
unfolding select_blobs
select_blobs_limited substr count found zero [] h = refl
select_blobs_limited substr count found (suc k) [] h = refl
select_blobs_limited substr count found zero ((digest, n) ∷ blobs) h =
    ground (arith, select_blobs_limited substr count found zero blobs h)
select_blobs_limited substr count found (suc k) ((digest, n) ∷ blobs) h = ground (
  arith,
  select_blobs_limited substr count found (suc k) blobs h,
  select_blobs_limited substr count (suc found) k blobs,
)

-- What a client sees of the rows.
abbrev pub blob_page : List BlobResult → Str
blob_page [] = lit "no manifests found\n"
blob_page (blob ∷ blobs) = table blob_header blob_line (blob ∷ blobs)

-- The text of a rearrangement of the blobs by their digests.
abbrev pub IsBlobPage : List BlobResult → Option Str → Type 0
IsBlobPage l text =
    (rows : List BlobResult) × IsAscending digest_of rows
    × Perm rows l
    × (text ≡ some (blob_page rows))

shown :
    (blob : BlobResult) (l : List BlobResult) (text : Option Str)
    → Shows text blob_header digest_of blob_line (blob ∷ l)
    → IsBlobPage (blob ∷ l) text
shown blob l text ([], a, p, e) = cc (Perm.nil-eq p)
shown blob l text (row ∷ rows, a, p, e) = (row ∷ rows, a, p, e)

module _ (env : Env) (size fuel : ℕ) where
  blobs-IsBlobPage :
      (l : List BlobResult)
      → Fits size blob_header blob_line l
      → length l < fuel
      → IsBlobPage l
          (body env size fuel (list_or_none (λ bs. Listing.blobs (new_blob_reader bs)) l))
  unfolding body
  blobs-IsBlobPage [] f h = ([], tt, Perm.rfl, refl)
  blobs-IsBlobPage (blob ∷ l) f h = shown blob l _ (new_blob_reader-Shows size fuel (blob ∷ l) f h)

  -- Let the buffer hold the line of each of the first `n` blobs whose digest has the text. With the count
  -- `n` and more than `n` reads, `blob/list` sends the digests and reference counts of those blobs and of no
  -- others, each once, in the order of the digests, below the header; if there are none, it says so.
  pub cmd_bloblist-IsBlobPage :
      (compile : Str → Option (Str → Bool)) (substr : Str) (n : ℕ) (c : Cache)
      → Fits size blob_header blob_line (take n (blobs_with substr c.blobs))
      → n < fuel
      → IsBlobPage
          (take n (blobs_with substr c.blobs))
          (body env size fuel (cmd_bloblist env compile (some substr) (some (pos n)) c))
  unfolding cmd_bloblist count get_blobs_substr
  cmd_bloblist-IsBlobPage compile substr n c f h =
      let l = take n (blobs_with substr c.blobs) in
      let lt : length l < fuel = omega (arith, take_le n (blobs_with substr c.blobs), h) in
      rw (cmd_bloblist, get_blobs_substr, select_blobs_limited substr n 0 n c.blobs (omega arith))
        (blobs-IsBlobPage l f lt)
