-- ===== src/Server/Commands/Pages.antt =====
-- impl/cmd_handlers.go: the text that `manifest/list` and `image/list` send.
use ociregistry.Base.{
  ℕ, ◌≤◌, ◌<◌, ◌≡◌, refl, Bool, true, false, Option, some, List, [], ◌∷◌, Str, lit, split, length,
  length-append, ◌++◌, arith,
}
use mathlib.Core.List.{Perm}
use mathlib.Core.List.Perm
use ociregistry.Base.Int.{pos}
use ociregistry.Base.Sorting.{IsAscending}
use ociregistry.Imgpull.{ManifestHolder, Env}
use ociregistry.Patterns.{Compile}
use ociregistry.Cache.{Cache}
use ociregistry.Cache.Query.Selection.{own_and_passing}
use ociregistry.Cache.Readers.{
  url_of, manifest_entry, manifest_line, layer_lines, new_mf_reader, new_mf_reader_with_blobs,
}
use ociregistry.Cache.Readers.Draining.{table, Fits, mf_header, take_le}
use ociregistry.Cache.Readers.Pages.{Shows, new_mf_reader-Shows, new_mf_reader_with_blobs-Shows}
use ociregistry.Server.Commands.{Listing, list_or_none, body, cmd_manifestlist, cmd_imagelist}
use ociregistry.Server.Commands.Selecting.{selected, cmd_manifestlist_lem, cmd_imagelist_lem}

-- What a client sees of the rows.
abbrev pub page : Env → Bool → List ManifestHolder → Str
page env with_blobs [] = lit "no manifests found\n"
page env with_blobs (mh ∷ mhs) = table mf_header (manifest_entry env with_blobs) (mh ∷ mhs)

-- The page of a rearrangement of the manifests by their urls.
abbrev pub IsPage : Env → Bool → List ManifestHolder → Option Str → Type 0
IsPage env with_blobs l text =
    (rows : List ManifestHolder) × IsAscending url_of rows
    × Perm rows l
    × (text ≡ some (page env with_blobs rows))

table-IsPage :
    (env : Env) (b : Bool) (mh : ManifestHolder) (l : List ManifestHolder) (text : Option Str)
    → Shows text mf_header url_of (manifest_entry env b) (mh ∷ l)
    → IsPage env b (mh ∷ l) text
table-IsPage env b mh l text ([], a, p, e) = cc (Perm.nil-eq p)
table-IsPage env b mh l text (row ∷ rows, a, p, e) = (row ∷ rows, a, p, e)

entry_le :
    (env : Env) (mh : ManifestHolder)
    → length (manifest_entry env false mh) ≤ length (manifest_entry env true mh)
unfolding manifest_entry
entry_le env mh = omega (
  arith,
  length-append (manifest_line mh) [],
  length-append (manifest_line mh) (layer_lines (env.layers mh)),
)

Fits-weaken :
    (env : Env) (size : ℕ) (l : List ManifestHolder)
    → Fits size mf_header (manifest_entry env true) l
    → Fits size mf_header (manifest_entry env false) l
Fits-weaken env size [] f = tt
Fits-weaken env size (mh ∷ l) (f, fs) =
    (omega (arith, entry_le env mh, f), Fits-weaken env size l fs)

module _ (env : Env) (size fuel : ℕ) where
  manifests-IsPage :
      (l : List ManifestHolder)
      → Fits size mf_header (manifest_entry env false) l
      → length l < fuel
      → IsPage env false l
          (body env size fuel (list_or_none (λ mhs. Listing.manifests (new_mf_reader mhs)) l))
  unfolding body
  manifests-IsPage [] f h = ([], tt, Perm.rfl, refl)
  manifests-IsPage (mh ∷ l) f h =
      table-IsPage env false mh l _ (new_mf_reader-Shows env size fuel (mh ∷ l) f h)

  images-IsPage :
      (l : List ManifestHolder)
      → Fits size mf_header (manifest_entry env true) l
      → length l < fuel
      → IsPage env true l (
          body env size fuel
            (list_or_none (λ mhs. Listing.manifests (new_mf_reader_with_blobs mhs)) l))
  unfolding body
  images-IsPage [] f h = ([], tt, Perm.rfl, refl)
  images-IsPage (mh ∷ l) f h =
      table-IsPage env true mh l _ (new_mf_reader_with_blobs-Shows env size fuel (mh ∷ l) f h)

  -- Let each comma-separated part of the pattern compile, and let the buffer hold any entry, with its
  -- blobs, of the first `n` cached manifests, not latest ones first, that stand under their own url and
  -- whose url matches a part. With the count `n` and more than `n` reads, `manifest/list` and `image/list`
  -- send those manifests and no others, each once, in the order of their urls, below the header and
  -- without or with their blobs; if there are none, they say so.
  pub lists-IsPage :
      (compile : Str → Option (Str → Bool)) (pattern : Str) (digest : Option Str) (n : ℕ)
      (c : Cache)
      → Compile compile (split pattern b',')
      → Fits size mf_header (manifest_entry env true) (selected compile pattern n c)
      → n < fuel
      → IsPage env false
          (selected compile pattern n c)
          (body env size fuel (cmd_manifestlist env compile (some pattern) (some (pos n)) c))
        × IsPage env true
            (selected compile pattern n c)
            (body env size fuel (cmd_imagelist env compile (some pattern) digest (some (pos n)) c))
  lists-IsPage compile pattern digest n c parts f h =
      let l = selected compile pattern n c in
      let lt : length l < fuel =
        omega (arith, take_le n (own_and_passing _ (c.manifests ++ c.latest)), h) in
      (
        rw (cmd_manifestlist_lem compile env pattern n c parts)
            (manifests-IsPage l (Fits-weaken env size l f) lt),
        rw (cmd_imagelist_lem compile env pattern digest n c parts) (images-IsPage l f lt),
      )
