-- ===== src/Cache/Counts.antt =====
-- addBlobsToCache of impl/cache/cache.go: what its loop over the layers of a manifest does to the counts.
use ociregistry.Base.{
  ℕ, zero, suc, ◌+◌, ◌≡◌, refl, ap, ◌∙◌, inl, inr, Bool-cases, true, false, Option, none, some,
  List, [], ◌∷◌, arith, Str, str_eq, str_eq_iff, is_empty, Map, lookup, insert, lookup-insert, All,
  if◌then◌else◌, ok,
}
use ociregistry.Base.Int.{ℤ, pos, inc}
use ociregistry.Imgpull.{Layer, Env}
use ociregistry.Serialize.{Files, blob_exists}
use ociregistry.Serialize.Digest.{get_digest_from}
use ociregistry.Cache.{Cache, ref_count, add_layers}

-- How many of the layers have this digest.
unfoldable pub occurrences : Str → List Layer → ℕ
occurrences d [] = 0
occurrences d (layer ∷ layers) =
    (if str_eq (get_digest_from layer.digest) d then 1 else 0) + occurrences d layers

-- The entry of a count: none where nothing refers to the blob.
abbrev pub entry : ℕ → Option ℤ
entry zero = none
entry (suc n) = some (pos (suc n))

abbrev pub Counts : (Str → ℕ) → Map ℤ → Type 0
Counts g blobs = (d : Str) → lookup d blobs ≡ entry (g d)

-- Every layer has its blob on the file system.
abbrev pub HaveBlobs : Env → List Layer → Files → Type 0
HaveBlobs env layers files =
    All (λ layer. blob_exists env (get_digest_from layer.digest) files ≡ true) layers

-- The file system lets go of the blob of every layer.
abbrev pub AreRemovable : Env → List Layer → Type 0
AreRemovable env layers =
    All
      (λ layer.
        (is_empty (get_digest_from layer.digest) ≡ false)
        × (env.remove_fails (get_digest_from layer.digest) ≡ false))
      layers

pub ref_count-entry :
    (d : Str) (n : ℕ) (c : Cache) → lookup d c.blobs ≡ entry n → ref_count d c ≡ pos n
unfolding ref_count
ref_count-entry d zero c h = rw (h, ref_count)
ref_count-entry d (suc n) c h = rw (h, ref_count)

-- One more reference.
bump-Counts :
    (d : Str) (g : Str → ℕ) (c : Cache)
    → Counts g c.blobs
    → Counts (λ j. (if str_eq d j then 1 else 0) + g j) (insert d (inc (ref_count d c)) c.blobs)
unfolding inc
bump-Counts d g c h j =
    rw (ref_count-entry d (g d) c (h d), lookup-insert)
      (elim (Bool-cases (str_eq d j)) [
        | inl e ↦ rw e (ground (arith, ap g ((str_eq_iff d j).0 e)))
        | inr e ↦ rw e (h j ∙ ap entry (omega arith))
      ])

-- Counting the layers of a manifest succeeds where the blobs are there, and adds one for each.
pub add_layers_lem :
    (env : Env) (layers : List Layer) (g : Str → ℕ) (c : Cache)
    → Counts g c.blobs
    → HaveBlobs env layers c.files
    → ((add_layers env layers c).1 ≡ ok tt)
      × Counts (λ d. occurrences d layers + g d) (add_layers env layers c).0.blobs
      × ((add_layers env layers c).0.manifests ≡ c.manifests)
      × ((add_layers env layers c).0.latest ≡ c.latest)
      × ((add_layers env layers c).0.files ≡ c.files)
unfolding add_layers occurrences
add_layers_lem env [] g c h b = (refl, (λ d. h d ∙ ap entry (omega arith)), refl, refl, refl)
add_layers_lem env (layer ∷ layers) g c h b =
    let d = get_digest_from layer.digest in
    let c' = record c { blobs = insert d (inc (ref_count d c)) c.blobs } in
    let (r, counts, ms, ls, fs) = add_layers_lem env layers _ c' (bump-Counts d g c h) b.1 in
    rw b.0 (r, (λ j. counts j ∙ ap entry (omega arith)), ms, ls, fs)
