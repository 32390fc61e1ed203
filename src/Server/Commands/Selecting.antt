-- ===== src/Server/Commands/Selecting.antt =====
-- impl/cmd_handlers.go: `manifest/list` its answer before it is sent.
use ociregistry.Base.{ℕ, ◌≡◌, Bool, Option, some, List, ◌++◌, Str, split, take}
use ociregistry.Base.Int.{pos}
use ociregistry.Imgpull.{ManifestHolder, Env}
use ociregistry.Cache.{Cache}
use ociregistry.Cache.Query.Selection.{
  own_and_passing, own_and_passing-same, get_manifests_compare_lem,
}
use ociregistry.Patterns.{any_match, matches_some, Compile, parts_lem}
use ociregistry.Server.Commands.{
  make_comparer, count, Listing, list_or_none, cmd_manifestlist, cmd_imagelist,
}
use ociregistry.Cache.Readers.{new_mf_reader, new_mf_reader_with_blobs}

-- The first `n` cached manifests, not latest ones first, that stand under their own url and whose url
-- matches a part of the pattern.
abbrev pub selected : (Str → Option (Str → Bool)) → Str → ℕ → Cache → List ManifestHolder
selected compile pattern n c = take n (
    own_and_passing (λ mh. matches_some compile (split pattern b',') mh.image_url)
      (c.manifests ++ c.latest))

module _ (compile : Str → Option (Str → Bool)) (env : Env) where
  pub cmd_manifestlist_lem :
      (pattern : Str) (n : ℕ) (c : Cache)
      → Compile compile (split pattern b',')
      → cmd_manifestlist env compile (some pattern) (some (pos n)) c
        ≡ list_or_none (λ mhs. Listing.manifests (new_mf_reader mhs)) (selected compile pattern n c)
  unfolding cmd_manifestlist make_comparer count
  cmd_manifestlist_lem pattern n c h =
      let (srchs, compiled, same) = parts_lem compile (split pattern b',') h in
      cc (
        compiled,
        (get_manifests_compare_lem (any_match srchs) n c).0,
        own_and_passing-same (any_match srchs) _ (c.manifests ++ c.latest) same,
      )

  pub cmd_imagelist_lem :
      (pattern : Str) (digest : Option Str) (n : ℕ) (c : Cache)
      → Compile compile (split pattern b',')
      → cmd_imagelist env compile (some pattern) digest (some (pos n)) c
        ≡ list_or_none
            (λ mhs. Listing.manifests (new_mf_reader_with_blobs mhs))
            (selected compile pattern n c)
  unfolding cmd_imagelist make_comparer count
  cmd_imagelist_lem pattern digest n c h =
      let (srchs, compiled, same) = parts_lem compile (split pattern b',') h in
      cc (
        compiled,
        (get_manifests_compare_lem (any_match srchs) n c).0,
        own_and_passing-same (any_match srchs) _ (c.manifests ++ c.latest) same,
      )
