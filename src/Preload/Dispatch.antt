-- ===== src/Preload/Dispatch.antt =====
-- impl/preload/load.go and impl/preload/tarball.go: the files that Load works on, and the load of a
-- tarball. `now` is globals.CurTime(). The magic of a tar header stands at its byte 257.
use ociregistry.Base.{
  ℕ, suc, Bool, ◌||◌, Option, none, some, List, [], ◌∷◌, ◌++◌, Str, lit, str_eq, is_empty,
  has_prefix, take, drop, split, trim_space, ◌==◌, if◌then◌else◌, Result, ok, err, ◌>>=◌,
}
use ociregistry.Auth.{Providers}
use ociregistry.Config.Upstreams.{Machine}
use ociregistry.Imgpull.{ManifestHolder, Env}
use ociregistry.PullRequest.{new_pull_request_from_url, is_latest}
use ociregistry.Serialize.{Files, mh_from_filesystem}
use ociregistry.Preload.{
  Host, Client, Tarball, PreloadError, unable_to_parse, no_match, bad_glob, not_opened, bad_tarball,
  resolve_ref_for, Settings, Loaded, then_load, save_image, save_manifest, load_from_list_file,
}

-- The loop of chkResolveRef.
unfoldable pub count_manifests : List (Option ManifestHolder) → ℕ → Result PreloadError ℕ
count_manifests [] n = ok n
count_manifests (none ∷ mhs) n = err bad_tarball
count_manifests (some mh ∷ mhs) n = count_manifests mhs (suc n)

-- chkResolveRef
unfoldable pub chk_resolve_ref : Tarball → Str → Result PreloadError (Unit {0})
chk_resolve_ref itb resolve_ref =
    if is_empty resolve_ref
    then ok tt
    else (count_manifests itb.manifests 0 >>= λ n.
        if n == 1 then ok tt else err (resolve_ref_for n))

-- The manifest under the url that was asked for.
abbrev pub resolved : Str → ManifestHolder → ManifestHolder
resolved resolve_ref mh = if is_empty resolve_ref then mh else record mh { image_url = resolve_ref }

module _ (env : Env) where
  -- A manifest of LoadTarball.
  unfoldable pub load_manifest : Str → Tarball → ManifestHolder → Files → Loaded (Unit {0})
  load_manifest now itb mh files = elim (new_pull_request_from_url mh.image_url) [
    | err _ ↦ (files, err (unable_to_parse mh.image_url))
    | ok pr ↦ elim (mh_from_filesystem mh.digest (is_latest pr) files) [
      | some _ ↦ (files, ok tt)
      | none ↦
          let dated = record mh { created = now } in
          then_load (save_manifest env dated files) λ _. save_image env itb.save_blobs dated
    ]
  ]

  -- The loop of LoadTarball.
  unfoldable pub load_manifests :
      Str → Str → Tarball → List (Option ManifestHolder) → Files → Loaded (Unit {0})
  load_manifests now resolve_ref itb [] files = (files, ok tt)
  load_manifests now resolve_ref itb (none ∷ mhs) files = (files, err bad_tarball)
  load_manifests now resolve_ref itb (some mh ∷ mhs) files =
      then_load (load_manifest now itb (resolved resolve_ref mh) files)
        λ _. load_manifests now resolve_ref itb mhs

  -- LoadTarball, with what OpenImageTarBall gives
  unfoldable pub load_tarball : Str → Str → Option Tarball → Files → Loaded (Unit {0})
  load_tarball now resolve_ref none files = (files, err bad_tarball)
  load_tarball now resolve_ref (some itb) files = elim (chk_resolve_ref itb resolve_ref) [
    | err e ↦ (files, err e)
    | ok _ ↦ load_manifests now resolve_ref itb itb.manifests files
  ]

module _ (host : Host) where
  -- The loop of expandPaths.
  unfoldable pub expand_segments : List Str → Result PreloadError (List Str)
  expand_segments [] = ok []
  expand_segments (s ∷ segments) =
      let segment = trim_space s in
      let rest = expand_segments segments in
      if is_empty segment then rest else elim (host.glob segment) [
        | none ↦ err (bad_glob segment)
        | some [] ↦ err (no_match segment)
        | some (p ∷ ps) ↦ rest >>= λ out. ok ((p ∷ ps) ++ out)
      ]

  -- expandPaths
  unfoldable pub expand_paths : Str → Result PreloadError (List Str)
  expand_paths path = expand_segments (split path b',')

  -- looksLikeTar
  unfoldable pub looks_like_tar : Str → Result PreloadError Bool
  looks_like_tar path = elim (host.open_file path) [
    | none ↦ err (not_opened path)
    | some content ↦
        ok (has_prefix content (31 ∷ 139 ∷ []) || str_eq (take 5 (drop 257 content)) (lit "ustar"))
  ]

  module _ (env : Env) (client : Client) (m : Machine) (ps : Providers) (settings : Settings)
      (open_tarball : Str → Option Tarball) (now : Str) where
    -- A file of Load.
    unfoldable pub load_file : Str → Str → Files → Loaded (Unit {0})
    load_file resolve_ref p files = elim (looks_like_tar p) [
      | err e ↦ (files, err e)
      | ok is_tar ↦
          if is_tar
          then load_tarball env now resolve_ref (open_tarball p) files
          else then_load (load_from_list_file env client m ps settings host p files)
              λ _ files'. (files', ok tt)
    ]

    -- The loop of Load.
    unfoldable pub load_files : Str → List Str → Files → Loaded (Unit {0})
    load_files resolve_ref [] files = (files, ok tt)
    load_files resolve_ref (p ∷ paths) files =
        then_load (load_file resolve_ref p files) λ _. load_files resolve_ref paths

    -- Load
    unfoldable pub load_paths : Str → Str → Files → Loaded (Unit {0})
    load_paths path resolve_ref files = elim (expand_paths path) [
      | err e ↦ (files, err e)
      | ok paths ↦ load_files resolve_ref paths files
    ]
