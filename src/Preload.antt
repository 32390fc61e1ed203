-- ===== src/Preload.antt =====
-- impl/preload/load.go, impl/preload/preload.go and impl/preload/tarball.go: the load of image lists and
-- tarballs onto the file system. What the host's files and globs are is the parameter Host; what package
-- imgpull does with an upstream and with a tarball are Client and Tarball. A list file has no line
-- of 64 KiB or more, at which its scanner would end.
pub mod Repeating
pub mod Dispatch
pub mod ListFiles
pub mod Examples
mod MixedExamples
use ociregistry.Base.{
  ℕ, suc, ◌+◌, Bool, true, false, Option, none, some, List, [], ◌∷◌, ◌++◌, Map, Str, lit, str_eq,
  is_empty, has_prefix, take, drop, split, trim_space, ◌==◌, if◌then◌else◌, Result, ok, err,
}
use ociregistry.Auth.{Providers}
use ociregistry.Config.{RegistryConfig}
use ociregistry.Config.Upstreams.{Machine, ConfigError, config_for}
use ociregistry.Imgpull.{ManifestHolder, PullerOpts, Env}
use ociregistry.PullRequest.{
  PullRequest, is_by_tag, PullError, new_pull_request_from_url, url, url_with_digest, is_latest,
}
use ociregistry.Serialize.{Files, FsError, mh_from_filesystem, mh_to_filesystem}

pub record Host : Type 0 where
  -- a file's content; filepath.Glob
  pub open_file : Str → Option Str
  pub glob : Str → Option (List Str)

-- HeadManifest
pub record Descriptor : Type 0 where
  pub digest : Str
  pub is_image_manifest : Bool

-- A puller is kept as its options: SetUrl sets their url.
pub record Client : Type 0 where
  pub accepts : PullerOpts → Bool
  pub head_manifest : PullerOpts → Option Descriptor
  pub get_manifest : PullerOpts → Option ManifestHolder
  pub get_manifest_by_digest : PullerOpts → Str → Option ManifestHolder
  pub pull_blobs : PullerOpts → ManifestHolder → Map ℕ → Map ℕ × Bool
  pub is_manifest_list : ManifestHolder → Bool
  pub image_digest_for : ManifestHolder → Str → Str → Option Str

-- What OpenImageTarBall opens; `none` is an error of TarManifestReader.
pub record Tarball : Type 0 where
  pub manifests : List (Option ManifestHolder)
  pub save_blobs : ManifestHolder → Map ℕ → Map ℕ × Bool

pub data PreloadError : Type 0 where
  unable_to_parse no_match bad_glob not_opened : Str → PreloadError
  config_error : ConfigError → PreloadError
  fs_error : FsError → PreloadError
  puller_refused no_head no_manifest no_blobs no_image_digest bad_tarball : PreloadError
  resolve_ref_for : ℕ → PreloadError

-- The settings that a load reads.
pub record Settings : Type 0 where
  pub registries : List RegistryConfig
  pub os : Str
  pub arch : Str

-- A manifest, and how many were pulled for it; or an error. The files are the image path's.
abbrev pub Loaded : Type 0 → Type 0
Loaded A = Files × Result PreloadError A

-- What follows where there was no error.
abbrev pub then_load : {A B : Type 0} → Loaded A → (A → Files → Loaded B) → Loaded B
then_load (files, err e) k = (files, err e)
then_load (files, ok a) k = k a files

module _ (env : Env) where
  -- The blobs of an image.
  unfoldable pub save_image :
      (ManifestHolder → Map ℕ → Map ℕ × Bool) → ManifestHolder → Files → Loaded (Unit {0})
  save_image pull mh files =
      let (blobs, pulled) = pull mh files.blobs in
      if env.is_image_manifest mh
      then (record files { blobs = blobs }, if pulled then ok tt else err no_blobs)
      else (files, ok tt)

  -- MhToFilesystem, with the error in the type of this module.
  abbrev pub save_manifest : ManifestHolder → Files → Loaded (Unit {0})
  save_manifest mh files =
      let (files', r) = mh_to_filesystem env mh false files in
      (files', elim r [ ok _ ↦ ok tt | err e ↦ err (fs_error e) ])

  module _ (client : Client) where
    -- The part of getFromCacheOrRemote that pulls.
    unfoldable pub pull_and_save :
        PullerOpts → Option ManifestHolder → Files → Loaded (ManifestHolder × ℕ)
    pull_and_save opts none files = (files, err no_manifest)
    pull_and_save opts (some mh) files = then_load (save_manifest mh files) λ _ files'.
        then_load (save_image (client.pull_blobs opts) mh files') λ _ files''. (files'', ok (mh, 1))

    -- getFromCacheOrRemote
    unfoldable pub get_from_cache_or_remote :
        PullerOpts → Str → Bool → Bool → Files → Loaded (ManifestHolder × ℕ)
    get_from_cache_or_remote opts digest latest is_image files =
        elim (mh_from_filesystem digest latest files) [
          | some mh ↦ (files, ok (mh, 0))
          | none ↦
              pull_and_save opts
                (if is_image
                  then client.get_manifest_by_digest opts digest
                  else client.get_manifest opts)
                files
        ]

    -- doPull, once its first manifest is there: the image of an image list.
    unfoldable pub pull_image_of :
        Settings → PullRequest → PullerOpts → ManifestHolder × ℕ → Files → Loaded ℕ
    pull_image_of settings pr opts (mh, cnt) files =
        if client.is_manifest_list mh
        then elim (client.image_digest_for mh settings.os settings.arch) [
          | none ↦ (files, err no_image_digest)
          | some digest ↦
              let image_opts =
                if is_by_tag pr.pull_type
                then opts
                else record opts { url = url_with_digest pr digest } in
              then_load (get_from_cache_or_remote image_opts digest (is_latest pr) true files)
                λ got files'. (files', ok (cnt + got.1))
        ]
        else (files, ok cnt)

    -- doPull, with a puller
    unfoldable pub pull_with : Settings → PullRequest → PullerOpts → Files → Loaded ℕ
    pull_with settings pr opts files =
        if client.accepts opts
        then elim (client.head_manifest opts) [
          | none ↦ (files, err no_head)
          | some md ↦
              then_load
                (get_from_cache_or_remote opts md.digest (is_latest pr) md.is_image_manifest files)
                (pull_image_of settings pr opts)
        ]
        else (files, err puller_refused)

    module _ (m : Machine) (ps : Providers) (settings : Settings) where
      -- doPull
      unfoldable pub do_pull : Str → Files → Loaded ℕ
      do_pull image_url files = elim (new_pull_request_from_url image_url) [
        | err _ ↦ (files, err (unable_to_parse image_url))
        | ok pr ↦ elim (config_for m ps settings.registries pr.remote) [
          | err e ↦ (files, err (config_error e))
          | ok opts ↦
              pull_with settings pr
                (record opts { url = url pr; os_type = settings.os; arch_type = settings.arch })
                files
        ]
      ]

      -- The loop of LoadFromListFile, with the count of the items loaded so far.
      unfoldable pub load_lines : List Str → ℕ → Files → Loaded ℕ
      load_lines [] itemcnt files = (files, ok itemcnt)
      load_lines (line ∷ lines) itemcnt files =
          let image_url = trim_space line in
          let skipped = load_lines lines itemcnt files in
          if is_empty image_url
          then skipped
          else if has_prefix image_url (lit "#")
          then skipped
          else then_load (do_pull image_url files) λ cnt. load_lines lines (itemcnt + cnt)

      -- LoadFromListFile
      unfoldable pub load_from_list_file : Host → Str → Files → Loaded ℕ
      load_from_list_file host image_list_file files = elim (host.open_file image_list_file) [
        | none ↦ (files, err (not_opened image_list_file))
        | some content ↦ load_lines (split content 10) 0 files
      ]
