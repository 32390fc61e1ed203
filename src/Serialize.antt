-- ===== src/Serialize.antt =====
-- impl/serialize/serialize.go, impl/helpers/helpers.go, impl/globals/globals.go: manifests and blobs on
-- the file system under the image path.
pub mod Digest
pub mod WriteRead
mod Examples
use ociregistry.Base.{
  ℕ, Bool, true, false, ◌&&◌, not, Option, none, some, List, map, [], ◌∷◌, ◌++◌, Str, is_empty, Map,
  lookup, insert, delete, if◌then◌else◌, Result, ok, err,
}
use ociregistry.Imgpull.{ManifestHolder, Env, written, refused, torn}
use Digest.{get_digest_from}

-- A file in a manifest directory, by what json.Unmarshal makes of it: a manifest, or an error.
pub data File : Type 0 where
  manifest : ManifestHolder → File
  unreadable : File

-- The directories lts, img and blobs. A blob is kept as its size.
pub record Files : Type 0 where
  pub lts : Map File
  pub img : Map File
  pub blobs : Map ℕ

pub data FsError : Type 0 where
  bad_url not_marshalled not_written not_removed not_read bad_date : FsError

-- subDirs
unfoldable pub sub_dir : Bool → Files → Map File
sub_dir true fs = fs.lts
sub_dir false fs = fs.img

unfoldable pub with_sub_dir : Bool → Map File → Files → Files
with_sub_dir true m fs = record fs { lts = m }
with_sub_dir false m fs = record fs { img = m }

-- MhFromFilesystem
unfoldable pub mh_from_filesystem : Str → Bool → Files → Option ManifestHolder
mh_from_filesystem digest is_latest fs =
    elim (lookup (get_digest_from digest) (sub_dir is_latest fs)) [
      | some (manifest mh) ↦ some mh
      | some unreadable ↦ none
      | none ↦ none
    ]

-- BlobExists. The empty digest names the directory of the blobs, which exists.
module _ (env : Env) where
  unfoldable pub blob_size? : Str → Files → Option ℕ
  blob_size? digest fs = if is_empty digest then some env.directory_size else lookup digest fs.blobs

  unfoldable pub blob_exists : Str → Files → Bool
  blob_exists digest fs = elim (blob_size? digest fs) [ some n ↦ true | none ↦ false ]

  -- The file with the JSON of a manifest.
  abbrev pub json_file : ManifestHolder → File
  json_file mh = elim (env.unmarshalled mh) [ some mh' ↦ manifest mh' | none ↦ unreadable ]

  -- The write of MhToFilesystem, once the subdirectory is known.
  unfoldable pub write_manifest : ManifestHolder → Bool → Files → Files × Result FsError (Unit {0})
  write_manifest mh is_latest fs =
      if env.marshal_fails mh
      then (fs, err not_marshalled)
      else elim (env.write_outcome is_latest mh.digest) [
        | written ↦ (
          with_sub_dir is_latest (insert mh.digest (json_file mh) (sub_dir is_latest fs)) fs,
          ok tt,
        )
        | refused ↦ (fs, err not_written)
        | torn ↦ (
          with_sub_dir is_latest (insert mh.digest unreadable (sub_dir is_latest fs)) fs,
          err not_written,
        )
      ]

  abbrev exists {ℓ} : {A : Type ℓ} → Option A → Bool
  exists none = false
  exists (some a) = true

  -- MhToFilesystem
  unfoldable pub mh_to_filesystem :
      ManifestHolder → Bool → Files → Files × Result FsError (Unit {0})
  mh_to_filesystem mh replace fs = elim (env.is_latest_manifest mh) [
    | none ↦ (fs, err bad_url)
    | some is_latest ↦
        if exists (lookup mh.digest (sub_dir is_latest fs)) && not replace
        then (fs, ok tt)
        else write_manifest mh is_latest fs
  ]

  -- RmBlob. Removing the directory of the blobs, which the empty digest names, fails while a blob is left.
  unfoldable pub rm_blob_file : Str → Files → Files × Result FsError (Unit {0})
  rm_blob_file digest fs =
      if is_empty digest then (fs, err not_removed) else elim (lookup digest fs.blobs) [
        | none ↦ (fs, ok tt)
        | some size ↦
            if env.remove_fails digest
            then (fs, err not_removed)
            else (record fs { blobs = delete digest fs.blobs }, ok tt)
      ]

  -- RmManifest
  unfoldable pub rm_manifest_file : ManifestHolder → Files → Files × Result FsError (Unit {0})
  rm_manifest_file mh fs = elim (env.is_latest_manifest mh) [
    | none ↦ (fs, err bad_url)
    | some is_latest ↦ elim (lookup mh.digest (sub_dir is_latest fs)) [
      | none ↦ (fs, ok tt)
      | some f ↦
          if env.remove_fails mh.digest
          then (fs, err not_removed)
          else (with_sub_dir is_latest (delete mh.digest (sub_dir is_latest fs)) fs, ok tt)
    ]
  ]

-- WalkTheCache: the handler sees the manifests of lts, then those of img, up to the first file that
-- does not read or the first error of the handler.
module _ {S : Type 0} (handler : ManifestHolder → S → S × Result FsError (Unit {0})) where
  unfoldable pub walk_files : Map File → S → S × Result FsError (Unit {0})
  walk_files [] s = (s, ok tt)
  walk_files ((name, unreadable) ∷ files) s = (s, err not_read)
  walk_files ((name, manifest mh) ∷ files) s =
      let (s', r) = handler mh s in elim r [ ok _ ↦ walk_files files s' | err e ↦ (s', err e) ]

  unfoldable pub walk_the_cache : Files → S → S × Result FsError (Unit {0})
  walk_the_cache fs s =
      let (s', r) = walk_files fs.lts s in
      elim r [ ok _ ↦ walk_files fs.img s' | err e ↦ (s', err e) ]

-- GetAllBlobs
unfoldable pub get_all_blobs : Files → Map ℕ
get_all_blobs fs = map (λ entry. (entry.0, 0)) fs.blobs
