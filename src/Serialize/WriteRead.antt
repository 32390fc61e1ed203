-- ===== src/Serialize/WriteRead.antt =====
-- MhToFilesystem, MhFromFilesystem and RmManifest of impl/serialize/serialize.go, one after another.
use ociregistry.Base.{
  ◌≡◌, Map, delete, Bool, true, false, none, some, ◌++◌, arith, Str, str_eq_refl, lookup, insert,
  lookup-insert, lookup-delete,
}
use ociregistry.Imgpull.{ManifestHolder, Env, written}
use ociregistry.Serialize.Digest.{IsDigest, get_digest_from-append}
use ociregistry.Serialize.{
  File, manifest, Files, sub_dir, with_sub_dir, mh_from_filesystem, write_manifest,
  mh_to_filesystem, rm_manifest_file,
}

sub_dir-with_sub_dir : (l : Bool) (m : Map File) (fs : Files) → sub_dir l (with_sub_dir l m fs) ≡ m
unfolding sub_dir with_sub_dir
sub_dir-with_sub_dir l m fs = ground arith

after_write :
    (env : Env) (mh : ManifestHolder) (l : Bool) (fs : Files)
    → env.is_latest_manifest mh ≡ some l
    → env.marshal_fails mh ≡ false
    → env.unmarshalled mh ≡ some mh
    → env.write_outcome l mh.digest ≡ written
    → lookup mh.digest (sub_dir l (mh_to_filesystem env mh true fs).0) ≡ some (manifest mh)
unfolding mh_to_filesystem write_manifest
after_write env mh l fs e m u w = ground (
  arith,
  sub_dir-with_sub_dir l (insert mh.digest (manifest mh) (sub_dir l fs)) fs,
  lookup-insert mh.digest mh.digest (manifest mh) (sub_dir l fs),
  str_eq_refl mh.digest,
)

after_removal :
    (env : Env) (mh : ManifestHolder) (l : Bool) (fs : Files)
    → env.is_latest_manifest mh ≡ some l
    → env.remove_fails mh.digest ≡ false
    → lookup mh.digest (sub_dir l (rm_manifest_file env mh fs).0) ≡ none
unfolding rm_manifest_file
after_removal env mh l fs e r = ground (
  arith,
  sub_dir-with_sub_dir l (delete mh.digest (sub_dir l fs)) fs,
  lookup-delete mh.digest mh.digest (sub_dir l fs),
  str_eq_refl mh.digest,
)

-- Let the digest of a manifest be 64 hexadecimal digits, let json.Marshal take the manifest and
-- json.Unmarshal make the same one of the text again, and let its file be writable and removable. Once it is
-- written, the manifest is read back by its digest, with or without a prefix, from the directory of its kind, also where an earlier file stood there; and it
-- is no longer found once it has been removed.
pub read-write :
    (env : Env) (mh : ManifestHolder) (l : Bool) (p : Str) (fs : Files)
    → IsDigest mh.digest
    → env.is_latest_manifest mh ≡ some l
    → env.marshal_fails mh ≡ false
    → env.unmarshalled mh ≡ some mh
    → env.write_outcome l mh.digest ≡ written
    → env.remove_fails mh.digest ≡ false
    → (mh_from_filesystem (p ++ mh.digest) l (mh_to_filesystem env mh true fs).0 ≡ some mh)
      × (mh_from_filesystem
            (p ++ mh.digest)
            l
            (rm_manifest_file env mh (mh_to_filesystem env mh true fs).0).0
          ≡ none)
unfolding mh_from_filesystem
read-write env mh l p fs d e m u w r = (
  ground (arith, get_digest_from-append p mh.digest d, after_write env mh l fs e m u w),
  ground (
    arith,
    get_digest_from-append p mh.digest d,
    after_removal env mh l (mh_to_filesystem env mh true fs).0 e r,
  ),
)
