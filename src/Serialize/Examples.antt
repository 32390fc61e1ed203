-- ===== src/Serialize/Examples.antt =====
-- The theorem about writing and reading at a concrete manifest, over a file that does not read.
use ociregistry.Base.{ℕ, zero, suc, ◌≡◌, refl, true, false, none, some, [], ◌∷◌, ◌++◌, Str, lit}
use ociregistry.Imgpull.{ManifestHolder, Env, written}
use ociregistry.Serialize.Digest.{IsDigest, hex_run, is_hex}
use ociregistry.Serialize.WriteRead.{read-write}
use ociregistry.Serialize.{
  Files, unreadable, mh_from_filesystem, mh_to_filesystem, rm_manifest_file,
}

abbrev repeat_c : ℕ → Str
repeat_c zero = []
repeat_c (suc n) = b'c' ∷ repeat_c n

abbrev disk : Env
disk = record {
  layers = λ mh. [];
  is_image_manifest = λ mh. true;
  is_latest_manifest = λ mh. some false;
  image_manifest_digests = λ mh. [];
  marshal_fails = λ mh. false;
  unmarshalled = λ mh. some mh;
  added_visited = λ entries. [];
  write_outcome = λ l d. written;
  remove_fails = λ d. false;
  directory_size = 4096;
}

abbrev calico : ManifestHolder
calico = record {
  image_url = lit "docker.io/calico/node:v3.23.0";
  digest = repeat_c 64;
  created = lit "2025-01-01T00:00:00";
  pulled = lit "2025-01-01T00:00:00";
  bytes = [];
}

abbrev before : Files
before = record { lts = []; img = (calico.digest, unreadable) ∷ []; blobs = [] }

calico-IsDigest : IsDigest calico.digest
unfolding hex_run is_hex
calico-IsDigest = record { hex = refl; size = refl }

read-write_example :
    (mh_from_filesystem
        (lit "sha256:" ++ calico.digest)
        false
        (mh_to_filesystem disk calico true before).0
      ≡ some calico)
    × (mh_from_filesystem
          (lit "sha256:" ++ calico.digest)
          false
          (rm_manifest_file disk calico (mh_to_filesystem disk calico true before).0).0
        ≡ none)
read-write_example =
    read-write disk calico false (lit "sha256:") before calico-IsDigest refl refl refl refl refl
