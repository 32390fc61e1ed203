-- ===== src/Preload/Examples.antt =====
-- A concrete upstream and file system for the preload.
use ociregistry.Base.{
  ◌≡◌, refl, true, false, none, some, [], ◌∷◌, Str, lit, is_empty, has_prefix, contains_byte, cut,
  split, to_lower, str_eq, lookup, arith, ok,
}
use ociregistry.Config.Upstreams.{Machine}
use ociregistry.Imgpull.{ManifestHolder, Env, written}
use ociregistry.PullRequest.{
  PullRequest, by_tag, new_pull_request_from_url, split_reference, type_from_ref,
}
use ociregistry.Serialize.{Files, sub_dir}
use ociregistry.Serialize.Digest.{get_digest_from}
use ociregistry.Preload.{Host, Client, Settings}
use ociregistry.Preload.Repeating.Directories.{Whole}

abbrev pub disk : Env
disk = record {
  layers = λ mh. [];
  is_image_manifest = λ mh. true;
  is_latest_manifest = λ mh. some false;
  image_manifest_digests = λ mh. [];
  marshal_fails = λ mh. false;
  unmarshalled = λ mh. some mh;
  added_visited = λ entries. [];
  write_outcome = λ l d. written;
  remove_fails = λ d. false;
  directory_size = 4096;
}

abbrev pub image : Str → ManifestHolder
image d = record {
  image_url = lit "quay.io/x:v1";
  digest = get_digest_from d;
  created = [];
  pulled = [];
  bytes = b'{' ∷ b'}' ∷ [];
}

abbrev pub digest : Str
digest = lit "sha256:1111111111111111111111111111111111111111111111111111111111111111"

abbrev pub upstream : Client
upstream = record {
  accepts = λ opts. true;
  head_manifest = λ opts. some (record { digest = digest; is_image_manifest = true });
  get_manifest = λ opts. some (image digest);
  get_manifest_by_digest = λ opts d. some (image d);
  pull_blobs = λ opts mh blobs. (blobs, true);
  is_manifest_list = λ mh. false;
  image_digest_for = λ mh os arch. none;
}

abbrev pub machine : Machine
machine = record {
  goos = lit "linux";
  goarch = lit "amd64";
  getenv = λ name. [];
  read_file = λ path. none;
  load_key_pair = λ cert key. none;
}

abbrev pub settings : Settings
settings = record { registries = []; os = lit "linux"; arch = lit "amd64" }

abbrev pub host : Host
host = record { open_file = λ path. some (lit "quay.io/x:v1"); glob = λ path. some (path ∷ []) }

abbrev pub empty : Files
empty = record { lts = []; img = []; blobs = [] }

abbrev pub v1 : PullRequest
v1 = record {
  pull_type = by_tag;
  repository = lit "x";
  reference = lit "v1";
  remote = lit "quay.io";
}

pub v1-parsed : new_pull_request_from_url (lit "quay.io/x:v1") ≡ ok v1
unfolding new_pull_request_from_url split_reference contains_byte split is_empty to_lower
    type_from_ref has_prefix str_eq cut
v1-parsed = refl

pub empty-Whole : Whole empty
unfolding sub_dir lookup
empty-Whole name true h = ground (arith, h)
empty-Whole name false h = ground (arith, h)
