-- ===== src/Server/Examples.antt =====
-- The theorems about the server at concrete requests.
use ociregistry.Base.{
  is_empty, take, ◌≡◌, refl, Bool, true, false, Option, none, some, [], ◌∷◌, Str, lit, contains,
  has_prefix, str_eq, split, arith, lookup,
}
use ociregistry.Auth.{no_providers}
use ociregistry.Config.UpstreamExamples.{machine}
use ociregistry.Base.Int.{pos}
use ociregistry.Imgpull.{ManifestHolder, Env, written}
use ociregistry.Serialize.{write_manifest, mh_to_filesystem}
use ociregistry.Cache.{Cache}
use ociregistry.Server.{Upstream, OciRegistry, Request, s2, serve}
use ociregistry.Server.AirGapped.{CanWrite, air_gapped_offline}
use ociregistry.Base.Decimal.{format}
use ociregistry.Server.Commands.{body, cmd_manifestlist, cmd_imagelist, cmd_bloblist}
use ociregistry.Server.Commands.BlobPages.{blobs_with, IsBlobPage, cmd_bloblist-IsBlobPage}
use ociregistry.Server.Commands.Pages.{IsPage, lists-IsPage}
use ociregistry.Cache.Readers.{
  blob_line, manifest_entry, manifest_line, layer_lines, shown_url, first_digest, last_digest,
  digest_at,
}
use ociregistry.Cache.Readers.Draining.{Fits, mf_header, blob_header}
use ociregistry.Server.Commands.Selecting.{selected}

abbrev pub disk : Env
disk = record {
  layers = λ mh. [];
  is_image_manifest = λ mh. true;
  is_latest_manifest = λ mh. some (contains mh.image_url (lit ":latest"));
  image_manifest_digests = λ mh. [];
  marshal_fails = λ mh. false;
  unmarshalled = λ mh. some mh;
  added_visited = λ entries. [];
  write_outcome = λ l d. written;
  remove_fails = λ d. false;
  directory_size = 4096;
}

abbrev pub mh : ManifestHolder
mh = record {
  image_url = lit "quay.io/x:v1";
  digest = lit "c";
  created = lit "2025-01-01T00:00:00";
  pulled = lit "2025-01-01T00:00:00";
  bytes = b'{' ∷ b'}' ∷ [];
}

-- One upstream has the manifest, the other has none.
abbrev pub has_it : Upstream
has_it = record {
  machine = machine;
  providers = no_providers;
  registries = [];
  accepts = λ opts. true;
  fetch = λ opts. some mh;
  pull_blobs = λ opts mh files. (files, true);
}

abbrev pub has_nothing : Upstream
has_nothing = record has_it { fetch = λ opts. none }

abbrev pub one : Cache
one = record {
  manifests = (mh.image_url, mh) ∷ [];
  latest = [];
  blobs = [];
  files = record { lts = []; img = []; blobs = [] };
}

abbrev offline : OciRegistry
offline = record { always_pull_latest = false; air_gapped = true; default_ns = [] }

one-CanWrite : CanWrite disk one
unfolding mh_to_filesystem write_manifest lookup
one-CanWrite mh = ground arith

abbrev get_x : Request
get_x = Request.v2_get_manifests_reference (s2 (lit "quay.io") (lit "x")) (lit "v1") none none

air_gapped_offline_example :
    serve disk has_it (lit "now") (λ f. false) false offline get_x one
    ≡ serve disk has_nothing (lit "now") (λ f. false) false offline get_x one
air_gapped_offline_example =
    air_gapped_offline disk has_it has_nothing (lit "now") (λ f. false) false offline get_x one refl
      refl one-CanWrite

-- An expression that is a plain string, as a test for a substring.
abbrev substring : Str → Option (Str → Bool)
substring ref = some λ url. contains url ref

fits : Fits 32768 mf_header (manifest_entry disk true) (selected substring (lit "calico,x") 5 one)
unfolding split contains has_prefix str_eq manifest_entry manifest_line layer_lines shown_url
    first_digest last_digest digest_at
fits = (omega arith, tt)

lists-IsPage_example :
    IsPage disk false (selected substring (lit "calico,x") 5 one) (
      body disk 32768 6
        (cmd_manifestlist disk substring (some (lit "calico,x")) (some (pos 5)) one))
    × IsPage disk true (selected substring (lit "calico,x") 5 one) (
        body disk 32768 6
          (cmd_imagelist disk substring (some (lit "calico,x")) none (some (pos 5)) one))
unfolding split
lists-IsPage_example =
    lists-IsPage disk 32768 6 substring (lit "calico,x") none 5 one ((_, refl), ((_, refl), tt))
      fits (omega arith)

-- Two blobs, of which one has the text.
abbrev two_blobs : Cache
two_blobs = record one { blobs = (lit "ab", pos 1) ∷ (lit "cd", pos 2) ∷ [] }

two_blobs-Fits : Fits 32768 blob_header blob_line (take 5 (blobs_with (lit "c") two_blobs.blobs))
unfolding contains has_prefix is_empty blob_line format
two_blobs-Fits = (omega arith, tt)

cmd_bloblist-IsBlobPage_example :
    IsBlobPage
      (take 5 (blobs_with (lit "c") two_blobs.blobs))
      (body disk 32768 6 (cmd_bloblist disk substring (some (lit "c")) (some (pos 5)) two_blobs))
cmd_bloblist-IsBlobPage_example =
    cmd_bloblist-IsBlobPage disk 32768 6 substring (lit "c") 5 two_blobs two_blobs-Fits
      (omega arith)
