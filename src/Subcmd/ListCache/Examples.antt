-- ===== src/Subcmd/ListCache/Examples.antt =====
-- The theorems about the list of the files at concrete inputs.
use ociregistry.Base.{
  ◌≡◌, refl, Bool, true, false, Option, some, map, [], ◌∷◌, ◌++◌, Str, lit, contains, split, ok,
}
use ociregistry.Config.{ListConfig}
use ociregistry.Imgpull.{ManifestHolder, Env, written}
use ociregistry.Patterns.{matches_some}
use ociregistry.Serialize.{manifest, Files}
use ociregistry.Subcmd.ListCache.{row, list_cache}
use ociregistry.Subcmd.ListCache.Rows.{matching, list_cache_lem}

abbrev disk : Env
disk = record {
  layers = λ mh. [];
  is_image_manifest = λ mh. true;
  is_latest_manifest = λ mh. some false;
  image_manifest_digests = λ mh. [];
  marshal_fails = λ mh. false;
  unmarshalled = λ mh. some mh;
  added_visited = λ entries. [];
  write_outcome = λ l d. written;
  remove_fails = λ d. false;
  directory_size = 4096;
}

abbrev mh : ManifestHolder
mh = record {
  image_url = lit "docker.io/coredns/coredns:1.11.1";
  digest = lit "1";
  created = lit "2025-01-01T00:00:00";
  pulled = [];
  bytes = [];
}

abbrev cfg : ListConfig
cfg = record { header = true; expr = lit "cilium,coredns"; short_digest = true }

abbrev files : Files
files = record { lts = []; img = (lit "1", manifest mh) ∷ []; blobs = [] }

abbrev substring : Str → Option (Str → Bool)
substring ref = some λ url. contains url ref

list_cache_lem_example :
    list_cache disk cfg substring files
    ≡ ok (
        map (row disk cfg) (matching (matches_some substring (split cfg.expr b',')) files.lts)
        ++ map (row disk cfg) (matching (matches_some substring (split cfg.expr b',')) files.img))
unfolding split
list_cache_lem_example = list_cache_lem disk cfg substring files ((_, refl), ((_, refl), tt)) tt tt
