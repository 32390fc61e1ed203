-- ===== src/Subcmd/Serve/Examples.antt =====
-- The theorem about the start of the server at a concrete configuration.
use ociregistry.Base.{
  ◌≡◌, refl, true, false, none, some, [], ◌∷◌, lit, is_empty, has_prefix, contains_byte, cut, split,
  to_lower, trim_right, trim_space, str_eq, ok, err,
}
use ociregistry.Auth.{not_initialized, to_provider, ecr_provider}
use ociregistry.Cmdline.Examples.{parsed}
use ociregistry.Config.{Configuration}
use ociregistry.Config.UpstreamExamples.{machine, clock, ecr_entry, quay_entry, first_token, takes}
use ociregistry.Config.Upstreams.{no_token}
use ociregistry.Preload.{Host, config_error}
use ociregistry.Preload.Dispatch.{expand_segments, expand_paths, looks_like_tar}
use ociregistry.Preload.Examples.{disk, upstream, empty}
use ociregistry.PullRequest.{
  PullRequest, by_tag, new_pull_request_from_url, split_reference, type_from_ref,
}
use ociregistry.Subcmd.Serve.{World, preloading, serve}
use ociregistry.Subcmd.Serve.Order.{serve-no_token}

abbrev one_list : Host
one_list = record {
  open_file = λ path. some (lit "123.ecr.aws/x:v1");
  glob = λ path. some (path ∷ []);
}

abbrev pub world : World
world = record {
  env = disk;
  host = one_list;
  client = upstream;
  machine = machine;
  clock = clock;
  aws = first_token;
  appends = λ pem. false;
  compile = λ ref. none;
  open_tarball = λ path. none;
  current_time = [];
}

abbrev cfg : Configuration
cfg = record parsed { preload_images = lit "images.txt"; registries = quay_entry ∷ ecr_entry ∷ [] }

abbrev x_v1 : PullRequest
x_v1 = record {
  pull_type = by_tag;
  repository = lit "x";
  reference = lit "v1";
  remote = lit "123.ecr.aws";
}

others : str_eq quay_entry.name x_v1.remote ≡ false
unfolding str_eq
others = refl

named : str_eq ecr_entry.name x_v1.remote ≡ true
unfolding str_eq
named = refl

known : to_provider ecr_entry.auth.token.provider ≡ ok ecr_provider
unfolding to_provider to_lower str_eq
known = refl

given : is_empty cfg.preload_images ≡ false
unfolding is_empty
given = refl

expanded : expand_paths one_list cfg.preload_images ≡ ok (lit "images.txt" ∷ [])
unfolding expand_paths expand_segments split is_empty trim_right
expanded = refl

plain : looks_like_tar one_list (lit "images.txt") ≡ ok false
unfolding looks_like_tar has_prefix str_eq
plain = refl

first : split (lit "123.ecr.aws/x:v1") 10 ≡ lit "123.ecr.aws/x:v1" ∷ []
unfolding split
first = refl

no_blank : is_empty (trim_space (lit "123.ecr.aws/x:v1")) ≡ false
unfolding is_empty trim_right
no_blank = refl

no_comment : has_prefix (trim_space (lit "123.ecr.aws/x:v1")) (lit "#") ≡ false
unfolding has_prefix is_empty trim_right
no_comment = refl

request : new_pull_request_from_url (trim_space (lit "123.ecr.aws/x:v1")) ≡ ok x_v1
unfolding new_pull_request_from_url split_reference contains_byte split is_empty to_lower
    type_from_ref has_prefix str_eq cut trim_right
request = refl

serve-no_token_example : serve world cfg empty ≡ (
  empty,
  err (preloading (config_error (no_token (lit "123.ecr.aws") (not_initialized (lit "ECR"))))),
)
serve-no_token_example =
    serve-no_token world cfg (quay_entry ∷ []) [] ecr_entry x_v1 refl (others, tt) named takes known
      (lit "images.txt") (lit "123.ecr.aws/x:v1") (lit "123.ecr.aws/x:v1") [] [] given expanded
      plain refl first no_blank no_comment request empty
