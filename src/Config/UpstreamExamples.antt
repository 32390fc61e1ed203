-- ===== src/Config/UpstreamExamples.antt =====
-- The theorem about ConfigFor at a concrete configuration.
use ociregistry.Base.{
  ◌≡◌, refl, true, false, none, some, List, [], ◌∷◌, lit, str_eq, is_empty, to_lower, ok,
}
use ociregistry.Base.Int.{pos}
use ociregistry.Auth.{
  Aws, ecr_provider, Providers, no_providers, set_provider, to_provider, parse_ecr_options,
  get_ecr_token, get_token_getter, init, Tick, refresh_all,
}
use ociregistry.Auth.Tokens.{latest}
use ociregistry.Clock.{Clock}
use ociregistry.Config.{RegistryConfig}
use ociregistry.Config.Upstreams.{Machine, is_empty_tls, config_for}
use ociregistry.Config.Upstreams.FirstEntry.{config_for-token}
use ociregistry.Imgpull.{PullerOpts}

abbrev pub machine : Machine
machine = record {
  goos = lit "linux";
  goarch = lit "amd64";
  getenv = λ name. [];
  read_file = λ path. none;
  load_key_pair = λ cert key. none;
}

abbrev pub clock : Clock
clock = record {
  parse_time = λ s. none;
  parse_duration = λ s. some (pos 43200000000000);
  now = pos 7;
}

abbrev pub no_opts : PullerOpts
no_opts = record {
  url = [];
  scheme = [];
  os_type = [];
  arch_type = [];
  username = [];
  password = [];
  token = [];
  tls_cfg = none;
}

abbrev pub ecr_entry : RegistryConfig
ecr_entry = record {
  name = lit "123.ecr.aws";
  description = [];
  auth = record {
    user = [];
    password = [];
    password_from_env = [];
    token = record { provider = lit "ECR"; provider_opts = []; expiry = []; static = [] };
  };
  tls = record { cert = []; key = []; ca = []; insecure_skip_verify = false };
  scheme = [];
  opts = no_opts;
}

abbrev pub quay_entry : RegistryConfig
quay_entry = record ecr_entry { name = lit "quay.io" }

abbrev pub first_token : Aws
first_token opts = some (lit "one")

abbrev initialized : Providers
initialized =
    set_provider ecr_provider
      (record {
        provider_opts = [];
        last_token_get = pos 7;
        token = lit "one";
        expiry = pos 43200000000000;
      })
      no_providers

-- One refresh that fails, and one that does not.
abbrev ticks : List Tick
ticks =
    record { aws = λ opts. none; now = pos 8 }
    ∷ record { aws = λ opts. some (lit "two"); now = pos 9 }
    ∷ []

other : str_eq quay_entry.name (lit "123.ecr.aws") ≡ false
unfolding str_eq
other = refl

named : str_eq ecr_entry.name (lit "123.ecr.aws") ≡ true
unfolding str_eq
named = refl

got : get_ecr_token first_token [] ≡ ok (lit "one")
unfolding get_ecr_token parse_ecr_options is_empty
got = refl

accepted : init clock first_token (lit "ECR") [] [] no_providers ≡ ok initialized
unfolding init to_provider get_token_getter get_ecr_token parse_ecr_options is_empty to_lower str_eq
accepted = refl

pub takes :
    (is_empty ecr_entry.auth.token.provider ≡ false)
    × (is_empty ecr_entry.auth.token.static ≡ true)
    × (is_empty_tls ecr_entry.tls ≡ true)
unfolding is_empty is_empty_tls
takes = (refl, refl, refl)

config_for-token_example :
    (opts : PullerOpts) × (config_for machine
        (refresh_all ecr_provider ticks initialized)
        (quay_entry ∷ ecr_entry ∷ [])
        (lit "123.ecr.aws")
      ≡ ok opts)
    × (opts.token ≡ latest [] ticks (lit "one"))
config_for-token_example =
    config_for-token machine (quay_entry ∷ []) [] (lit "123.ecr.aws") ecr_entry (other, tt) named
      takes clock first_token [] [] (lit "one") no_providers initialized got accepted ticks
