-- ===== src/Config.antt =====
-- impl/config/config.go and impl/config/merge.go, and getCfg of cmd/getconfig.go: the configuration, from the
-- configuration file and the command line.
pub mod Merging
pub mod Upstreams
pub mod ServerTls
pub mod UpstreamExamples
use ociregistry.Base.{
  Bool, true, false, not, ◌&&◌, ◌||◌, Option, none, some, List, Str, is_empty, if◌then◌else◌,
}
use ociregistry.Base.Int.{ℤ, pos, is_zero}
use ociregistry.Imgpull.{PullerOpts}

-- The yaml settings of one upstream registry: its authentication and its TLS files.
pub record TokenAuth : Type 0 where
  pub provider : Str
  pub provider_opts : Str
  pub expiry : Str
  pub static : Str

pub record AuthCfg : Type 0 where
  pub user : Str
  pub password : Str
  pub password_from_env : Str
  pub token : TokenAuth

pub record TlsCfg : Type 0 where
  pub cert : Str
  pub key : Str
  pub ca : Str
  pub insecure_skip_verify : Bool

pub record ServerTlsCfg : Type 0 where
  pub cert : Str
  pub key : Str
  pub ca : Str
  pub client_auth : Str

-- RegistryConfig
pub record RegistryConfig : Type 0 where
  pub name : Str
  pub description : Str
  pub auth : AuthCfg
  pub tls : TlsCfg
  pub scheme : Str
  pub opts : PullerOpts

pub record PruneConfig : Type 0 where
  pub enabled : Bool
  pub duration : Str
  pub prune_type : Str
  pub freq : Str
  pub count : ℤ
  pub expr : Str
  pub dry_run : Bool

pub record ListConfig : Type 0 where
  pub header : Bool
  pub expr : Str
  pub short_digest : Bool

pub record Configuration : Type 0 where
  pub log_level : Str
  pub log_file : Str
  pub config_file : Str
  pub image_path : Str
  pub preload_images : Str
  pub image_file : Str
  pub resolve_ref : Str
  pub port : ℤ
  pub os : Str
  pub arch : Str
  pub pull_timeout : ℤ
  pub health : ℤ
  pub metrics : ℤ
  pub always_pull_latest : Bool
  pub air_gapped : Bool
  pub hello_world : Bool
  pub default_ns : Str
  pub host : Str
  pub registries : List RegistryConfig
  pub prune_config : PruneConfig
  pub list_config : ListConfig
  pub server_tls_cfg : ServerTlsCfg

-- What the user gave on the command line.
pub record FromCmdLine : Type 0 where
  pub command : Str
  pub log_level : Bool
  pub log_file : Bool
  pub config_file : Bool
  pub image_path : Bool
  pub preload_images : Bool
  pub image_file : Bool
  pub resolve_ref : Bool
  pub port : Bool
  pub os : Bool
  pub arch : Bool
  pub pull_timeout : Bool
  pub health : Bool
  pub metrics : Bool
  pub always_pull_latest : Bool
  pub air_gapped : Bool
  pub hello_world : Bool
  pub default_ns : Bool
  pub host : Bool
  pub prune_config : Bool
  pub list_config : Bool

-- config.PruneConfig == (PruneConfig{}), config.ListConfig == (ListConfig{})
unfoldable pub is_zero_prune : PruneConfig → Bool
is_zero_prune p =
    not p.enabled
    && is_empty p.duration
    && is_empty p.prune_type
    && is_empty p.freq
    && is_zero p.count
    && is_empty p.expr
    && not p.dry_run

unfoldable pub is_zero_list : ListConfig → Bool
is_zero_list l = not l.header && is_empty l.expr && not l.short_digest

-- `if given || unset { config.X = cfg.X }`
abbrev pub pick : {A : Type 0} → Bool → Bool → A → A → A
pick given unset new old = if given || unset then new else old

-- Merge; `config` is the global that it changes.
unfoldable pub merge : FromCmdLine → Configuration → Configuration → Configuration
merge from cfg config = record {
  log_level = pick from.log_level (is_empty config.log_level) cfg.log_level config.log_level;
  log_file = pick from.log_file (is_empty config.log_file) cfg.log_file config.log_file;
  config_file =
      pick from.config_file (is_empty config.config_file) cfg.config_file config.config_file;
  image_path = pick from.image_path (is_empty config.image_path) cfg.image_path config.image_path;
  preload_images =
      pick from.preload_images (is_empty config.preload_images) cfg.preload_images
        config.preload_images;
  image_file = pick from.image_file (is_empty config.image_file) cfg.image_file config.image_file;
  resolve_ref =
      pick from.resolve_ref (is_empty config.resolve_ref) cfg.resolve_ref config.resolve_ref;
  port = pick from.port (is_zero config.port) cfg.port config.port;
  os = pick from.os (is_empty config.os) cfg.os config.os;
  arch = pick from.arch (is_empty config.arch) cfg.arch config.arch;
  pull_timeout =
      pick from.pull_timeout (is_zero config.pull_timeout) cfg.pull_timeout config.pull_timeout;
  health = pick from.health (is_zero config.health) cfg.health config.health;
  metrics = pick from.metrics (is_zero config.metrics) cfg.metrics config.metrics;
  always_pull_latest =
      pick from.always_pull_latest (not config.always_pull_latest) cfg.always_pull_latest
        config.always_pull_latest;
  air_gapped = pick from.air_gapped (not config.air_gapped) cfg.air_gapped config.air_gapped;
  hello_world = pick from.hello_world (not config.hello_world) cfg.hello_world config.hello_world;
  default_ns = pick from.default_ns (is_empty config.default_ns) cfg.default_ns config.default_ns;
  host = pick from.host (is_empty config.host) cfg.host config.host;
  registries = config.registries;
  prune_config =
      pick from.prune_config (is_zero_prune config.prune_config) cfg.prune_config
        config.prune_config;
  list_config =
      pick from.list_config (is_zero_list config.list_config) cfg.list_config config.list_config;
  server_tls_cfg = config.server_tls_cfg;
}

-- getCfg after cmdline.Parse: `loaded` is what config.Load has parsed from the file, or none for an error.
unfoldable pub get_cfg :
    FromCmdLine → Configuration → (Str → Option Configuration) → Option (Str × Configuration)
get_cfg from cfg load =
    if from.config_file
    then elim (load cfg.config_file) [
      | none ↦ none
      | some loaded ↦ some (from.command, merge from cfg loaded)
    ]
    else some (from.command, cfg)

-- SetImagePath, SetPreloadImages, SetAirGapped and Set, which write the global
unfoldable pub set_image_path : Str → Configuration → Configuration
set_image_path new_val config = record config { image_path = new_val }

unfoldable pub set_preload_images : Str → Configuration → Configuration
set_preload_images new_val config = record config { preload_images = new_val }

unfoldable pub set_air_gapped : Bool → Configuration → Configuration
set_air_gapped new_val config = record config { air_gapped = new_val }

unfoldable pub set_config : Configuration → Configuration → Configuration
set_config cfg config = cfg

-- A configuration file: it is missing, cannot be read, or has a content.
pub data ConfigFile : Type 0 where
  missing unread : ConfigFile
  content : Str → ConfigFile

pub data LoadError : Type 0 where
  no_stat not_read not_parsed : LoadError

-- SetConfigFromStr; `unmarshal` is yaml.Unmarshal into an empty configuration
unfoldable pub set_config_from_str :
    (Str → Option Configuration) → Str → Configuration → Configuration × Option LoadError
set_config_from_str unmarshal bytes config = elim (unmarshal bytes) [
  | none ↦ (config, some not_parsed)
  | some cfg ↦ (cfg, none)
]

-- Load
unfoldable pub load_config :
    (Str → Option Configuration) → ConfigFile → Configuration → Configuration × Option LoadError
load_config unmarshal missing config = (config, some no_stat)
load_config unmarshal unread config = (config, some not_read)
load_config unmarshal (content bytes) config = set_config_from_str unmarshal bytes config
