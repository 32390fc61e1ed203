-- ===== src/Cmdline/Flags.antt =====
-- impl/cmdline/parse.go: the flags, each with its validator, destination, action and default.
use ociregistry.Base.{Bool, true, false, ◌||◌, [], Str, lit, str_eq, to_lower, ok, err}
use ociregistry.Base.Int.{ℤ, pos}
use ociregistry.PullRequest.{new_pull_request_from_url}
use ociregistry.Config.{Configuration, FromCmdLine}

-- The flags that stand before the command.
pub data RootFlag : Type 0 where
  log_level config_file image_path log_file : Str → RootFlag

pub data ServeFlag : Type 0 where
  preload_images os arch default_ns host : Str → ServeFlag
  port pull_timeout health metrics : ℤ → ServeFlag
  always_pull_latest hello_world air_gapped : Bool → ServeFlag

pub data LoadFlag : Type 0 where
  image_file resolve_ref os arch : Str → LoadFlag
  pull_timeout : ℤ → LoadFlag

pub data ListFlag : Type 0 where
  header short_digest : Bool → ListFlag
  pattern : Str → ListFlag

pub data PruneFlag : Type 0 where
  pattern date : Str → PruneFlag
  dry_run : Bool → PruneFlag

-- Validators. `is_file` says whether a path names a file that is no directory.
abbrev is_level : Str → Bool
is_level s =
    str_eq s (lit "debug")
    || str_eq s (lit "warn")
    || str_eq s (lit "info")
    || str_eq s (lit "error")

unfoldable pub valid_root : (Str → Bool) → RootFlag → Bool
valid_root is_file (log_level lvl) = is_level (to_lower lvl)
valid_root is_file (config_file path) = is_file path
valid_root is_file (image_path path) = true
valid_root is_file (log_file path) = true

unfoldable pub valid_load : LoadFlag → Bool
valid_load (resolve_ref ref) = elim (new_pull_request_from_url ref) [ ok pr ↦ true | err e ↦ false ]
valid_load (image_file path) = true
valid_load (os s) = true
valid_load (arch s) = true
valid_load (pull_timeout n) = true

-- Destinations.
unfoldable pub store_root : RootFlag → Configuration → Configuration
store_root (log_level v) c = record c { log_level = v }
store_root (config_file v) c = record c { config_file = v }
store_root (image_path v) c = record c { image_path = v }
store_root (log_file v) c = record c { log_file = v }

unfoldable pub store_serve : ServeFlag → Configuration → Configuration
store_serve (preload_images v) c = record c { preload_images = v }
store_serve (port v) c = record c { port = v }
store_serve (os v) c = record c { os = v }
store_serve (arch v) c = record c { arch = v }
store_serve (pull_timeout v) c = record c { pull_timeout = v }
store_serve (health v) c = record c { health = v }
store_serve (metrics v) c = record c { metrics = v }
store_serve (always_pull_latest v) c = record c { always_pull_latest = v }
store_serve (hello_world v) c = record c { hello_world = v }
store_serve (air_gapped v) c = record c { air_gapped = v }
store_serve (default_ns v) c = record c { default_ns = v }
store_serve (host v) c = record c { host = v }

unfoldable pub store_load : LoadFlag → Configuration → Configuration
store_load (image_file v) c = record c { image_file = v }
store_load (resolve_ref v) c = record c { resolve_ref = v }
store_load (os v) c = record c { os = v }
store_load (arch v) c = record c { arch = v }
store_load (pull_timeout v) c = record c { pull_timeout = v }

unfoldable pub store_list : ListFlag → Configuration → Configuration
store_list (header v) c = record c { list_config = record c.list_config { header = v } }
store_list (pattern v) c = record c { list_config = record c.list_config { expr = v } }
store_list (short_digest v) c = record c { list_config = record c.list_config { short_digest = v } }

unfoldable pub store_prune : PruneFlag → Configuration → Configuration
store_prune (pattern v) c = record c { prune_config = record c.prune_config { expr = v } }
store_prune (date v) c = record c { prune_config = record c.prune_config { expr = v } }
store_prune (dry_run v) c = record c { prune_config = record c.prune_config { dry_run = v } }

-- The two variables of the package, which the actions change.
pub record Vars : Type 0 where
  pub from : FromCmdLine
  pub cfg : Configuration

-- Actions.
unfoldable pub act_root : RootFlag → Vars → Vars
act_root (log_level _) s = record s { from = record s.from { log_level = true } }
act_root (config_file _) s = record s { from = record s.from { config_file = true } }
act_root (image_path _) s = record s { from = record s.from { image_path = true } }
act_root (log_file _) s = record s { from = record s.from { log_file = true } }

unfoldable pub act_serve : ServeFlag → Vars → Vars
act_serve (preload_images _) s = record s { from = record s.from { preload_images = true } }
act_serve (port _) s = record s { from = record s.from { port = true } }
act_serve (os _) s = record s { from = record s.from { os = true } }
act_serve (arch _) s = record s { from = record s.from { arch = true } }
act_serve (pull_timeout _) s = record s { from = record s.from { pull_timeout = true } }
act_serve (health _) s = record s { from = record s.from { health = true } }
act_serve (metrics _) s = record s { from = record s.from { metrics = true } }
act_serve (always_pull_latest _) s = record s { from = record s.from { always_pull_latest = true } }
act_serve (hello_world _) s = record s { from = record s.from { hello_world = true } }
act_serve (air_gapped _) s = record s { from = record s.from { air_gapped = true } }
act_serve (default_ns _) s = record s { from = record s.from { default_ns = true } }
act_serve (host _) s = record s { from = record s.from { host = true } }

unfoldable pub act_load : LoadFlag → Vars → Vars
act_load (image_file _) s = record s { from = record s.from { image_file = true } }
act_load (resolve_ref _) s = record s { from = record s.from { resolve_ref = true } }
act_load (os _) s = record s { from = record s.from { os = true } }
act_load (arch _) s = record s { from = record s.from { arch = true } }
act_load (pull_timeout _) s = record s { from = record s.from { pull_timeout = true } }

abbrev with_prune_type : Str → Configuration → Configuration
with_prune_type t c = record c { prune_config = record c.prune_config { prune_type = t } }

-- The action of `list --pattern` sets what the actions of `prune` set.
unfoldable pub act_list : ListFlag → Vars → Vars
act_list (header _) s = record s { from = record s.from { list_config = true } }
act_list (pattern _) s = record {
  from = record s.from { prune_config = true };
  cfg = with_prune_type (lit "date") s.cfg;
}
act_list (short_digest _) s = record s { from = record s.from { list_config = true } }

unfoldable pub act_prune : PruneFlag → Vars → Vars
act_prune (pattern _) s = record {
  from = record s.from { prune_config = true };
  cfg = with_prune_type (lit "pattern") s.cfg;
}
act_prune (date _) s = record {
  from = record s.from { prune_config = true };
  cfg = with_prune_type (lit "date") s.cfg;
}
act_prune (dry_run _) s = record s { from = record s.from { prune_config = true } }

-- Defaults. `goos` and `goarch` are runtime.GOOS and runtime.GOARCH.
unfoldable pub default_root : Configuration → Configuration
default_root c = record c {
  log_level = lit "error";
  image_path = lit "/var/lib/ociregistry";
  log_file = [];
}

unfoldable pub default_serve : Str → Str → Configuration → Configuration
default_serve goos goarch c = record c {
  port = pos 8080;
  os = goos;
  arch = goarch;
  pull_timeout = pos 60000;
  always_pull_latest = false;
  hello_world = false;
  air_gapped = false;
  default_ns = [];
  host = lit "0.0.0.0";
}

unfoldable pub default_load : Str → Str → Configuration → Configuration
default_load goos goarch c = record c { os = goos; arch = goarch; pull_timeout = pos 60000 }
