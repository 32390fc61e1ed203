-- ===== src/Cmdline/Examples.antt =====
-- The theorems about the command line and its merge with the file at concrete settings.
use ociregistry.Base.{◌≡◌, true, false, [], lit, is_empty}
use ociregistry.Base.Int.{pos}
use ociregistry.Config.{Configuration, FromCmdLine, merge}
use ociregistry.Config.Merging.{
  TextSetting, NumberSetting, Switch, text_of, number_of, switch_of, effective, merge_precedence,
}
use ociregistry.Cmdline.Flags.{
  Vars, RootFlag, ServeFlag, LoadFlag, ListFlag, PruneFlag, store_root, store_serve, store_load,
  store_list, store_prune, act_root, act_serve, act_load, act_list, act_prune,
}
use ociregistry.Cmdline.Wiring.{HasRoot, HasServe, HasLoad, HasPrune, merged, flags_win}

abbrev pub empty : Configuration
empty = record {
  log_level = [];
  log_file = [];
  config_file = [];
  image_path = [];
  preload_images = [];
  image_file = [];
  resolve_ref = [];
  port = pos 0;
  os = [];
  arch = [];
  pull_timeout = pos 0;
  health = pos 0;
  metrics = pos 0;
  always_pull_latest = false;
  air_gapped = false;
  hello_world = false;
  default_ns = [];
  host = [];
  registries = [];
  prune_config = record {
    enabled = false;
    duration = [];
    prune_type = [];
    freq = [];
    count = pos 0;
    expr = [];
    dry_run = false;
  };
  list_config = record { header = false; expr = []; short_digest = false };
  server_tls_cfg = record { cert = []; key = []; ca = []; client_auth = [] };
}

abbrev pub nothing_given : FromCmdLine
nothing_given = record {
  command = [];
  log_level = false;
  log_file = false;
  config_file = false;
  image_path = false;
  preload_images = false;
  image_file = false;
  resolve_ref = false;
  port = false;
  os = false;
  arch = false;
  pull_timeout = false;
  health = false;
  metrics = false;
  always_pull_latest = false;
  air_gapped = false;
  hello_world = false;
  default_ns = false;
  host = false;
  prune_config = false;
  list_config = false;
}

-- The file sets a port, a host and list settings.
abbrev file : Configuration
file = record empty {
  port = pos 9090;
  host = lit "localhost";
  list_config = record { header = true; expr = []; short_digest = false };
}

abbrev host_given : FromCmdLine
host_given = record nothing_given { host = true }

abbrev pub parsed : Configuration
parsed = record empty { port = pos 8080; host = lit "0.0.0.0" }

merge_precedence_example :
    (text_of TextSetting.host (merge host_given parsed file)
      ≡ effective true false (lit "0.0.0.0") (lit "localhost"))
    × (number_of NumberSetting.port (merge host_given parsed file)
        ≡ effective false false (pos 8080) (pos 9090))
    × (switch_of Switch.air_gapped (merge host_given parsed file)
        ≡ effective false true false false)
    × ((merge host_given parsed file).registries ≡ [])
    × ((merge host_given parsed file).server_tls_cfg ≡ empty.server_tls_cfg)
unfolding is_empty
merge_precedence_example =
    merge_precedence host_given parsed file TextSetting.host NumberSetting.port Switch.air_gapped

abbrev before : Vars
before = record { from = nothing_given; cfg = empty }

flags_win_example :
    HasRoot (RootFlag.log_level (lit "debug")) (
      merged
        (act_root
          (RootFlag.log_level (lit "debug"))
          (record before { cfg = store_root (RootFlag.log_level (lit "debug")) empty }))
        file)
    × HasServe (ServeFlag.port (pos 8888)) (
        merged
          (act_serve
            (ServeFlag.port (pos 8888))
            (record before { cfg = store_serve (ServeFlag.port (pos 8888)) empty }))
          file)
    × HasLoad (LoadFlag.arch (lit "arm64")) (
        merged
          (act_load
            (LoadFlag.arch (lit "arm64"))
            (record before { cfg = store_load (LoadFlag.arch (lit "arm64")) empty }))
          file)
    × HasPrune (PruneFlag.dry_run true) (
        merged
          (act_prune
            (PruneFlag.dry_run true)
            (record before { cfg = store_prune (PruneFlag.dry_run true) empty }))
          file)
flags_win_example =
    flags_win (RootFlag.log_level (lit "debug")) (ServeFlag.port (pos 8888))
      (LoadFlag.arch (lit "arm64")) (PruneFlag.dry_run true) before file

-- `list --pattern x`, over a file with list settings.
abbrev pattern_stored : Vars
pattern_stored =
    act_list (ListFlag.pattern (lit "x"))
      (record before { cfg = store_list (ListFlag.pattern (lit "x")) empty })
