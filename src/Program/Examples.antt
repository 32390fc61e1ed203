-- ===== src/Program/Examples.antt =====
-- The theorems about the program at a concrete command line, with a configuration file, and at a log file
-- that cannot be opened.
use ociregistry.Base.{◌≡◌, ◌↔◌, refl, str_eq, is_empty, true, false, none, some, [], ◌∷◌, ◌++◌, lit}
use ociregistry.Cache.LoadExamples.{readable}
use ociregistry.Cmdline.{SubCommand}
use ociregistry.Cmdline.Examples.{empty, nothing_given, parsed}
use ociregistry.Cmdline.Flags.{RootFlag, PruneFlag, Vars}
use ociregistry.Config.{ConfigFile}
use ociregistry.Program.{Shell, Disk, real_main}
use ociregistry.Program.DryRun.{real_main-dry}
use ociregistry.Program.Logging.{
  info, Logging, is_debug, xlat_log_level, configure_logging, Served, log_request,
}
use ociregistry.Program.Logging.Fields.{log_request-panics_iff}
use ociregistry.Serialize.{Files}
use ociregistry.Subcmd.Serve.Examples.{world}

abbrev shell : Shell
shell = record {
  world = world;
  is_file = λ path. true;
  config_file = λ path. ConfigFile.content (lit "port: 8080");
  unmarshal = λ content. some parsed;
  abs_path = λ root sub. some (root ++ lit "/" ++ sub);
  mkdir_fails = λ path. false;
  create_fails = λ root. false;
  remove_test_fails = λ root. false;
  mkdir_temp = none;
  write_fails = λ dir name. false;
  hello_files = record { lts = []; img = []; blobs = [] };
}

abbrev files : Files
files = record { lts = readable; img = []; blobs = [] }

abbrev on_disk : Disk
on_disk = record { files = files; directories = []; permtest = λ root. false }

abbrev start : Vars
start = record { from = nothing_given; cfg = empty }

abbrev config_flag : RootFlag
config_flag = RootFlag.config_file (lit "config.yaml")

abbrev pattern_flag : PruneFlag
pattern_flag = PruneFlag.pattern (lit "quay.io")

abbrev dry_flag : PruneFlag
dry_flag = PruneFlag.dry_run true

real_main-dry_example :
    (real_main shell
      (config_flag ∷ [])
      (config_flag ∷ [])
      (SubCommand.prune (pattern_flag ∷ dry_flag ∷ []) (pattern_flag ∷ dry_flag ∷ []))
      start
      empty
      on_disk).0.files
    ≡ files
real_main-dry_example =
    real_main-dry shell (config_flag ∷ []) (config_flag ∷ []) (pattern_flag ∷ dry_flag ∷ [])
      pattern_flag (dry_flag ∷ []) start empty on_disk refl

-- The settings of logrus before the program sets them.
abbrev initial : Logging
initial = record { level = info; output = none; with_headers = false }

abbrev pull : Served
pull = record {
  method = lit "GET";
  request_uri = lit "/v2/x/manifests/v1";
  status = 200;
  latency = lit "1ms";
  host = lit "localhost";
  real_ip = lit "127.0.0.1";
  headers = [];
}

log_request-panics_iff_example :
    (log_request (configure_logging (λ f. true) (lit "debug") (lit "/no/such/file") initial).0 pull
      ≡ none)
    ↔ ((str_eq (lit "/v2/x/manifests/v1") (lit "/health") ≡ false)
        × (is_debug (xlat_log_level (lit "debug")) ≡ true)
        × (is_empty (lit "/no/such/file") ≡ false)
        × (true ≡ true)
        × (false ≡ false))
log_request-panics_iff_example =
    log_request-panics_iff (λ f. true) (lit "debug") (lit "/no/such/file") initial pull
