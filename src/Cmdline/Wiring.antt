-- ===== src/Cmdline/Wiring.antt =====
-- impl/cmdline/parse.go with impl/config/merge.go: what becomes of the value of a flag.
use ociregistry.Base.{◌≡◌, refl, false, Str, lit}
use ociregistry.Config.{Configuration, is_zero_list, merge}
use ociregistry.Cmdline.Flags.{
  RootFlag, ServeFlag, LoadFlag, ListFlag, PruneFlag, Vars, store_root, store_serve, store_load,
  store_list, store_prune, act_root, act_serve, act_load, act_list, act_prune,
}

-- The configuration has the value of the flag.
abbrev pub HasRoot : RootFlag → Configuration → Type 0
HasRoot (RootFlag.log_level v) c = c.log_level ≡ v
HasRoot (RootFlag.config_file v) c = c.config_file ≡ v
HasRoot (RootFlag.image_path v) c = c.image_path ≡ v
HasRoot (RootFlag.log_file v) c = c.log_file ≡ v

abbrev pub HasServe : ServeFlag → Configuration → Type 0
HasServe (ServeFlag.preload_images v) c = c.preload_images ≡ v
HasServe (ServeFlag.port v) c = c.port ≡ v
HasServe (ServeFlag.os v) c = c.os ≡ v
HasServe (ServeFlag.arch v) c = c.arch ≡ v
HasServe (ServeFlag.pull_timeout v) c = c.pull_timeout ≡ v
HasServe (ServeFlag.health v) c = c.health ≡ v
HasServe (ServeFlag.metrics v) c = c.metrics ≡ v
HasServe (ServeFlag.always_pull_latest v) c = c.always_pull_latest ≡ v
HasServe (ServeFlag.hello_world v) c = c.hello_world ≡ v
HasServe (ServeFlag.air_gapped v) c = c.air_gapped ≡ v
HasServe (ServeFlag.default_ns v) c = c.default_ns ≡ v
HasServe (ServeFlag.host v) c = c.host ≡ v

abbrev pub HasLoad : LoadFlag → Configuration → Type 0
HasLoad (LoadFlag.image_file v) c = c.image_file ≡ v
HasLoad (LoadFlag.resolve_ref v) c = c.resolve_ref ≡ v
HasLoad (LoadFlag.os v) c = c.os ≡ v
HasLoad (LoadFlag.arch v) c = c.arch ≡ v
HasLoad (LoadFlag.pull_timeout v) c = c.pull_timeout ≡ v

abbrev pub HasPrune : PruneFlag → Configuration → Type 0
HasPrune (PruneFlag.pattern v) c = c.prune_config.expr ≡ v
HasPrune (PruneFlag.date v) c = c.prune_config.expr ≡ v
HasPrune (PruneFlag.dry_run v) c = c.prune_config.dry_run ≡ v

-- The global configuration after a flag's value is stored, its action has run, and the result is
-- merged into what the file gave.
abbrev pub merged : Vars → Configuration → Configuration
merged s file = merge s.from s.cfg file

root_flag_wins :
    (f : RootFlag) (s : Vars) (file : Configuration)
    → HasRoot f (merged (act_root f (record s { cfg = store_root f s.cfg })) file)
unfolding store_root act_root merge
root_flag_wins (RootFlag.log_level v) s file = refl
root_flag_wins _ s file = refl

serve_flag_wins :
    (f : ServeFlag) (s : Vars) (file : Configuration)
    → HasServe f (merged (act_serve f (record s { cfg = store_serve f s.cfg })) file)
unfolding store_serve act_serve merge
serve_flag_wins (ServeFlag.port v) s file = refl
serve_flag_wins _ s file = refl

load_flag_wins :
    (f : LoadFlag) (s : Vars) (file : Configuration)
    → HasLoad f (merged (act_load f (record s { cfg = store_load f s.cfg })) file)
unfolding store_load act_load merge
load_flag_wins (LoadFlag.os v) s file = refl
load_flag_wins _ s file = refl

prune_flag_wins :
    (f : PruneFlag) (s : Vars) (file : Configuration)
    → HasPrune f (merged (act_prune f (record s { cfg = store_prune f s.cfg })) file)
unfolding store_prune act_prune merge
prune_flag_wins (PruneFlag.date v) s file = refl
prune_flag_wins _ s file = refl

-- Every flag of the program itself and of the commands serve, load and prune is wired through: once
-- its value is stored and its action has run, that value is in force after Merge, whatever the file
-- says and whatever was parsed before.
pub flags_win :
    (r : RootFlag) (v : ServeFlag) (l : LoadFlag) (p : PruneFlag) (s : Vars) (file : Configuration)
    → HasRoot r (merged (act_root r (record s { cfg = store_root r s.cfg })) file)
      × HasServe v (merged (act_serve v (record s { cfg = store_serve v s.cfg })) file)
      × HasLoad l (merged (act_load l (record s { cfg = store_load l s.cfg })) file)
      × HasPrune p (merged (act_prune p (record s { cfg = store_prune p s.cfg })) file)
flags_win r v l p s file = (
  root_flag_wins r s file,
  serve_flag_wins v s file,
  load_flag_wins l s file,
  prune_flag_wins p s file,
)

-- The flag --pattern of the command list is not: where the file has list settings and no other list
-- flag is given, the pattern is dropped, and the file's prune settings are replaced.
pub list_pattern_dropped :
    (v : Str) (s : Vars) (file : Configuration)
    → s.from.list_config ≡ false
    → is_zero_list file.list_config ≡ false
    → ((merged
          (act_list (ListFlag.pattern v) (record s { cfg = store_list (ListFlag.pattern v) s.cfg }))
          file).list_config
        ≡ file.list_config)
      × ((merged
            (act_list
              (ListFlag.pattern v)
              (record s { cfg = store_list (ListFlag.pattern v) s.cfg }))
            file).prune_config
          ≡ record s.cfg.prune_config { prune_type = lit "date" })
unfolding store_list act_list merge
list_pattern_dropped v s file n z = (rw (n, z), refl)
