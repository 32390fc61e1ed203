-- ===== src/Program/DryRun.antt =====
-- cmd/ociregistry.go with the command line and the offline prune: `prune --dry-run`.
use ociregistry.Base.{
  ◌≡◌, refl, sym, ap, subst, ◌&&◌, ◌∙◌, Bool, true, false, Bool-cases, Option, some, Option-cases,
  List, [], ◌∷◌, Str, lit, str_eq, is_empty, inl, inr, arith,
}
use ociregistry.Cmdline.{
  SubCommand, each, every, store_sub, act_sub, valid_sub, command_name, parse,
}
use ociregistry.Cmdline.Flags.{
  RootFlag, PruneFlag, valid_root, Vars, store_root, store_prune, act_root, act_prune, default_root,
}
use ociregistry.Config.{
  Configuration, get_cfg, merge, set_air_gapped, set_preload_images, set_image_path,
}
use ociregistry.Serialize.{Files}
use ociregistry.Subcmd.Prune.DryRun.{prune_files-dry}
use ociregistry.Subcmd.Serve.{World}
use ociregistry.Program.{
  Shell, Disk, make_dirs, create_permtest, remove_permtest, create_dirs, write_files, filelist,
  run_command, hello_world_mode, run_main, loaded_file, real_main,
}

-- The value of --dry-run after the flags are stored, the last one winning.
abbrev pub last_dry : List PruneFlag → Bool → Bool
last_dry [] b = b
last_dry (PruneFlag.dry_run v ∷ flags) b = last_dry flags v
last_dry (PruneFlag.pattern v ∷ flags) b = last_dry flags b
last_dry (PruneFlag.date v ∷ flags) b = last_dry flags b

last_dry-any :
    (flags : List PruneFlag) (b : Bool) → last_dry flags false ≡ true → last_dry flags b ≡ true
last_dry-any [] b h = cc h
last_dry-any (PruneFlag.dry_run v ∷ flags) b h = h
last_dry-any (PruneFlag.pattern v ∷ flags) b h = last_dry-any flags b h
last_dry-any (PruneFlag.date v ∷ flags) b h = last_dry-any flags b h

stored_dry :
    (flags : List PruneFlag) (c : Configuration)
    → (each store_prune flags c).prune_config.dry_run ≡ last_dry flags c.prune_config.dry_run
unfolding store_prune
stored_dry [] c = refl
stored_dry (PruneFlag.dry_run v ∷ flags) c = stored_dry flags (store_prune (PruneFlag.dry_run v) c)
stored_dry (PruneFlag.pattern v ∷ flags) c = stored_dry flags (store_prune (PruneFlag.pattern v) c)
stored_dry (PruneFlag.date v ∷ flags) c = stored_dry flags (store_prune (PruneFlag.date v) c)

acted_dry :
    (flags : List PruneFlag) (s : Vars)
    → (each act_prune flags s).cfg.prune_config.dry_run ≡ s.cfg.prune_config.dry_run
unfolding act_prune
acted_dry [] s = refl
acted_dry (PruneFlag.dry_run v ∷ flags) s = acted_dry flags (act_prune (PruneFlag.dry_run v) s)
acted_dry (PruneFlag.pattern v ∷ flags) s = acted_dry flags (act_prune (PruneFlag.pattern v) s)
acted_dry (PruneFlag.date v ∷ flags) s = acted_dry flags (act_prune (PruneFlag.date v) s)

acted_more :
    (flags : List PruneFlag) (s : Vars)
    → s.from.prune_config ≡ true
    → (each act_prune flags s).from.prune_config ≡ true
unfolding act_prune
acted_more [] s h = h
acted_more (PruneFlag.dry_run v ∷ flags) s h =
    acted_more flags (act_prune (PruneFlag.dry_run v) s) refl
acted_more (PruneFlag.pattern v ∷ flags) s h =
    acted_more flags (act_prune (PruneFlag.pattern v) s) refl
acted_more (PruneFlag.date v ∷ flags) s h = acted_more flags (act_prune (PruneFlag.date v) s) refl

acted_given :
    (flag : PruneFlag) (flags : List PruneFlag) (s : Vars)
    → (each act_prune (flag ∷ flags) s).from.prune_config ≡ true
unfolding act_prune
acted_given (PruneFlag.dry_run v) flags s =
    acted_more flags (act_prune (PruneFlag.dry_run v) s) refl
acted_given (PruneFlag.pattern v) flags s =
    acted_more flags (act_prune (PruneFlag.pattern v) s) refl
acted_given (PruneFlag.date v) flags s = acted_more flags (act_prune (PruneFlag.date v) s) refl

acted_root : (flags : List RootFlag) (s : Vars) → (each act_root flags s).cfg ≡ s.cfg
unfolding act_root
acted_root [] s = refl
acted_root (RootFlag.log_level v ∷ flags) s = acted_root flags (act_root (RootFlag.log_level v) s)
acted_root (RootFlag.config_file v ∷ flags) s =
    acted_root flags (act_root (RootFlag.config_file v) s)
acted_root (RootFlag.image_path v ∷ flags) s = acted_root flags (act_root (RootFlag.image_path v) s)
acted_root (RootFlag.log_file v ∷ flags) s = acted_root flags (act_root (RootFlag.log_file v) s)

-- A configuration that was parsed for a dry run.
abbrev IsDry : Vars → Type 0
IsDry v =
    (v.cfg.prune_config.dry_run ≡ true)
    × (v.from.prune_config ≡ true)
    × (v.from.command ≡ lit "prune")

run_command-dry :
    (w : World) (cfg : Configuration) (files : Files)
    → cfg.prune_config.dry_run ≡ true
    → (run_command w (lit "prune") cfg files).0 ≡ files
unfolding run_command str_eq
run_command-dry w cfg files h = prune_files-dry w.env w.compile w.clock cfg.prune_config files h

make_dirs-files :
    (sh : Shell) (root : Str) (subs : List Str) (d : Disk)
    → (make_dirs sh root subs d).0.files ≡ d.files
unfolding make_dirs
make_dirs-files sh root [] d = refl
make_dirs-files sh root (sub ∷ subs) d = elim (Option-cases (sh.abs_path root sub)) [
  | inl e ↦ rw (make_dirs, e) (make_dirs-files sh root subs d)
  | inr (path, e) ↦
      let rest = make_dirs-files sh root subs (record d { directories = path ∷ d.directories }) in
      elim (Bool-cases (sh.mkdir_fails path)) [
        | inl f ↦ rw (make_dirs, e, f) refl
        | inr f ↦ rw (make_dirs, e, f) rest
      ]
]

create_dirs-files :
    (sh : Shell) (root : Str) (writeable : Bool) (d : Disk)
    → (create_dirs sh root writeable d).0.files ≡ d.files
unfolding create_dirs create_permtest remove_permtest
create_dirs-files sh root writeable d =
    let made = make_dirs-files sh root (lit "lts" ∷ lit "img" ∷ lit "blobs" ∷ []) d in
    ground (arith, made)

hello_world_mode-files :
    (sh : Shell) (cfg : Configuration) (d : Disk) → (hello_world_mode sh cfg d).0.files ≡ d.files
unfolding hello_world_mode
hello_world_mode-files sh cfg d = elim (Option-cases sh.mkdir_temp) [
  | inl e ↦ rw (hello_world_mode, e) refl
  | inr (tmpdir, e) ↦
      let cfg' = set_image_path tmpdir (set_preload_images [] (set_air_gapped true cfg)) in
      let same = create_dirs-files sh cfg'.image_path true d in
      elim (Bool-cases (create_dirs sh cfg'.image_path true d).1) [
        | inr m ↦ rw (hello_world_mode, e, m) same
        | inl m ↦ elim (Bool-cases (write_files sh tmpdir filelist)) [
          | inl w ↦ rw (hello_world_mode, e, m, w) same
          | inr w ↦ rw (hello_world_mode, e, m, w) same
        ]
      ]
]

run_main-dry :
    (sh : Shell) (cfg : Configuration) (d : Disk)
    → cfg.prune_config.dry_run ≡ true
    → (run_main sh (lit "prune") cfg d).0.files ≡ d.files
unfolding run_main is_empty str_eq
run_main-dry sh cfg d h = elim (Bool-cases cfg.hello_world) [
  | inl e ↦ elim (Option-cases (hello_world_mode sh cfg d).2) [
    | inl o ↦ grind (arith, e, o, hello_world_mode-files sh cfg d)
    | inr (t, o) ↦ grind (arith, e, o)
  ]
  | inr e ↦
      let same = create_dirs-files sh cfg.image_path true d in
      let run = run_command-dry sh.world cfg (create_dirs sh cfg.image_path true d).0.files h in
      elim (Bool-cases (create_dirs sh cfg.image_path true d).1) [
        | inl m ↦ grind (arith, e, m, run, same)
        | inr m ↦ grind (arith, e, m, same)
      ]
]

get_cfg-dry :
    (v : Vars) (load : Str → Option Configuration) (command : Str) (cfg : Configuration)
    → IsDry v
    → get_cfg v.from v.cfg load ≡ some (command, cfg)
    → (command ≡ lit "prune") × (cfg.prune_config.dry_run ≡ true)
unfolding get_cfg merge
get_cfg-dry v load command cfg (dry, given, name) h = elim (Bool-cases v.from.config_file) [
  | inr e ↦ (grind (arith, h, e, name), grind (arith, h, e, dry))
  | inl e ↦ elim (Option-cases (load v.cfg.config_file)) [
    | inl l ↦ (grind (arith, h, e, l), grind (arith, h, e, l))
    | inr (c, l) ↦ (grind (arith, h, e, l, name), grind (arith, h, e, l, dry, given))
  ]
]

-- The variables after the values are stored and the actions have run.
acted_vars : Str → Str → List RootFlag → List RootFlag → SubCommand → Vars → Vars
acted_vars goos goarch stores actions sub s =
    let cfg = store_sub goos goarch sub (each store_root stores (default_root s.cfg)) in
    let s' = act_sub sub (each act_root actions (record s { cfg = cfg })) in
    record s' { from = record s'.from { command = command_name sub } }

parse-acted :
    (is_file : Str → Bool) (goos goarch : Str) (stores actions : List RootFlag) (sub : SubCommand)
    (s v : Vars)
    → parse is_file goos goarch stores actions sub s ≡ some v
    → v ≡ acted_vars goos goarch stores actions sub s
unfolding parse acted_vars
parse-acted is_file goos goarch stores actions sub s v h =
    elim (Bool-cases (every (valid_root is_file) stores && valid_sub sub)) [
      | inl e ↦ grind (arith, h, e)
      | inr e ↦ grind (arith, h, e)
    ]

acted_vars-IsDry :
    (goos goarch : Str) (stores actions : List RootFlag) (flags : List PruneFlag)
    (acted : PruneFlag) (others : List PruneFlag) (s : Vars)
    → last_dry flags false ≡ true
    → IsDry (acted_vars goos goarch stores actions (SubCommand.prune flags (acted ∷ others)) s)
unfolding acted_vars store_sub act_sub command_name
acted_vars-IsDry goos goarch stores actions flags acted others s h =
    let base = each store_root stores (default_root s.cfg) in
    let stored = each store_prune flags base in
    let t = each act_root actions (record s { cfg = stored }) in
    let dry : stored.prune_config.dry_run ≡ true =
      stored_dry flags base ∙ last_dry-any flags base.prune_config.dry_run h in
    (
      acted_dry (acted ∷ others) t
          ∙ ap (λ (c : Configuration). c.prune_config.dry_run)
              (acted_root actions (record s { cfg = stored }))
          ∙ dry,
      acted_given acted others t,
      refl,
    )

-- Let the command be prune, with the last value that is stored for --dry-run being true, and the action
-- of one flag of prune run. Then the program changes no manifest file and no blob under the image path,
-- whatever the configuration file, the other flags and the machine say.
pub real_main-dry :
    (sh : Shell) (stores actions : List RootFlag) (flags : List PruneFlag) (acted : PruneFlag)
    (others : List PruneFlag) (s : Vars) (global : Configuration) (d : Disk)
    → last_dry flags false ≡ true
    → (real_main sh stores actions (SubCommand.prune flags (acted ∷ others)) s global d).0.files
      ≡ d.files
unfolding real_main
real_main-dry sh stores actions flags acted others s global d h =
    let goos = sh.world.machine.goos in
    let goarch = sh.world.machine.goarch in
    let sub = SubCommand.prune flags (acted ∷ others) in
    elim (Option-cases (parse sh.is_file goos goarch stores actions sub s)) [
      | inl e ↦ grind (arith, e)
      | inr (v, e) ↦ elim (Option-cases (get_cfg v.from v.cfg (loaded_file sh global))) [
        | inl g ↦ grind (arith, e, g)
        | inr ((command, cfg), g) ↦
            let dry : IsDry v =
              subst IsDry (sym (parse-acted sh.is_file goos goarch stores actions sub s v e))
                (acted_vars-IsDry goos goarch stores actions flags acted others s h) in
            let (name, on) = get_cfg-dry v (loaded_file sh global) command cfg dry g in
            let same : (run_main sh command cfg d).0.files ≡ d.files =
              ap (λ x. (run_main sh x cfg d).0.files) name ∙ run_main-dry sh cfg d on in
            grind (arith, e, g, same)
      ]
    ]
