-- ===== src/Program.antt =====
-- cmd/ociregistry.go: realMain, which reads the configuration and runs the command, and CreateDirs of
-- impl/serialize/serialize.go.
pub mod Logging
pub mod DryRun
mod Examples
use ociregistry.Base.{
  ℕ, Bool, true, false, not, ◌&&◌, ◌||◌, Option, none, some, List, [], ◌∷◌, Str, lit, str_eq,
  is_empty, if◌then◌else◌, Result, ok, err,
}
use ociregistry.Auth.{no_providers}
use ociregistry.Cmdline.{SubCommand, parse}
use ociregistry.Cmdline.Flags.{RootFlag, Vars}
use ociregistry.Config.{
  Configuration, ConfigFile, load_config, get_cfg, set_air_gapped, set_preload_images,
  set_image_path,
}
use ociregistry.Preload.Dispatch.{load_paths}
use ociregistry.Serialize.{Files}
use ociregistry.Subcmd.ListCache.{Row, list_cache}
use ociregistry.Subcmd.Prune.{prune_files}
use ociregistry.Subcmd.Serve.{World, Started, settings, serve}

-- What the program runs with besides: the package filepath, whether directories and files can be made,
-- what stands at the path of a configuration file, and the yaml parser. `hello_files` is what the files
-- that are embedded for the hello-world mode have.
pub record Shell : Type 0 where
  pub world : World
  pub is_file : Str → Bool
  pub config_file : Str → ConfigFile
  pub unmarshal : Str → Option Configuration
  pub abs_path : Str → Str → Option Str
  pub mkdir_fails : Str → Bool
  pub create_fails : Str → Bool
  pub remove_test_fails : Str → Bool
  pub mkdir_temp : Option Str
  pub write_fails : Str → Str → Bool
  pub hello_files : Files

-- The files under the image path, the directories that were made, and the directories in which a file
-- .permtest stands.
pub record Disk : Type 0 where
  pub files : Files
  pub directories : List Str
  pub permtest : Str → Bool

-- The loop of CreateDirs: a path that cannot be made absolute is passed over. The result is whether there
-- was no error.
unfoldable pub make_dirs : Shell → Str → List Str → Disk → Disk × Bool
make_dirs sh root [] d = (d, true)
make_dirs sh root (sub ∷ subs) d = elim (sh.abs_path root sub) [
  | none ↦ make_dirs sh root subs d
  | some path ↦
      let rest = make_dirs sh root subs (record d { directories = path ∷ d.directories }) in
      if sh.mkdir_fails path then (d, false) else rest
]

-- os.Create of the file .permtest; an old one is cut.
unfoldable pub create_permtest : Shell → Str → Disk → Disk × Bool
create_permtest sh root d =
    if sh.create_fails root
    then (d, false)
    else (record d { permtest = λ r. str_eq r root || d.permtest r }, true)

-- The deferred os.Remove of it.
unfoldable pub remove_permtest : Shell → Str → Disk → Disk
remove_permtest sh root d =
    if sh.remove_test_fails root
    then d
    else record d { permtest = λ r. not (str_eq r root) && d.permtest r }

-- CreateDirs
unfoldable pub create_dirs : Shell → Str → Bool → Disk → Disk × Bool
create_dirs sh root writeable d =
    let (d', made) = make_dirs sh root (lit "lts" ∷ lit "img" ∷ lit "blobs" ∷ []) d in
    if not made
    then (d', false)
    else if writeable
    then (let (d'', created) = create_permtest sh root d' in (remove_permtest sh root d'', created))
    else (d', true)

-- How realMain ends: with an exit code, after the list of its rows, or with a server that runs.
pub data Exit : Type 0 where
  exit : ℕ → Exit
  listed : List Row → Exit
  serving : Started → Exit

-- The switch of realMain on the command.
unfoldable pub run_command : World → Str → Configuration → Files → Files × Exit
run_command w command cfg files =
    if str_eq command (lit "load")
    then (let (files', r) =
          load_paths w.host w.env w.client w.machine no_providers (settings w cfg) w.open_tarball
            w.current_time cfg.image_file cfg.resolve_ref files in
        (files', elim r [ ok _ ↦ exit 0 | err _ ↦ exit 1 ]))
    else if str_eq command (lit "list")
    then (
      files,
      elim (list_cache w.env cfg.list_config w.compile files) [
        | ok rows ↦ listed rows
        | err _ ↦ exit 1
      ],
    )
    else if str_eq command (lit "prune")
    then (let (files', r) = prune_files w.env w.compile w.clock cfg.prune_config files in
        (files', elim r [ ok _ ↦ exit 0 | err _ ↦ exit 1 ]))
    else if str_eq command (lit "serve")
    then (let (files', r) = serve w cfg files in
        (files', elim r [ ok s ↦ serving s | err _ ↦ exit 1 ]))
    else (files, exit 0)

-- The loop of helloWorldMode; the result is whether there was no error.
unfoldable pub write_files : Shell → Str → List Str → Bool
write_files sh tmpdir [] = true
write_files sh tmpdir (name ∷ names) =
    let rest = write_files sh tmpdir names in if sh.write_fails tmpdir name then false else rest

abbrev pub filelist : List Str
filelist =
    lit "424f1f86cdf501deb591ace8d14d2f40272617b51b374915a87a2886b2025ece"
    ∷ lit "03b62250a3cb1abd125271d393fc08bf0cc713391eda6b57c02d1ef85efcc25c"
    ∷ lit "74cc54e27dc41bb10dc4b2226072d469509f2f22f1a3ce74f4a59661a1d44602"
    ∷ lit "e6590344b1a5dc518829d6ea1524fc12f8bcd14ee9a02aa6ad8360cce3a9a9e9"
    ∷ []

-- helloWorldMode: the settings, and the temporary directory unless there was an error.
unfoldable pub hello_world_mode : Shell → Configuration → Disk → Disk × Configuration × Option Str
hello_world_mode sh cfg d = elim sh.mkdir_temp [
  | none ↦ (d, cfg, none)
  | some tmpdir ↦
      let cfg' = set_image_path tmpdir (set_preload_images [] (set_air_gapped true cfg)) in
      let (d', made) = create_dirs sh cfg'.image_path true d in
      if not made
      then (d', cfg', none)
      else if not (write_files sh tmpdir filelist)
      then (d', cfg', none)
      else (d', cfg', some tmpdir)
]

-- realMain, once there is a configuration, less the log. The temporary directory goes when it ends, with
-- all that was made in it.
unfoldable pub run_main : Shell → Str → Configuration → Disk → Disk × Exit
run_main sh command cfg d =
    if is_empty command
    then (d, exit 0)
    else if str_eq command (lit "version")
    then (d, exit 0)
    else if cfg.hello_world
    then (let (d', cfg', o) = hello_world_mode sh cfg d in
        elim o [
          | none ↦ (d', exit 1)
          | some tmpdir ↦ (d, (run_command sh.world command cfg' sh.hello_files).1)
        ])
    else (let (d', made) = create_dirs sh cfg.image_path (not (str_eq command (lit "list"))) d in
        let (files, e) = run_command sh.world command cfg d'.files in
        if not made then (d', exit 1) else (record d' { files = files }, e))

-- config.Load as getCfg uses it, from the global before it.
unfoldable pub loaded_file : Shell → Configuration → Str → Option Configuration
loaded_file sh global path =
    let (loaded, e) = load_config sh.unmarshal (sh.config_file path) global in
    elim e [ none ↦ some loaded | some _ ↦ none ]

-- realMain, from what the package urfave/cli finds on the command line
unfoldable pub real_main :
    Shell → List RootFlag → List RootFlag → SubCommand → Vars → Configuration → Disk → Disk × Exit
real_main sh stores actions sub vars global d =
    elim (parse sh.is_file sh.world.machine.goos sh.world.machine.goarch stores actions sub vars) [
      | none ↦ (d, exit 1)
      | some v ↦ elim (get_cfg v.from v.cfg (loaded_file sh global)) [
        | none ↦ (d, exit 1)
        | some (command, cfg) ↦ run_main sh command cfg d
      ]
    ]
