-- ===== src/Cmdline.antt =====
-- impl/cmdline/parse.go: the commands and flags of the program. The package urfave/cli splits the command
-- line; what it finds is the argument of `parse`. The
-- flags are those of Flags.
pub mod Flags
pub mod Wiring
pub mod Examples
use ociregistry.Base.{
  Bool, true, false, ◌&&◌, ◌||◌, Option, none, some, List, [], ◌∷◌, Str, lit, str_eq, to_lower,
  if◌then◌else◌, Result, ok, err,
}
use ociregistry.Base.Int.{ℤ, pos}
use ociregistry.PullRequest.{new_pull_request_from_url}
use ociregistry.Config.{Configuration, FromCmdLine, PruneConfig, ListConfig}
use Flags.{
  RootFlag, ServeFlag, LoadFlag, ListFlag, PruneFlag, valid_root, valid_load, store_root,
  store_serve, store_load, store_list, store_prune, Vars, act_root, act_serve, act_load, act_list,
  act_prune, default_root, default_serve, default_load,
}

-- The order in which the library stores values and runs actions is its own: each comes as a list.
pub data SubCommand : Type 0 where
  serve : List ServeFlag → List ServeFlag → SubCommand
  load : List LoadFlag → List LoadFlag → SubCommand
  list : List ListFlag → List ListFlag → SubCommand
  prune : List PruneFlag → List PruneFlag → SubCommand
  version no_command : SubCommand

abbrev pub each : {A S : Type 0} → (A → S → S) → List A → S → S
each f [] s = s
each f (a ∷ as_) s = each f as_ (f a s)

abbrev pub every : {A : Type 0} → (A → Bool) → List A → Bool
every f [] = true
every f (a ∷ as_) = f a && every f as_

-- The actions of the commands.
unfoldable pub command_name : SubCommand → Str
command_name (serve stores actions) = lit "serve"
command_name (load stores actions) = lit "load"
command_name (list stores actions) = lit "list"
command_name (prune stores actions) = lit "prune"
command_name version = lit "version"
command_name no_command = []

unfoldable pub store_sub : Str → Str → SubCommand → Configuration → Configuration
store_sub goos goarch (serve stores actions) c =
    each store_serve stores (default_serve goos goarch c)
store_sub goos goarch (load stores actions) c = each store_load stores (default_load goos goarch c)
store_sub goos goarch (list stores actions) c = each store_list stores c
store_sub goos goarch (prune stores actions) c = each store_prune stores c
store_sub goos goarch version c = c
store_sub goos goarch no_command c = c

unfoldable pub act_sub : SubCommand → Vars → Vars
act_sub (serve stores actions) s = each act_serve actions s
act_sub (load stores actions) s = each act_load actions s
act_sub (list stores actions) s = each act_list actions s
act_sub (prune stores actions) s = each act_prune actions s
act_sub version s = s
act_sub no_command s = s

unfoldable pub valid_sub : SubCommand → Bool
valid_sub (load stores actions) = every valid_load stores
valid_sub (serve stores actions) = true
valid_sub (list stores actions) = true
valid_sub (prune stores actions) = true
valid_sub version = true
valid_sub no_command = true

-- Parse, from the values of the variables before it.
unfoldable pub parse :
    (Str → Bool) → Str → Str → List RootFlag → List RootFlag → SubCommand → Vars → Option Vars
parse is_file goos goarch stores actions sub s =
    if every (valid_root is_file) stores && valid_sub sub
    then (let cfg = store_sub goos goarch sub (each store_root stores (default_root s.cfg)) in
        let s' = act_sub sub (each act_root actions (record s { cfg = cfg })) in
        some (record s' { from = record s'.from { command = command_name sub } }))
    else none
