-- ===== src/Subcmd/Serve/StartedExamples.antt =====
-- The theorem about a server that has started, at a configuration whose file of certificates has none.
use ociregistry.Base.{
  ◌≤◌, ◌&&◌, ◌≡◌, ◌↔◌, ◌⊎◌, refl, true, false, none, some, [], lit, is_empty, has_prefix,
  contains_byte, cut, split, to_lower, str_eq, ok,
}
use ociregistry.Auth.{no_providers}
use ociregistry.Cache.{
  reset_cache, can_add, can_add_layers, add_to_cache, add_manifest_to_cache, add_blobs_to_cache,
}
use ociregistry.Cache.Criteria.Examples
use ociregistry.Cache.LoadExamples.{readable}
use ociregistry.Cache.Loading.{load, load_one, IsComplete}
use ociregistry.Cmdline.Examples.{parsed}
use ociregistry.Config.{Configuration}
use ociregistry.Config.ServerTls.{load_certificates, verifying, parse_tls}
use ociregistry.Config.ServerTls.Plain.{IsPlain}
use ociregistry.Config.Upstreams.{upstream_auth_providers, init_providers}
use ociregistry.PullRequest.{new_pull_request_from_url, split_reference, type_from_ref}
use ociregistry.Serialize.{Files, walk_files, walk_the_cache}
use ociregistry.Subcmd.Serve.{
  World, Started, preload, start_tls, start_auth, start_pruner, start_cache, start, serve,
}
use ociregistry.Subcmd.Serve.Examples.{world}
use ociregistry.Subcmd.Serve.Outcome.{serve-started}
use ociregistry.Subcmd.Serve.Shutdown.{
  closing, asking, pruning, listening, State, at, stage, routine, IsIdle, cmd_stop, receive, close,
  prune, Moves, here, first_step, begin,
}
use ociregistry.Subcmd.Serve.Shutdown.Outcome.{serve-can_stop}
use ociregistry.Subcmd.Serve.Shutdown.Pulls.{end_of, is_stopped}
use ociregistry.Cache.Waiters
use ociregistry.Cache.Waiters.{System, Reach}
use ociregistry.Subcmd.Serve.Shutdown.Legal.{is_late, can_prune}

-- Any file can be read, and none has a certificate.
abbrev bad_ca : World
bad_ca = record world {
  machine = record world.machine { read_file = λ path. some (lit "not a certificate") };
  clock = Examples.clock;
  compile = Examples.nothing_compiles;
}

abbrev verify : Configuration
verify = record parsed {
  preload_images = [];
  registries = [];
  prune_config = Examples.cfg;
  server_tls_cfg = record { cert = []; key = []; ca = lit "ca.pem"; client_auth = lit "Verify" };
}

abbrev files : Files
files = record { lts = readable; img = []; blobs = [] }

abbrev server : Started
server = record {
  tls = none;
  providers = no_providers;
  pruner = some Examples.pruner;
  cache = (load bad_ca.env files).0;
}

loaded : (load bad_ca.env files).1 ≡ none
unfolding load walk_the_cache walk_files load_one new_pull_request_from_url split_reference
    contains_byte split is_empty to_lower has_prefix str_eq cut type_from_ref can_add can_add_layers
    add_to_cache add_manifest_to_cache add_blobs_to_cache reset_cache
loaded = refl

plain : start_tls bad_ca verify ≡ ok none
unfolding start_tls parse_tls load_certificates verifying is_empty to_lower str_eq
plain = refl

cached : start_cache bad_ca verify files ≡ ok server.cache
unfolding start_cache
cached = rw (start_cache, loaded) refl

pruned : start_pruner bad_ca verify ≡ ok (some Examples.pruner)
unfolding start_pruner
pruned = rw (start_pruner, Examples.started) refl

started : serve bad_ca verify files ≡ (files, ok server)
unfolding serve preload is_empty start start_auth upstream_auth_providers init_providers
started = rw (serve, start, plain, pruned, cached) refl

serve-started_example :
    IsComplete bad_ca.env files server.cache.manifests
    × IsComplete bad_ca.env files server.cache.latest
    × ((server.tls ≡ none) ↔ IsPlain bad_ca.machine bad_ca.appends verify.server_tls_cfg)
serve-started_example = serve-started bad_ca verify files files server started

-- Two calls of CmdStop, of which Serve receives one; then it shuts the server, while the pruner prunes.
abbrev waiting_pulls : System
waiting_pulls = Waiters.start (λ t. lit "quay.io/x:v1")

abbrev left : State
left = at closing listening 1 waiting_pulls

abbrev busy : State
busy = at asking pruning 1 waiting_pulls

left-Moves : Moves true (begin server (λ t. lit "quay.io/x:v1")) left
left-Moves =
    first_step _ _ _ (cmd_stop _ _ 0 _)
      (first_step _ _ _ (cmd_stop _ _ 1 _) (first_step _ _ _ (receive _ 1 _) (here _)))

busy-Moves : Moves true left busy
busy-Moves = first_step _ _ _ (prune _ 1 _) (first_step _ _ _ (close _ 1 _) (here _))

serve-can_stop_example :
    (((t : State) × Moves true left t
        × (is_stopped (stage t) ≡ true)
        × (routine t ≡ end_of listening))
      ↔ ((false ≡ true) ⊎ ((q : System) × Reach waiting_pulls q × IsIdle q)))
    × ((is_late asking && can_prune pruning) ≡ false)
    × (1 ≤ 1)
serve-can_stop_example =
    serve-can_stop bad_ca verify (λ t. lit "quay.io/x:v1") files files server left busy started
      left-Moves refl busy-Moves
