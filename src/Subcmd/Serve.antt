-- ===== src/Subcmd/Serve.antt =====
-- cmd/subcmd/serve.go: the start of the server, up to its listener, in the order of Serve: the preload, the
-- settings of TLS, the token providers, the pruner and the load of the cache. The schema of the interface and
-- the metrics are left out: neither changes the files or the cache.
pub mod Order
pub mod Outcome
pub mod Examples
pub mod Shutdown
mod StartedExamples
use ociregistry.Base.{
  Bool, true, false, Option, none, some, List, Str, is_empty, if◌then◌else◌, Result, ok, err, ◌>>=◌,
}
use ociregistry.Auth.{Aws, AuthError, Providers, no_providers, init, is_initialized}
use ociregistry.Cache.{Cache}
use ociregistry.Cache.Criteria.{CriteriaError, Pruner, run_pruner}
use ociregistry.Cache.Loading.{load}
use ociregistry.Clock.{Clock}
use ociregistry.Config.{Configuration}
use ociregistry.Config.ServerTls.{TlsConfig, TlsError, parse_tls}
use ociregistry.Config.Upstreams.{Machine, upstream_auth_providers, init_providers}
use ociregistry.Imgpull.{Env}
use ociregistry.Preload.{Host, Client, Tarball, PreloadError, Settings}
use ociregistry.Preload.Dispatch.{load_paths}
use ociregistry.PullRequest.{PullError}
use ociregistry.Serialize.{Files}

-- What Serve runs with: the answers of the machine, its files, its clock, the upstreams, and the libraries.
pub record World : Type 0 where
  pub env : Env
  pub host : Host
  pub client : Client
  pub machine : Machine
  pub clock : Clock
  pub aws : Aws
  pub appends : Str → Bool
  pub compile : Str → Option (Str → Bool)
  pub open_tarball : Str → Option Tarball
  pub current_time : Str

pub data StartError : Type 0 where
  preloading : PreloadError → StartError
  tls_settings : TlsError → StartError
  auth_provider : AuthError → StartError
  pruner_start : CriteriaError → StartError
  cache_load : PullError → StartError

-- A server whose listener can start; without `tls` it is one for plain HTTP.
pub record Started : Type 0 where
  pub tls : Option TlsConfig
  pub providers : Providers
  pub pruner : Option Pruner
  pub cache : Cache

module _ (w : World) (cfg : Configuration) where
  abbrev pub settings : Settings
  settings = record { registries = cfg.registries; os = cfg.os; arch = cfg.arch }

  -- Serve, its first step. The providers of the package auth are empty when the program starts.
  unfoldable pub preload : Providers → Files → Files × Result PreloadError (Unit {0})
  preload ps files =
      if is_empty cfg.preload_images
      then (files, ok tt)
      else load_paths w.host w.env w.client w.machine ps settings w.open_tarball w.current_time
          cfg.preload_images cfg.resolve_ref files

  -- Serve, the steps after it.
  unfoldable pub start_pruner : Result StartError (Option Pruner)
  start_pruner = elim (run_pruner w.clock w.compile cfg.prune_config) [
    | ok p ↦ ok p
    | err e ↦ err (pruner_start e)
  ]

  unfoldable pub start_auth : Providers → Result StartError Providers
  start_auth ps = elim (init_providers w.clock w.aws (upstream_auth_providers cfg.registries) ps) [
    | ok ps' ↦ ok ps'
    | err e ↦ err (auth_provider e)
  ]

  unfoldable pub start_cache : Files → Result StartError Cache
  start_cache files = elim (load w.env files).1 [
    | none ↦ ok (load w.env files).0
    | some e ↦ err (cache_load e)
  ]

  unfoldable pub start_tls : Result StartError (Option TlsConfig)
  start_tls = elim (parse_tls w.machine w.appends cfg.server_tls_cfg) [
    | ok tls ↦ ok tls
    | err e ↦ err (tls_settings e)
  ]

  -- The steps after the preload, in their order.
  unfoldable pub start : Files → Result StartError Started
  start files = start_tls >>= λ tls. start_auth no_providers >>= λ ps. start_pruner >>= λ pruner.
      start_cache files >>= λ cache.
      ok (record { tls = tls; providers = ps; pruner = pruner; cache = cache })

  -- Serve
  unfoldable pub serve : Files → Files × Result StartError Started
  serve files =
      let (files', r) = preload no_providers files in
      elim r [ err e ↦ (files', err (preloading e)) | ok _ ↦ (files', start files') ]
