-- ===== src/Config/Upstreams.antt =====
-- ConfigFor and UpstreamAuthProviders of impl/config/config.go, and the loop of cmd/subcmd/serve.go that
-- initializes the providers: how the program signs in to an upstream. What the machine answers, its
-- platform, environment and files, is the parameter Machine.
pub mod FirstEntry
use ociregistry.Base.{
  Bool, true, false, not, ◌&&◌, Option, none, some, List, [], ◌∷◌, Str, lit, str_eq, is_empty,
  if◌then◌else◌, Result, ok, err, ◌>>=◌,
}
use ociregistry.Auth.{Aws, AuthError, Providers, get_token, init, is_initialized}
use ociregistry.Clock.{Clock}
use ociregistry.Config.{TokenAuth, AuthCfg, TlsCfg, RegistryConfig}
use ociregistry.Imgpull.{ClientTls, PullerOpts}

pub record Machine : Type 0 where
  pub goos : Str
  pub goarch : Str
  pub getenv : Str → Str
  pub read_file : Str → Option Str
  pub load_key_pair : Str → Str → Option Str

pub data ConfigError : Type 0 where
  no_token : Str → AuthError → ConfigError
  no_ca no_client_cert : Str → ConfigError

-- The comparisons with the empty structs.
abbrev pub is_zero_tls : Option ClientTls → Bool
is_zero_tls none = true
is_zero_tls (some tls) = false

unfoldable pub is_empty_opts : PullerOpts → Bool
is_empty_opts o =
    is_empty o.url
    && is_empty o.scheme
    && is_empty o.os_type
    && is_empty o.arch_type
    && is_empty o.username
    && is_empty o.password
    && is_empty o.token
    && is_zero_tls o.tls_cfg

unfoldable pub is_empty_auth : AuthCfg → Bool
is_empty_auth a =
    is_empty a.user
    && is_empty a.password
    && is_empty a.password_from_env
    && is_empty a.token.provider
    && is_empty a.token.provider_opts
    && is_empty a.token.expiry
    && is_empty a.token.static

unfoldable pub is_empty_tls : TlsCfg → Bool
is_empty_tls t = is_empty t.cert && is_empty t.key && is_empty t.ca && not t.insecure_skip_verify

unfoldable pub is_zero_registry : RegistryConfig → Bool
is_zero_registry r =
    is_empty r.name
    && is_empty r.description
    && is_empty_auth r.auth
    && is_empty_tls r.tls
    && is_empty r.scheme
    && is_empty_opts r.opts

-- The loop of ConfigFor that looks for the entry.
unfoldable pub find_registry : Str → List RegistryConfig → Option RegistryConfig
find_registry registry [] = none
find_registry registry (reg ∷ regs) =
    let rest = find_registry registry regs in if str_eq reg.name registry then some reg else rest

module _ (m : Machine) where
  unfoldable pub default_opts : PullerOpts
  default_opts = record {
    url = [];
    scheme = lit "https";
    os_type = m.goos;
    arch_type = m.goarch;
    username = [];
    password = [];
    token = [];
    tls_cfg = none;
  }

  unfoldable pub root_cas_of : Str → TlsCfg → Result ConfigError (Option Str)
  root_cas_of registry t =
      if is_empty t.ca
      then ok none
      else elim (m.read_file t.ca) [ none ↦ err (no_ca registry) | some pem ↦ ok (some pem) ]

  unfoldable pub certificates_of : Str → TlsCfg → Result ConfigError (List Str)
  certificates_of registry t =
      if not (is_empty t.cert) && not (is_empty t.key)
      then elim (m.load_key_pair t.cert t.key) [
        | none ↦ err (no_client_cert registry)
        | some cert ↦ ok (cert ∷ [])
      ]
      else ok []

  -- The part about TLS.
  unfoldable pub with_tls : Str → RegistryConfig → PullerOpts → Result ConfigError PullerOpts
  with_tls registry found opts =
      if is_empty_tls found.tls
      then ok opts
      else root_cas_of registry found.tls >>= λ cas. certificates_of registry found.tls >>= λ certs.
          ok (record opts {
            tls_cfg = some (record {
              insecure_skip_verify = found.tls.insecure_skip_verify;
              root_cas = cas;
              certificates = certs;
            });
          })

module _ (ps : Providers) where
  abbrev pub token_of : Str → Str → Result ConfigError Str
  token_of registry provider = elim (get_token provider ps) [
    | err e ↦ err (no_token registry e)
    | ok token ↦ ok token
  ]

  -- The branch for options that stand in the entry.
  unfoldable pub with_own_opts : Str → RegistryConfig → Result ConfigError PullerOpts
  with_own_opts registry found =
      if not (is_empty found.auth.token.provider) && is_empty found.auth.token.static
      then (token_of registry found.auth.token.provider >>= λ token.
          ok (record found.opts { token = token }))
      else ok found.opts

module _ (m : Machine) (ps : Providers) where
  -- The part about user, password and token.
  unfoldable pub with_auth : Str → RegistryConfig → PullerOpts → Result ConfigError PullerOpts
  with_auth registry found opts =
      let a = found.auth in
      let signed = record opts {
        username = a.user;
        password =
            if is_empty a.password_from_env then a.password else m.getenv a.password_from_env;
      } in
      if is_empty_auth a
      then ok opts
      else if not (is_empty a.token.static)
      then ok (record signed { token = a.token.static })
      else if not (is_empty a.token.provider)
      then (token_of ps registry a.token.provider >>= λ token. ok (record signed { token = token }))
      else ok signed

  -- What ConfigFor makes of the entry that it found.
  unfoldable pub opts_of : Str → RegistryConfig → Result ConfigError PullerOpts
  opts_of registry found =
      let base =
        if is_empty found.scheme
        then default_opts m
        else record (default_opts m) { scheme = found.scheme } in
      if is_zero_registry found
      then ok (default_opts m)
      else if not (is_empty_opts found.opts)
      then with_own_opts ps registry found
      else with_auth registry found base >>= λ opts. with_tls m registry found opts

  -- ConfigFor; `regs` is config.Registries
  unfoldable pub config_for : List RegistryConfig → Str → Result ConfigError PullerOpts
  config_for regs registry = elim (find_registry registry regs) [
    | none ↦ ok (default_opts m)
    | some found ↦ opts_of registry found
  ]

-- UpstreamAuthProviders
unfoldable pub upstream_auth_providers : List RegistryConfig → List TokenAuth
upstream_auth_providers [] = []
upstream_auth_providers (reg ∷ regs) =
    let rest = upstream_auth_providers regs in
    if is_empty reg.auth.token.provider then rest else reg.auth.token ∷ rest

-- The loop of Serve that initializes the providers, up to the start of their goroutines.
unfoldable pub init_providers :
    Clock → Aws → List TokenAuth → Providers → Result AuthError Providers
init_providers clock aws [] ps = ok ps
init_providers clock aws (ta ∷ tas) ps = is_initialized ta.provider ps >>= λ inited.
    if inited
    then init_providers clock aws tas ps
    else init clock aws ta.provider ta.provider_opts ta.expiry ps >>= init_providers clock aws tas
