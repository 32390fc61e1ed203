-- ===== src/Config/Upstreams/FirstEntry.antt =====
-- ConfigFor of impl/config/config.go: the entry that decides, and the token of its options.
use ociregistry.Base.{
  ◌≡◌, refl, ◌∙◌, inl, inr, true, false, Bool-cases, some, List, [], ◌∷◌, ◌++◌, All, Str, str_eq,
  is_empty, arith, if◌then◌else◌, ok, err,
}
use ociregistry.Auth.{
  Aws, AuthError, Providers, ecr_provider, get_ecr_token, init, get_token, Tick, refresh_all,
}
use ociregistry.Auth.Tokens.{latest, get_token-refresh_all}
use ociregistry.Clock.{Clock}
use ociregistry.Config.{RegistryConfig}
use ociregistry.Imgpull.{PullerOpts}
use ociregistry.Config.Upstreams.{
  Machine, no_token, is_empty_opts, is_empty_auth, is_empty_tls, is_zero_registry, find_registry,
  default_opts, with_own_opts, with_auth, with_tls, opts_of, config_for,
}

-- The first of the entries with the name.
find_registry-append :
    (registry : Str) (before after : List RegistryConfig) (reg : RegistryConfig)
    → All (λ (r : RegistryConfig). str_eq r.name registry ≡ false) before
    → str_eq reg.name registry ≡ true
    → find_registry registry (before ++ reg ∷ after) ≡ some reg
unfolding find_registry
find_registry-append registry [] after reg h e = rw e refl
find_registry-append registry (r ∷ before) after reg (ne, h) e =
    rw ne (find_registry-append registry before after reg h e)

-- An entry with a token provider, without a static token and without TLS settings.
abbrev pub TakesToken : RegistryConfig → Type 0
TakesToken reg =
    (is_empty reg.auth.token.provider ≡ false)
    × (is_empty reg.auth.token.static ≡ true)
    × (is_empty_tls reg.tls ≡ true)

module _ (m : Machine) (ps : Providers) (registry : Str) (reg : RegistryConfig)
    (takes : TakesToken reg) where
  opts_of-token :
      (token : Str)
      → get_token reg.auth.token.provider ps ≡ ok token
      → (opts : PullerOpts) × (opts_of m ps registry reg ≡ ok opts) × (opts.token ≡ token)
  unfolding opts_of with_own_opts with_auth with_tls is_empty_auth is_zero_registry
  opts_of-token token got = elim (Bool-cases (is_empty_opts reg.opts)) [
    | inl e ↦ (
      record (if is_empty reg.scheme
          then default_opts m
          else record (default_opts m) { scheme = reg.scheme }) {
            username = reg.auth.user;
            password =
                if is_empty reg.auth.password_from_env
                then reg.auth.password
                else m.getenv reg.auth.password_from_env;
            token = token;
          },
      grind (arith, e, got, takes),
      refl,
    )
    | inr e ↦ (record reg.opts { token = token }, grind (arith, e, got, takes), refl)
  ]

  opts_of-no_token :
      (e : AuthError)
      → get_token reg.auth.token.provider ps ≡ err e
      → opts_of m ps registry reg ≡ err (no_token registry e)
  unfolding opts_of with_own_opts with_auth with_tls is_empty_auth is_zero_registry
  opts_of-no_token x failed = elim (Bool-cases (is_empty_opts reg.opts)) [
    | inl e ↦ grind (arith, e, failed, takes)
    | inr e ↦ grind (arith, e, failed, takes)
  ]

module _ (m : Machine) (before after : List RegistryConfig) (registry : Str) (reg : RegistryConfig)
    (others : All (λ (r : RegistryConfig). str_eq r.name registry ≡ false) before)
    (named : str_eq reg.name registry ≡ true) (takes : TakesToken reg) where
  config_for-opts_of :
      (ps : Providers)
      → config_for m ps (before ++ reg ∷ after) registry ≡ opts_of m ps registry reg
  unfolding config_for
  config_for-opts_of ps =
      rw (config_for, find_registry-append registry before after reg others named) refl

  pub config_for-no_token :
      (ps : Providers) (e : AuthError)
      → get_token reg.auth.token.provider ps ≡ err e
      → config_for m ps (before ++ reg ∷ after) registry ≡ err (no_token registry e)
  config_for-no_token ps e failed =
      config_for-opts_of ps ∙ opts_of-no_token m ps registry reg takes e failed

  -- Let the first entry with the name of a registry have a token provider, no static token and no TLS
  -- settings. If Init accepts the provider with a first token, then after any refreshes, successful or
  -- not, ConfigFor gives options for the registry, and their token is the last one that was got.
  pub config_for-token :
      (clock : Clock) (aws : Aws) (options expiry token : Str) (ps ps' : Providers)
      → get_ecr_token aws options ≡ ok token
      → init clock aws reg.auth.token.provider options expiry ps ≡ ok ps'
      → (ts : List Tick)
      → (opts : PullerOpts) × (config_for m
            (refresh_all ecr_provider ts ps')
            (before ++ reg ∷ after)
            registry
          ≡ ok opts)
        × (opts.token ≡ latest options ts token)
  config_for-token clock aws options expiry token ps ps' got inited ts =
      let ps'' = refresh_all ecr_provider ts ps' in
      let current =
        get_token-refresh_all clock aws reg.auth.token.provider options expiry token ps ps' got
          inited ts in
      let (opts, e, same) =
        opts_of-token m ps'' registry reg takes (latest options ts token) current in
      (opts, config_for-opts_of ps'' ∙ e, same)
