-- ===== src/Auth.antt =====
-- impl/auth/auth.go and impl/auth/ecr.go: the tokens of the providers, and the loop of cmd/subcmd/serve.go
-- that initializes them. `aws` is what the AWS library answers to the options, `none` an error. The lock of
-- a provider is held while its token is read or written, so each is one step.
pub mod Tokens
use ociregistry.Base.{
  Bool, true, false, Option, none, some, List, [], ◌∷◌, Str, lit, str_eq, is_empty, to_lower, split,
  if◌then◌else◌, Result, ok, err, ◌>>=◌,
}
use ociregistry.Base.Int.{ℤ}
use ociregistry.Clock.{Clock}

-- provider, without unknownProvider, which only goes with an error
pub data Provider : Type 0 where
  ecr_provider : Provider

pub data AuthError : Type 0 where
  unknown_provider already_initialized not_initialized bad_expiry : Str → AuthError
  bad_options no_token : AuthError

-- The options of an ECR token.
pub data EcrOption : Type 0 where
  profile region : Str → EcrOption

abbrev pub Aws : Type 0
Aws = List EcrOption → Option Str

-- tokenProvider; its getter is that of its provider
pub record TokenProvider : Type 0 where
  pub provider_opts : Str
  pub last_token_get : ℤ
  pub token : Str
  pub expiry : ℤ

-- tokenProviders
abbrev pub Providers : Type 0
Providers = Provider → Option TokenProvider

abbrev pub no_providers : Providers
no_providers p = none

unfoldable pub set_provider : Provider → TokenProvider → Providers → Providers
set_provider ecr_provider tp ps ecr_provider = some tp

-- toProvider
unfoldable pub to_provider : Str → Result AuthError Provider
to_provider s =
    if str_eq (to_lower s) (lit "ecr") then ok ecr_provider else err (unknown_provider s)

-- One option of parseECROptions.
unfoldable pub parse_ecr_option : List Str → Result AuthError EcrOption
parse_ecr_option (key ∷ val ∷ []) =
    if str_eq (to_lower key) (lit "profile")
    then ok (profile (to_lower val))
    else if str_eq (to_lower key) (lit "region")
    then ok (region (to_lower val))
    else err bad_options
parse_ecr_option _ = err bad_options

unfoldable pub parse_ecr_parts : List Str → Result AuthError (List EcrOption)
parse_ecr_parts [] = ok []
parse_ecr_parts (opt ∷ opts) =
    parse_ecr_option (split opt b'=') >>= λ o. parse_ecr_parts opts >>= λ os. ok (o ∷ os)

-- parseECROptions
unfoldable pub parse_ecr_options : Str → Result AuthError (List EcrOption)
parse_ecr_options options = if is_empty options then ok [] else parse_ecr_parts (split options b',')

-- getECRToken
unfoldable pub get_ecr_token : Aws → Str → Result AuthError Str
get_ecr_token aws options = parse_ecr_options options >>= λ opts. elim (aws opts) [
  | none ↦ err no_token
  | some token ↦ ok token
]

-- getTokenGetter
unfoldable pub get_token_getter : Aws → Provider → Str → Result AuthError Str
get_token_getter aws ecr_provider = get_ecr_token aws

-- IsInitialized
unfoldable pub is_initialized : Str → Providers → Result AuthError Bool
is_initialized provider ps =
    to_provider provider >>= λ p. elim (ps p) [ none ↦ ok false | some tp ↦ ok true ]

-- Init, without the start of tokenRefresher
unfoldable pub init : Clock → Aws → Str → Str → Str → Providers → Result AuthError Providers
init clock aws provider options expiry ps = to_provider provider >>= λ p. elim (ps p) [
  | some tp ↦ err (already_initialized provider)
  | none ↦ elim (clock.parse_duration (if is_empty expiry then lit "12h" else expiry)) [
    | none ↦ err (bad_expiry expiry)
    | some parsed_expiry ↦ get_token_getter aws p options >>= λ token. ok (
        set_provider p
          (record {
            provider_opts = options;
            last_token_get = clock.now;
            token = token;
            expiry = parsed_expiry;
          })
          ps)
  ]
]

-- GetToken
unfoldable pub get_token : Str → Providers → Result AuthError Str
get_token provider ps = to_provider provider >>= λ p. elim (ps p) [
  | none ↦ err (not_initialized provider)
  | some tp ↦ ok tp.token
]

-- A tick of tokenRefresher, at a time and with what the library answers then.
pub record Tick : Type 0 where
  pub aws : Aws
  pub now : ℤ

unfoldable pub refreshed : Tick → Provider → TokenProvider → TokenProvider
refreshed t p tp = elim (get_token_getter t.aws p tp.provider_opts) [
  | err _ ↦ tp
  | ok token ↦ record tp { token = token; last_token_get = t.now }
]

unfoldable pub refresh : Provider → Tick → Providers → Providers
refresh p t ps = elim (ps p) [ none ↦ ps | some tp ↦ set_provider p (refreshed t p tp) ps ]

unfoldable pub refresh_all : Provider → List Tick → Providers → Providers
refresh_all p [] ps = ps
refresh_all p (t ∷ ts) ps = refresh_all p ts (refresh p t ps)
