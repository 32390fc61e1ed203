-- ===== src/Auth/Tokens.antt =====
-- The token of a provider of impl/auth/auth.go over time.
use ociregistry.Base.{
  ◌≡◌, refl, sym, ap, subst, ◌∙◌, inl, inr, is_empty, lit, if◌then◌else◌, Option-cases, some, List,
  [], ◌∷◌, Str, arith, Result, Result-cases, ok, err,
}
use ociregistry.Clock.{Clock}
use ociregistry.Auth.{
  AuthError, ecr_provider, Aws, TokenProvider, Providers, set_provider, to_provider, get_ecr_token,
  get_token_getter, init, get_token, Tick, refreshed, refresh, refresh_all,
}

-- The last token that the ticks got, or the one before them.
abbrev pub latest : Str → List Tick → Str → Str
latest options [] token = token
latest options (t ∷ ts) token = elim (get_ecr_token t.aws options) [
  | ok token' ↦ latest options ts token'
  | err _ ↦ latest options ts token
]

-- The token of a provider, and the options that it is got with.
abbrev pub Holds : Providers → Str → Str → Type 0
Holds ps options token =
    (tp : TokenProvider) × (ps ecr_provider ≡ some tp)
    × (tp.token ≡ token)
    × (tp.provider_opts ≡ options)

refresh-Holds :
    (ps : Providers) (options token : Str) (t : Tick)
    → Holds ps options token
    → Holds (refresh ecr_provider t ps) options (latest options (t ∷ []) token)
unfolding refresh refreshed set_provider get_token_getter
refresh-Holds ps options token t (tp, e, same, opts) =
    let held : refresh ecr_provider t ps ecr_provider ≡ some (refreshed t ecr_provider tp) =
      rw (refresh, e) refl in
    elim (Result-cases (get_ecr_token t.aws options)) [
      | inl (token', g) ↦
          let got = ap (get_ecr_token t.aws) opts ∙ g in
          (
            refreshed t ecr_provider tp,
            held,
            rw (refreshed, get_token_getter, got, latest, g) refl,
            rw (refreshed, get_token_getter, got) opts,
          )
      | inr (x, g) ↦
          let got = ap (get_ecr_token t.aws) opts ∙ g in
          (
            refreshed t ecr_provider tp,
            held,
            rw (refreshed, get_token_getter, got, latest, g) same,
            rw (refreshed, get_token_getter, got) opts,
          )
    ]

latest_step :
    (options : Str) (t : Tick) (ts : List Tick) (token : Str)
    → latest options (t ∷ ts) token ≡ latest options ts (latest options (t ∷ []) token)
latest_step options t ts token = elim (Result-cases (get_ecr_token t.aws options)) [
  | inl (token', g) ↦ rw (latest, g) refl
  | inr (x, g) ↦ rw (latest, g) refl
]

refresh_all-Holds :
    (ps : Providers) (options token : Str) (ts : List Tick)
    → Holds ps options token
    → Holds (refresh_all ecr_provider ts ps) options (latest options ts token)
unfolding refresh_all
refresh_all-Holds ps options token [] h = h
refresh_all-Holds ps options token (t ∷ ts) h =
    subst (Holds (refresh_all ecr_provider ts (refresh ecr_provider t ps)) options)
      (sym (latest_step options t ts token))
      (refresh_all-Holds (refresh ecr_provider t ps) options (latest options (t ∷ []) token) ts
        (refresh-Holds ps options token t h))

-- Init knows its provider, and leaves it with the token that it got.
providers_of : Providers → Result AuthError Providers → Providers
providers_of ps (ok ps') = ps'
providers_of ps (err e) = ps

init-Holds :
    (clock : Clock) (aws : Aws) (provider options expiry token : Str) (ps ps' : Providers)
    → get_ecr_token aws options ≡ ok token
    → init clock aws provider options expiry ps ≡ ok ps'
    → (to_provider provider ≡ ok ecr_provider) × Holds ps' options token
unfolding init set_provider get_token_getter providers_of
init-Holds clock aws provider options expiry token ps ps' g h =
    let text = if is_empty expiry then lit "12h" else expiry in
    elim (Result-cases (to_provider provider)) [
      | inr (x, e) ↦ absurd (grind (arith, e, h))
      | inl (ecr_provider, e) ↦ elim (Option-cases (ps ecr_provider)) [
        | inr (tp, there) ↦ absurd (grind (arith, e, there, h))
        | inl fresh ↦ elim (Option-cases (clock.parse_duration text)) [
          | inl bad ↦ absurd (grind (arith, e, fresh, bad, h))
          | inr (d, read) ↦
              let tp : TokenProvider = record {
                provider_opts = options;
                last_token_get = clock.now;
                token = token;
                expiry = d;
              } in
              let made : providers_of ps (init clock aws provider options expiry ps)
                  ≡ set_provider ecr_provider tp ps =
                rw (init, e, fresh, read, g) refl in
              let same = sym (ap (providers_of ps) h) ∙ made in
              (e, (tp, ap (λ (f : Providers). f ecr_provider) same, refl, refl))
        ]
      ]
    ]

get_token_held :
    (provider : Str) (ps : Providers) (tp : TokenProvider)
    → to_provider provider ≡ ok ecr_provider
    → ps ecr_provider ≡ some tp
    → get_token provider ps ≡ ok tp.token
unfolding get_token
get_token_held provider ps tp known e = grind (arith, known, e)

-- A provider that Init accepted answers every later GetToken with the token that its last successful
-- refresh got, or that Init got where none was: a refresh that fails keeps the token.
pub get_token-refresh_all :
    (clock : Clock) (aws : Aws) (provider options expiry token : Str) (ps ps' : Providers)
    → get_ecr_token aws options ≡ ok token
    → init clock aws provider options expiry ps ≡ ok ps'
    → (ts : List Tick)
    → get_token provider (refresh_all ecr_provider ts ps') ≡ ok (latest options ts token)
get_token-refresh_all clock aws provider options expiry token ps ps' g h ts =
    let (known, holds) = init-Holds clock aws provider options expiry token ps ps' g h in
    let (tp, e, same, _) = refresh_all-Holds ps' options token ts holds in
    get_token_held provider (refresh_all ecr_provider ts ps') tp known e ∙ ap ok same
