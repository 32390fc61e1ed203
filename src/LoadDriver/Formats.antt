-- ===== src/LoadDriver/Formats.antt =====
-- testing/load/driver/parse_args.go: the two ways to write a flag that takes a value.
use ociregistry.Base.{
  Bool, true, false, List, [], ◌∷◌, ◌++◌, ◌≡◌, refl, sym, ◌∙◌, Option, Option-cases, inl, inr, some,
  none, Str, contains_byte, cut-append, contains_byte-append, Result, ok, err, ◌>>=◌, All, arith,
}
use ociregistry.LoadDriver.{
  Config, ArgError, Flag, flag_named, set_known, set_config_value, Use, use_flag, use_arg,
  parse_from,
}

-- `--key=value`
abbrev pub joined : List (Str × Str) → List Str
joined [] = []
joined ((key, value) ∷ ps) = (key ++ b'=' ∷ value) ∷ joined ps

-- `--key value`
abbrev pub separate : List (Str × Str) → List Str
separate [] = []
separate ((key, value) ∷ ps) = key ∷ (value ∷ separate ps)

abbrev takes_value : Flag → Bool
takes_value Flag.prune = false
takes_value Flag.dry_run = false
takes_value Flag.shuffle = false
takes_value _ = true

abbrev known_takes_value : Option Flag → Bool
known_takes_value none = true
known_takes_value (some f) = takes_value f

-- No `=` in the key, and the key names no flag that stands alone.
abbrev IsValued : Str × Str → Type 0
IsValued p = (contains_byte p.0 b'=' ≡ false) × (known_takes_value (flag_named p.0) ≡ true)

parse-alone :
    (arg : Str) (args : List Str) (c : Config) (r : Result ArgError Config)
    → use_arg arg c ≡ (r >>= λ d. ok (Use.alone d))
    → parse_from (arg ∷ args) c ≡ (r >>= parse_from args)
unfolding parse_from
parse-alone arg [] c r h = ground arith
parse-alone arg (v ∷ args) c r h = ground arith

use-joined :
    (key value : Str) (c : Config)
    → contains_byte key b'=' ≡ false
    → use_arg (key ++ b'=' ∷ value) c ≡ (set_config_value key value c >>= λ d. ok (Use.alone d))
unfolding use_arg contains_byte
use-joined key value c h =
    ground (arith, cut-append key value b'=' h, contains_byte-append key (b'=' ∷ value) b'=')

-- The switch of ParseArgs and that of setConfigValue agree on the flags that take a value.
use_flag-set_known :
    (f : Flag) (value : Str) (c : Config)
    → takes_value f ≡ true
    → (set : Str → Result ArgError Config) × (use_flag f c ≡ Use.with_next set)
      × (set value ≡ set_known f value c)
unfolding use_flag set_known
use_flag-set_known Flag.prune value c h = ground arith
use_flag-set_known Flag.dry_run value c h = ground arith
use_flag-set_known Flag.shuffle value c h = ground arith
use_flag-set_known Flag.iteration_seconds value c h = (_, refl, refl)
use_flag-set_known Flag.tally_seconds value c h = (_, refl, refl)
use_flag-set_known Flag.patterns value c h = (_, refl, refl)
use_flag-set_known Flag.metrics_file value c h = (_, refl, refl)
use_flag-set_known Flag.log_file value c h = (_, refl, refl)
use_flag-set_known Flag.registry_url value c h = (_, refl, refl)
use_flag-set_known Flag.pullthrough_url value c h = (_, refl, refl)
use_flag-set_known Flag.filter value c h = (_, refl, refl)

parse-separate :
    (key value : Str) (args : List Str) (c : Config)
    → IsValued (key, value)
    → parse_from (key ∷ (value ∷ args)) c ≡ (set_config_value key value c >>= parse_from args)
unfolding parse_from use_arg set_config_value
parse-separate key value args c h = elim (Option-cases (flag_named key)) [
  | inl e ↦ ground arith
  | inr (f, e) ↦ ground (arith, use_flag-set_known f value c)
]

-- Any sequence of flags that take a value, or that nobody knows, is parsed the same, errors
-- included, whether each is written `--key=value` or `--key value`, from any earlier settings, if
-- no key has an equals sign.
pub formats_agree :
    (ps : List (Str × Str)) (c : Config)
    → All IsValued ps
    → parse_from (joined ps) c ≡ parse_from (separate ps) c
formats_agree [] c h = refl
formats_agree ((key, value) ∷ ps) c h =
    parse-alone (key ++ b'=' ∷ value) (joined ps) c r (use-joined key value c h.0.0)
    ∙ (rest r (λ d. formats_agree ps d h.1) ∙ sym (parse-separate key value (separate ps) c h.0))
  where
    r : Result ArgError Config
    r = set_config_value key value c

    rest :
        (r : Result ArgError Config)
        → ((d : Config) → parse_from (joined ps) d ≡ parse_from (separate ps) d)
        → (r >>= parse_from (joined ps)) ≡ (r >>= parse_from (separate ps))
    rest (ok d) e = e d
    rest (err x) e = refl
