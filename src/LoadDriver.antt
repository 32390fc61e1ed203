-- ===== src/LoadDriver.antt =====
-- testing/load/driver/parse_args.go: the command line of the load tester. `regexp.Compile` is the
-- argument `compiles` of `validate`.
pub mod Formats
pub mod Registry
mod Examples
use ociregistry.Base.{
  ℕ, ◌+◌, ◌*◌, ◌-◌, Bool, true, false, ◌&&◌, ◌||◌, not, Option, none, some, List, [], ◌∷◌, ◌++◌,
  Str, lit, str_eq, is_empty, trim_space, contains_byte, cut, split, leb, ltb, ◌==◌, if◌then◌else◌,
  Result, ok, err, ◌>>=◌,
}
use ociregistry.Base.Int.{ℤ, pos, negsuc, is_zero}
use ociregistry.Base.Decimal.{atoi}

-- Config. `patterns` is nil exactly when it is empty: it is only appended to.
pub record Config : Type 0 where
  pub prune : Bool
  pub dry_run : Bool
  pub shuffle : Bool
  pub iteration_seconds : ℤ
  pub tally_seconds : ℤ
  pub patterns : List Str
  pub metrics_file : Str
  pub log_file : Str
  pub registry_url : Str
  pub pullthrough_url : Str
  pub filter : Str

pub data ArgError : Type 0 where
  requires_value must_be_number unknown_argument : Str → ArgError

-- The patterns of a comma-separated value, without the blank ones.
unfoldable pub own_patterns : List Str → List Str
own_patterns [] = []
own_patterns (p ∷ ps) =
    let rest = own_patterns ps in if is_empty (trim_space p) then rest else trim_space p ∷ rest

-- The arguments that the two switches name.
pub data Flag : Type 0 where
  prune dry_run shuffle iteration_seconds tally_seconds patterns : Flag
  metrics_file log_file registry_url pullthrough_url filter : Flag

abbrev pub flag_name : Flag → Str
flag_name prune = lit "--prune"
flag_name dry_run = lit "--dry-run"
flag_name shuffle = lit "--shuffle"
flag_name iteration_seconds = lit "--iteration-seconds"
flag_name tally_seconds = lit "--tally-seconds"
flag_name patterns = lit "--patterns"
flag_name metrics_file = lit "--metrics-file"
flag_name log_file = lit "--log-file"
flag_name registry_url = lit "--registry-url"
flag_name pullthrough_url = lit "--pullthrough-url"
flag_name filter = lit "--filter"

abbrev all_flags : List Flag
all_flags =
    prune ∷ dry_run ∷ shuffle ∷ iteration_seconds ∷ tally_seconds ∷ patterns ∷ metrics_file
    ∷ log_file ∷ registry_url ∷ pullthrough_url ∷ filter ∷ []

abbrev find_flag : Str → List Flag → Option Flag
find_flag s [] = none
find_flag s (f ∷ fs) = let rest = find_flag s fs in if str_eq s (flag_name f) then some f else rest

unfoldable pub flag_named : Str → Option Flag
flag_named s = find_flag s all_flags

-- What `strconv.Atoi(value)` and its error check do before a field is set.
abbrev number : Flag → Str → Result ArgError ℤ
number f value = elim (atoi value) [ some n ↦ ok n | none ↦ err (must_be_number (flag_name f)) ]

abbrev add_patterns : Str → Config → Config
add_patterns value c = record c { patterns = c.patterns ++ own_patterns (split value b',') }

-- setConfigValue, after its switch on the key
unfoldable pub set_known : Flag → Str → Config → Result ArgError Config
set_known prune value c = ok (record c { prune = true })
set_known dry_run value c = ok (record c { dry_run = true })
set_known shuffle value c = ok (record c { shuffle = true })
set_known iteration_seconds value c =
    number iteration_seconds value >>= λ n. ok (record c { iteration_seconds = n })
set_known tally_seconds value c =
    number tally_seconds value >>= λ n. ok (record c { tally_seconds = n })
set_known patterns value c = ok (add_patterns value c)
set_known metrics_file value c = ok (record c { metrics_file = value })
set_known log_file value c = ok (record c { log_file = value })
set_known registry_url value c = ok (record c { registry_url = value })
set_known pullthrough_url value c = ok (record c { pullthrough_url = value })
set_known filter value c = ok (record c { filter = value })

unfoldable pub set_config_value : Str → Str → Config → Result ArgError Config
set_config_value key value c = elim (flag_named key) [
  | some f ↦ set_known f value c
  | none ↦ err (unknown_argument key)
]

-- The switch of ParseArgs: the flags that stand alone, and those that take the next argument.
pub data Use : Type 0 where
  alone : Config → Use
  with_next : (Str → Result ArgError Config) → Use

unfoldable pub use_flag : Flag → Config → Use
use_flag prune c = alone (record c { prune = true })
use_flag dry_run c = alone (record c { dry_run = true })
use_flag shuffle c = alone (record c { shuffle = true })
use_flag iteration_seconds c =
    with_next
      λ value. number iteration_seconds value >>= λ n. ok (record c { iteration_seconds = n })
use_flag tally_seconds c =
    with_next λ value. number tally_seconds value >>= λ n. ok (record c { tally_seconds = n })
use_flag patterns c = with_next λ value. ok (add_patterns value c)
use_flag metrics_file c = with_next λ value. ok (record c { metrics_file = value })
use_flag log_file c = with_next λ value. ok (record c { log_file = value })
use_flag registry_url c = with_next λ value. ok (record c { registry_url = value })
use_flag pullthrough_url c = with_next λ value. ok (record c { pullthrough_url = value })
use_flag filter c = with_next λ value. ok (record c { filter = value })

-- One turn of the loop, up to `i++`.
unfoldable pub use_arg : Str → Config → Result ArgError Use
use_arg arg c =
    if contains_byte arg b'='
    then (set_config_value (cut arg b'=').before (cut arg b'=').after c >>= λ d. ok (alone d))
    else elim (flag_named arg) [ some f ↦ ok (use_flag f c) | none ↦ err (unknown_argument arg) ]

-- The loop of ParseArgs.
unfoldable pub parse_from : List Str → Config → Result ArgError Config
parse_from [] c = ok c
parse_from (arg ∷ []) c =
    use_arg arg c >>= λ u. elim u [ alone d ↦ ok d | with_next set ↦ err (requires_value arg) ]
parse_from (arg ∷ (value ∷ args)) c = use_arg arg c >>= λ u. elim u [
  | alone d ↦ parse_from (value ∷ args) d
  | with_next set ↦ set value >>= λ d. parse_from args d
]

abbrev pub default_config : Config
default_config = record {
  prune = false;
  dry_run = false;
  shuffle = false;
  iteration_seconds = pos 60;
  tally_seconds = pos 15;
  patterns = [];
  metrics_file = [];
  log_file = [];
  registry_url = [];
  pullthrough_url = [];
  filter = [];
}

unfoldable pub parse_args : List Str → Result ArgError Config
parse_args args = parse_from args default_config

-- Validate: the first complaint, if any.
pub data Complaint : Type 0 where
  no_registry_url no_pullthrough_url no_iteration_seconds no_tally_seconds no_patterns : Complaint
  not_a_regex : Str → Complaint

abbrev compile_all : (Str → Bool) → List Str → Option Complaint
compile_all compiles [] = none
compile_all compiles (p ∷ ps) =
    let rest = compile_all compiles ps in if compiles p then rest else some (not_a_regex p)

unfoldable pub validate : (Str → Bool) → Config → Option Complaint
unfolding is_empty
validate compiles c =
    if is_empty c.registry_url
    then some no_registry_url
    else (if is_empty c.pullthrough_url
        then some no_pullthrough_url
        else (if is_zero c.iteration_seconds
            then some no_iteration_seconds
            else (if is_zero c.tally_seconds then some no_tally_seconds else (elim c.patterns [
              | [] ↦ some no_patterns
              | p ∷ ps ↦ compile_all compiles (p ∷ ps)
            ]))))
