-- ===== src/Cache/Criteria.antt =====
-- impl/cache/prune.go: the criteria of the pruner, its schedule, and its call from the REST interface.
-- `compile` is regexp.Compile with the MatchString of its result. The text that the pruner logs is
-- left out.
pub mod Durations
pub mod Dates
pub mod Indexing
pub mod Schedule
pub mod Examples
use ociregistry.Base.{
  ◌+◌, Bool, true, false, ◌&&◌, ◌||◌, not, Option, none, some, List, [], ◌∷◌, ◌++◌, Str, lit,
  str_eq, is_empty, has_prefix, to_lower, split, unsnoc, length, ltb, ◌==◌, if◌then◌else◌, Result,
  ok, err, ◌>>=◌,
}
use ociregistry.Base.Decimal.{atoi, format_ℤ}
use ociregistry.Base.Int.{ℤ, pos, negsuc, add_ℤ, ltb_ℤ, times_ℕ, wrap_64, is_zero}
use ociregistry.Clock.{Clock}
use ociregistry.Config.{PruneConfig}
use ociregistry.Imgpull.{ManifestHolder, Env}
use ociregistry.Patterns.{compile_parts, any_match}
use ociregistry.Cache.{Cache}
use ociregistry.Cache.Query.{ManifestComparer, do_prune}

-- `index_out_of_range` is the panic of v[len(v)-1] on the empty string.
pub data CriteriaError : Type 0 where
  unknown_type unsupported_type bad_expression bad_days bad_duration invalid_dry_run :
      Str → CriteriaError
  missing_duration index_out_of_range unable_to_parse : CriteriaError

abbrev pub is_one_of : Str → List Str → Bool
is_one_of s [] = false
is_one_of s (t ∷ ts) = str_eq s t || is_one_of s ts

-- days2hrs; `intDays * 24` is of 64 bits
unfoldable pub days2hrs : Str → Result CriteriaError Str
days2hrs v = elim (unsnoc v) [
  | none ↦ err index_out_of_range
  | some (days, last) ↦
      if last == b'd'
      then elim (atoi days) [
        | none ↦ err (bad_days days)
        | some int_days ↦ ok (format_ℤ (wrap_64 (times_ℕ int_days 24)) ++ b'h' ∷ [])
      ]
      else ok v
]

-- Whether the time that a text names is before the cutoff.
abbrev pub before : Option ℤ → Option ℤ → Bool
before (some t) (some cutoff) = ltb_ℤ t cutoff
before _ _ = false

-- What the goroutine of RunPruner is started with.
pub record Pruner : Type 0 where
  pub comparer : ManifestComparer
  pub count : ℤ
  pub run_freq : ℤ
  pub dry_run : Bool

-- A tick of its timer.
unfoldable pub tick : Env → Pruner → Cache → Cache
tick env p c = do_prune env p.comparer p.count p.dry_run c

-- strconv.ParseBool
unfoldable pub parse_bool : Str → Option Bool
parse_bool s =
    if is_one_of s (lit "1" ∷ lit "t" ∷ lit "T" ∷ lit "true" ∷ lit "TRUE" ∷ lit "True" ∷ [])
    then some true
    else if is_one_of s (lit "0" ∷ lit "f" ∷ lit "F" ∷ lit "false" ∷ lit "FALSE" ∷ lit "False" ∷ [])
    then some false
    else none

abbrev pub or_else : {A : Type 0} → Option A → A → A
or_else none a = a
or_else (some b) a = b

-- The configuration that Prune makes of its parameters, with its switch for a dry run.
unfoldable pub rest_config : Str → Option Str → Option Str → Option ℤ → Bool → PruneConfig
rest_config prune_type dur expr count dry_run = record {
  enabled = true;
  duration = or_else dur [];
  prune_type = prune_type;
  freq = [];
  count = or_else count (pos 5);
  expr = or_else expr [];
  dry_run = dry_run;
}

module _ (clock : Clock) where
  abbrev pub duration_of : Str → Result CriteriaError ℤ
  duration_of s = elim (clock.parse_duration s) [ none ↦ err (bad_duration s) | some d ↦ ok d ]

  -- calcCutoff; `none` is the empty time.Time, before which nothing is.
  unfoldable pub calc_cutoff : PruneConfig → Result CriteriaError (Option ℤ)
  calc_cutoff cfg =
      let dur_str =
        if has_prefix cfg.duration (lit "-") then cfg.duration else b'-' ∷ cfg.duration in
      if not (is_one_of (to_lower cfg.prune_type) (lit "created" ∷ lit "accessed" ∷ []))
      then ok none
      else if ltb (length cfg.duration) 2 || is_empty cfg.prune_type
      then err missing_duration
      else days2hrs dur_str >>= λ hours.
          duration_of hours >>= λ dur. ok (some (add_ℤ clock.now dur))

  -- The comparers that ParseCriteria returns for a creation date and for the date of the last pull.
  unfoldable pub created_before : Option ℤ → ManifestComparer
  created_before cutoff mh =
      if is_empty mh.created then false else before (clock.parse_time mh.created) cutoff

  unfoldable pub pulled_before : Option ℤ → ManifestComparer
  pulled_before cutoff mh =
      if is_empty mh.pulled then false else before (clock.parse_time mh.pulled) cutoff

  module _ (compile : Str → Option (Str → Bool)) where
    -- The cases of ParseCriteria, by the type in lower case.
    unfoldable pub comparer_for : PruneConfig → Option ℤ → Result CriteriaError ManifestComparer
    comparer_for cfg cutoff =
        let kind = to_lower cfg.prune_type in
        if str_eq kind (lit "created")
        then ok (created_before cutoff)
        else if str_eq kind (lit "accessed")
        then ok (pulled_before cutoff)
        else if str_eq kind (lit "pattern")
        then elim (compile_parts compile (split cfg.expr b',')) [
          | err ref ↦ err (bad_expression ref)
          | ok srchs ↦ ok (any_match srchs)
        ]
        else err (unsupported_type cfg.prune_type)

    -- ParseCriteria
    unfoldable pub parse_criteria : PruneConfig → Result CriteriaError ManifestComparer
    parse_criteria cfg =
        if not (
          is_one_of (to_lower cfg.prune_type) (lit "created" ∷ lit "accessed" ∷ lit "pattern" ∷ []))
        then err (unknown_type cfg.prune_type)
        else calc_cutoff cfg >>= comparer_for cfg

    -- RunPruner, up to the start of its goroutine; `none` where pruning is not enabled
    unfoldable pub run_pruner : PruneConfig → Result CriteriaError (Option Pruner)
    run_pruner cfg =
        if not cfg.enabled
        then ok none
        else parse_criteria cfg >>= λ comparer.
            days2hrs (if is_empty cfg.freq then lit "5h" else cfg.freq) >>= λ freq.
            duration_of freq >>= λ run_freq. ok (
              some (record {
                comparer = comparer;
                count = if is_zero cfg.count then negsuc 0 else cfg.count;
                run_freq = run_freq;
                dry_run = cfg.dry_run;
              }))

    -- The part of Prune after the switch is known.
    unfoldable pub prune_by : Env → PruneConfig → Cache → Cache × Result CriteriaError (Unit {0})
    prune_by env cfg c = elim (parse_criteria cfg) [
      | err _ ↦ (c, err unable_to_parse)
      | ok comparer ↦ (do_prune env comparer cfg.count cfg.dry_run c, ok tt)
    ]

    -- Prune, called by the REST interface: a dry run, if it is not told otherwise
    unfoldable pub prune_rest :
        Env
        → Str
        → Option Str
        → Option Str
        → Option Str
        → Option ℤ
        → Cache
        → Cache × Result CriteriaError (Unit {0})
    prune_rest env prune_type dur expr none count c =
        prune_by env (rest_config prune_type dur expr count true) c
    prune_rest env prune_type dur expr (some dry_run) count c = elim (parse_bool dry_run) [
      | none ↦ (c, err (invalid_dry_run dry_run))
      | some b ↦ prune_by env (rest_config prune_type dur expr count b) c
    ]
