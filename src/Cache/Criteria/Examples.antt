-- ===== src/Cache/Criteria/Examples.antt =====
-- The theorems about the criteria of the pruner at a concrete clock and cache.
use Prim.Native.Nat.{◌≤◌}
use ociregistry.Base.{
  ℕ, zero, suc, ◌≡◌, ◌↔◌, refl, ap, ◌∙◌, Bool, true, false, Option, none, some, [], ◌∷◌, ◌++◌, Str,
  lit, is_empty, str_eq, has_prefix, to_lower, unsnoc, unsnoc-append, ◌==◌, if◌then◌else◌, arith,
  ok,
}
use ociregistry.Base.Decimal.{some-injective, atoi, format, format_ℤ, atoi-format_ℤ}
use ociregistry.Base.Int.{ℤ, pos, negsuc, neg_ℕ, times_ℕ, wrap_64, ltb_ℤ}
use ociregistry.Clock.{Clock}
use ociregistry.Config.{PruneConfig}
use ociregistry.Imgpull.{ManifestHolder}
use ociregistry.Cache.{Cache}
use ociregistry.Cache.Query.{ManifestComparer, all_manifests}
use ociregistry.Cache.Criteria.{
  is_one_of, days2hrs, calc_cutoff, pulled_before, comparer_for, parse_criteria, Pruner, run_pruner,
  tick,
}
use ociregistry.Cache.Criteria.Dates.{ReadsHours, days_ago, dated, IsOlder, parse_criteria-days}
use ociregistry.Cache.Criteria.Durations.{days2hrs-exact_iff}
use ociregistry.Cache.Criteria.Schedule.{tick-idle}
use ociregistry.Cache.Examples.{disk, argocd_mh, fresh}

-- Times are numbers; a duration is a number of hours.
abbrev read_hours : Option (Str × ℕ) → Option ℤ
read_hours none = none
read_hours (some (front, last)) = elim (atoi front) [
  | none ↦ none
  | some z ↦ if last == b'h' then some (times_ℕ z 3600000000000) else none
]

abbrev pub clock : Clock
clock = record {
  parse_time = atoi;
  parse_duration = λ s. read_hours (unsnoc s);
  now = pos 5000000000000000;
}

clock-ReadsHours : ReadsHours clock
clock-ReadsHours zero positive fits = absurd (omega arith)
clock-ReadsHours (suc h) positive fits =
    let same : neg_ℕ (suc h) ≡ negsuc h = ground arith in
    rw
      (
        same,
        unsnoc-append (format_ℤ (negsuc h)) b'h',
        read_hours,
        atoi-format_ℤ (negsuc h) (omega arith),
      )
      (ground arith)

abbrev pub nothing_compiles : Str → Option (Str → Bool)
nothing_compiles ref = none

abbrev pub cfg : PruneConfig
cfg = record {
  enabled = true;
  duration = lit "15d";
  prune_type = lit "Accessed";
  freq = [];
  count = pos 0;
  expr = [];
  dry_run = false;
}

abbrev limit : ℤ
limit = pos 3704000000000000

abbrev pub pruner : Pruner
pruner = record {
  comparer = pulled_before clock (some limit);
  count = negsuc 0;
  run_freq = pos 18000000000000;
  dry_run = false;
}

abbrev recent : ManifestHolder
recent = record argocd_mh { pulled = lit "4000000000000000" }

abbrev recent_only : Cache
recent_only = record fresh { manifests = (lit "x", recent) ∷ [] }

fifteen : cfg.duration ≡ format 15 ++ b'd' ∷ []
unfolding format
fifteen = refl

by_pull : is_one_of (to_lower cfg.prune_type) (lit "created" ∷ lit "accessed" ∷ []) ≡ true
unfolding to_lower str_eq
by_pull = refl

pub started : run_pruner clock nothing_compiles cfg ≡ ok (some pruner)
unfolding run_pruner parse_criteria calc_cutoff comparer_for days2hrs unsnoc has_prefix is_empty
    to_lower str_eq atoi wrap_64 format
started = refl

young : ¬ IsOlder clock (days_ago clock 15) (dated cfg recent)
unfolding to_lower str_eq atoi
young (_, t, read, older) =
    absurd (ground (arith, ap (λ z. ltb_ℤ z (days_ago clock 15)) (some-injective read) ∙ older))

days2hrs-exact_iff_example :
    (days2hrs (format_ℤ (negsuc 14) ++ b'd' ∷ [])
      ≡ ok (format_ℤ (times_ℕ (negsuc 14) 24) ++ b'h' ∷ []))
    ↔ (15 ≤ 384307168202282325)
days2hrs-exact_iff_example = days2hrs-exact_iff (negsuc 14) (omega arith)

parse_criteria-days_example :
    (comparer : ManifestComparer) × (parse_criteria clock nothing_compiles cfg ≡ ok comparer)
    × ((mh : ManifestHolder)
        → (comparer mh ≡ true) ↔ IsOlder clock (days_ago clock 15) (dated cfg mh))
parse_criteria-days_example =
    parse_criteria-days clock clock-ReadsHours nothing_compiles cfg 14 (omega arith) by_pull fifteen

tick-idle_example : tick disk pruner recent_only ≡ recent_only
unfolding all_manifests
tick-idle_example =
    tick-idle disk clock clock-ReadsHours nothing_compiles cfg pruner 14 (omega arith) by_pull
      fifteen started recent_only (young, tt)
