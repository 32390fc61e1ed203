-- ===== src/Cache/Criteria/Schedule.antt =====
-- RunPruner of impl/cache/prune.go: what its goroutine is started with, and what its ticks do.
use Prim.Native.Nat.{◌≤◌}
use ociregistry.Base.{
  ℕ, suc, ◌≡◌, refl, sym, ap, ◌∙◌, inl, inr, Bool, true, false, Bool-cases, Option, none, some,
  Option-cases, List, [], ◌∷◌, ◌++◌, All, arith, Str, lit, is_empty, str_eq, if◌then◌else◌, Result,
  Result-cases, ok, err,
}
use ociregistry.Base.Int.{ℤ}
use ociregistry.Base.Decimal.{format}
use ociregistry.Clock.{Clock}
use ociregistry.Config.{PruneConfig}
use ociregistry.Imgpull.{ManifestHolder, Env}
use ociregistry.Cache.{Cache}
use ociregistry.Cache.Query.{
  ManifestComparer, all_manifests, select, get_manifests_compare, prune_all, do_prune,
}
use ociregistry.Cache.Criteria.{
  CriteriaError, days2hrs, duration_of, parse_criteria, Pruner, run_pruner, tick,
}
use ociregistry.Cache.Criteria.Dates.{
  ReadsHours, days_ago, by_date, dated, IsOlder, parse_criteria-days,
}

-- Where nothing passes, nothing is selected.
select_nothing :
    (comparer : ManifestComparer) (count : ℤ) (n : ℕ) (entries : List (Str × ManifestHolder))
    → All (λ (entry : Str × ManifestHolder). comparer entry.1 ≡ false) entries
    → select comparer count n entries ≡ []
unfolding select
select_nothing comparer count n [] h = refl
select_nothing comparer count n ((url, mh) ∷ entries) (h, hs) =
    let rest = select_nothing comparer count n entries hs in
    elim (Bool-cases (str_eq url mh.image_url)) [
      | inl e ↦ ground (arith, e, h, rest)
      | inr e ↦ ground (arith, e, h, rest)
    ]

comparer_of : ManifestComparer → Result CriteriaError (Option Pruner) → ManifestComparer
comparer_of none_given (ok (some p)) = p.comparer
comparer_of none_given (ok none) = none_given
comparer_of none_given (err e) = none_given

-- The comparer of a pruner is that of its criterion.
run_pruner-comparer :
    (clock : Clock) (compile : Str → Option (Str → Bool)) (cfg : PruneConfig) (p : Pruner)
    (comparer : ManifestComparer)
    → run_pruner clock compile cfg ≡ ok (some p)
    → parse_criteria clock compile cfg ≡ ok comparer
    → p.comparer ≡ comparer
unfolding run_pruner comparer_of
run_pruner-comparer clock compile cfg p comparer run parsed =
    let text = if is_empty cfg.freq then lit "5h" else cfg.freq in
    elim (Bool-cases cfg.enabled) [
      | inr off ↦ absurd (grind (arith, off, run))
      | inl on ↦ elim (Result-cases (days2hrs text)) [
        | inr (e, bad) ↦ absurd (grind (arith, on, parsed, bad, run))
        | inl (freq, good) ↦ elim (Option-cases (clock.parse_duration freq)) [
          | inl bad ↦ absurd (grind (arith, on, parsed, good, bad, run))
          | inr (d, read) ↦
              let started : comparer_of comparer (run_pruner clock compile cfg) ≡ comparer =
                rw (run_pruner, parsed, on, good, duration_of, read) refl in
              sym (ap (comparer_of comparer) run) ∙ started
        ]
      ]
    ]

none_pass :
    (comparer : ManifestComparer) (P : ManifestHolder → Type 0)
    → ((mh : ManifestHolder) → comparer mh ≡ true → P mh)
    → (entries : List (Str × ManifestHolder))
    → All (λ (entry : Str × ManifestHolder). ¬ P entry.1) entries
    → All (λ (entry : Str × ManifestHolder). comparer entry.1 ≡ false) entries
none_pass comparer P h [] young = tt
none_pass comparer P h ((url, mh) ∷ entries) (young, rest) = (
  elim (Bool-cases (comparer mh)) [ inl e ↦ absurd (young (h mh e)) | inr e ↦ e ],
  none_pass comparer P h entries rest,
)

idle_tick :
    (env : Env) (p : Pruner) (c : Cache)
    → All (λ (entry : Str × ManifestHolder). p.comparer entry.1 ≡ false) (all_manifests c)
    → tick env p c ≡ c
unfolding tick do_prune get_manifests_compare prune_all
idle_tick env p c h = rw (select_nothing p.comparer p.count 0 (all_manifests c) h) refl

-- A pruner by creation date or last pull keeps the limit of the time at which it was started: a later
-- tick changes nothing where no cached manifest is dated more than n days before that time, however long
-- ago that was, for n from 1 to 106751, where time.ParseDuration reads whole hours within its range.
pub tick-idle :
    (env : Env) (clock : Clock)
    → ReadsHours clock
    → (compile : Str → Option (Str → Bool)) (cfg : PruneConfig) (p : Pruner) (m : ℕ)
    → suc m ≤ 106751
    → by_date cfg ≡ true
    → cfg.duration ≡ format (suc m) ++ b'd' ∷ []
    → run_pruner clock compile cfg ≡ ok (some p)
    → (c : Cache)
    → All
        (λ (entry : Str × ManifestHolder).
          ¬ IsOlder clock (days_ago clock (suc m)) (dated cfg entry.1))
        (all_manifests c)
    → tick env p c ≡ c
tick-idle env clock reads compile cfg p m h t d run c young =
    let (comparer, parsed, selects) = parse_criteria-days clock reads compile cfg m h t d in
    let same = run_pruner-comparer clock compile cfg p comparer run parsed in
    idle_tick env p c (
      none_pass p.comparer (λ mh. IsOlder clock (days_ago clock (suc m)) (dated cfg mh))
        (λ mh e. (selects mh).0 (ap (λ (f : ManifestComparer). f mh) (sym same) ∙ e))
        (all_manifests c) young)
