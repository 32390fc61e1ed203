-- ===== src/Cache/Criteria/Dates.antt =====
-- The criteria by date of impl/cache/prune.go: which manifests they select, and when.
use Prim.Native.Nat.{◌≤◌, ◌<◌}
use ociregistry.Base.{
  ℕ, suc, ◌*◌, ◌≡◌, ◌↔◌, refl, ap, ◌∙◌, inl, inr, ◌⊎◌, Bool, true, false, ◌||◌, Option, none, some,
  Bool-cases, [], ◌∷◌, ◌++◌, arith, Str, lit, is_empty, str_eq, ltb, to_lower, length,
  if◌then◌else◌, ok, has_prefix,
}
use ociregistry.Base.Decimal.{some-injective, format, format_ℤ, format-head}
use ociregistry.Base.Int.{ℤ, negsuc, neg_ℕ, add_ℤ, ltb_ℤ, times_ℕ}
use ociregistry.Clock.{Clock}
use ociregistry.Config.{PruneConfig}
use ociregistry.Imgpull.{ManifestHolder}
use ociregistry.Cache.Query.{ManifestComparer}
use ociregistry.Cache.Criteria.{
  calc_cutoff, duration_of, is_one_of, days2hrs, created_before, pulled_before, before,
  comparer_for, parse_criteria,
}
use ociregistry.Cache.Criteria.Durations.{days2hrs-exact_iff}

-- time.ParseDuration reads a whole number of hours, before now, whose nanoseconds fit in 64 bits.
abbrev pub ReadsHours : Clock → Type 0
ReadsHours clock =
    (h : ℕ)
    → 0 < h
    → h * 3600000000000 ≤ 9223372036854775808
    → clock.parse_duration (format_ℤ (neg_ℕ h) ++ b'h' ∷ []) ≡ some (neg_ℕ (h * 3600000000000))

-- n days in nanoseconds
abbrev pub days_ago : Clock → ℕ → ℤ
days_ago clock n = add_ℤ clock.now (neg_ℕ (n * 86400000000000))

abbrev pub by_date : PruneConfig → Bool
by_date cfg = is_one_of (to_lower cfg.prune_type) (lit "created" ∷ lit "accessed" ∷ [])

some_type :
    (s : Str)
    → is_one_of (to_lower s) (lit "created" ∷ lit "accessed" ∷ []) ≡ true
    → is_empty s ≡ false
unfolding is_empty str_eq to_lower
some_type [] h = ground (arith, h)
some_type (c ∷ s) h = refl

days_length : (t : Str) (c : ℕ) → ltb (length (c ∷ t ++ b'd' ∷ [])) 2 ≡ false
days_length [] c = refl
days_length (b ∷ t) c = ground arith

days_text :
    (n : ℕ)
    → (ltb (length (format n ++ b'd' ∷ [])) 2 ≡ false)
      × (has_prefix (format n ++ b'd' ∷ []) (lit "-") ≡ false)
unfolding has_prefix
days_text n = let (c, t, e, d) = format-head n in (rw e (days_length t c), rw e (ground (arith, d)))

-- The date that a criterion looks at.
abbrev pub dated : PruneConfig → ManifestHolder → Str
dated cfg mh = if str_eq (to_lower cfg.prune_type) (lit "created") then mh.created else mh.pulled

-- The text names a time before the limit.
abbrev pub IsOlder : Clock → ℤ → Str → Type 0
IsOlder clock limit text =
    (is_empty text ≡ false) × (t : ℤ) × (clock.parse_time text ≡ some t) × (ltb_ℤ t limit ≡ true)

comparer_by_date : Clock → PruneConfig → ℤ → ManifestComparer
comparer_by_date clock cfg limit =
    if str_eq (to_lower cfg.prune_type) (lit "created")
    then created_before clock (some limit)
    else pulled_before clock (some limit)

before_iff :
    (empty : Bool) (time : Option ℤ) (limit : ℤ)
    → ((if empty then false else before time (some limit)) ≡ true)
      ↔ ((empty ≡ false) × (t : ℤ) × (time ≡ some t) × (ltb_ℤ t limit ≡ true))
before_iff true time limit =
    (λ e. absurd (ground (arith, e)), λ (e, _, _, _). absurd (ground (arith, e)))
before_iff false none limit =
    (λ e. absurd (ground (arith, e)), λ (_, t, e, _). absurd (ground (arith, e)))
before_iff false (some t) limit =
    (λ e. (refl, t, refl, e), λ (_, u, e, lt). ap (λ z. ltb_ℤ z limit) (some-injective e) ∙ lt)

by_date_cases :
    (created accessed : Bool)
    → (created || (accessed || false)) ≡ true
    → (created ≡ true) ⊎ ((created ≡ false) × (accessed ≡ true))
by_date_cases true accessed h = inl refl
by_date_cases false true h = inr (refl, refl)
by_date_cases false false h = absurd (ground (arith, h))

parse_criteria-cutoff :
    (clock : Clock) (compile : Str → Option (Str → Bool)) (cfg : PruneConfig) (limit : ℤ)
    → by_date cfg ≡ true
    → calc_cutoff clock cfg ≡ ok (some limit)
    → parse_criteria clock compile cfg ≡ ok (comparer_by_date clock cfg limit)
unfolding parse_criteria comparer_for comparer_by_date
parse_criteria-cutoff clock compile cfg limit t cutoff =
    let kind = to_lower cfg.prune_type in
    elim (by_date_cases (str_eq kind (lit "created")) (str_eq kind (lit "accessed")) t) [
      | inl e ↦ grind (arith, cutoff, e)
      | inr (e, e') ↦ grind (arith, cutoff, e, e')
    ]

comparer_iff :
    (clock : Clock) (cfg : PruneConfig) (limit : ℤ) (mh : ManifestHolder)
    → (comparer_by_date clock cfg limit mh ≡ true) ↔ IsOlder clock limit (dated cfg mh)
unfolding comparer_by_date created_before pulled_before
comparer_iff clock cfg limit mh =
    elim (Bool-cases (str_eq (to_lower cfg.prune_type) (lit "created"))) [
      | inl e ↦ rw e (before_iff (is_empty mh.created) (clock.parse_time mh.created) limit)
      | inr e ↦ rw e (before_iff (is_empty mh.pulled) (clock.parse_time mh.pulled) limit)
    ]

module _ (clock : Clock) (reads : ReadsHours clock) where
  hours_ago :
      (m : ℕ)
      → suc m ≤ 106751
      → days2hrs (b'-' ∷ format (suc m) ++ b'd' ∷ [])
        ≡ ok (format_ℤ (neg_ℕ (suc m * 24)) ++ b'h' ∷ [])
  hours_ago m h =
      let same : times_ℕ (negsuc m) 24 ≡ neg_ℕ (suc m * 24) = ground arith in
      (days2hrs-exact_iff (negsuc m) (omega arith)).1 (omega arith)
      ∙ ap (λ z. ok (format_ℤ z ++ b'h' ∷ [])) same

  calc_cutoff-days :
      (cfg : PruneConfig) (m : ℕ)
      → suc m ≤ 106751
      → by_date cfg ≡ true
      → cfg.duration ≡ format (suc m) ++ b'd' ∷ []
      → calc_cutoff clock cfg ≡ ok (some (days_ago clock (suc m)))
  unfolding calc_cutoff
  calc_cutoff-days cfg m h t d =
      let (long, plain) = days_text (suc m) in
      let hours = hours_ago m h in
      let read = reads (suc m * 24) (omega arith) (omega arith) in
      rw (d, t, some_type cfg.prune_type t, long, plain, hours, duration_of, read)
        (ap (λ k. ok (some (add_ℤ clock.now (neg_ℕ k)))) (omega arith))

  -- A criterion of the type created or accessed, in any case of letters, with a duration of n days,
  -- for n from 1 to 106751, is accepted, and selects exactly the manifests whose date of creation, or of
  -- the last pull, can be read and is more than n days before the time at which the criterion is parsed,
  -- where time.ParseDuration reads whole hours within its range.
  pub parse_criteria-days :
      (compile : Str → Option (Str → Bool)) (cfg : PruneConfig) (m : ℕ)
      → suc m ≤ 106751
      → by_date cfg ≡ true
      → cfg.duration ≡ format (suc m) ++ b'd' ∷ []
      → (comparer : ManifestComparer) × (parse_criteria clock compile cfg ≡ ok comparer)
        × ((mh : ManifestHolder)
            → (comparer mh ≡ true) ↔ IsOlder clock (days_ago clock (suc m)) (dated cfg mh))
  parse_criteria-days compile cfg m h t d =
      let limit = days_ago clock (suc m) in
      (
        comparer_by_date clock cfg limit,
        parse_criteria-cutoff clock compile cfg limit t (calc_cutoff-days cfg m h t d),
        comparer_iff clock cfg limit,
      )
