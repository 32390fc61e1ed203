-- ===== src/Cache/Criteria/Indexing.antt =====
-- days2hrs of impl/cache/prune.go indexes the last byte of its text: the texts that it is called on.
use ociregistry.Base.{
  ℕ, ◌≡◌, ◌≢◌, inl, inr, Bool, true, false, ◌==◌, Bool-cases, Option, none, some, Option-cases,
  List, [], ◌∷◌, arith, Str, lit, unsnoc, is_empty, str_eq, has_prefix, to_lower, split,
  if◌then◌else◌, Result, ok, err, ◌>>=◌,
}
use ociregistry.Base.Int.{ℤ}
use ociregistry.Base.Decimal.{atoi}
use ociregistry.Clock.{Clock}
use ociregistry.Config.{PruneConfig}
use ociregistry.Patterns.{compile_parts, any_match}
use ociregistry.Cache.Query.{ManifestComparer}
use ociregistry.Cache.Criteria.{
  CriteriaError, index_out_of_range, bad_expression, bad_days, bad_duration, missing_duration,
  unsupported_type, unknown_type, days2hrs, duration_of, calc_cutoff, created_before, pulled_before,
  comparer_for, parse_criteria, run_pruner,
}

-- A call that does not index the empty string.
pub data IsInRange {A : Type 0} : Result CriteriaError A → Type 0 where
  in_ok : (a : A) → IsInRange (ok a)
  in_err : (e : CriteriaError) → e ≢ index_out_of_range → IsInRange (err e)

unsnoc-cons : (c : ℕ) (v : Str) → (front : Str) × (last : ℕ) × (unsnoc (c ∷ v) ≡ some (front, last))
unfolding unsnoc
unsnoc-cons c v = elim (Option-cases (unsnoc v)) [
  | inl e ↦ ([], c, ground (arith, e))
  | inr ((front, last), e) ↦ (c ∷ front, last, ground (arith, e))
]

module _ {A : Type 0} where
  if-IsInRange :
      (b : Bool) (m n : Result CriteriaError A)
      → IsInRange m
      → IsInRange n
      → IsInRange (if b then m else n)
  if-IsInRange true m n hm hn = hm
  if-IsInRange false m n hm hn = hn

  bind-IsInRange :
      {B : Type 0} (m : Result CriteriaError B) (f : B → Result CriteriaError A)
      → IsInRange m
      → ((b : B) → IsInRange (f b))
      → IsInRange (m >>= f)
  bind-IsInRange (ok b) f hm hf = hf b
  bind-IsInRange (err e) f (in_err _ ne) hf = in_err e ne

  opt-IsInRange :
      {B : Type 0} (o : Option B) (e : CriteriaError) (f : B → A)
      → e ≢ index_out_of_range
      → IsInRange (elim o [ none ↦ err e | some b ↦ ok (f b) ])
  opt-IsInRange none e f ne = in_err e ne
  opt-IsInRange (some b) e f ne = in_ok (f b)

days2hrs-IsInRange : (c : ℕ) (v : Str) → IsInRange (days2hrs (c ∷ v))
unfolding days2hrs
days2hrs-IsInRange c v =
    let (front, last, e) = unsnoc-cons c v in
    rw (days2hrs, e)
      (if-IsInRange (last == b'd') _ _
        (opt-IsInRange (atoi front) (bad_days front) _ (λ h. ground (arith, h))) (in_ok _))

duration_of-IsInRange : (clock : Clock) (s : Str) → IsInRange (duration_of clock s)
duration_of-IsInRange clock s =
    opt-IsInRange (clock.parse_duration s) (bad_duration s) (λ d. d) λ h. ground (arith, h)

signed-IsInRange : (d : Str) → IsInRange (days2hrs (if has_prefix d (lit "-") then d else b'-' ∷ d))
unfolding has_prefix
signed-IsInRange [] = days2hrs-IsInRange b'-' []
signed-IsInRange (c ∷ d) = elim (Bool-cases (c == b'-')) [
  | inl e ↦ rw e (days2hrs-IsInRange c d)
  | inr e ↦ rw e (days2hrs-IsInRange b'-' (c ∷ d))
]

calc_cutoff-IsInRange : (clock : Clock) (cfg : PruneConfig) → IsInRange (calc_cutoff clock cfg)
unfolding calc_cutoff
calc_cutoff-IsInRange clock cfg = if-IsInRange _ _ _ (in_ok none) (
    if-IsInRange _ _ _ (in_err missing_duration λ h. ground (arith, h)) (
      bind-IsInRange _ _ (signed-IsInRange cfg.duration)
        λ hours. bind-IsInRange _ _ (duration_of-IsInRange clock hours) λ dur. in_ok _))

module _ (clock : Clock) (compile : Str → Option (Str → Bool)) (cfg : PruneConfig) where
  pattern-IsInRange :
      (parts : Result Str (List (Str → Bool)))
      → IsInRange {A = ManifestComparer}
          (elim parts [ err ref ↦ err (bad_expression ref) | ok srchs ↦ ok (any_match srchs) ])
  pattern-IsInRange (ok srchs) = in_ok (any_match srchs)
  pattern-IsInRange (err ref) = in_err (bad_expression ref) λ h. ground (arith, h)

  comparer_for-IsInRange : (cutoff : Option ℤ) → IsInRange (comparer_for clock compile cfg cutoff)
  unfolding comparer_for
  comparer_for-IsInRange cutoff =
      let kind = to_lower cfg.prune_type in
      if-IsInRange (str_eq kind (lit "created")) _ _ (in_ok (created_before clock cutoff)) (
        if-IsInRange (str_eq kind (lit "accessed")) _ _ (in_ok (pulled_before clock cutoff)) (
          if-IsInRange (str_eq kind (lit "pattern")) _ _
            (pattern-IsInRange (compile_parts compile (split cfg.expr b',')))
            (in_err (unsupported_type cfg.prune_type) λ h. ground (arith, h))))

  parse_criteria-IsInRange : IsInRange (parse_criteria clock compile cfg)
  unfolding parse_criteria
  parse_criteria-IsInRange =
      if-IsInRange _ _ _ (in_err (unknown_type cfg.prune_type) λ h. ground (arith, h))
        (bind-IsInRange _ _ (calc_cutoff-IsInRange clock cfg) comparer_for-IsInRange)

  freq-IsInRange : (freq : Str) → IsInRange (days2hrs (if is_empty freq then lit "5h" else freq))
  unfolding is_empty
  freq-IsInRange [] = days2hrs-IsInRange b'5' (b'h' ∷ [])
  freq-IsInRange (c ∷ freq) = days2hrs-IsInRange c freq

  run_pruner-IsInRange : IsInRange (run_pruner clock compile cfg)
  unfolding run_pruner
  run_pruner-IsInRange = if-IsInRange _ _ _ (in_ok none) (
      bind-IsInRange _ _ parse_criteria-IsInRange λ comparer.
        bind-IsInRange _ _ (freq-IsInRange cfg.freq)
          λ freq. bind-IsInRange _ _ (duration_of-IsInRange clock freq) λ run_freq. in_ok _)

not_out_of_range :
    {A : Type 0} (m : Result CriteriaError A) → IsInRange m → m ≢ err index_out_of_range
not_out_of_range (ok a) (in_ok _) h = ground (arith, h)
not_out_of_range (err e) (in_err _ ne) h = ne (cc h)

-- Whatever the configuration, neither ParseCriteria nor RunPruner indexes an empty string: days2hrs is
-- only called on texts with a byte.
pub never_out_of_range :
    (clock : Clock) (compile : Str → Option (Str → Bool)) (cfg : PruneConfig)
    → (parse_criteria clock compile cfg ≢ err index_out_of_range)
      × (run_pruner clock compile cfg ≢ err index_out_of_range)
never_out_of_range clock compile cfg = (
  not_out_of_range _ (parse_criteria-IsInRange clock compile cfg),
  not_out_of_range _ (run_pruner-IsInRange clock compile cfg),
)
