-- ===== src/Cache/Criteria/Durations.antt =====
-- days2hrs of impl/cache/prune.go on decimal numbers of days.
use ociregistry.Base.{
  ℕ, suc, ◌≤◌, ◌≡◌, ◌↔◌, sym, ap, ◌∙◌, Option, none, some, [], ◌∷◌, ◌++◌, arith, Str, unsnoc,
  unsnoc-append, Result, ok,
}
use ociregistry.Base.Decimal.{Fits, format_ℤ, format_ℤ-injective, atoi-format_ℤ}
use ociregistry.Base.Int.{ℤ, pos, negsuc, times_ℕ, wrap_64}
use ociregistry.Cache.Criteria.{CriteriaError, days2hrs}

-- What days2hrs makes of an integer of 64 bits.
pub days2hrs-format_ℤ :
    (z : ℤ)
    → Fits z
    → days2hrs (format_ℤ z ++ b'd' ∷ []) ≡ ok (format_ℤ (wrap_64 (times_ℕ z 24)) ++ b'h' ∷ [])
unfolding days2hrs
days2hrs-format_ℤ z h = ground (arith, unsnoc-append (format_ℤ z) b'd', atoi-format_ℤ z h)

-- The number of days whose hours fit in 64 bits.
abbrev pub InBounds : ℤ → Type 0
InBounds (pos n) = n ≤ 384307168202282325
InBounds (negsuc n) = suc n ≤ 384307168202282325

wrap_64-times_ℕ : (z : ℤ) → InBounds z → wrap_64 (times_ℕ z 24) ≡ times_ℕ z 24
unfolding wrap_64
wrap_64-times_ℕ z h = ground (arith, h)

wrap_64-InBounds : (z : ℤ) → wrap_64 (times_ℕ z 24) ≡ times_ℕ z 24 → InBounds z
unfolding wrap_64
wrap_64-InBounds (pos n) h = ground (arith, h)
wrap_64-InBounds (negsuc n) h = ground (arith, h)

front : Option (Str × ℕ) → Str
front none = []
front (some (a, c)) = a

last_cancel : (a b : Str) (c : ℕ) → a ++ c ∷ [] ≡ b ++ c ∷ [] → a ≡ b
unfolding front
last_cancel a b c e = ap front (sym (unsnoc-append a c) ∙ ap unsnoc e ∙ unsnoc-append b c)

ok-injective : {a b : Str} → ◌≡◌ {A = Result CriteriaError Str} (ok a) (ok b) → a ≡ b
ok-injective e = cc e

-- A number of days of 64 bits becomes its 24-fold in hours exactly when that fits in 64 bits, which
-- is for at most 384307168202282325 days, before or after.
pub days2hrs-exact_iff :
    (z : ℤ)
    → Fits z
    → (days2hrs (format_ℤ z ++ b'd' ∷ []) ≡ ok (format_ℤ (times_ℕ z 24) ++ b'h' ∷ [])) ↔ InBounds z
days2hrs-exact_iff z h = (
  λ e. wrap_64-InBounds z (
      format_ℤ-injective _ _
        (last_cancel _ _ b'h' (ok-injective (sym (days2hrs-format_ℤ z h) ∙ e)))),
  λ b. days2hrs-format_ℤ z h ∙ ap (λ t. ok (format_ℤ t ++ b'h' ∷ [])) (wrap_64-times_ℕ z b),
)
