-- ===== src/Base/Decimal.antt =====
-- Decimal numbers: strconv.Atoi, and the verb %d of package fmt.
use Prim.Native.Nat.{ℕ, zero, suc, ◌+◌, ◌-◌, ◌*◌, ◌/◌, ◌%◌, ◌<◌}
use mathlib.Core.Path.{◌≡◌, refl, sym, ap, ◌∙◌}
use mathlib.Core.Logic.{ite, dite, ◌≢◌}
use mathlib.Core.Bool.{Bool, true, false, ◌&&◌}
use mathlib.Core.Option.{Option, none, some}
use mathlib.Core.List.{[], ◌∷◌, ◌++◌}
use mathlib.Core.WellFounded.{Acc, Acc-prop}
use native.Mathlib.Decide.{dec_lt}
use native.Mathlib.Omega.{arith}
use ociregistry.Base.Tests.{leb, ltb, ◌==◌, if◌then◌else◌}
use ociregistry.Base.Text.{Str}
use ociregistry.Base.Int.{ℤ, pos, negsuc}

-- strconv.Atoi: an optional sign, then decimal digits, within 64 bits.
abbrev is_digit : ℕ → Bool
is_digit c = leb b'0' c && leb c b'9'

abbrev digits : Str → ℕ → Option ℕ
digits [] n = some n
digits (c ∷ s) n = elim (is_digit c) [ true ↦ digits s (10 * n + (c - b'0')) | false ↦ none ]

abbrev magnitude : Str → Option ℕ
magnitude [] = none
magnitude (c ∷ s) = digits (c ∷ s) 0

abbrev pub in_range : Bool → ℕ → Option ℤ
in_range true n =
    if leb n 9223372036854775808
    then (if n == 0 then some (pos 0) else some (negsuc (n - 1)))
    else none
in_range false n = if ltb n 9223372036854775808 then some (pos n) else none

abbrev signed : Bool → Str → Option ℤ
signed negative s = elim (magnitude s) [ none ↦ none | some n ↦ in_range negative n ]

unfoldable pub atoi : Str → Option ℤ
atoi [] = none
atoi (c ∷ s) =
    if c == b'-'
    then signed true s
    else (if c == b'+' then signed false s else signed false (c ∷ s))

-- A value of Go's `int`.
abbrev pub Fits : ℤ → Type 0
Fits (pos n) = n < 9223372036854775808
Fits (negsuc n) = n < 9223372036854775808

-- The digits of a number, the last one by its remainder.
acc_below : (k n : ℕ) → n < k → Acc ◌<◌ n
acc_below zero n h = absurd (omega arith)
acc_below (suc k) n h = Acc.intro n λ m lt. acc_below k m (omega arith)

tenth_lt : (n : ℕ) → 0 < n → n / 10 < n
tenth_lt n h = omega arith

acc : (n : ℕ) → Acc ◌<◌ n
unfolding acc_below
acc n = acc_below (suc n) n (omega arith)

decimal : (n : ℕ) → Acc ◌<◌ n → Str
decimal n (Acc.intro _ smaller) =
    dite (dec_lt 9 n)
      (λ h. decimal (n / 10) (smaller (n / 10) (tenth_lt n (omega arith))) ++ (b'0' + n % 10) ∷ [])
      (λ _. (b'0' + n) ∷ [])

unfoldable pub format : ℕ → Str
unfolding decimal acc acc_below dec_lt tenth_lt
format n = decimal n (acc n)

-- fmt.Sprintf("%d", z)
abbrev pub format_ℤ : ℤ → Str
format_ℤ (pos n) = format n
format_ℤ (negsuc n) = b'-' ∷ format (suc n)

append_assoc : (a b c : Str) → (a ++ b) ++ c ≡ a ++ (b ++ c)
append_assoc [] b c = refl
append_assoc (x ∷ a) b c = ap (λ t. x ∷ t) (append_assoc a b c)

digits_last : (n : ℕ) (s : Str) → digits ((b'0' + n % 10) ∷ s) (n / 10) ≡ digits s n
digits_last n s = ground arith

decimal_step :
    (n : ℕ) (w : Acc ◌<◌ n) (w' : Acc ◌<◌ (n / 10))
    → decimal n w ≡ ite (dec_lt 9 n) (decimal (n / 10) w' ++ (b'0' + n % 10) ∷ []) ((b'0' + n) ∷ [])
unfolding decimal
decimal_step n (Acc.intro _ smaller) w' = λ i.
    dite (dec_lt 9 n)
      (λ h.
        decimal (n / 10) (Acc-prop (smaller (n / 10) (tenth_lt n (omega arith))) w' i)
        ++ (b'0' + n % 10) ∷ [])
      (λ _. (b'0' + n) ∷ [])

format_step :
    (n : ℕ)
    → format n ≡ ite (dec_lt 9 n) (format (n / 10) ++ (b'0' + n % 10) ∷ []) ((b'0' + n) ∷ [])
unfolding format
format_step n = decimal_step n (acc n) (acc (n / 10))

digits_below : (k n : ℕ) (s : Str) → n < k → digits (format n ++ s) 0 ≡ digits s n
digits_below zero n s h = absurd (omega arith)
digits_below (suc k) n s h = elim (dec_lt 9 n) [
  | yes large ↦
      let ih = digits_below k (n / 10) ((b'0' + n % 10) ∷ s) (omega arith) in
      grind (
        arith,
        format_step n,
        append_assoc (format (n / 10)) ((b'0' + n % 10) ∷ []) s,
        ih,
        digits_last n s,
      )
  | no small ↦ grind (arith, format_step n)
]

-- A decimal number ends where its digits end.
pub digits-format : (n : ℕ) (s : Str) → digits (format n ++ s) 0 ≡ digits s n
digits-format n s = digits_below (suc n) n s (omega arith)

head_below : (k n : ℕ) → n < k → (c : ℕ) × (t : Str) × (format n ≡ c ∷ t) × (is_digit c ≡ true)
head_below zero n h = absurd (omega arith)
head_below (suc k) n h = elim (dec_lt 9 n) [
  | yes large ↦
      let (c, t, e, d) = head_below k (n / 10) (omega arith) in
      (c, t ++ (b'0' + n % 10) ∷ [], grind (arith, format_step n, e), d)
  | no small ↦ (b'0' + n, [], grind (arith, format_step n), ground arith)
]

-- A decimal number starts with a digit.
pub format-head : (n : ℕ) → (c : ℕ) × (t : Str) × (format n ≡ c ∷ t) × (is_digit c ≡ true)
format-head n = head_below (suc n) n (omega arith)

append_nil : (a : Str) → a ++ [] ≡ a
append_nil [] = refl
append_nil (c ∷ a) = ap (λ t. c ∷ t) (append_nil a)

digits_all : (n : ℕ) → digits (format n) 0 ≡ some n
digits_all n = ap (λ t. digits t 0) (sym (append_nil (format n))) ∙ digits-format n []

magnitude-format : (n : ℕ) → magnitude (format n) ≡ some n
magnitude-format n =
    let (c, t, e, d) = format-head n in rw e (ap (λ s. digits s 0) (sym e) ∙ digits_all n)

-- An integer of 64 bits is read back from its decimal print.
pub atoi-format_ℤ : (z : ℤ) → Fits z → atoi (format_ℤ z) ≡ some z
unfolding atoi
atoi-format_ℤ (pos n) h =
    let (c, t, e, d) = format-head n in grind (arith, e, d, h, magnitude-format n)
atoi-format_ℤ (negsuc n) h = grind (arith, h, magnitude-format (suc n))

pub some-injective : {A : Type 0} {a b : A} → some a ≡ some b → a ≡ b
some-injective e = cc e

format-injective : (a b : ℕ) → format a ≡ format b → a ≡ b
format-injective a b e =
    some-injective (sym (magnitude-format a) ∙ ap magnitude e ∙ magnitude-format b)

format-ne-minus : (n : ℕ) (s : Str) → format n ≢ b'-' ∷ s
format-ne-minus n s h = let (c, t, e, d) = format-head n in grind (arith, e, d, h)

tail_eq : {c : ℕ} {s t : Str} → (c ∷ s) ≡ (c ∷ t) → s ≡ t
tail_eq e = cc e

-- Different integers print differently.
pub format_ℤ-injective : (a b : ℤ) → format_ℤ a ≡ format_ℤ b → a ≡ b
format_ℤ-injective (pos a) (pos b) e = ap pos (format-injective a b e)
format_ℤ-injective (pos a) (negsuc b) e = absurd (format-ne-minus a (format (suc b)) e)
format_ℤ-injective (negsuc a) (pos b) e = absurd (format-ne-minus b (format (suc a)) (sym e))
format_ℤ-injective (negsuc a) (negsuc b) e =
    let same = format-injective (suc a) (suc b) (tail_eq e) in ap negsuc (omega arith)

check_format : format 1205 ≡ 49 ∷ 50 ∷ 48 ∷ 53 ∷ []
unfolding format
check_format = refl
