-- ===== src/Base/Text.antt =====
-- Go strings: sequences of bytes, and the functions of package `strings` that the program calls,
-- for one-byte separators. `to_lower` is `strings.ToLower` on ASCII bytes; other bytes stay.
use Prim.Native.Nat.{ℕ, ◌+◌}
use Prim.Native.Char.{code}
use Prim.Native.String.{String}
use mathlib.Core.Path.{◌≡◌, refl, ap}
use mathlib.Core.Logic.{◌↔◌, ◌≢◌}
use mathlib.Core.Bool.{Bool, true, false, ◌&&◌, ◌||◌}
use mathlib.Core.Option.{Option, none, some}
use mathlib.Core.List.{List, [], ◌∷◌, ◌++◌, map}
use native.Mathlib.Omega.{arith}
use ociregistry.Base.Tests.{◌==◌, leb, if◌then◌else◌}

abbrev pub Str : Type 0
Str = List ℕ

-- The bytes of an ASCII literal.
abbrev pub lit : String → Str
lit String.[] = []
lit (String.◌∷◌ c s) = code c ∷ lit s

unfoldable pub str_eq : Str → Str → Bool
str_eq [] [] = true
str_eq [] (y ∷ ys) = false
str_eq (x ∷ xs) [] = false
str_eq (x ∷ xs) (y ∷ ys) = x == y && str_eq xs ys

pub str_eq_iff : (a b : Str) → (str_eq a b ≡ true) ↔ (a ≡ b)
unfolding str_eq
str_eq_iff [] [] = ground arith
str_eq_iff [] (y ∷ ys) = ground arith
str_eq_iff (x ∷ xs) [] = ground arith
str_eq_iff (x ∷ xs) (y ∷ ys) = ground (arith, str_eq_iff xs ys)

pub str_eq_refl : (a : Str) → str_eq a a ≡ true
str_eq_refl a = (str_eq_iff a a).1 refl

pub str_eq_ne : (a b : Str) → a ≢ b → str_eq a b ≡ false
str_eq_ne a b h = ground (arith, str_eq_iff a b, h)

pub ruleset str_laws = (str_eq_iff, str_eq_refl)

-- s[:len(s)-1] and s[len(s)-1], or none where the index is out of range
unfoldable pub unsnoc : Str → Option (Str × ℕ)
unsnoc [] = none
unsnoc (c ∷ s) = elim (unsnoc s) [
  | none ↦ some ([], c)
  | some (front, last) ↦ some (c ∷ front, last)
]

pub unsnoc-append : (s : Str) (c : ℕ) → unsnoc (s ++ c ∷ []) ≡ some (s, c)
unfolding unsnoc
unsnoc-append [] c = refl
unsnoc-append (b ∷ s) c = ground (arith, unsnoc-append s c)

-- s == ""
unfoldable pub is_empty : Str → Bool
is_empty [] = true
is_empty (c ∷ s) = false

-- strings.HasPrefix(s, p)
unfoldable pub has_prefix : Str → Str → Bool
has_prefix s [] = true
has_prefix [] (p ∷ ps) = false
has_prefix (c ∷ s) (p ∷ ps) = c == p && has_prefix s ps

-- strings.TrimPrefix(s, p)
unfoldable pub trim_prefix : Str → Str → Str
trim_prefix s p = if has_prefix s p then drop_prefix s p else s
  where
    drop_prefix : Str → Str → Str
    drop_prefix s [] = s
    drop_prefix [] (p ∷ ps) = []
    drop_prefix (c ∷ s) (p ∷ ps) = drop_prefix s ps

-- strings.Contains(s, sub) for a substring of one byte
unfoldable pub contains_byte : Str → ℕ → Bool
contains_byte [] sep = false
contains_byte (c ∷ s) sep = c == sep || contains_byte s sep

-- strings.Contains(s, sub)
unfoldable pub contains : Str → Str → Bool
unfolding has_prefix
contains [] sub = has_prefix [] sub
contains (c ∷ s) sub = has_prefix (c ∷ s) sub || contains s sub

-- strings.Cut(s, sep)
pub record Cut : Type 0 where
  pub before : Str
  pub after : Str
  pub found : Bool

unfoldable pub cut : Str → ℕ → Cut
cut [] sep = record { before = []; after = []; found = false }
cut (c ∷ s) sep =
    let rest = cut s sep in
    if c == sep
    then record { before = []; after = s; found = true }
    else record { before = c ∷ rest.before; after = rest.after; found = rest.found }

-- strings.Split(s, sep): the first piece and the others, of which there may be none.
abbrev push_front : ℕ → List Str → List Str
push_front c [] = (c ∷ []) ∷ []
push_front c (p ∷ ps) = (c ∷ p) ∷ ps

unfoldable pub split : Str → ℕ → List Str
split [] sep = [] ∷ []
split (c ∷ s) sep = let rest = split s sep in if c == sep then [] ∷ rest else push_front c rest

-- strings.Join(elems, sep)
unfoldable pub join : List Str → Str → Str
join [] sep = []
join (p ∷ []) sep = p
join (p ∷ (q ∷ ps)) sep = p ++ (sep ++ join (q ∷ ps) sep)

-- strings.ToLower
abbrev pub lower_byte : ℕ → ℕ
lower_byte c = if leb b'A' c && leb c b'Z' then c + 32 else c

unfoldable pub to_lower : Str → Str
to_lower = map lower_byte

pub to_lower_idem : (s : Str) → to_lower (to_lower s) ≡ to_lower s
unfolding to_lower
to_lower_idem [] = refl
to_lower_idem (c ∷ s) = cc (lower_byte_idem, to_lower_idem s)
  where
    lower_byte_idem : lower_byte (lower_byte c) ≡ lower_byte c
    lower_byte_idem = ground arith

pub to_lower-append : (a b : Str) → to_lower (a ++ b) ≡ to_lower a ++ to_lower b
unfolding to_lower
to_lower-append [] b = refl
to_lower-append (c ∷ a) b = ap (λ t. lower_byte c ∷ t) (to_lower-append a b)

pub contains_byte-append :
    (a b : Str) (sep : ℕ)
    → contains_byte (a ++ b) sep ≡ (contains_byte a sep || contains_byte b sep)
unfolding contains_byte
contains_byte-append [] b sep = refl
contains_byte-append (c ∷ a) b sep = ground (arith, contains_byte-append a b sep)

-- Cut at the first separator.
pub cut-append :
    (a b : Str) (sep : ℕ)
    → contains_byte a sep ≡ false
    → cut (a ++ sep ∷ b) sep ≡ record { before = a; after = b; found = true }
unfolding cut contains_byte
cut-append [] b sep h = ground arith
cut-append (c ∷ a) b sep h = ground (arith, cut-append a b sep)

pub cut_missing :
    (a : Str) (sep : ℕ)
    → contains_byte a sep ≡ false
    → cut a sep ≡ record { before = a; after = []; found = false }
unfolding cut contains_byte
cut_missing [] sep h = ground arith
cut_missing (c ∷ a) sep h = ground (arith, cut_missing a sep)

pub split_missing : (a : Str) (sep : ℕ) → contains_byte a sep ≡ false → split a sep ≡ a ∷ []
unfolding split contains_byte
split_missing [] sep h = refl
split_missing (c ∷ a) sep h = ground (arith, split_missing a sep)

pub split-append :
    (a b : Str) (sep : ℕ) → contains_byte a sep ≡ false → split (a ++ sep ∷ b) sep ≡ a ∷ split b sep
unfolding split contains_byte
split-append [] b sep h = ground arith
split-append (c ∷ a) b sep h = ground (arith, split-append a b sep)

pub has_prefix-append : (p s : Str) → has_prefix (p ++ s) p ≡ true
unfolding has_prefix
has_prefix-append [] s = refl
has_prefix-append (c ∷ p) s = ground (arith, has_prefix-append p s)

-- strings.TrimSpace, on ASCII bytes
abbrev pub is_space : ℕ → Bool
is_space c = c == 32 || (leb 9 c && leb c 13)

abbrev pub trim_left : Str → Str
trim_left [] = []
trim_left (c ∷ s) = let rest = trim_left s in if is_space c then rest else c ∷ s

unfoldable pub trim_right : Str → Str
unfolding is_empty
trim_right [] = []
trim_right (c ∷ s) = let rest = trim_right s in if is_empty rest && is_space c then [] else c ∷ rest

abbrev pub trim_space : Str → Str
trim_space s = trim_left (trim_right s)
