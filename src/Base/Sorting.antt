-- ===== src/Base/Sorting.antt =====
-- sort.Slice of Go, with the order of strings as the order: a stable insertion sort. The order that
-- sort.Slice leaves to items of the same key is the one that they have.
use Prim.Native.Nat.{suc}
use mathlib.Core.Path.{◌≡◌, refl}
use mathlib.Core.Logic.{inl, inr}
use mathlib.Core.Bool.{Bool, true, false, ◌&&◌, ◌||◌}
use mathlib.Core.List.{List, [], ◌∷◌, Perm}
use mathlib.Core.List.Perm
use native.Mathlib.Omega.{arith}
use ociregistry.Base.Lists.{All, length}
use ociregistry.Base.Tests.{◌==◌, ltb, if◌then◌else◌, Bool-cases}
use ociregistry.Base.Text.{Str}

-- a < b
unfoldable pub str_lt : Str → Str → Bool
str_lt [] [] = false
str_lt [] (y ∷ ys) = true
str_lt (x ∷ xs) [] = false
str_lt (x ∷ xs) (y ∷ ys) = ltb x y || (x == y && str_lt xs ys)

str_lt_asymm : (a b : Str) → str_lt a b ≡ true → str_lt b a ≡ false
unfolding str_lt
str_lt_asymm [] [] h = refl
str_lt_asymm [] (y ∷ ys) h = refl
str_lt_asymm (x ∷ xs) [] h = ground arith
str_lt_asymm (x ∷ xs) (y ∷ ys) h = ground (arith, str_lt_asymm xs ys)

str_le_trans : (a b c : Str) → str_lt b a ≡ false → str_lt c b ≡ false → str_lt c a ≡ false
unfolding str_lt
str_le_trans [] [] [] p q = refl
str_le_trans [] [] (z ∷ zs) p q = refl
str_le_trans [] (y ∷ ys) [] p q = ground arith
str_le_trans [] (y ∷ ys) (z ∷ zs) p q = refl
str_le_trans (x ∷ xs) [] c p q = ground arith
str_le_trans (x ∷ xs) (y ∷ ys) [] p q = ground arith
str_le_trans (x ∷ xs) (y ∷ ys) (z ∷ zs) p q = ground (arith, str_le_trans xs ys zs)

module _ {A : Type 0} (key : A → Str) where
  ordered_insert : A → List A → List A
  ordered_insert x [] = x ∷ []
  ordered_insert x (y ∷ ys) =
      let rest = ordered_insert x ys in if str_lt (key y) (key x) then y ∷ rest else x ∷ y ∷ ys

  unfoldable pub sort_by : List A → List A
  unfolding ordered_insert
  sort_by [] = []
  sort_by (x ∷ xs) = ordered_insert x (sort_by xs)

  -- No key is below an earlier one.
  abbrev pub IsAscending : List A → Type 0
  IsAscending [] = Unit
  IsAscending (x ∷ xs) = All (λ y. str_lt (key y) (key x) ≡ false) xs × IsAscending xs

  ordered_insert-All :
      (P : A → Type 0) (x : A) (l : List A) → P x → All P l → All P (ordered_insert x l)
  unfolding ordered_insert
  ordered_insert-All P x [] px pl = (px, tt)
  ordered_insert-All P x (y ∷ ys) px (py, pys) = elim (Bool-cases (str_lt (key y) (key x))) [
    | inl e ↦ rw (ordered_insert, e) (py, ordered_insert-All P x ys px pys)
    | inr e ↦ rw (ordered_insert, e) (px, (py, pys))
  ]

  pub sort_by-All : (P : A → Type 0) (l : List A) → All P l → All P (sort_by l)
  unfolding sort_by
  sort_by-All P [] h = tt
  sort_by-All P (x ∷ xs) (h, hs) = ordered_insert-All P x (sort_by xs) h (sort_by-All P xs hs)

  ordered_insert-length : (x : A) (l : List A) → length (ordered_insert x l) ≡ suc (length l)
  unfolding ordered_insert
  ordered_insert-length x [] = refl
  ordered_insert-length x (y ∷ ys) = ground (arith, ordered_insert-length x ys)

  pub sort_by-length : (l : List A) → length (sort_by l) ≡ length l
  unfolding sort_by
  sort_by-length [] = refl
  sort_by-length (x ∷ xs) = ground (arith, ordered_insert-length x (sort_by xs), sort_by-length xs)

  All-le :
      (x y : A) (l : List A)
      → str_lt (key y) (key x) ≡ false
      → All (λ z. str_lt (key z) (key y) ≡ false) l
      → All (λ z. str_lt (key z) (key x) ≡ false) l
  All-le x y [] h a = tt
  All-le x y (z ∷ zs) h (a, as_) = (str_le_trans (key x) (key y) (key z) h a, All-le x y zs h as_)

  ordered_insert-IsAscending :
      (x : A) (l : List A) → IsAscending l → IsAscending (ordered_insert x l)
  unfolding ordered_insert
  ordered_insert-IsAscending x [] h = (tt, tt)
  ordered_insert-IsAscending x (y ∷ ys) (below, h) = elim (Bool-cases (str_lt (key y) (key x))) [
    | inl e ↦
        rw (ordered_insert, e)
          (
            ordered_insert-All _ x ys (str_lt_asymm (key y) (key x) e) below,
            ordered_insert-IsAscending x ys h,
          )
    | inr e ↦ rw (ordered_insert, e) ((e, All-le x y ys e below), (below, h))
  ]

  pub sort_by-IsAscending : (l : List A) → IsAscending (sort_by l)
  unfolding sort_by
  sort_by-IsAscending [] = tt
  sort_by-IsAscending (x ∷ xs) = ordered_insert-IsAscending x (sort_by xs) (sort_by-IsAscending xs)

  ordered_insert-perm : (x : A) (l : List A) → Perm (ordered_insert x l) (x ∷ l)
  unfolding ordered_insert
  ordered_insert-perm x [] = Perm.rfl
  ordered_insert-perm x (y ∷ ys) = elim (Bool-cases (str_lt (key y) (key x))) [
    | inl e ↦
        rw (ordered_insert, e)
          (Perm.trans (Perm.cons y (ordered_insert-perm x ys)) (Perm.swap x y ys))
    | inr e ↦ rw (ordered_insert, e) Perm.rfl
  ]

  pub sort_by-perm : (l : List A) → Perm (sort_by l) l
  unfolding sort_by
  sort_by-perm [] = Perm.rfl
  sort_by-perm (x ∷ xs) =
      Perm.trans (ordered_insert-perm x (sort_by xs)) (Perm.cons x (sort_by-perm xs))
