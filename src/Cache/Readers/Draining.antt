-- ===== src/Cache/Readers/Draining.antt =====
-- impl/cache/query.go and io.Copy: what is copied of a reader whose state is the number of its next item.
use ociregistry.Base.{
  ℕ, zero, suc, ◌+◌, ◌*◌, ◌≤◌, ◌<◌, ◌≡◌, refl, ap, ◌∙◌, Option, none, some, List, [], ◌∷◌, ◌++◌,
  Str, lit, take, drop, length, length-append, All, arith,
}
use mathlib.Core.List.{append_assoc}
use ociregistry.Cache.Readers.{get_elem?, header, copy}

module _ {A : Type 0} where
  get_elem?-drop_nil : (l : List A) (i : ℕ) → drop i l ≡ [] → get_elem? l i ≡ none
  unfolding get_elem?
  get_elem?-drop_nil [] i h = refl
  get_elem?-drop_nil (x ∷ xs) zero h = cc h
  get_elem?-drop_nil (x ∷ xs) (suc i) h = get_elem?-drop_nil xs i h

  get_elem?-drop_cons :
      (l : List A) (i : ℕ) (a : A) (rest : List A)
      → drop i l ≡ a ∷ rest
      → (get_elem? l i ≡ some a) × (drop (suc i) l ≡ rest)
  unfolding get_elem?
  get_elem?-drop_cons [] zero a rest h = cc h
  get_elem?-drop_cons [] (suc i) a rest h = cc h
  get_elem?-drop_cons (x ∷ xs) zero a rest h = (cc h, cc h)
  get_elem?-drop_cons (x ∷ xs) (suc i) a rest h = get_elem?-drop_cons xs i a rest h

  -- What the items of a list give, one after the other; the first has the number `i`.
  unfoldable pub pieces : (ℕ → A → Str) → ℕ → List A → Str
  pieces piece i [] = []
  pieces piece i (x ∷ xs) = piece i x ++ pieces piece (suc i) xs

-- A reader whose state is the number of the next item.
unfoldable pub read_item : {A R : Type 0} → (ℕ → R) → List A → (ℕ → A → Str) → ℕ → R × Option Str
read_item state items piece i = elim (get_elem? items i) [
  | none ↦ (state i, none)
  | some a ↦ (state (suc i), some (piece i a))
]

copy_end :
    {R : Type 0} (read : R → R × Option Str) (fuel : ℕ) (r r' : R)
    → read r ≡ (r', none)
    → copy (suc fuel) read r ≡ some []
unfolding copy
copy_end read fuel r r' e = rw (copy, e) refl

copy_step :
    {R : Type 0} (read : R → R × Option Str) (fuel : ℕ) (r r' : R) (bytes rest : Str)
    → read r ≡ (r', some bytes)
    → copy fuel read r' ≡ some rest
    → copy (suc fuel) read r ≡ some (bytes ++ rest)
unfolding copy
copy_step read fuel r r' bytes rest e e' =
    ap
      (λ p. elim p.1 [
        | none ↦ some []
        | some b ↦ elim (copy fuel read p.0) [ none ↦ none | some t ↦ some (b ++ t) ]
      ])
      e
    ∙ ap (λ o. elim o [ none ↦ none | some t ↦ some (bytes ++ t) ]) e'

module _ {A R : Type 0} (read : R → R × Option Str) (state : ℕ → R) (items : List A)
    (piece : ℕ → A → Str) (step : (i : ℕ) → read (state i) ≡ read_item state items piece i) where
  pub copy-pieces :
      (rest : List A) (i fuel : ℕ)
      → drop i items ≡ rest
      → length rest < fuel
      → copy fuel read (state i) ≡ some (pieces piece i rest)
  unfolding read_item pieces
  copy-pieces rest i zero h lt = absurd (omega arith)
  copy-pieces [] i (suc fuel) h lt =
      copy_end read fuel (state i) (state i)
        (step i ∙ rw (read_item, get_elem?-drop_nil items i h) refl)
  copy-pieces (a ∷ rest) i (suc fuel) h lt =
      let (e, e') = get_elem?-drop_cons items i a rest h in
      copy_step read fuel (state i) (state (suc i)) _ _ (step i ∙ rw (read_item, e) refl)
        (copy-pieces rest (suc i) fuel e' (omega arith))

-- What a Read writes of an item, with a buffer of `size` bytes.
unfoldable pub cut_piece : {A : Type 0} → ℕ → Str → (A → Str) → ℕ → A → Str
cut_piece size hdr entry i a = take size (header i hdr ++ entry a)

-- The text of a list in full: the header and the entries, or nothing for no entries.
abbrev pub lines : {A : Type 0} → (A → Str) → List A → Str
lines entry [] = []
lines entry (x ∷ xs) = entry x ++ lines entry xs

abbrev pub table : {A : Type 0} → Str → (A → Str) → List A → Str
table hdr entry [] = []
table hdr entry (x ∷ xs) = hdr ++ lines entry (x ∷ xs)

-- The buffer holds the header and any entry.
abbrev pub Fits : {A : Type 0} → ℕ → Str → (A → Str) → List A → Type 0
Fits size hdr entry = All λ a. length hdr + length (entry a) ≤ size

abbrev pub mf_header : Str
mf_header = lit "URL DIGEST CREATED PULLED\n"

abbrev pub blob_header : Str
blob_header = lit "URL REFCNT\n"

take_all : {B : Type 0} (n : ℕ) (l : List B) → length l ≤ n → take n l ≡ l
take_all zero [] h = refl
take_all zero (x ∷ xs) h = absurd (omega arith)
take_all (suc n) [] h = refl
take_all (suc n) (x ∷ xs) h = ap (λ t. x ∷ t) (take_all n xs (omega arith))

pub take_le : {A : Type 0} (n : ℕ) (l : List A) → length (take n l) ≤ n
take_le zero l = omega arith
take_le (suc n) [] = omega arith
take_le (suc n) (x ∷ xs) = omega (arith, take_le n xs)

module _ {A : Type 0} (size : ℕ) (hdr : Str) (entry : A → Str) where
  pieces_later :
      (i : ℕ) (l : List A)
      → Fits size hdr entry l
      → pieces (cut_piece size hdr entry) (suc i) l ≡ lines entry l
  unfolding pieces cut_piece header
  pieces_later i [] h = refl
  pieces_later i (x ∷ xs) (h, hs) =
      ap (λ t. t ++ pieces (cut_piece size hdr entry) (suc (suc i)) xs)
        (take_all size (entry x) (omega arith))
      ∙ ap (λ t. entry x ++ t) (pieces_later (suc i) xs hs)

  pub pieces_all :
      (l : List A)
      → Fits size hdr entry l
      → pieces (cut_piece size hdr entry) 0 l ≡ table hdr entry l
  unfolding pieces cut_piece header
  pieces_all [] h = refl
  pieces_all (x ∷ xs) (h, hs) =
      ap (λ t. t ++ pieces (cut_piece size hdr entry) 1 xs)
        (take_all size (hdr ++ entry x) (omega (arith, length-append hdr (entry x))))
      ∙ ap (λ t. (hdr ++ entry x) ++ t) (pieces_later 0 xs hs)
      ∙ append_assoc hdr (entry x) (lines entry xs)

  pub pieces-length :
      (i : ℕ) (l : List A) → length (pieces (cut_piece size hdr entry) i l) ≤ length l * size
  unfolding pieces cut_piece
  pieces-length i [] = omega arith
  pieces-length i (x ∷ xs) =
      let here = cut_piece size hdr entry i x in
      let rest = pieces (cut_piece size hdr entry) (suc i) xs in
      grind (
        arith,
        take_le size (header i hdr ++ entry x),
        pieces-length (suc i) xs,
        length-append here rest,
      )

pub drop-length : {A : Type 0} (i : ℕ) (l : List A) → length (drop i l) ≤ length l
drop-length zero l = omega arith
drop-length (suc i) [] = omega arith
drop-length (suc i) (x ∷ xs) = omega (arith, drop-length i xs)
