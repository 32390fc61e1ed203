-- ===== src/Serialize/Digest.antt =====
-- GetDigestFrom of impl/helpers/helpers.go. The pattern is `.*([a-f0-9]{64}).*`, and its first `.*` takes
-- as much as it can: the result is the last run of 64 hex digits. A string here has no line break.
use ociregistry.Base.{
  ℕ, zero, suc, ◌<◌, ◌≡◌, refl, ap, ◌∙◌, Bool, true, false, ◌&&◌, ◌||◌, [], ◌∷◌, ◌++◌, arith, Str,
  is_empty, leb, length, take, if◌then◌else◌,
}

unfoldable pub is_hex : ℕ → Bool
is_hex c = (leb b'a' c && leb c b'f') || (leb b'0' c && leb c b'9')

-- Do the first n bytes exist and match [a-f0-9]?
unfoldable pub hex_run : ℕ → Str → Bool
hex_run zero s = true
hex_run (suc n) [] = false
hex_run (suc n) (c ∷ s) = is_hex c && hex_run n s

unfoldable pub last_run : ℕ → Str → Str
last_run n [] = []
last_run n (c ∷ s) =
    let rest = last_run n s in
    if is_empty rest then (if hex_run n (c ∷ s) then take n (c ∷ s) else []) else rest

unfoldable pub get_digest_from : Str → Str
get_digest_from = last_run 64

-- A digest as the registries write it, without its prefix.
pub record IsDigest (d : Str) : Type 0 where
  pub hex : hex_run 64 d ≡ true
  pub size : length d ≡ 64

hex_run_short : (n : ℕ) (s : Str) → length s < n → hex_run n s ≡ false
unfolding hex_run
hex_run_short zero s h = absurd (omega arith)
hex_run_short (suc n) [] h = refl
hex_run_short (suc n) (c ∷ s) h = ground (arith, hex_run_short n s)

last_run_short : (n : ℕ) (s : Str) → length s < n → last_run n s ≡ []
unfolding last_run is_empty
last_run_short n [] h = refl
last_run_short n (c ∷ s) h = rw (last_run_short n s (omega arith), hex_run_short n (c ∷ s) h)

take_all : (n : ℕ) (s : Str) → length s ≡ n → take n s ≡ s
take_all zero [] h = refl
take_all zero (c ∷ s) h = absurd (omega arith)
take_all (suc n) [] h = refl
take_all (suc n) (c ∷ s) h = ap (λ t. c ∷ t) (take_all n s (omega arith))

last_run_exact :
    (n : ℕ) (s : Str) → hex_run (suc n) s ≡ true → length s ≡ suc n → last_run (suc n) s ≡ s
unfolding last_run is_empty
last_run_exact n [] h l = refl
last_run_exact n (c ∷ s) h l =
    rw (last_run_short (suc n) s (omega arith), h) (take_all (suc n) (c ∷ s) l)

last_run-append :
    (n : ℕ) (p s : Str) → is_empty (last_run n s) ≡ false → last_run n (p ++ s) ≡ last_run n s
unfolding last_run is_empty
last_run-append n [] s h = refl
last_run-append n (c ∷ p) s h = rw (last_run-append n p s h, h)

-- A digest is found whatever stands before it, the prefix `sha256:` or nothing.
pub get_digest_from-append : (p d : Str) → IsDigest d → get_digest_from (p ++ d) ≡ d
unfolding get_digest_from is_empty
get_digest_from-append p [] h = absurd (omega (arith, h.size))
get_digest_from-append p (c ∷ d) h =
    let e : last_run 64 (c ∷ d) ≡ c ∷ d = last_run_exact 63 (c ∷ d) h.hex h.size in
    last_run-append 64 p (c ∷ d) (rw e) ∙ e
