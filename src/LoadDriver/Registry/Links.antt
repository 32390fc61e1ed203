-- ===== src/LoadDriver/Registry/Links.antt =====
-- testing/load/driver/registry.go: getNextPageURL on the header that a registry sends.
use ociregistry.Base.{
  ℕ, ◌≡◌, refl, ap, ◌∙◌, true, false, ◌&&◌, ◌==◌, not, if◌then◌else◌, none, some, [], ◌∷◌, ◌++◌,
  Str, lit, is_empty, has_prefix, contains_byte, contains_byte-append, split, split-append,
  trim_left, trim_right, trim_space, unsnoc-append, is_space, arith,
}
use ociregistry.LoadDriver.Registry.{
  Http, first_of_two, ends_in, next_page_in, is_angle, trim_left_angles, trim_right_angles,
  next_page_of, get_next_page_url,
}

abbrev pub in_angles : Str → Str
in_angles q = b'<' ∷ b'/' ∷ q ++ b'>' ∷ []

-- The header that names the next page by the path `/q`.
abbrev pub next_link : Str → Str
next_link q = in_angles q ++ lit "; rel=\"next\""

-- The path has no byte that the header uses.
abbrev pub IsPath : Str → Type 0
IsPath q =
    (contains_byte q b';' ≡ false) × (contains_byte q b'<' ≡ false) × (contains_byte q b'>' ≡ false)

trim_right-snoc : (s : Str) (c : ℕ) → is_space c ≡ false → trim_right (s ++ c ∷ []) ≡ s ++ c ∷ []
unfolding trim_right is_empty
trim_right-snoc [] c h = ground (arith, h)
trim_right-snoc (b ∷ []) c h = ground (arith, h)
trim_right-snoc (b ∷ (d ∷ s)) c h = ground (arith, trim_right-snoc (d ∷ s) c h)

trim_right_angles-path :
    (q : Str)
    → contains_byte q b'<' ≡ false
    → contains_byte q b'>' ≡ false
    → trim_right_angles (q ++ b'>' ∷ []) ≡ q
unfolding trim_right_angles contains_byte is_empty
trim_right_angles-path [] l g = refl
trim_right_angles-path (c ∷ q) l g = ground (arith, trim_right_angles-path q)

trimmed : (q : Str) → IsPath q → trim_left_angles (trim_right_angles (in_angles q)) ≡ b'/' ∷ q
unfolding trim_left_angles trim_right_angles is_empty contains_byte
trimmed q (s, l, g) =
    ap (λ r. trim_left_angles (if is_empty r && is_angle b'<' then [] else b'<' ∷ r))
      (trim_right_angles-path (b'/' ∷ q) l g)

no_separator : (q : Str) → IsPath q → contains_byte (in_angles q) b';' ≡ false
unfolding contains_byte
no_separator q (s, l, g) = rw (contains_byte-append q (b'>' ∷ []) b';', s) refl

first_part : (q : Str) → IsPath q → first_of_two (split (next_link q) b';') ≡ some (in_angles q)
unfolding split
first_part q h =
    ap first_of_two (split-append (in_angles q) (lit " rel=\"next\"") b';' (no_separator q h))

no_blank : (q : Str) → trim_space (in_angles q) ≡ in_angles q
no_blank q = ap trim_left (trim_right-snoc (b'<' ∷ b'/' ∷ q) b'>' refl)

ends_so : (q : Str) → ends_in b'>' (in_angles q) ≡ true
ends_so q =
    ap (λ o. elim o [ none ↦ false | some (front, last) ↦ last == b'>' ])
      (unsnoc-append (b'<' ∷ b'/' ∷ q) b'>')

module _ (http : Http) (scheme base_url parsed_scheme host q : Str)
    (parsed : http.parse (scheme ++ lit "://" ++ base_url) ≡ some (parsed_scheme, host)) where
  next_page_of-path :
      next_page_of http (b'/' ∷ q) scheme base_url ≡ parsed_scheme ++ lit "://" ++ host ++ b'/' ∷ q
  unfolding next_page_of has_prefix
  next_page_of-path = rw (next_page_of, parsed) refl

  next_page_in-angles :
      IsPath q
      → next_page_in http (in_angles q) scheme base_url
        ≡ parsed_scheme ++ lit "://" ++ host ++ b'/' ∷ q
  unfolding next_page_in has_prefix
  next_page_in-angles h =
      ap
        (λ b.
          if not b
          then []
          else next_page_of http (trim_left_angles (trim_right_angles (in_angles q))) scheme
              base_url)
        (ends_so q)
      ∙ ap (λ p. next_page_of http p scheme base_url) (trimmed q h)
      ∙ next_page_of-path

  -- A header that names the next page by a path with a leading slash gives the url of the path at the
  -- host of the registry.
  pub get_next_page_url-next_link :
      IsPath q
      → get_next_page_url http (next_link q) scheme base_url
        ≡ parsed_scheme ++ lit "://" ++ host ++ b'/' ∷ q
  unfolding get_next_page_url is_empty
  get_next_page_url-next_link h =
      ap
        (λ o. elim o [
          | none ↦ []
          | some part ↦ next_page_in http (trim_space part) scheme base_url
        ])
        (first_part q h)
      ∙ ap (λ u. next_page_in http u scheme base_url) (no_blank q)
      ∙ next_page_in-angles h
