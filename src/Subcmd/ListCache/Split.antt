-- ===== src/Subcmd/ListCache/Split.antt =====
-- splitImageRef of cmd/subcmd/listcache.go against Url of impl/pullrequest/pullrequest.go.
use ociregistry.Base.{
  ℕ, ◌≡◌, refl, sym, ap, ◌∙◌, inl, inr, Bool-cases, false, none, some, [], ◌∷◌, ◌++◌, Str, lit,
  arith, contains_byte, contains_byte-append, cut-append, trim_prefix, has_prefix,
}
use ociregistry.PullRequest.{PullRequest, url, separator, sha256_prefix}
use ociregistry.PullRequest.RoundTrip.{IsCanonical}
use ociregistry.Subcmd.ListCache.{last_cut, split_image_ref}

last_cut_missing : (b : Str) (sep : ℕ) → contains_byte b sep ≡ false → last_cut b sep ≡ none
unfolding last_cut contains_byte
last_cut_missing [] sep h = refl
last_cut_missing (c ∷ b) sep h = ground (arith, last_cut_missing b sep)

last_cut-append :
    (a b : Str) (sep : ℕ) → contains_byte b sep ≡ false → last_cut (a ++ sep ∷ b) sep ≡ some (a, b)
unfolding last_cut
last_cut-append [] b sep h = ground (arith, last_cut_missing b sep h)
last_cut-append (c ∷ a) b sep h = ground (arith, last_cut-append a b sep h)

abbrev pub repo : PullRequest → Str
repo pr = pr.remote ++ (lit "/" ++ pr.repository)

append_assoc : (a b c : Str) → (a ++ b) ++ c ≡ a ++ (b ++ c)
append_assoc [] b c = refl
append_assoc (x ∷ a) b c = ap (λ t. x ∷ t) (append_assoc a b c)

url_parts : (pr : PullRequest) → url pr ≡ repo pr ++ (separator pr.reference ++ pr.reference)
unfolding url
url_parts pr =
    sym (append_assoc pr.remote (lit "/" ++ pr.repository) (separator pr.reference ++ pr.reference))

repo_at :
    (pr : PullRequest)
    → IsCanonical pr
    → contains_byte pr.remote b'@' ≡ false
    → contains_byte (repo pr) b'@' ≡ false
unfolding contains_byte
repo_at pr c r =
    ground (arith, contains_byte-append pr.remote (lit "/" ++ pr.repository) b'@', c.repository_at)

split_at :
    (a d : Str)
    → contains_byte a b'@' ≡ false
    → split_image_ref (a ++ b'@' ∷ d) ≡ (a, trim_prefix d (lit "sha256:"))
unfolding split_image_ref contains_byte
split_at a d h = ground (arith, cut-append a d b'@' h, contains_byte-append a (b'@' ∷ d) b'@')

split_colon :
    (a t : Str)
    → contains_byte a b'@' ≡ false
    → contains_byte t b'@' ≡ false
    → contains_byte t b':' ≡ false
    → split_image_ref (a ++ b':' ∷ t) ≡ (a, t)
unfolding split_image_ref contains_byte
split_colon a t h k l =
    ground (arith, last_cut-append a t b':' l, contains_byte-append a (b':' ∷ t) b'@')

trim_other : (s p : Str) → has_prefix s p ≡ false → trim_prefix s p ≡ s
unfolding trim_prefix
trim_other s p h = rw h

-- The url of a canonical request, whose host has no at sign, splits into host and repository on one
-- side, and the tag, or the digest without its prefix, on the other.
pub split_image_ref-url :
    (pr : PullRequest)
    → IsCanonical pr
    → contains_byte pr.remote b'@' ≡ false
    → split_image_ref (url pr) ≡ (repo pr, trim_prefix pr.reference (lit "sha256:"))
unfolding separator
split_image_ref-url pr c r = elim (Bool-cases (has_prefix pr.reference sha256_prefix)) [
  | inl d ↦
      ap split_image_ref (url_parts pr ∙ rw d) ∙ split_at (repo pr) pr.reference (repo_at pr c r)
  | inr t ↦
      ap split_image_ref (url_parts pr ∙ rw t)
      ∙ split_colon (repo pr) pr.reference (repo_at pr c r) c.reference_at (c.tag_colon t)
      ∙ ap (λ (x : Str). (repo pr, x)) (sym (trim_other pr.reference sha256_prefix t))
]
