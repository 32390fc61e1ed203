-- ===== src/PullRequest/RoundTrip.antt =====
-- Url, UrlWithDigest and NewPullRequestFromUrl of impl/pullrequest/pullrequest.go.
use ociregistry.Base.{
  ℕ, ◌≡◌, ◌≢◌, refl, ◌∙◌, ap, true, false, ◌||◌, [], ◌∷◌, ◌++◌, arith, inl, inr, Bool-cases, Str,
  lit, is_empty, has_prefix, contains_byte, to_lower, to_lower-append, cut-append, split_missing,
  split-append, contains_byte-append, str_eq_iff, if◌then◌else◌, ok,
}
use ociregistry.PullRequest.{
  by_digest, PullRequest, sha256_prefix, type_from_ref, split_reference, new_pull_request_from_url,
  separator, url, url_with_digest, is_latest, is_by_tag,
}

-- A request as the server keeps it: lower case, a remote with a dot, and no separator in a part.
pub record IsCanonical (pr : PullRequest) : Type 0 where
  pub remote_dot : contains_byte pr.remote b'.' ≡ true
  pub remote_slash : contains_byte pr.remote b'/' ≡ false
  pub remote_lower : to_lower pr.remote ≡ pr.remote
  pub repository_some : is_empty pr.repository ≡ false
  pub repository_at : contains_byte pr.repository b'@' ≡ false
  pub repository_colon : contains_byte pr.repository b':' ≡ false
  pub repository_lower : to_lower pr.repository ≡ pr.repository
  pub reference_at : contains_byte pr.reference b'@' ≡ false
  pub reference_lower : to_lower pr.reference ≡ pr.reference
  pub reference_type : pr.pull_type ≡ type_from_ref pr.reference
  pub tag_colon :
      has_prefix pr.reference sha256_prefix ≡ false → contains_byte pr.reference b':' ≡ false

is_empty-append : (a b : Str) → is_empty a ≡ false → is_empty (a ++ b) ≡ false
unfolding is_empty
is_empty-append [] b h = cc
is_empty-append (c ∷ a) b h = refl

contains_byte_head : (s : Str) (c : ℕ) → contains_byte (c ∷ s) c ≡ true
unfolding contains_byte
contains_byte_head s c = ground arith

-- A digest reference: the `@` is looked for first, so the colon of the digest does no harm.
split_reference-digest :
    (repo digest : Str)
    → contains_byte repo b'@' ≡ false
    → contains_byte digest b'@' ≡ false
    → split_reference (repo ++ b'@' ∷ digest) ≡ (repo, digest)
unfolding split_reference
split_reference-digest repo digest hr hd =
    rw (contains_byte-append repo (b'@' ∷ digest) b'@', hr, contains_byte_head digest b'@')
      (rw (split-append repo digest b'@' hr, split_missing digest b'@' hd))

split_reference-tag :
    (repo tag : Str)
    → contains_byte repo b'@' ≡ false
    → contains_byte repo b':' ≡ false
    → contains_byte tag b'@' ≡ false
    → contains_byte tag b':' ≡ false
    → split_reference (repo ++ b':' ∷ tag) ≡ (repo, tag)
unfolding split_reference contains_byte
split_reference-tag repo tag ra rc ta tc =
    rw (contains_byte-append repo (b':' ∷ tag) b'@', ra, contains_byte, ta)
      (rw (contains_byte-append repo (b':' ∷ tag) b':', rc)
        (rw (split-append repo tag b':' rc, split_missing tag b':' tc)))

split_reference-separator :
    (pr : PullRequest)
    → IsCanonical pr
    → split_reference (pr.repository ++ (separator pr.reference ++ pr.reference))
      ≡ (pr.repository, pr.reference)
unfolding separator
split_reference-separator pr c = elim (Bool-cases (has_prefix pr.reference sha256_prefix)) [
  | inl digest ↦ rw digest (split_reference-digest _ _ c.repository_at c.reference_at)
  | inr tag ↦
      rw tag (
        split_reference-tag _ _ c.repository_at c.repository_colon c.reference_at (c.tag_colon tag))
]

-- Parsing the url of a canonical request gives the request back.
pub from_url-url : (pr : PullRequest) → IsCanonical pr → new_pull_request_from_url (url pr) ≡ ok pr
unfolding new_pull_request_from_url url
from_url-url pr c =
    rw (cut-append pr.remote _ b'/' c.remote_slash, c.remote_dot, split_reference-separator pr c)
      (rw (is_empty-append pr.repository _ c.repository_some, c.repository_some)
        (rw (c.repository_lower, c.reference_lower, c.remote_lower, ← c.reference_type)))

-- The same for the second key of a tagged manifest, the url with its digest.
abbrev pub with_digest : PullRequest → Str → PullRequest
with_digest pr digest = record pr { pull_type = by_digest; reference = digest }

pub url-with_digest :
    (pr : PullRequest) (digest : Str)
    → has_prefix digest sha256_prefix ≡ true
    → url (with_digest pr digest) ≡ url_with_digest pr digest
unfolding url url_with_digest separator
url-with_digest pr digest h = rw h

pub with_digest-IsCanonical :
    (pr : PullRequest) (hex : Str)
    → IsCanonical pr
    → contains_byte hex b'@' ≡ false
    → to_lower hex ≡ hex
    → IsCanonical (with_digest pr (sha256_prefix ++ hex))
unfolding type_from_ref contains_byte has_prefix to_lower
with_digest-IsCanonical pr hex c h l = record {
  remote_dot = c.remote_dot;
  remote_slash = c.remote_slash;
  remote_lower = c.remote_lower;
  repository_some = c.repository_some;
  repository_at = c.repository_at;
  repository_colon = c.repository_colon;
  repository_lower = c.repository_lower;
  reference_at = h;
  reference_lower = to_lower-append sha256_prefix hex ∙ ap (λ t. sha256_prefix ++ t) l;
  reference_type = refl;
  tag_colon = λ e. cc e;
}

append_cancel : (a b c : Str) → a ++ b ≡ a ++ c → b ≡ c
append_cancel [] b c h = h
append_cancel (x ∷ a) b c h = append_cancel a b c (cc h)

-- A canonical request that is for `latest` or by tag has no digest as its reference.
pub latest_or_tag :
    (pr : PullRequest)
    → IsCanonical pr
    → (is_latest pr || is_by_tag pr.pull_type) ≡ true
    → has_prefix pr.reference sha256_prefix ≡ false
unfolding is_latest type_from_ref
latest_or_tag pr c h = ground (
  arith,
  c.reference_type,
  c.reference_lower,
  str_eq_iff (to_lower pr.reference) (lit "latest"),
  latest_plain,
  ap (λ t. has_prefix t sha256_prefix) c.reference_lower,
)
  where
    latest_plain : has_prefix (lit "latest") sha256_prefix ≡ false
    latest_plain = unfold has_prefix in refl

pub url-ne-url_with_digest :
    (pr : PullRequest) (digest : Str)
    → has_prefix pr.reference sha256_prefix ≡ false
    → url pr ≢ url_with_digest pr digest
unfolding url url_with_digest separator
url-ne-url_with_digest pr digest h e = elim parts_differ [ ]
  where
    parts :
        (if has_prefix pr.reference sha256_prefix then lit "@" else lit ":") ++ pr.reference
        ≡ lit "@" ++ digest
    parts =
        append_cancel pr.repository _ _
          (append_cancel (lit "/") _ _ (append_cancel pr.remote _ _ e))

    parts_differ : ⊥
    parts_differ = ground (arith, parts)
