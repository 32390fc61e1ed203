-- ===== src/PullRequest/Sources.antt =====
-- Where a request's remote comes from: header, query parameter, path segment or default namespace.
use ociregistry.Base.{
  ◌≡◌, refl, inl, inr, Bool-cases, Result, ◌>>=◌, true, false, ◌⊎◌, ◌↔◌, Option, none, some, List,
  [], ◌∷◌, arith, Str, lit, is_empty, contains_byte, join, to_lower, ok, err,
}
use ociregistry.PullRequest.{
  PullError, PullRequest, type_from_ref, choose_remote, remote_from_ns, remote_from_segments,
  repository_from, new_pull_request, no_remote,
}

-- Naming the upstream as the first path segment gives the request that the X-Registry header gives,
-- and that the `ns` query parameter gives.
pub segment-eq-header :
    (host default_ns reference : Str) (segments : List Str)
    → contains_byte host b'.' ≡ true
    → (new_pull_request [] none default_ns reference (host ∷ segments)
        ≡ new_pull_request host none default_ns reference segments)
      × (new_pull_request [] (some host) default_ns reference segments
          ≡ new_pull_request host none default_ns reference segments)
unfolding new_pull_request choose_remote remote_from_ns remote_from_segments is_empty contains_byte
segment-eq-header [] default_ns reference segments h = cc
segment-eq-header (c ∷ host) default_ns reference segments h = (rw h, refl)

-- The segments name an image: there is a first one, it has no dot, and all of them are the repository.
abbrev pub IsImage : List Str → PullRequest → Type 0
IsImage segments pr =
    (first : Str) × (rest : List Str) × (segments ≡ first ∷ rest)
    × (contains_byte first b'.' ≡ false)
    × (pr.repository ≡ join segments (lit "/"))

-- The remote is a first segment with a dot, else the default.
abbrev pub IsFirst : Str → List Str → PullRequest → Type 0
IsFirst default_ns [] pr = true ≡ false
IsFirst default_ns (s ∷ ss) pr =
    ((contains_byte s b'.' ≡ true) × (pr.remote ≡ s) × IsImage ss pr)
    ⊎ ((contains_byte s b'.' ≡ false)
        × (is_empty default_ns ≡ false)
        × (pr.remote ≡ default_ns)
        × IsImage (s ∷ ss) pr)

-- The query parameter goes before both.
abbrev pub IsUnnamed : Option Str → Str → List Str → PullRequest → Type 0
IsUnnamed (some ns) default_ns segments pr = (pr.remote ≡ ns) × IsImage segments pr
IsUnnamed none default_ns segments pr = IsFirst default_ns segments pr

-- And the header goes before the parameter.
abbrev pub IsSource : Str → Option Str → Str → List Str → PullRequest → Type 0
IsSource [] ns default_ns segments pr = IsUnnamed ns default_ns segments pr
IsSource (c ∷ hdr) ns default_ns segments pr = (pr.remote ≡ c ∷ hdr) × IsImage segments pr

-- What follows the choice of the remote.
accepted : Str → Str → List Str → Result PullError PullRequest
accepted reference remote segments = repository_from segments >>= λ repository. ok (record {
  pull_type = type_from_ref reference;
  repository = repository;
  reference = to_lower reference;
  remote = remote;
})

module _ (reference : Str) (pr : PullRequest) where
  abbrev pub HasReference : Type 0
  HasReference = (pr.reference ≡ to_lower reference) × (pr.pull_type ≡ type_from_ref reference)

  accepted-ok :
      (remote : Str) (segments : List Str)
      → accepted reference remote segments ≡ ok pr
      → HasReference × (pr.remote ≡ remote) × IsImage segments pr
  unfolding accepted repository_from
  accepted-ok remote [] h = absurd (cc h)
  accepted-ok remote (s ∷ ss) h = elim (Bool-cases (contains_byte s b'.')) [
    | inl e ↦ absurd (grind (arith, h, e))
    | inr e ↦ (
      (grind (arith, h, e), grind (arith, h, e)),
      grind (arith, h, e),
      (s, ss, refl, e, grind (arith, h, e)),
    )
  ]

  ok-accepted :
      (remote : Str) (segments : List Str)
      → HasReference × (pr.remote ≡ remote) × IsImage segments pr
      → accepted reference remote segments ≡ ok pr
  unfolding accepted repository_from
  ok-accepted remote [] (r, e, (s, ss, shape, plain, p)) = absurd (cc shape)
  ok-accepted remote (t ∷ ts) ((r, k), e, (s, ss, shape, plain, p)) =
      let same : t ≡ s = cc shape in
      let none_ : contains_byte t b'.' ≡ false = rw same plain in
      rw (accepted, repository_from, none_) (cc (r, k, e, p))

  accepted_iff :
      (remote : Str) (segments : List Str)
      → (accepted reference remote segments ≡ ok pr)
        ↔ (HasReference × ((pr.remote ≡ remote) × IsImage segments pr))
  accepted_iff remote segments = (
    (λ h. let (r, e, i) = accepted-ok remote segments h in (r, (e, i))),
    λ (r, (e, i)). ok-accepted remote segments (r, e, i),
  )

-- NewPullRequest accepts a request exactly as the given pull request if that has the reference in lower
-- case, the pull type of the reference, and the remote from the header, else from the query parameter,
-- else from a first segment with a dot, which is then no part of the repository, else from the default;
-- and if the segments that are left, of which there is one at least and the first has no dot, joined
-- by slashes are its repository.
pub new_pull_request-ok_iff :
    (hdr : Str) (ns : Option Str) (default_ns reference : Str) (segments : List Str)
    (pr : PullRequest)
    → (new_pull_request hdr ns default_ns reference segments ≡ ok pr)
      ↔ (HasReference reference pr × IsSource hdr ns default_ns segments pr)
unfolding new_pull_request choose_remote remote_from_ns remote_from_segments is_empty accepted
new_pull_request-ok_iff (c ∷ hdr) ns default_ns reference segments pr =
    accepted_iff reference pr (c ∷ hdr) segments
new_pull_request-ok_iff [] (some ns) default_ns reference segments pr =
    accepted_iff reference pr ns segments
new_pull_request-ok_iff [] none default_ns reference [] pr =
    ((λ h. absurd (cc h)), λ (r, h). absurd (cc h))
new_pull_request-ok_iff [] none default_ns reference (s ∷ ss) pr =
    elim (Bool-cases (contains_byte s b'.')) [
      | inl dot ↦ rw dot (
        (λ h. let (r, e, i) = accepted-ok reference pr s ss h in (r, inl (refl, e, i))),
        λ (r, source). elim source [
          | inl (_, e, i) ↦ ok-accepted reference pr s ss (r, e, i)
          | inr (x, _, _, _) ↦ absurd (cc x)
        ],
      )
      | inr dot ↦ elim (Bool-cases (is_empty default_ns)) [
        | inl d ↦
            rw (dot, d)
              (
                (λ h. absurd (cc h)),
                λ (r, source). elim source [
                  | inl (x, _, _) ↦ absurd (cc x)
                  | inr (_, x, _, _) ↦ absurd (cc x)
                ],
              )
        | inr d ↦
            rw (dot, d)
              (
                (λ h.
                    let (r, e, i) = accepted-ok reference pr default_ns (s ∷ ss) h in
                    (r, inr (refl, refl, e, i))),
                λ (r, source). elim source [
                  | inl (x, _, _) ↦ absurd (cc x)
                  | inr (_, _, e, i) ↦ ok-accepted reference pr default_ns (s ∷ ss) (r, e, i)
                ],
              )
      ]
    ]

-- A request with a segment is refused for want of a remote exactly when there is no header, no
-- parameter, no default, and the first segment has no dot.
pub no_remote_iff :
    (hdr : Str) (ns : Option Str) (default_ns reference s : Str) (ss : List Str)
    → (new_pull_request hdr ns default_ns reference (s ∷ ss) ≡ err no_remote) ↔ (
        (is_empty hdr ≡ true)
        × (ns ≡ none)
        × (is_empty default_ns ≡ true)
        × (contains_byte s b'.' ≡ false))
unfolding new_pull_request choose_remote remote_from_ns remote_from_segments repository_from
no_remote_iff hdr ns default_ns reference s [] = ground arith
no_remote_iff hdr ns default_ns reference s (t ∷ ss) = ground arith
