-- ===== src/Preload/Repeating/Images.antt =====
-- doPull of impl/preload/preload.go: the image of an image list, pulled once more.
use ociregistry.Base.{
  ℕ, ◌+◌, ◌≡◌, refl, sym, subst, ◌∙◌, ◌⊎◌, inl, inr, Bool, true, false, Bool-cases, Option-cases,
  some, Str, arith, if◌then◌else◌, ok,
}
use ociregistry.Imgpull.{ManifestHolder, PullerOpts, Env}
use ociregistry.PullRequest.{PullRequest, is_by_tag, url, url_with_digest, is_latest}
use ociregistry.Serialize.{Files, mh_from_filesystem}
use ociregistry.Serialize.Digest.{get_digest_from}
use ociregistry.Preload.{
  Client, Descriptor, Settings, Loaded, then_load, get_from_cache_or_remote, pull_image_of,
}
use ociregistry.Preload.Repeating.Directories.{Grows, Whole}
use ociregistry.Preload.Repeating.Stored.{
  IsKept, then_load-ok, get_from_cache_or_remote-found, get_from_cache_or_remote-Kept,
}

-- What imgpull answers names the digest that it was asked for, or that HeadManifest told.
abbrev pub NamesDigests : Client → Type 0
NamesDigests client =
    ((opts : PullerOpts) (md : Descriptor) (mh : ManifestHolder)
      → client.head_manifest opts ≡ some md
      → client.get_manifest opts ≡ some mh
      → get_digest_from md.digest ≡ mh.digest)
    × ((opts : PullerOpts) (d : Str) (mh : ManifestHolder)
        → client.get_manifest_by_digest opts d ≡ some mh
        → get_digest_from d ≡ mh.digest)

-- The urls under which a digest is asked for: that of the request, or, for a request by digest, that of the
-- image of a list.
abbrev pub IsUrlFor : PullRequest → Str → Str → Type 0
IsUrlFor pr d u = (u ≡ url pr) ⊎ ((is_by_tag pr.pull_type ≡ false) × (u ≡ url_with_digest pr d))

-- What it answers for a request goes to the directory
-- of the request's tag, latest or not, and is read back from its JSON as it was.
abbrev pub HasKind : Env → Client → PullRequest → Type 0
HasKind env client pr =
    ((opts : PullerOpts) (mh : ManifestHolder)
      → opts.url ≡ url pr
      → client.get_manifest opts ≡ some mh
      → IsKept env (is_latest pr) mh)
    × ((opts : PullerOpts) (d : Str) (mh : ManifestHolder)
        → IsUrlFor pr d opts.url
        → client.get_manifest_by_digest opts d ≡ some mh
        → IsKept env (is_latest pr) mh)

-- What ran well is repeated by doing nothing, now or later.
abbrev pub Repeats : {A : Type 0} → (Files → Loaded A) → Files → Files → A → Type 0
Repeats step files files' nothing =
    Grows files files'
    × Whole files'
    × ((later : Files) → Grows files' later → step later ≡ (later, ok nothing))

module _ (env : Env) (client : Client) (names : NamesDigests client) where
  pub served :
      (opts : PullerOpts) (md : Descriptor) (pr : PullRequest)
      → HasKind env client pr
      → opts.url ≡ url pr
      → client.head_manifest opts ≡ some md
      → (is_image : Bool) (x : ManifestHolder)
      → (if is_image
          then client.get_manifest_by_digest opts md.digest
          else client.get_manifest opts)
        ≡ some x
      → (get_digest_from md.digest ≡ x.digest) × IsKept env (is_latest pr) x
  served opts md pr kind at head true x e =
      (names.1 opts md.digest x e, kind.1 opts md.digest x (inl at) e)
  served opts md pr kind at head false x e = (names.0 opts md x head e, kind.0 opts x at e)

  -- The options for the image of a list.
  abbrev image_opts : PullRequest → PullerOpts → Str → PullerOpts
  image_opts pr opts digest =
      if is_by_tag pr.pull_type then opts else record opts { url = url_with_digest pr digest }

  image_opts-url :
      (pr : PullRequest) (opts : PullerOpts) (digest : Str)
      → opts.url ≡ url pr
      → IsUrlFor pr digest (image_opts pr opts digest).url
  image_opts-url pr opts digest at = elim (Bool-cases (is_by_tag pr.pull_type)) [
    | inl e ↦ rw e (inl at)
    | inr e ↦ rw e (inr (refl, refl))
  ]

  image_again :
      (settings : Settings) (pr : PullRequest) (opts : PullerOpts) (mh image : ManifestHolder)
      (digest : Str) (later : Files)
      → client.is_manifest_list mh ≡ true
      → client.image_digest_for mh settings.os settings.arch ≡ some digest
      → mh_from_filesystem digest (is_latest pr) later ≡ some image
      → pull_image_of env client settings pr opts (mh, 0) later ≡ (later, ok 0)
  unfolding pull_image_of
  image_again settings pr opts mh image digest later e e' found =
      rw
        (
          pull_image_of,
          e,
          e',
          get_from_cache_or_remote-found env client (image_opts pr opts digest) digest
              (is_latest pr) true image later found,
        )
        refl

  pub pull_image_of-Repeats :
      (settings : Settings) (pr : PullRequest) (opts : PullerOpts) (mh : ManifestHolder) (cnt n : ℕ)
      (files files' : Files)
      → HasKind env client pr
      → opts.url ≡ url pr
      → Whole files
      → pull_image_of env client settings pr opts (mh, cnt) files ≡ (files', ok n)
      → Repeats (pull_image_of env client settings pr opts (mh, 0)) files files' 0
  unfolding pull_image_of
  pull_image_of-Repeats settings pr opts mh cnt n files files' kind at whole h =
      elim (Bool-cases (client.is_manifest_list mh)) [
        | inr e ↦
            let end : pull_image_of env client settings pr opts (mh, cnt) files ≡ (files, ok cnt) =
              rw (pull_image_of, e) refl in
            let unchanged : Repeats (pull_image_of env client settings pr opts (mh, 0)) files files
                0 =
              (λ d l x found. found, whole, λ later grows. rw (pull_image_of, e) refl) in
            subst
              (λ (s : Loaded ℕ).
                Repeats (pull_image_of env client settings pr opts (mh, 0)) files s.0 0)
              (sym end ∙ h) unchanged
        | inl e ↦ elim (Option-cases (client.image_digest_for mh settings.os settings.arch)) [
          | inl e' ↦ absurd (grind (arith, e, e', h))
          | inr (digest, e') ↦
              let step =
                get_from_cache_or_remote env client (image_opts pr opts digest) digest
                  (is_latest pr) true files in
              let next : ManifestHolder × ℕ → Files → Loaded ℕ = λ got f. (f, ok (cnt + got.1)) in
              let chain : pull_image_of env client settings pr opts (mh, cnt) files
                  ≡ then_load step next =
                rw (pull_image_of, e, e') refl in
              let (got, files1, pulled, end) = then_load-ok step next files' n (sym chain ∙ h) in
              let (grows, whole1, found) =
                get_from_cache_or_remote-Kept env client (image_opts pr opts digest) digest
                  (is_latest pr) files files1 got.1 whole true got.0
                  (λ x s.
                    (names.1 _ digest x s, kind.1 _ digest x (image_opts-url pr opts digest at) s))
                  pulled in
              let repeats : Repeats (pull_image_of env client settings pr opts (mh, 0)) files files1
                  0 =
                (
                  grows,
                  whole1,
                  λ later more.
                      image_again settings pr opts mh got.0 digest later e e'
                        (more digest (is_latest pr) got.0 found),
                ) in
              subst
                (λ (s : Loaded ℕ).
                  Repeats (pull_image_of env client settings pr opts (mh, 0)) files s.0 0)
                end repeats
        ]
      ]
