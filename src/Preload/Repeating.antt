-- ===== src/Preload/Repeating.antt =====
-- impl/preload/preload.go: a second load of a list file.
pub mod Directories
pub mod Stored
pub mod Images
use ociregistry.Base.{
  ℕ, ◌+◌, ◌≡◌, ◌≢◌, refl, sym, ap, subst, ◌∙◌, inl, inr, Bool, true, false, Bool-cases, Option,
  Option-cases, none, some, List, [], ◌∷◌, All, Str, lit, is_empty, has_prefix, split, trim_space,
  arith, if◌then◌else◌, Result, Result-cases, ok, err,
}
use ociregistry.Auth.{Providers}
use ociregistry.Config.Upstreams.{Machine, config_for}
use ociregistry.Imgpull.{ManifestHolder, PullerOpts, Env}
use ociregistry.PullRequest.{
  PullRequest, is_by_tag, new_pull_request_from_url, url, url_with_digest, is_latest,
}
use ociregistry.Serialize.{Files, mh_from_filesystem}
use ociregistry.Serialize.Digest.{get_digest_from}
use ociregistry.Preload.{
  Host, Client, Descriptor, PreloadError, Settings, Loaded, then_load, get_from_cache_or_remote,
  pull_image_of, pull_with, do_pull, load_lines, load_from_list_file,
}
use ociregistry.Preload.Repeating.Directories.{Grows, Whole}
use ociregistry.Preload.Repeating.Stored.{
  Kept, then_load-ok, get_from_cache_or_remote-found, get_from_cache_or_remote-Kept,
}
use ociregistry.Preload.Repeating.Images.{
  NamesDigests, HasKind, Repeats, served, pull_image_of-Repeats,
}

module _ (env : Env) (client : Client) (names : NamesDigests client) where
  with_again :
      (settings : Settings) (pr : PullRequest) (opts : PullerOpts) (md : Descriptor)
      (mh : ManifestHolder) (later : Files)
      → client.accepts opts ≡ true
      → client.head_manifest opts ≡ some md
      → mh_from_filesystem md.digest (is_latest pr) later ≡ some mh
      → pull_image_of env client settings pr opts (mh, 0) later ≡ (later, ok 0)
      → pull_with env client settings pr opts later ≡ (later, ok 0)
  unfolding pull_with
  with_again settings pr opts md mh later e e' found again =
      rw
        (
          pull_with,
          e,
          e',
          get_from_cache_or_remote-found env client opts md.digest (is_latest pr)
              md.is_image_manifest mh later found,
        )
        again

  pull_with-Repeats :
      (settings : Settings) (pr : PullRequest) (opts : PullerOpts) (n : ℕ) (files files' : Files)
      → HasKind env client pr
      → opts.url ≡ url pr
      → Whole files
      → pull_with env client settings pr opts files ≡ (files', ok n)
      → Repeats (pull_with env client settings pr opts) files files' 0
  unfolding pull_with
  pull_with-Repeats settings pr opts n files files' kind at whole h =
      elim (Bool-cases (client.accepts opts)) [
        | inr e ↦ absurd (grind (arith, e, h))
        | inl e ↦ elim (Option-cases (client.head_manifest opts)) [
          | inl e' ↦ absurd (grind (arith, e, e', h))
          | inr (md, e') ↦
              let l = is_latest pr in
              let step =
                get_from_cache_or_remote env client opts md.digest l md.is_image_manifest files in
              let chain : pull_with env client settings pr opts files
                  ≡ then_load step (pull_image_of env client settings pr opts) =
                rw (pull_with, e, e') refl in
              let (got, files1, pulled, rest) =
                then_load-ok step (pull_image_of env client settings pr opts) files' n
                  (sym chain ∙ h) in
              let (grows, whole1, found) =
                get_from_cache_or_remote-Kept env client opts md.digest l files files1 got.1 whole
                  md.is_image_manifest got.0
                  (served env client names opts md pr kind at e' md.is_image_manifest) pulled in
              let (more, whole2, again) =
                pull_image_of-Repeats env client names settings pr opts got.0 got.1 n files1 files'
                  kind at whole1 rest in
              (
                λ d k x at. more d k x (grows d k x at),
                whole2,
                λ later most.
                    with_again settings pr opts md got.0 later e e'
                      (most md.digest l got.0 (more md.digest l got.0 found)) (again later most),
              )
        ]
      ]

  pub do_pull-Repeats :
      (m : Machine) (ps : Providers) (settings : Settings) (image_url : Str) (n : ℕ)
      (files files' : Files)
      → ((pr : PullRequest) → new_pull_request_from_url image_url ≡ ok pr → HasKind env client pr)
      → Whole files
      → do_pull env client m ps settings image_url files ≡ (files', ok n)
      → Repeats (do_pull env client m ps settings image_url) files files' 0
  unfolding do_pull
  do_pull-Repeats m ps settings image_url n files files' kind whole h =
      elim (Result-cases (new_pull_request_from_url image_url)) [
        | inr (x, e) ↦ absurd (grind (arith, e, h))
        | inl (pr, e) ↦ elim (Result-cases (config_for m ps settings.registries pr.remote)) [
          | inr (x, e') ↦ absurd (grind (arith, e, e', h))
          | inl (base, e') ↦
              let opts : PullerOpts = record base {
                url = url pr;
                os_type = settings.os;
                arch_type = settings.arch;
              } in
              let same : (f : Files)
                  → do_pull env client m ps settings image_url f
                    ≡ pull_with env client settings pr opts f =
                λ f. rw (do_pull, e, e') refl in
              let (grows, whole1, again) =
                pull_with-Repeats settings pr opts n files files' (kind pr e) refl whole
                  (sym (same files) ∙ h) in
              (grows, whole1, λ later more. same later ∙ again later more)
        ]
      ]
