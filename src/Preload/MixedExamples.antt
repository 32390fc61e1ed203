-- ===== src/Preload/MixedExamples.antt =====
-- The theorem about a repeated load at a list file that mixes tags: one line is tagged latest, one is not.
use ociregistry.Base.{
  ◌≡◌, refl, sym, ap, subst, ◌∙◌, true, some, [], ◌∷◌, Str, lit, is_empty, has_prefix,
  contains_byte, contains, cut, split, to_lower, trim_right, str_eq, lookup, insert, Result, ok,
  inl, inr,
}
use ociregistry.Base.Decimal.{some-injective}
use ociregistry.Auth.{no_providers}
use ociregistry.Config.Upstreams.{find_registry, config_for}
use ociregistry.Imgpull.{ManifestHolder, Env}
use ociregistry.PullRequest.{
  PullRequest, PullError, new_pull_request_from_url, split_reference, type_from_ref, is_latest, url,
  separator, is_by_tag,
}
use ociregistry.Serialize.{
  Files, sub_dir, with_sub_dir, mh_from_filesystem, write_manifest, mh_to_filesystem,
}
use ociregistry.Serialize.Digest.{get_digest_from}
use ociregistry.Preload.{
  Host, Descriptor, Client, save_image, pull_and_save, get_from_cache_or_remote, pull_image_of,
  pull_with, do_pull, load_lines, load_from_list_file,
}
use ociregistry.Preload.Examples.{
  disk, upstream, machine, settings, empty, image, digest, empty-Whole, v1, v1-parsed,
}
use ociregistry.Preload.ListFiles.{HaveKinds, load_from_list_file-again}
use ociregistry.Preload.Repeating.Images.{NamesDigests, HasKind}

-- The package imgpull finds a manifest latest by its url.
abbrev by_url : Env
by_url = record disk { is_latest_manifest = λ mh. some (contains mh.image_url (lit ":latest")) }

-- Each tag has a manifest, under the url that it was asked for.
abbrev tags : Client
tags = record upstream {
  get_manifest = λ opts. some (record (image digest) { image_url = opts.url });
  get_manifest_by_digest = λ opts d. some (record (image d) { image_url = opts.url });
}

tags-NamesDigests : NamesDigests tags
tags-NamesDigests = (
  λ opts md mh head got.
      ap (λ (x : Descriptor). get_digest_from x.digest) (sym (some-injective head))
      ∙ ap (λ (x : ManifestHolder). x.digest) (some-injective got),
  λ opts d mh got. ap (λ (x : ManifestHolder). x.digest) (some-injective got),
)

abbrev list_text : Str
list_text = lit "quay.io/x:v1\nquay.io/x:latest"

abbrev mixed : Host
mixed = record { open_file = λ path. some list_text; glob = λ path. some (path ∷ []) }

abbrev newest : PullRequest
newest = record v1 { reference = lit "latest" }

newest-parsed : new_pull_request_from_url (lit "quay.io/x:latest") ≡ ok newest
unfolding new_pull_request_from_url split_reference contains_byte split is_empty to_lower
    type_from_ref has_prefix str_eq cut
newest-parsed = refl

kind_at :
    (pr : PullRequest) (mh : ManifestHolder) (u : Str)
    → contains (url pr) (lit ":latest") ≡ is_latest pr
    → u ≡ url pr
    → mh.image_url ≡ u
    → by_url.is_latest_manifest mh ≡ some (is_latest pr)
kind_at pr mh u kind at named =
    ap (λ x. some (contains x (lit ":latest"))) (named ∙ at) ∙ ap some kind

-- A request by tag whose url tells whether it is latest.
by_tag-HasKind :
    (pr : PullRequest)
    → is_by_tag pr.pull_type ≡ true
    → contains (url pr) (lit ":latest") ≡ is_latest pr
    → HasKind by_url tags pr
by_tag-HasKind pr tagged kind = (
  λ opts mh at got. (
    kind_at pr mh opts.url kind at
        (sym (ap (λ (x : ManifestHolder). x.image_url) (some-injective got))),
    refl,
  ),
  λ opts d mh at got.
      let named = sym (ap (λ (x : ManifestHolder). x.image_url) (some-injective got)) in
      elim at [
        | inl same ↦ (kind_at pr mh opts.url kind same named, refl)
        | inr (digest, _) ↦ absurd (cc (tagged, digest))
      ],
)

v1-kind : contains (url v1) (lit ":latest") ≡ is_latest v1
unfolding contains has_prefix url separator is_latest str_eq to_lower
v1-kind = refl

newest-kind : contains (url newest) (lit ":latest") ≡ is_latest newest
unfolding contains has_prefix url separator is_latest str_eq to_lower
newest-kind = refl

ok-injective : {a b : PullRequest} → ◌≡◌ {A = Result PullError PullRequest} (ok a) (ok b) → a ≡ b
ok-injective e = cc e

kinds : HaveKinds by_url tags (split list_text 10)
unfolding split trim_right is_empty
kinds = (
  λ pr e.
      subst (HasKind by_url tags) (ok-injective (sym v1-parsed ∙ e))
        (by_tag-HasKind v1 refl v1-kind),
  (
    λ pr e.
        subst (HasKind by_url tags) (ok-injective (sym newest-parsed ∙ e))
          (by_tag-HasKind newest refl newest-kind),
    tt,
  ),
)

abbrev loaded : Files
unfolding load_from_list_file
loaded =
    (load_from_list_file by_url tags machine no_providers settings mixed (lit "images.txt") empty).0

first_load :
    load_from_list_file by_url tags machine no_providers settings mixed (lit "images.txt") empty
    ≡ (loaded, ok 2)
unfolding load_from_list_file load_lines do_pull pull_with get_from_cache_or_remote pull_and_save
    save_image pull_image_of split is_empty has_prefix new_pull_request_from_url split_reference
    contains_byte contains to_lower type_from_ref str_eq config_for find_registry mh_from_filesystem
    mh_to_filesystem write_manifest sub_dir with_sub_dir lookup insert cut is_latest trim_right url
    separator
first_load = refl

load_from_list_file-again_example :
    load_from_list_file by_url tags machine no_providers settings mixed (lit "images.txt") loaded
    ≡ (loaded, ok 0)
load_from_list_file-again_example =
    load_from_list_file-again by_url tags tags-NamesDigests machine no_providers settings mixed
      (lit "images.txt") list_text 2 empty loaded refl kinds empty-Whole first_load
