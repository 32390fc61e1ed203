-- ===== src/Preload/Repeating/Directories.antt =====
-- impl/serialize/serialize.go: the manifests that are found before and after a manifest is written.
use ociregistry.Base.{
  ◌≡◌, ◌≢◌, refl, sym, ap, ◌∙◌, ◌⊎◌, inl, inr, Bool, true, false, Option, Option-cases, none, some,
  Map, lookup, insert, lookup-insert, Str, str_eq_iff, str_eq_refl, arith,
}
use ociregistry.Imgpull.{ManifestHolder}
use ociregistry.Serialize.{
  File, manifest, unreadable, Files, sub_dir, with_sub_dir, mh_from_filesystem,
}
use ociregistry.Serialize.Digest.{get_digest_from}

-- Every manifest that is found stays found.
abbrev pub Grows : Files → Files → Type 0
Grows files files' =
    (d : Str) (l : Bool) (mh : ManifestHolder)
    → mh_from_filesystem d l files ≡ some mh
    → mh_from_filesystem d l files' ≡ some mh

-- No manifest file is cut short.
abbrev pub Whole : Files → Type 0
Whole files = (name : Str) (l : Bool) → lookup name (sub_dir l files) ≢ some unreadable

abbrev pub read_file : Option File → Option ManifestHolder
read_file (some (manifest mh)) = some mh
read_file (some unreadable) = none
read_file none = none

pub from_lookup :
    (d : Str) (l : Bool) (files : Files)
    → mh_from_filesystem d l files ≡ read_file (lookup (get_digest_from d) (sub_dir l files))
unfolding mh_from_filesystem
from_lookup d l files = refl

abbrev pub with_file : Bool → ManifestHolder → Files → Files
with_file l mh files = with_sub_dir l (insert mh.digest (manifest mh) (sub_dir l files)) files

sub_dir-with_file :
    (k l : Bool) (name : Str) (mh : ManifestHolder) (files : Files)
    → (lookup name (sub_dir k (with_file l mh files)) ≡ lookup name (sub_dir k files))
      ⊎ ((k ≡ l)
          × (mh.digest ≡ name)
          × (lookup name (sub_dir k (with_file l mh files)) ≡ some (manifest mh)))
unfolding sub_dir with_sub_dir
sub_dir-with_file true true name mh files =
    grind (arith, str_eq_iff mh.digest name, lookup-insert mh.digest name (manifest mh) files.lts)
sub_dir-with_file false false name mh files =
    grind (arith, str_eq_iff mh.digest name, lookup-insert mh.digest name (manifest mh) files.img)
sub_dir-with_file true false name mh files = inl refl
sub_dir-with_file false true name mh files = inl refl

pub Whole-with_file :
    (l : Bool) (mh : ManifestHolder) (files : Files) → Whole files → Whole (with_file l mh files)
Whole-with_file l mh files h name k torn_file = elim (sub_dir-with_file k l name mh files) [
  | inl same ↦ h name k (sym same ∙ torn_file)
  | inr (_, _, e) ↦ absurd (ground (arith, e, torn_file))
]

pub Grows-with_file :
    (l : Bool) (mh : ManifestHolder) (files : Files)
    → lookup mh.digest (sub_dir l files) ≡ none
    → Grows files (with_file l mh files)
Grows-with_file l mh files absent d k x found =
    elim (sub_dir-with_file k l (get_digest_from d) mh files) [
      | inl same ↦
          from_lookup d k (with_file l mh files)
          ∙ ap read_file same
          ∙ sym (from_lookup d k files)
          ∙ found
      | inr (kl, name, _) ↦
          let gone : lookup (get_digest_from d) (sub_dir k files) ≡ none = cc (kl, name, absent) in
          absurd (ground (arith, sym (ap read_file gone) ∙ sym (from_lookup d k files) ∙ found))
    ]

stored :
    (l : Bool) (mh : ManifestHolder) (files : Files)
    → lookup mh.digest (sub_dir l (with_file l mh files)) ≡ some (manifest mh)
unfolding sub_dir with_sub_dir
stored true mh files =
    rw (lookup-insert mh.digest mh.digest (manifest mh) files.lts, str_eq_refl mh.digest) refl
stored false mh files =
    rw (lookup-insert mh.digest mh.digest (manifest mh) files.img, str_eq_refl mh.digest) refl

-- A manifest that was written is found by its digest.
pub found_with_file :
    (l : Bool) (mh : ManifestHolder) (d : Str) (files : Files)
    → get_digest_from d ≡ mh.digest
    → mh_from_filesystem d l (with_file l mh files) ≡ some mh
found_with_file l mh d files e =
    from_lookup d l (with_file l mh files)
    ∙ ap (λ name. read_file (lookup name (sub_dir l (with_file l mh files)))) e
    ∙ ap read_file (stored l mh files)

-- Where no manifest is found and no file is cut short, there is no file.
pub not_found :
    (d : Str) (l : Bool) (name : Str) (files : Files)
    → Whole files
    → get_digest_from d ≡ name
    → mh_from_filesystem d l files ≡ none
    → lookup name (sub_dir l files) ≡ none
not_found d l name files whole e missing = elim (Option-cases (lookup name (sub_dir l files))) [
  | inl absent ↦ absent
  | inr (unreadable, x) ↦ absurd (whole name l x)
  | inr (manifest mh, x) ↦ absurd (
      ground (
        arith,
        sym missing
            ∙ from_lookup d l files
            ∙ ap (λ n. read_file (lookup n (sub_dir l files))) e
            ∙ ap read_file x,
      ))
]

pub Grows-same :
    (files files' : Files) → ((l : Bool) → sub_dir l files' ≡ sub_dir l files) → Grows files files'
Grows-same files files' same d l mh found =
    from_lookup d l files'
    ∙ ap (λ (m : Map File). read_file (lookup (get_digest_from d) m)) (same l)
    ∙ sym (from_lookup d l files)
    ∙ found

pub Whole-same :
    (files files' : Files)
    → ((l : Bool) → sub_dir l files' ≡ sub_dir l files)
    → Whole files
    → Whole files'
Whole-same files files' same whole name l x =
    whole name l (ap (λ (m : Map File). lookup name m) (sym (same l)) ∙ x)
