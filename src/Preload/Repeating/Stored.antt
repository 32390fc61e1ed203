-- ===== src/Preload/Repeating/Stored.antt =====
-- impl/preload/preload.go: what a successful getFromCacheOrRemote leaves on the file system.
use ociregistry.Base.{
  ℕ, ◌≡◌, refl, sym, ap, subst, ◌∙◌, inl, inr, Bool, true, false, Option, Option-cases, none, some,
  Map, lookup, Str, arith, if◌then◌else◌, ok, err,
}
use ociregistry.Imgpull.{ManifestHolder, PullerOpts, Env, Outcome, written, refused, torn}
use ociregistry.Serialize.{Files, sub_dir, mh_from_filesystem, write_manifest, mh_to_filesystem}
use ociregistry.Serialize.Digest.{get_digest_from}
use ociregistry.Preload.{
  Client, Loaded, then_load, save_image, save_manifest, pull_and_save, get_from_cache_or_remote,
}
use ociregistry.Preload.Repeating.Directories.{
  Grows, Whole, with_file, Whole-with_file, Grows-with_file, found_with_file, not_found, Grows-same,
  Whole-same,
}

-- A manifest goes to the directory of its tag, latest or not, and json.Unmarshal makes the same manifest
-- of its JSON again.
abbrev pub IsKept : Env → Bool → ManifestHolder → Type 0
IsKept env l mh = (env.is_latest_manifest mh ≡ some l) × (env.unmarshalled mh ≡ some mh)

module _ (env : Env) where
  -- A successful save of a manifest that has no file writes its file.
  save_manifest-ok :
      (mh : ManifestHolder) (l : Bool) (files files' : Files)
      → IsKept env l mh
      → lookup mh.digest (sub_dir l files) ≡ none
      → save_manifest env mh files ≡ (files', ok tt)
      → files' ≡ with_file l mh files
  unfolding mh_to_filesystem write_manifest
  save_manifest-ok mh l files files' (e, back) absent h =
      go (env.marshal_fails mh) (env.write_outcome l mh.digest) refl refl
    where
      go :
          (b : Bool) (o : Outcome)
          → env.marshal_fails mh ≡ b
          → env.write_outcome l mh.digest ≡ o
          → files' ≡ with_file l mh files
      go true o eb eo = absurd (grind (arith, e, absent, eb, h))
      go false refused eb eo = absurd (grind (arith, e, absent, eb, eo, h))
      go false torn eb eo = absurd (grind (arith, e, absent, eb, eo, h))
      go false written eb eo =
          ap (λ (s : Loaded (Unit {0})). s.0) (sym h) ∙ grind (arith, e, back, absent, eb, eo)

  save_image-sub_dir :
      (pull : ManifestHolder → Map ℕ → Map ℕ × Bool) (mh : ManifestHolder) (l : Bool)
      (files : Files)
      → sub_dir l (save_image env pull mh files).0 ≡ sub_dir l files
  unfolding save_image sub_dir
  save_image-sub_dir pull mh true files = ground arith
  save_image-sub_dir pull mh false files = ground arith

  image_saved :
      (pull : ManifestHolder → Map ℕ → Map ℕ × Bool) (mh : ManifestHolder) (files files' : Files)
      → save_image env pull mh files ≡ (files', ok tt)
      → (l : Bool) → sub_dir l files' ≡ sub_dir l files
  image_saved pull mh files files' h l =
      ap (λ (s : Loaded (Unit {0})). sub_dir l s.0) (sym h) ∙ save_image-sub_dir pull mh l files

-- The parts of a chain that ended well.
pub then_load-ok :
    {A B : Type 0} (x : Loaded A) (k : A → Files → Loaded B) (files : Files) (b : B)
    → then_load x k ≡ (files, ok b)
    → (a : A) × (files' : Files) × (x ≡ (files', ok a)) × (k a files' ≡ (files, ok b))
then_load-ok (files', ok a) k files b h = (a, files', refl, h)
then_load-ok (files', err e) k files b h = absurd (ground (arith, h))

-- After getFromCacheOrRemote: no manifest was lost or cut short, and the one that it returns is found.
abbrev pub Kept : Files → Files → Str → Bool → ManifestHolder → Type 0
Kept files files' d l mh =
    Grows files files' × Whole files' × (mh_from_filesystem d l files' ≡ some mh)

manifest_of : ManifestHolder → Loaded (ManifestHolder × ℕ) → ManifestHolder
manifest_of x (files, ok (mh, n)) = mh
manifest_of x (files, err e) = x

Kept-with_file :
    (files : Files) (d : Str) (l : Bool) (x : ManifestHolder)
    → Whole files
    → get_digest_from d ≡ x.digest
    → lookup x.digest (sub_dir l files) ≡ none
    → Kept files (with_file l x files) d l x
Kept-with_file files d l x whole named absent = (
  Grows-with_file l x files absent,
  Whole-with_file l x files whole,
  found_with_file l x d files named,
)

Kept-same :
    (files files1 files2 : Files) (d : Str) (l : Bool) (x : ManifestHolder)
    → ((k : Bool) → sub_dir k files2 ≡ sub_dir k files1)
    → Kept files files1 d l x
    → Kept files files2 d l x
Kept-same files files1 files2 d l x same (grows, whole, found) =
    let more = Grows-same files1 files2 same in
    (
      λ e k mh h. more e k mh (grows e k mh h),
      Whole-same files1 files2 same whole,
      more d l x found,
    )

-- A manifest that is on the file system is not pulled.
pub get_from_cache_or_remote-found :
    (env : Env) (client : Client) (opts : PullerOpts) (d : Str) (l is_image : Bool)
    (mh : ManifestHolder) (files : Files)
    → mh_from_filesystem d l files ≡ some mh
    → get_from_cache_or_remote env client opts d l is_image files ≡ (files, ok (mh, 0))
unfolding get_from_cache_or_remote
get_from_cache_or_remote-found env client opts d l is_image mh files found =
    rw (get_from_cache_or_remote, found) refl

module _ (env : Env) (client : Client) (opts : PullerOpts) (d : Str) (l : Bool)
    (files files' : Files) (n : ℕ) (whole : Whole files) where
  pull_and_save-Kept :
      (served : Option ManifestHolder) (mh : ManifestHolder)
      → mh_from_filesystem d l files ≡ none
      → ((x : ManifestHolder) → served ≡ some x → (get_digest_from d ≡ x.digest) × IsKept env l x)
      → pull_and_save env client opts served files ≡ (files', ok (mh, n))
      → Kept files files' d l mh
  unfolding pull_and_save manifest_of
  pull_and_save-Kept none mh missing honest h =
      absurd (ground (arith, ap (λ (s : Loaded (ManifestHolder × ℕ)). s.1) h))
  pull_and_save-Kept (some x) mh missing honest h =
      let (named, kind) = honest x refl in
      let absent = not_found d l x.digest files whole named missing in
      let (u, files1, saved, rest) = then_load-ok _ _ files' (mh, n) h in
      let (v, files2, imaged, end) =
        then_load-ok (save_image env (client.pull_blobs opts) x files1)
          (λ _ files''. (files'', ok (x, 1))) files' (mh, n) rest in
      let e1 = save_manifest-ok env x l files files1 kind absent saved in
      let same = image_saved env (client.pull_blobs opts) x files1 files2 imaged in
      let kept = Kept-same files files1 files2 d l x same (
        subst (λ (f : Files). Kept files f d l x) (sym e1)
          (Kept-with_file files d l x whole named absent)) in
      subst (λ (s : Loaded (ManifestHolder × ℕ)). Kept files s.0 d l (manifest_of x s)) end kept

  pub get_from_cache_or_remote-Kept :
      (is_image : Bool) (mh : ManifestHolder)
      → ((x : ManifestHolder)
          → (if is_image then client.get_manifest_by_digest opts d else client.get_manifest opts)
            ≡ some x
          → (get_digest_from d ≡ x.digest) × IsKept env l x)
      → get_from_cache_or_remote env client opts d l is_image files ≡ (files', ok (mh, n))
      → Kept files files' d l mh
  unfolding get_from_cache_or_remote manifest_of
  get_from_cache_or_remote-Kept is_image mh honest h =
      elim (Option-cases (mh_from_filesystem d l files)) [
        | inl missing ↦
            let served =
              if is_image then client.get_manifest_by_digest opts d else client.get_manifest opts in
            let pulled : get_from_cache_or_remote env client opts d l is_image files
                ≡ pull_and_save env client opts served files =
              rw (get_from_cache_or_remote, missing) refl in
            pull_and_save-Kept served mh missing honest (sym pulled ∙ h)
        | inr (x, found) ↦
            let there = get_from_cache_or_remote-found env client opts d l is_image x files found in
            let kept : Kept files files d l x = (λ e k y h. h, whole, found) in
            subst (λ (s : Loaded (ManifestHolder × ℕ)). Kept files s.0 d l (manifest_of x s))
              (sym there ∙ h) kept
      ]
