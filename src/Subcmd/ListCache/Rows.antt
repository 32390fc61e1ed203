-- ===== src/Subcmd/ListCache/Rows.antt =====
-- ListCache of cmd/subcmd/listcache.go against a description of the files.
use ociregistry.Base.{
  ◌≡◌, refl, sym, ap, ◌∙◌, inl, inr, Bool-cases, Bool, Option, List, map, [], ◌∷◌, ◌++◌, Str, split,
  Map, if◌then◌else◌, Result, ok,
}
use ociregistry.Config.{ListConfig}
use ociregistry.Imgpull.{ManifestHolder, Env}
use ociregistry.Patterns.{any_match, matches_some, Compile, parts_lem}
use ociregistry.Serialize.{FsError, File, manifest, unreadable, Files, walk_files, walk_the_cache}
use ociregistry.Subcmd.Prune.Tally.{AllRead}
use ociregistry.Subcmd.ListCache.{Row, row, list_one, list_cache}

-- The manifests of a directory whose url passes.
abbrev pub matching : (Str → Bool) → Map File → List ManifestHolder
matching passes [] = []
matching passes ((name, unreadable) ∷ m) = matching passes m
matching passes ((name, manifest mh) ∷ m) =
    if passes mh.image_url then mh ∷ matching passes m else matching passes m

append_nil : {A : Type 0} (xs : List A) → xs ++ [] ≡ xs
append_nil [] = refl
append_nil (x ∷ xs) = ap (λ t. x ∷ t) (append_nil xs)

append_rows : {A : Type 0} (xs : List A) (y : A) (ys : List A) → (xs ++ y ∷ []) ++ ys ≡ xs ++ y ∷ ys
append_rows [] y ys = refl
append_rows (x ∷ xs) y ys = ap (λ t. x ∷ t) (append_rows xs y ys)

module _ (env : Env) (cfg : ListConfig) (srchs : List (Str → Bool)) (passes : Str → Bool)
    (same : (mh : ManifestHolder) → any_match srchs mh ≡ passes mh.image_url) where
  walk_rows :
      (files : Map File) (rows : List Row)
      → AllRead files
      → walk_files (list_one env cfg srchs) files rows
        ≡ (rows ++ map (row env cfg) (matching passes files), ok tt)
  unfolding walk_files list_one
  walk_rows [] rows h = ap (λ (t : List Row). (t, ok tt)) (sym (append_nil rows))
  walk_rows ((name, unreadable) ∷ files) rows h = elim h [ ]
  walk_rows ((name, manifest mh) ∷ files) rows h = elim (Bool-cases (passes mh.image_url)) [
    | inl e ↦
        rw (same mh, e)
          (walk_rows files (rows ++ row env cfg mh ∷ []) h
            ∙ ap (λ (t : List Row). (t, ok tt))
                (append_rows rows (row env cfg mh) (map (row env cfg) (matching passes files))))
    | inr e ↦ rw (same mh, e) (walk_rows files rows h)
  ]

  walk_all_rows :
      (files : Files)
      → AllRead files.lts
      → AllRead files.img
      → walk_the_cache (list_one env cfg srchs) files [] ≡ (
        map (row env cfg) (matching passes files.lts)
            ++ map (row env cfg) (matching passes files.img),
        ok tt,
      )
  unfolding walk_the_cache
  walk_all_rows files hl hi =
      let lts = walk_rows files.lts [] hl in
      rw (lts, walk_the_cache)
        (walk_rows files.img (walk_files (list_one env cfg srchs) files.lts []).0 hi
          ∙ ap
              (λ (s : List Row × Result FsError (Unit {0})).
                (s.0 ++ map (row env cfg) (matching passes files.img), ok tt))
              lts)

-- If each comma-separated part of the expression compiles and every manifest reads, the rows are those
-- of the manifests whose url matches a part, first those of lts and then those of img.
pub list_cache_lem :
    (env : Env) (cfg : ListConfig) (compile : Str → Option (Str → Bool)) (files : Files)
    → Compile compile (split cfg.expr b',')
    → AllRead files.lts
    → AllRead files.img
    → list_cache env cfg compile files
      ≡ ok (
          map (row env cfg) (matching (matches_some compile (split cfg.expr b',')) files.lts)
          ++ map (row env cfg) (matching (matches_some compile (split cfg.expr b',')) files.img))
unfolding list_cache
list_cache_lem env cfg compile files c hl hi =
    let (srchs, compiled, same) = parts_lem compile (split cfg.expr b',') c in
    let walked =
      walk_all_rows env cfg srchs (matches_some compile (split cfg.expr b',')) same files hl hi in
    rw (compiled, list_cache)
      (rw (ap (λ (s : List Row × Result FsError (Unit {0})). s.1) walked)
        (ap (λ (s : List Row × Result FsError (Unit {0})). ok s.0) walked))
