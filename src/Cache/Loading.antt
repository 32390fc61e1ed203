-- ===== src/Cache/Loading.antt =====
-- Load of impl/cache/cache.go: the start of the server, which fills the cache from the file system.
use ociregistry.Base.{
  ◌≡◌, refl, subst, ◌∙◌, inl, inr, Bool-cases, Result-cases, true, Option, none, some, List, [],
  ◌∷◌, ◌++◌, arith, Str, str_eq, Map, insert, All, if◌then◌else◌, Result, ok, err,
}
use ociregistry.Imgpull.{ManifestHolder, Layer, Env}
use ociregistry.PullRequest.{
  PullRequest, PullError, is_by_tag, url, is_latest, new_pull_request_from_url,
}
use ociregistry.Serialize.{
  File, manifest, unreadable, Files, FsError, bad_url, not_read, blob_exists, walk_files,
  walk_the_cache,
}
use ociregistry.Serialize.Digest.{get_digest_from}
use ociregistry.Cache.Counts.{HaveBlobs}
use ociregistry.Cache.Adding.{add_to_cache-maps}
use ociregistry.Cache.{
  Cache, reset_cache, digest_key, add_manifest_to_cache, add_to_cache, can_add, can_add_layers,
}

module _ (env : Env) where
  -- The handler that Load gives to WalkTheCache; the second part of the state is `outerErr`.
  unfoldable pub load_one :
      ManifestHolder
      → Cache × Option PullError
      → (Cache × Option PullError) × Result FsError (Unit {0})
  load_one mh (c, outer) = elim (new_pull_request_from_url mh.image_url) [
    | err e ↦ ((c, some e), err bad_url)
    | ok pr ↦
        if can_add env mh c.files
        then (((add_to_cache env pr mh c).0, outer), ok tt)
        else ((c, outer), ok tt)
  ]

  -- Load: the cache, and the error that is returned. What WalkTheCache returns is dropped.
  unfoldable pub load : Files → Cache × Option PullError
  load files = (walk_the_cache (load_one) files (reset_cache files, none)).0

  -- Every manifest of the map has its blobs on the file system.
  abbrev pub IsComplete : Files → Map ManifestHolder → Type 0
  IsComplete files m = All (λ e. HaveBlobs env (env.layers e.1) files) m

  insert-IsComplete :
      (files : Files) (key : Str) (mh : ManifestHolder) (m : Map ManifestHolder)
      → HaveBlobs env (env.layers mh) files
      → IsComplete files m
      → IsComplete files (insert key mh m)
  unfolding insert
  insert-IsComplete files key mh [] h all = (h, tt)
  insert-IsComplete files key mh ((j, w) ∷ m) h all = elim (Bool-cases (str_eq j key)) [
    | inl e ↦ rw e (h, all.1)
    | inr e ↦ rw e (all.0, insert-IsComplete files key mh m h all.1)
  ]

  can_add-HaveBlobs :
      (layers : List Layer) (files : Files)
      → can_add_layers env layers files ≡ true
      → HaveBlobs env layers files
  unfolding can_add_layers
  can_add-HaveBlobs [] files h = tt
  can_add-HaveBlobs (layer ∷ layers) files h =
      elim (Bool-cases (blob_exists env (get_digest_from layer.digest) files)) [
        | inl e ↦ (e, can_add-HaveBlobs layers files (rw e at h))
        | inr e ↦ absurd (ground (arith, e, h))
      ]

  record IsLoaded (files : Files) (c : Cache) : Type 0 where
    same_files : c.files ≡ files
    manifests : IsComplete files c.manifests
    latest : IsComplete files c.latest

  add_manifest-IsComplete :
      (files : Files) (pr : PullRequest) (mh : ManifestHolder) (c : Cache)
      → HaveBlobs env (env.layers mh) files
      → IsComplete files c.manifests
      → IsComplete files c.latest
      → IsComplete files (add_manifest_to_cache pr mh c).manifests
        × IsComplete files (add_manifest_to_cache pr mh c).latest
  unfolding add_manifest_to_cache
  add_manifest-IsComplete files pr mh c h m l = elim (Bool-cases (is_latest pr)) [
    | inl e ↦ rw e (
      m,
      insert-IsComplete files (digest_key pr mh.digest) mh (insert (url pr) mh c.latest) h
          (insert-IsComplete files (url pr) mh c.latest h l),
    )
    | inr e ↦ rw e (elim (Bool-cases (is_by_tag pr.pull_type)) [
      | inl t ↦ rw t (
        insert-IsComplete files (digest_key pr mh.digest) mh (insert (url pr) mh c.manifests) h
            (insert-IsComplete files (url pr) mh c.manifests h m),
        l,
      )
      | inr t ↦ rw t (insert-IsComplete files (url pr) mh c.manifests h m, l)
    ])
  ]

  add-IsLoaded :
      (files : Files) (pr : PullRequest) (mh : ManifestHolder) (c : Cache)
      → can_add env mh c.files ≡ true
      → IsLoaded files c
      → IsLoaded files (add_to_cache env pr mh c).0
  unfolding can_add
  add-IsLoaded files pr mh c can x =
      let (ms, ls, fs) = add_to_cache-maps env pr mh c in
      let h : HaveBlobs env (env.layers mh) files =
        subst (HaveBlobs env (env.layers mh)) x.same_files
          (can_add-HaveBlobs (env.layers mh) c.files can) in
      let (m, l) = add_manifest-IsComplete files pr mh c h x.manifests x.latest in
      record { same_files = fs ∙ x.same_files; manifests = rw ms m; latest = rw ls l }

  load_one-IsLoaded :
      (files : Files) (mh : ManifestHolder) (s : Cache × Option PullError)
      → IsLoaded files s.0
      → IsLoaded files (load_one mh s).0.0
  unfolding load_one
  load_one-IsLoaded files mh (c, outer) x =
      elim (Result-cases (new_pull_request_from_url mh.image_url)) [
        | inr (e, h) ↦ rw (h, load_one) x
        | inl (pr, h) ↦ elim (Bool-cases (can_add env mh c.files)) [
          | inl can ↦ rw (h, load_one, can) (add-IsLoaded files pr mh c can x)
          | inr can ↦ rw (h, load_one, can) x
        ]
      ]

  walk_files-IsLoaded :
      (files : Files) (m : Map File) (s : Cache × Option PullError)
      → IsLoaded files s.0
      → IsLoaded files (walk_files load_one m s).0.0
  unfolding walk_files
  walk_files-IsLoaded files [] s x = x
  walk_files-IsLoaded files ((name, unreadable) ∷ m) s x = x
  walk_files-IsLoaded files ((name, manifest mh) ∷ m) s x = elim (Result-cases (load_one mh s).1) [
    | inl (u, h) ↦
        rw (h, walk_files)
          (walk_files-IsLoaded files m (load_one mh s).0 (load_one-IsLoaded files mh s x))
    | inr (e, h) ↦ rw (h, walk_files) (load_one-IsLoaded files mh s x)
  ]

  load-IsLoaded : (files : Files) → IsLoaded files (load files).0
  unfolding load walk_the_cache reset_cache
  load-IsLoaded files =
      let s : Cache × Option PullError = (reset_cache files, none) in
      let x =
        walk_files-IsLoaded files files.lts s
          (record { same_files = refl; manifests = tt; latest = tt }) in
      elim (Result-cases (walk_files load_one files.lts s).1) [
        | inl (u, h) ↦
            rw (h, load, walk_the_cache)
              (walk_files-IsLoaded files files.img (walk_files load_one files.lts s).0 x)
        | inr (e, h) ↦ rw (h, load, walk_the_cache) x
      ]

  -- After Load every cached manifest, whether tagged `latest` or not and under each of its keys, has
  -- the blobs of all its layers on the file system, whatever files Load has met.
  pub load-IsComplete :
      (files : Files)
      → IsComplete files (load files).0.manifests × IsComplete files (load files).0.latest
  load-IsComplete files = let x = load-IsLoaded files in (x.manifests, x.latest)

  walk_files-unreadable :
      (before after : Map File) (name : Str) (s : Cache × Option PullError)
      → ((walk_files load_one (before ++ (name, unreadable) ∷ after) s).0
          ≡ (walk_files load_one before s).0)
        × ((e : FsError) × ((walk_files load_one (before ++ (name, unreadable) ∷ after) s).1
              ≡ err e))
  unfolding walk_files
  walk_files-unreadable [] after name s = (refl, (not_read, refl))
  walk_files-unreadable ((n, unreadable) ∷ before) after name s = (refl, (not_read, refl))
  walk_files-unreadable ((n, manifest mh) ∷ before) after name s =
      elim (Result-cases (load_one mh s).1) [
        | inl (u, h) ↦
            rw (h, walk_files) (walk_files-unreadable before after name (load_one mh s).0)
        | inr (e, h) ↦ rw (h, walk_files) (refl, (e, refl))
      ]

  -- Where a file of `lts` does not read, Load does what it does with the files before it, and returns
  -- the error of those, if any: no later file, and none of `img`, is looked at, and the file that
  -- does not read is no error.
  pub load_unreadable :
      (files : Files) (before after : Map File) (name : Str)
      → files.lts ≡ before ++ (name, unreadable) ∷ after
      → load files ≡ (walk_files load_one before (reset_cache files, none)).0
  unfolding load walk_the_cache
  load_unreadable files before after name h =
      let (same, (e, stops)) = walk_files-unreadable before after name (reset_cache files, none) in
      cc (h, same, stops)
