-- ===== src/Cache/Query/PrunedKeys.antt =====
-- doPrune of impl/cache/prune.go: the entries that its loop takes out of the cache.
use ociregistry.Base.{
  ◌≡◌, refl, ap, ◌∙◌, inl, inr, Bool, true, false, Bool-cases, ◌||◌, ◌&&◌, not, none, List, [], ◌∷◌,
  Str, str_eq, Map, lookup, lookup-delete, if◌then◌else◌, ok, err, arith, Result-cases,
}
use ociregistry.Imgpull.{ManifestHolder, Layer, Env}
use ociregistry.PullRequest.{PullRequest, is_by_tag, url, is_latest, new_pull_request_from_url}
use ociregistry.Serialize.Digest.{get_digest_from}
use ociregistry.Cache.{
  Cache, digest_key, delete_manifest, rm_blob, rm_layers, rm_blobs, rm_manifest, prune,
}
use ociregistry.Cache.Query.{prune_all}

-- The entries of the latest manifests, or of the others.
abbrev pub entries : Bool → Cache → Map ManifestHolder
entries true c = c.latest
entries false c = c.manifests

-- A manifest is put under the url of its request and, if it is latest or has a tag, under its digest.
abbrev pub is_key_of : PullRequest → Str → Str → Bool
is_key_of pr digest key =
    str_eq (url pr) key
    || ((is_latest pr || is_by_tag pr.pull_type) && str_eq (digest_key pr digest) key)

abbrev pub is_entry_of : Bool → Str → ManifestHolder → Bool
is_entry_of latest key mh = elim (new_pull_request_from_url mh.image_url) [
  | err _ ↦ false
  | ok pr ↦ (if latest then is_latest pr else not (is_latest pr)) && is_key_of pr mh.digest key
]

-- One of the manifests has the key.
abbrev pub has_entry : Bool → Str → List ManifestHolder → Bool
has_entry latest key [] = false
has_entry latest key (mh ∷ mhs) = is_entry_of latest key mh || has_entry latest key mhs

module _ (env : Env) where
  rm_blob-entries :
      (latest : Bool) (digest : Str) (c : Cache)
      → entries latest (rm_blob env digest c).0 ≡ entries latest c
  unfolding rm_blob
  rm_blob-entries true digest c = ground arith
  rm_blob-entries false digest c = ground arith

  rm_layers-entries :
      (latest : Bool) (layers : List Layer) (c : Cache)
      → entries latest (rm_layers env layers c).0 ≡ entries latest c
  unfolding rm_layers
  rm_layers-entries latest [] c = refl
  rm_layers-entries latest (layer ∷ layers) c =
      let digest = get_digest_from layer.digest in
      let c' = (rm_blob env digest c).0 in
      let one = rm_blob-entries latest digest c in
      elim (Result-cases (rm_blob env digest c).1) [
        | inl (u, e) ↦ rw (rm_layers, e) (rm_layers-entries latest layers c' ∙ one)
        | inr (x, e) ↦ rw (rm_layers, e) one
      ]

  delete_manifest-entries :
      (latest : Bool) (key : Str) (pr : PullRequest) (digest : Str) (c : Cache)
      → lookup key (entries latest (delete_manifest pr digest c)) ≡ (
          if (if latest then is_latest pr else not (is_latest pr)) && is_key_of pr digest key
          then none
          else lookup key (entries latest c))
  unfolding delete_manifest
  delete_manifest-entries true key pr digest c = elim (Bool-cases (is_latest pr)) [
    | inl e ↦ rw e (simp lookup-delete (ground arith))
    | inr e ↦ rw e refl
  ]
  delete_manifest-entries false key pr digest c = elim (Bool-cases (is_latest pr)) [
    | inl e ↦ rw e refl
    | inr e ↦ elim (Bool-cases (is_by_tag pr.pull_type)) [
      | inl t ↦ rw (e, t) (simp lookup-delete (ground arith))
      | inr t ↦ rw (e, t) (simp lookup-delete (ground arith))
    ]
  ]

  rm_manifest-entries :
      (latest : Bool) (key : Str) (mh : ManifestHolder) (c : Cache)
      → lookup key (entries latest (rm_manifest env mh c))
        ≡ (if is_entry_of latest key mh then none else lookup key (entries latest c))
  unfolding rm_manifest
  rm_manifest-entries true key mh c = elim (Result-cases (new_pull_request_from_url mh.image_url)) [
    | inl (pr, e) ↦
        rw (rm_manifest, is_entry_of, e) (delete_manifest-entries true key pr mh.digest c)
    | inr (x, e) ↦ rw (rm_manifest, is_entry_of, e) refl
  ]
  rm_manifest-entries false key mh c =
      elim (Result-cases (new_pull_request_from_url mh.image_url)) [
        | inl (pr, e) ↦
            rw (rm_manifest, is_entry_of, e) (delete_manifest-entries false key pr mh.digest c)
        | inr (x, e) ↦ rw (rm_manifest, is_entry_of, e) refl
      ]

  prune-entries :
      (latest : Bool) (key : Str) (mh : ManifestHolder) (c : Cache)
      → lookup key (entries latest (prune env mh c))
        ≡ (if is_entry_of latest key mh then none else lookup key (entries latest c))
  unfolding prune rm_blobs
  prune-entries latest key mh c = elim (Bool-cases (env.is_image_manifest mh)) [
    | inl e ↦
        rw (prune, e)
          (ap (lookup key) (rm_layers-entries latest (env.layers mh) (rm_manifest env mh c))
            ∙ rm_manifest-entries latest key mh c)
    | inr e ↦ rw (prune, e) (rm_manifest-entries latest key mh c)
  ]

  -- The loop takes out the entries that one of the manifests has, and no other.
  pub prune_all-entries :
      (latest : Bool) (key : Str) (mhs : List ManifestHolder) (c : Cache)
      → lookup key (entries latest (prune_all env mhs false c))
        ≡ (if has_entry latest key mhs then none else lookup key (entries latest c))
  unfolding prune_all
  prune_all-entries latest key [] c = refl
  prune_all-entries latest key (mh ∷ mhs) c =
      let rest = prune_all-entries latest key mhs (prune env mh c) in
      let one = prune-entries latest key mh c in
      elim (Bool-cases (is_entry_of latest key mh)) [
        | inl e ↦ grind (arith, rest, one, e)
        | inr e ↦ grind (arith, rest, one, e)
      ]
