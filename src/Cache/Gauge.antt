-- ===== src/Cache/Gauge.antt =====
-- impl/cache/cache.go and impl/cache/prune.go with impl/metrics/ociregistry.go: the gauge of the cached
-- manifests.
mod Examples
use ociregistry.Base.{
  ℕ, suc, ◌+◌, [], ◌∷◌, ◌≡◌, ◌↔◌, refl, sym, ap, ◌∙◌, Bool, true, false, ◌&&◌, ◌||◌, Bool-cases,
  Option, none, some, Option-cases, inl, inr, Str, str_eq, str_eq_iff, Map, lookup, insert, delete,
  lookup-insert, lookup-delete, length, IsMap, if◌then◌else◌, arith,
}
use ociregistry.Base.Int.{ℤ, pos, negsuc, add_ℤ}
use ociregistry.Imgpull.{ManifestHolder}
use ociregistry.Metrics.{Metrics, delta_cached_manifest_count}
use ociregistry.PullRequest.{PullRequest, is_by_tag, is_latest, url}
use ociregistry.Cache.{Cache, is_some, digest_key, add_manifest_to_cache, delete_manifest}
use ociregistry.Cache.RefCounts.{home}

-- len of manifestCache
unfoldable pub len : Cache → ℕ
len c = length c.manifests + length c.latest

-- What addManifestToCache and delete do with the gauge.
unfoldable pub count_added : PullRequest → Metrics → Metrics
count_added pr m =
    if is_latest pr
    then delta_cached_manifest_count (pos 2) m
    else let m' = delta_cached_manifest_count (pos 1) m in
      if is_by_tag pr.pull_type then delta_cached_manifest_count (pos 1) m' else m'

unfoldable pub count_deleted : PullRequest → Metrics → Metrics
count_deleted pr m =
    if is_latest pr
    then delta_cached_manifest_count (negsuc 1) m
    else let m' = delta_cached_manifest_count (negsuc 0) m in
      if is_by_tag pr.pull_type then delta_cached_manifest_count (negsuc 0) m' else m'

-- Whether a manifest has two entries.
abbrev pub is_twofold : PullRequest → Bool
is_twofold pr = is_latest pr || is_by_tag pr.pull_type

insert-length :
    {V : Type 0} (k : Str) (v : V) (m : Map V)
    → length (insert k v m) ≡ (if is_some (lookup k m) then length m else suc (length m))
unfolding insert lookup
insert-length k v [] = refl
insert-length k v ((j, w) ∷ m) = ground (arith, insert-length k v m)

insert-length-suc :
    {V : Type 0} (k : Str) (v : V) (m : Map V)
    → (length (insert k v m) ≡ suc (length m)) ↔ (is_some (lookup k m) ≡ false)
insert-length-suc k v m = elim (Bool-cases (is_some (lookup k m))) [
  | inl e ↦ ground (arith, insert-length k v m, e)
  | inr e ↦ ground (arith, insert-length k v m, e)
]

is_some-insert :
    {V : Type 0} (k j : Str) (v : V) (m : Map V)
    → is_some (lookup j (insert k v m)) ≡ (is_some (lookup j m) || str_eq k j)
is_some-insert k j v m = elim (Bool-cases (str_eq k j)) [
  | inl e ↦ ground (arith, lookup-insert k j v m, e)
  | inr e ↦ ground (arith, lookup-insert k j v m, e)
]

insert-length_two :
    {V : Type 0} (k j : Str) (v : V) (m : Map V)
    → (length (insert j v (insert k v m)) ≡ suc (suc (length m)))
      ↔ ((is_some (lookup k m) ≡ false) × ((is_some (lookup j m) || str_eq k j) ≡ false))
insert-length_two k j v m =
    let first = insert-length k v m in
    let second = insert-length j v (insert k v m) in
    let found = is_some-insert k j v m in
    elim (Bool-cases (is_some (lookup k m))) [
      | inl e ↦ elim (Bool-cases (is_some (lookup j m) || str_eq k j)) [
        | inl f ↦ ground (arith, first, second, found, e, f)
        | inr f ↦ ground (arith, first, second, found, e, f)
      ]
      | inr e ↦ elim (Bool-cases (is_some (lookup j m) || str_eq k j)) [
        | inl f ↦ ground (arith, first, second, found, e, f)
        | inr f ↦ ground (arith, first, second, found, e, f)
      ]
    ]

-- The keys that an addition needs are free and apart.
abbrev pub AreFree : PullRequest → Str → Cache → Type 0
AreFree pr digest c =
    (is_some (lookup (url pr) (home pr c)) ≡ false)
    × ((is_twofold pr
          && (is_some (lookup (digest_key pr digest) (home pr c))
              || str_eq (url pr) (digest_key pr digest)))
        ≡ false)

entries_of : PullRequest → ℕ → ℕ
entries_of pr n = if is_twofold pr then suc (suc n) else suc n

len-add :
    (pr : PullRequest) (mh : ManifestHolder) (c : Cache)
    → (len (add_manifest_to_cache pr mh c) ≡ entries_of pr (len c)) ↔ AreFree pr mh.digest c
unfolding len add_manifest_to_cache entries_of
len-add pr mh c =
    let key = digest_key pr mh.digest in
    elim (Bool-cases (is_latest pr)) [
      | inl e ↦ ground (arith, e, insert-length_two (url pr) key mh c.latest)
      | inr e ↦ elim (Bool-cases (is_by_tag pr.pull_type)) [
        | inl t ↦ ground (arith, e, t, insert-length_two (url pr) key mh c.manifests)
        | inr t ↦ ground (arith, e, t, insert-length-suc (url pr) mh c.manifests)
      ]
    ]

count_added-entries :
    (pr : PullRequest) (m : Metrics) (n : ℕ)
    → m.registered ≡ true
    → m.cached_manifest_count ≡ pos n
    → (count_added pr m).cached_manifest_count ≡ pos (entries_of pr n)
unfolding count_added delta_cached_manifest_count entries_of
count_added-entries pr m n r h = ground (arith, r, h)

pos-injective : {a b : ℕ} → pos a ≡ pos b → a ≡ b
pos-injective e = cc e

count_deleted-count_added :
    (pr : PullRequest) (m : Metrics)
    → (count_deleted pr (count_added pr m)).cached_manifest_count ≡ m.cached_manifest_count
unfolding count_deleted count_added delta_cached_manifest_count
count_deleted-count_added pr m = ground arith

-- Once the metrics are registered, and where the gauge has the number of entries, it has their number
-- after addManifestToCache too exactly if each key that the manifest is put under was free, and the two
-- keys differ where there are two. A delete of the manifest takes back what was added to the gauge.
pub count_added-len_iff :
    (pr : PullRequest) (mh : ManifestHolder) (c : Cache) (m : Metrics)
    → m.registered ≡ true
    → m.cached_manifest_count ≡ pos (len c)
    → (((count_added pr m).cached_manifest_count ≡ pos (len (add_manifest_to_cache pr mh c)))
        ↔ AreFree pr mh.digest c)
      × ((count_deleted pr (count_added pr m)).cached_manifest_count ≡ m.cached_manifest_count)
count_added-len_iff pr mh c m r h =
    let counted = count_added-entries pr m (len c) r h in
    let (only, if_) = len-add pr mh c in
    (
      (λ e. only (sym (pos-injective (sym counted ∙ e))), λ f. counted ∙ ap pos (sym (if_ f))),
      count_deleted-count_added pr m,
    )
