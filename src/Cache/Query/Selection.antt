-- ===== src/Cache/Query/Selection.antt =====
-- GetManifestsCompare of impl/cache/query.go against a filter and a cut-off.
use ociregistry.Base.{
  ℕ, zero, suc, ◌+◌, ◌≡◌, refl, true, ◌&&◌, List, [], ◌∷◌, ◌++◌, arith, Str, str_eq, take,
  if◌then◌else◌,
}
use ociregistry.Base.Int.{ℤ, pos, negsuc}
use ociregistry.Imgpull.{ManifestHolder, Env}
use ociregistry.Cache.{Cache}
use ociregistry.Cache.Query.{
  ManifestComparer, all_manifests, select, get_manifests_compare, prune_all, do_prune,
}

-- The specification: filter, then cut off.
abbrev pub own_and_passing : ManifestComparer → List (Str × ManifestHolder) → List ManifestHolder
own_and_passing comparer [] = []
own_and_passing comparer ((url, mh) ∷ entries) =
    if str_eq url mh.image_url && comparer mh
    then mh ∷ own_and_passing comparer entries
    else own_and_passing comparer entries

pub own_and_passing-same :
    (f g : ManifestComparer) (entries : List (Str × ManifestHolder))
    → ((mh : ManifestHolder) → f mh ≡ g mh)
    → own_and_passing f entries ≡ own_and_passing g entries
own_and_passing-same f g [] h = refl
own_and_passing-same f g ((url, mh) ∷ entries) h =
    ground (arith, h mh, own_and_passing-same f g entries h)

select_unlimited :
    (comparer : ManifestComparer) (n : ℕ) (entries : List (Str × ManifestHolder))
    → select comparer (negsuc 0) n entries ≡ own_and_passing comparer entries
unfolding select
select_unlimited comparer n [] = refl
select_unlimited comparer n ((url, mh) ∷ entries) =
    ground (arith, select_unlimited comparer n entries, select_unlimited comparer (suc n) entries)

-- With n found and room for k more.
select_limited :
    (comparer : ManifestComparer) (count n k : ℕ) (entries : List (Str × ManifestHolder))
    → count ≡ n + k
    → select comparer (pos count) n entries ≡ take k (own_and_passing comparer entries)
unfolding select
select_limited comparer count n zero [] h = refl
select_limited comparer count n (suc k) [] h = refl
select_limited comparer count n zero ((url, mh) ∷ entries) h =
    ground (arith, select_limited comparer count n zero entries h)
select_limited comparer count n (suc k) ((url, mh) ∷ entries) h = ground (
  arith,
  select_limited comparer count n (suc k) entries h,
  select_limited comparer count (suc n) k entries,
)

-- With a count of zero or more, GetManifestsCompare returns the first `count` of the manifests that
-- stand under their own url and pass the comparer, in the order of the iteration; with -1, all.
pub get_manifests_compare_lem :
    (comparer : ManifestComparer) (count : ℕ) (c : Cache)
    → (get_manifests_compare comparer (pos count) c
        ≡ take count (own_and_passing comparer (c.manifests ++ c.latest)))
      × (get_manifests_compare comparer (negsuc 0) c
          ≡ own_and_passing comparer (c.manifests ++ c.latest))
unfolding get_manifests_compare all_manifests
get_manifests_compare_lem comparer count c =
    (select_limited comparer count 0 count _ (omega arith), select_unlimited comparer 0 _)

prune_all_dry : (env : Env) (mhs : List ManifestHolder) (c : Cache) → prune_all env mhs true c ≡ c
unfolding prune_all
prune_all_dry env [] c = refl
prune_all_dry env (mh ∷ mhs) c = prune_all_dry env mhs c

-- A dry run of the pruner changes nothing, whatever it selects.
pub do_prune_dry :
    (env : Env) (comparer : ManifestComparer) (count : ℤ) (c : Cache)
    → do_prune env comparer count true c ≡ c
unfolding do_prune
do_prune_dry env comparer count c = prune_all_dry env (get_manifests_compare comparer count c) c
