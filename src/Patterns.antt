-- ===== src/Patterns.antt =====
-- Comma-separated regular expressions over urls, as impl/cmd_handlers.go, impl/cache/prune.go,
-- cmd/subcmd/prune.go and cmd/subcmd/listcache.go compile and match them. `compile` is regexp.Compile with
-- the MatchString of its result.
use ociregistry.Base.{
  ◌≡◌, refl, Bool, true, false, ◌||◌, Option, none, some, List, [], ◌∷◌, Str, if◌then◌else◌, arith,
  Result, ok, err,
}
use ociregistry.Imgpull.{ManifestHolder}

unfoldable pub any_match : List (Str → Bool) → ManifestHolder → Bool
any_match [] mh = false
any_match (srch ∷ srchs) mh =
    let rest = any_match srchs mh in if srch mh.image_url then true else rest

module _ (compile : Str → Option (Str → Bool)) where
  -- The loop over the parts of a pattern: the expressions, or the part that does not compile.
  unfoldable pub compile_parts : List Str → Result Str (List (Str → Bool))
  compile_parts [] = ok []
  compile_parts (ref ∷ refs) = elim (compile ref) [
    | none ↦ err ref
    | some srch ↦ elim (compile_parts refs) [ ok srchs ↦ ok (srch ∷ srchs) | err e ↦ err e ]
  ]

  -- The url matches an expression of the list, each compiled when it is looked at.
  abbrev pub match_one : Option (Str → Bool) → Str → Bool
  match_one (some srch) url = srch url
  match_one none url = false

  abbrev pub matches_some : List Str → Str → Bool
  matches_some [] url = false
  matches_some (ref ∷ refs) url = match_one (compile ref) url || matches_some refs url

  abbrev pub Compile : List Str → Type 0
  Compile [] = Unit
  Compile (ref ∷ refs) = ((srch : Str → Bool) × (compile ref ≡ some srch)) × Compile refs

  pub parts_lem :
      (refs : List Str)
      → Compile refs
      → (srchs : List (Str → Bool)) × (compile_parts refs ≡ ok srchs)
        × ((mh : ManifestHolder) → any_match srchs mh ≡ matches_some refs mh.image_url)
  unfolding compile_parts any_match
  parts_lem [] h = ([], refl, λ mh. refl)
  parts_lem (ref ∷ refs) ((srch, e), h) =
      let (srchs, ok_srchs, same) = parts_lem refs h in
      (srch ∷ srchs, ground (arith, e, ok_srchs), λ mh. ground (arith, e, same mh))
