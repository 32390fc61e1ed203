-- ===== src/Server/Commands/Pruning.antt =====
-- impl/cmd_handlers.go: the command that prunes, with Prune of impl/cache/prune.go.
use ociregistry.Base.{
  ℕ, ◌≡◌, ◌≢◌, refl, ap, ◌∙◌, inl, inr, Bool, true, false, Option, none, some, Option-cases, List,
  ◌++◌, Str, lit, str_eq, to_lower, split, take, lookup, if◌then◌else◌, Result, Result-cases, ok,
  err,
}
use ociregistry.Base.Int.{ℤ, pos}
use ociregistry.Clock.{Clock}
use ociregistry.Config.{PruneConfig}
use ociregistry.Imgpull.{ManifestHolder, Env}
use ociregistry.Cache.{Cache}
use ociregistry.Cache.Criteria.{
  CriteriaError, parse_bool, parse_criteria, calc_cutoff, comparer_for, rest_config, prune_by,
  prune_rest,
}
use ociregistry.Cache.Query.{prune_all, do_prune}
use ociregistry.Cache.Query.PrunedKeys.{entries, has_entry, prune_all-entries}
use ociregistry.Cache.Query.Selection.{
  own_and_passing, own_and_passing-same, get_manifests_compare_lem, do_prune_dry,
}
use ociregistry.Patterns.{any_match, compile_parts, matches_some, Compile, parts_lem}
use ociregistry.Server.Commands.{Answer, pruned, bad_request, count, cmd_prune}

-- What the parameter for a dry run says.
abbrev pub switch : Option Str → Option Bool
switch none = none
switch (some s) = parse_bool s

answer : Cache × Result CriteriaError (Unit {0}) → Cache × Answer
answer (c, ok _) = (c, pruned)
answer (c, err e) = (c, bad_request e)

module _ (env : Env) (clock : Clock) (compile : Str → Option (Str → Bool)) where
  prune_by-dry :
      (cfg : PruneConfig) (c : Cache)
      → cfg.dry_run ≡ true
      → (prune_by clock compile env cfg c).0 ≡ c
  unfolding prune_by
  prune_by-dry cfg c dry = elim (Result-cases (parse_criteria clock compile cfg)) [
    | inl (comparer, e) ↦ rw (prune_by, e) (rw dry (do_prune_dry env comparer cfg.count c))
    | inr (e', e) ↦ rw (prune_by, e) refl
  ]

  prune_rest-dry :
      (prune_type : Str) (dur expr dry_run : Option Str) (n : Option ℤ) (c : Cache)
      → switch dry_run ≢ some false
      → (prune_rest clock compile env prune_type dur expr dry_run n c).0 ≡ c
  unfolding prune_rest rest_config
  prune_rest-dry prune_type dur expr none n c h =
      prune_by-dry (rest_config prune_type dur expr n true) c refl
  prune_rest-dry prune_type dur expr (some s) n c h = elim (Option-cases (parse_bool s)) [
    | inl e ↦ rw (prune_rest, e) refl
    | inr (true, e) ↦
        rw (prune_rest, e) (prune_by-dry (rest_config prune_type dur expr n true) c refl)
    | inr (false, e) ↦ absurd (h e)
  ]

  cmd_prune-cache :
      (prune_type : Str) (dur expr dry_run : Option Str) (n : Option ℤ) (c : Cache)
      → (cmd_prune env compile clock prune_type dur expr dry_run n c).0
        ≡ (prune_rest clock compile env prune_type dur expr dry_run (some (count n)) c).0
  unfolding cmd_prune
  cmd_prune-cache prune_type dur expr dry_run n c =
      elim (Result-cases
        (prune_rest clock compile env prune_type dur expr dry_run (some (count n)) c).1) [
          | inl (a, e) ↦ rw (cmd_prune, e) refl
          | inr (e', e) ↦ rw (cmd_prune, e) refl
        ]

  -- The command to prune changes nothing, in the cache or on the file system, where its parameter for a
  -- dry run is missing, cannot be read as a truth value, or is read as true.
  pub cmd_prune-dry :
      (prune_type : Str) (dur expr dry_run : Option Str) (n : Option ℤ) (c : Cache)
      → switch dry_run ≢ some false
      → (cmd_prune env compile clock prune_type dur expr dry_run n c).0 ≡ c
  cmd_prune-dry prune_type dur expr dry_run n c h =
      cmd_prune-cache prune_type dur expr dry_run n c
      ∙ prune_rest-dry prune_type dur expr dry_run (some (count n)) c h

  -- The first `n` cached manifests that stand under their own url and whose url matches a part.
  abbrev pub pattern_matches : Str → ℕ → Cache → List ManifestHolder
  pattern_matches expr n c = take n (
      own_and_passing (λ mh. matches_some compile (split expr b',') mh.image_url)
        (c.manifests ++ c.latest))

  parse_criteria-pattern :
      (dur : Option Str) (expr : Str) (n : ℤ) (srchs : List (Str → Bool))
      → compile_parts compile (split expr b',') ≡ ok srchs
      → parse_criteria clock compile (rest_config (lit "pattern") dur (some expr) (some n) false)
        ≡ ok (any_match srchs)
  unfolding parse_criteria calc_cutoff comparer_for rest_config to_lower str_eq
  parse_criteria-pattern dur expr n srchs compiled = rw compiled refl

  prune_rest-pattern :
      (dur : Option Str) (expr dry_run : Str) (n : ℤ) (srchs : List (Str → Bool)) (c : Cache)
      → compile_parts compile (split expr b',') ≡ ok srchs
      → parse_bool dry_run ≡ some false
      → prune_rest clock compile env (lit "pattern") dur (some expr) (some dry_run) (some n) c
        ≡ (do_prune env (any_match srchs) n false c, ok tt)
  unfolding prune_rest prune_by do_prune rest_config
  prune_rest-pattern dur expr dry_run n srchs c compiled off =
      rw (prune_rest, off, prune_by, parse_criteria-pattern dur expr n srchs compiled, rest_config)
        refl

  cmd_prune-prune_all :
      (dur : Option Str) (expr dry_run : Str) (n : ℕ) (c : Cache)
      → Compile compile (split expr b',')
      → parse_bool dry_run ≡ some false
      → cmd_prune env compile clock (lit "pattern") dur (some expr) (some dry_run) (some (pos n)) c
        ≡ (prune_all env (pattern_matches expr n c) false c, pruned)
  unfolding cmd_prune do_prune count answer
  cmd_prune-prune_all dur expr dry_run n c h off =
      let (srchs, compiled, same) = parts_lem compile (split expr b',') h in
      let selected =
        (get_manifests_compare_lem (any_match srchs) n c).0
        ∙ ap (take n) (own_and_passing-same (any_match srchs) _ (c.manifests ++ c.latest) same) in
      ap answer (prune_rest-pattern dur expr dry_run (pos n) srchs c compiled off)
      ∙ (ap (λ mhs. (prune_all env mhs false c, pruned)) selected)

  -- Let each comma-separated part of the expression compile, the dry run be switched off and the count be zero
  -- or more. Of the cached manifests, not latest ones first, that stand under their own url and whose url
  -- matches a part, take the first `count`. The command to prune by pattern says that it has pruned, and
  -- takes out of the cache each entry that stands under the url or, if the manifest is latest or has a
  -- tag, under the digest of one of these, by the request that the manifest's url parses to, among the
  -- latest entries or the others as that request is latest or not. Every other entry stays as it was.
  pub cmd_prune-pattern :
      (dur : Option Str) (expr dry_run : Str) (n : ℕ) (c : Cache) (latest : Bool) (key : Str)
      → Compile compile (split expr b',')
      → parse_bool dry_run ≡ some false
      → ((cmd_prune env compile clock
            (lit "pattern")
            dur
            (some expr)
            (some dry_run)
            (some (pos n))
            c).1
          ≡ pruned)
        × (lookup key (
              entries latest
                (cmd_prune env compile clock
                  (lit "pattern")
                  dur
                  (some expr)
                  (some dry_run)
                  (some (pos n))
                  c).0)
            ≡ (if has_entry latest key (pattern_matches expr n c)
                then none
                else lookup key (entries latest c)))
  cmd_prune-pattern dur expr dry_run n c latest key h off =
      let e = cmd_prune-prune_all dur expr dry_run n c h off in
      (
        ap (λ (a : Cache × Answer). a.1) e,
        ap (λ (a : Cache × Answer). lookup key (entries latest a.0)) e
            ∙ prune_all-entries env latest key (pattern_matches expr n c) c,
      )
