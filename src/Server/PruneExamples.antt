-- ===== src/Server/PruneExamples.antt =====
-- The theorems about the command that prunes at concrete parameters.
use ociregistry.Base.{
  ◌≡◌, refl, Bool, false, Option, none, some, Str, str_eq, lit, contains, split, lookup,
  if◌then◌else◌,
}
use ociregistry.Base.Int.{pos}
use ociregistry.Clock.{Clock}
use ociregistry.Cache.Criteria.{parse_bool}
use ociregistry.Cache.Query.PrunedKeys.{entries, has_entry}
use ociregistry.Server.Commands.{pruned, cmd_prune}
use ociregistry.Server.Commands.Pruning.{cmd_prune-dry, cmd_prune-pattern, pattern_matches}
use ociregistry.Server.Examples.{disk, one}

abbrev stopped : Clock
stopped = record { parse_time = λ s. none; parse_duration = λ s. none; now = pos 0 }

abbrev substring : Str → Option (Str → Bool)
substring ref = some λ url. contains url ref

cmd_prune-dry_example :
    (cmd_prune disk substring stopped
      (lit "pattern")
      none
      (some (lit "x"))
      none
      (some (pos 5))
      one).0
    ≡ one
cmd_prune-dry_example =
    cmd_prune-dry disk stopped substring (lit "pattern") none (some (lit "x")) none (some (pos 5))
      one λ h. cc h

off : parse_bool (lit "false") ≡ some false
unfolding parse_bool str_eq
off = refl

cmd_prune-pattern_example :
    ((cmd_prune disk substring stopped
        (lit "pattern")
        none
        (some (lit "calico,x"))
        (some (lit "false"))
        (some (pos 5))
        one).1
      ≡ pruned)
    × (lookup (lit "quay.io/x:v1") (
          entries false
            (cmd_prune disk substring stopped
              (lit "pattern")
              none
              (some (lit "calico,x"))
              (some (lit "false"))
              (some (pos 5))
              one).0)
        ≡ (if has_entry false
              (lit "quay.io/x:v1")
              (pattern_matches disk stopped substring (lit "calico,x") 5 one)
            then none
            else lookup (lit "quay.io/x:v1") (entries false one)))
unfolding split
cmd_prune-pattern_example =
    cmd_prune-pattern disk stopped substring none (lit "calico,x") (lit "false") 5 one false
      (lit "quay.io/x:v1") ((_, refl), ((_, refl), tt)) off
