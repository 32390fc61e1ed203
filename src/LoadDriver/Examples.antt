-- ===== src/LoadDriver/Examples.antt =====
-- Tests of the parser.
use ociregistry.Base.{
  trim_right, ◌≡◌, refl, true, [], ◌∷◌, lit, contains_byte, str_eq, split, is_empty, cut, ok,
}
use ociregistry.Base.Int.{negsuc}
use ociregistry.Base.Decimal.{atoi}
use ociregistry.LoadDriver.{
  default_config, flag_named, parse_from, parse_args, use_arg, use_flag, set_config_value,
  set_known, own_patterns,
}

-- A boolean flag is set whatever its value says.
prune_false : parse_args (lit "--prune=false" ∷ []) ≡ ok (record default_config { prune = true })
unfolding parse_args parse_from use_arg set_config_value set_known flag_named contains_byte str_eq
    cut
prune_false = refl

negative_seconds :
    parse_args (lit "--tally-seconds" ∷ lit "-15" ∷ [])
    ≡ ok (record default_config { tally_seconds = negsuc 14 })
unfolding parse_args parse_from use_arg use_flag flag_named contains_byte str_eq atoi
negative_seconds = refl

trimmed_patterns : own_patterns (split (lit " a, ,b") b',') ≡ lit "a" ∷ lit "b" ∷ []
unfolding own_patterns split is_empty trim_right
trimmed_patterns = refl
