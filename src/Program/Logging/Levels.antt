-- ===== src/Program/Logging/Levels.antt =====
-- impl/globals/logging.go with impl/cmdline/parse.go: the levels that the flag --log-level accepts.
use ociregistry.Base.{
  ◌≡◌, ◌≢◌, ◌↔◌, refl, sym, ap, ◌∙◌, Bool, true, Bool-cases, inl, inr, [], ◌∷◌, Str, lit, str_eq,
  str_eq_iff, to_lower, lower_byte, arith,
}
use ociregistry.Cmdline.Flags.{RootFlag, valid_root}
use ociregistry.Program.Logging.{fatal, trace, to_upper, upper_byte, xlat_log_level}

to_upper-to_lower : (s : Str) → to_upper (to_lower s) ≡ to_upper s
unfolding to_lower
to_upper-to_lower [] = refl
to_upper-to_lower (c ∷ s) = cc (byte, to_upper-to_lower s)
  where
    byte : upper_byte (lower_byte c) ≡ upper_byte c
    byte = ground arith

to_lower-to_upper : (s : Str) → to_lower (to_upper s) ≡ to_lower s
unfolding to_lower
to_lower-to_upper [] = refl
to_lower-to_upper (c ∷ s) = cc (byte, to_lower-to_upper s)
  where
    byte : lower_byte (upper_byte c) ≡ lower_byte c
    byte = ground arith

-- A name in either case.
same_level :
    (s lower upper : Str)
    → to_upper lower ≡ upper
    → to_lower upper ≡ lower
    → str_eq (to_lower s) lower ≡ str_eq (to_upper s) upper
same_level s lower upper u l = elim (Bool-cases (str_eq (to_lower s) lower)) [
  | inl e ↦
      let named =
        sym (to_upper-to_lower s) ∙ ap to_upper ((str_eq_iff (to_lower s) lower).0 e) ∙ u in
      e ∙ sym ((str_eq_iff (to_upper s) upper).1 named)
  | inr e ↦ elim (Bool-cases (str_eq (to_upper s) upper)) [
    | inr f ↦ e ∙ sym f
    | inl f ↦
        let named =
          sym (to_lower-to_upper s) ∙ ap to_lower ((str_eq_iff (to_upper s) upper).0 f) ∙ l in
        absurd (cc (e, (str_eq_iff (to_lower s) lower).1 named))
  ]
]

-- The flag --log-level accepts exactly the texts that name one of the levels that are used and are not
-- `trace`, so that no text that it accepts silences the log.
pub valid_level_iff :
    (is_file : Str → Bool) (s : Str)
    → (valid_root is_file (RootFlag.log_level s) ≡ true)
      ↔ ((xlat_log_level s ≢ fatal) × (xlat_log_level s ≢ trace))
unfolding valid_root xlat_log_level to_lower
valid_level_iff is_file s =
    let d = same_level s (lit "debug") (lit "DEBUG") refl refl in
    let i = same_level s (lit "info") (lit "INFO") refl refl in
    let w = same_level s (lit "warn") (lit "WARN") refl refl in
    let e = same_level s (lit "error") (lit "ERROR") refl refl in ground (arith, d, i, w, e)
