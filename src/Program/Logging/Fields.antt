-- ===== src/Program/Logging/Fields.antt =====
-- impl/globals/logging.go: the number of fields of a line, which ConfigureLogging sets.
use ociregistry.Base.{
  ◌≡◌, ◌↔◌, sym, ap, ◌∙◌, Bool, true, false, Bool-cases, none, inl, inr, Str, lit, str_eq, is_empty,
  arith,
}
use ociregistry.Program.Logging.{
  Logging, is_debug, xlat_log_level, configure_logging, Served, header_field, log_request,
}

header_field-none :
    (l : Logging) (req : Served)
    → (log_request l req ≡ none) ↔ (
        (str_eq req.request_uri (lit "/health") ≡ false)
        × (is_debug l.level ≡ true)
        × (l.with_headers ≡ false))
unfolding log_request header_field
header_field-none l req = elim (Bool-cases (str_eq req.request_uri (lit "/health"))) [
  | inl h ↦ (λ e. absurd (grind (arith, e, h)), λ (p, q, r). absurd (grind (arith, p, h)))
  | inr h ↦ elim (Bool-cases (is_debug l.level)) [
    | inr d ↦ (λ e. absurd (grind (arith, e, h, d)), λ (p, q, r). absurd (grind (arith, q, d)))
    | inl d ↦ elim (Bool-cases l.with_headers) [
      | inl w ↦ (λ e. absurd (grind (arith, e, h, d, w)), λ (p, q, r). absurd (grind (arith, r, w)))
      | inr w ↦ (λ e. (h, d, w), λ p. grind (arith, h, d, w))
    ]
  ]
]

configured :
    (open_fails : Str → Bool) (level logfile : Str) (l : Logging)
    → let l' = (configure_logging open_fails level logfile l).0 in
      (l'.level ≡ xlat_log_level level)
      × ((l'.with_headers ≡ false) ↔ (
          (l.with_headers ≡ false)
          × ((is_debug (xlat_log_level level) ≡ true)
              → (is_empty logfile ≡ false) × (open_fails logfile ≡ true))))
unfolding configure_logging
configured open_fails level logfile l = ground arith

-- After ConfigureLogging, the line about a request other than /health is a panic exactly where the level
-- is debug or trace, a log file was named that cannot be opened, and no earlier call has set the number
-- of fields.
pub log_request-panics_iff :
    (open_fails : Str → Bool) (level logfile : Str) (l : Logging) (req : Served)
    → (log_request (configure_logging open_fails level logfile l).0 req ≡ none) ↔ (
        (str_eq req.request_uri (lit "/health") ≡ false)
        × (is_debug (xlat_log_level level) ≡ true)
        × (is_empty logfile ≡ false)
        × (open_fails logfile ≡ true)
        × (l.with_headers ≡ false))
log_request-panics_iff open_fails level logfile l req =
    let l' = (configure_logging open_fails level logfile l).0 in
    let (lv, wh) = configured open_fails level logfile l in
    let (only, if_) = header_field-none l' req in
    (
      λ e.
          let (h, d, w) = only e in
          let debug : is_debug (xlat_log_level level) ≡ true = sym (ap is_debug lv) ∙ d in
          let (before, named) = wh.0 w in let (n, o) = named debug in (h, debug, n, o, before),
      λ (h, d, n, o, w). if_ (h, ap is_debug lv ∙ d, wh.1 (w, λ _. (n, o))),
    )
