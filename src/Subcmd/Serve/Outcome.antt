-- ===== src/Subcmd/Serve/Outcome.antt =====
-- cmd/subcmd/serve.go: what holds of a server that has started.
use ociregistry.Base.{
  ◌≡◌, ◌↔◌, sym, ap, ◌∙◌, subst, Option, none, Option-cases, Result, Result-cases, inl, inr, ok,
  arith,
}
use ociregistry.Auth.{no_providers}
use ociregistry.Cache.{Cache}
use ociregistry.Cache.Loading.{load, IsComplete, load-IsComplete}
use ociregistry.Config.{Configuration}
use ociregistry.Config.ServerTls.{TlsConfig, parse_tls}
use ociregistry.Config.ServerTls.Plain.{IsPlain, parse_tls-IsPlain_iff}
use ociregistry.Serialize.{Files}
use ociregistry.Subcmd.Serve.{
  World, Started, preload, start_tls, start_auth, start_pruner, start_cache, start, serve,
}

ok-injective : {E A : Type 0} {a b : A} → ◌≡◌ {A = Result E A} (ok a) (ok b) → a ≡ b
ok-injective e = cc e

module _ (w : World) (cfg : Configuration) where
  start_tls-ok :
      (tls : Option TlsConfig)
      → start_tls w cfg ≡ ok tls
      → parse_tls w.machine w.appends cfg.server_tls_cfg ≡ ok tls
  unfolding start_tls
  start_tls-ok tls h = elim (Result-cases (parse_tls w.machine w.appends cfg.server_tls_cfg)) [
    | inl (t, e) ↦ grind (arith, h, e)
    | inr (x, e) ↦ grind (arith, h, e)
  ]

  start_cache-ok :
      (files : Files) (c : Cache) → start_cache w cfg files ≡ ok c → c ≡ (load w.env files).0
  unfolding start_cache
  start_cache-ok files c h = elim (Option-cases (load w.env files).1) [
    | inl e ↦ grind (arith, h, e)
    | inr (x, e) ↦ grind (arith, h, e)
  ]

  pub start-ok :
      (files : Files) (s : Started)
      → start w cfg files ≡ ok s
      → (start_tls w cfg ≡ ok s.tls)
        × (start_cache w cfg files ≡ ok s.cache)
        × (start_pruner w cfg ≡ ok s.pruner)
  unfolding start
  start-ok files s h = elim (Result-cases (start_tls w cfg)) [
    | inr (e, t) ↦ grind (arith, h, t)
    | inl (tls, t) ↦ elim (Result-cases (start_auth w cfg no_providers)) [
      | inr (e, a) ↦ grind (arith, h, t, a)
      | inl (ps, a) ↦ elim (Result-cases (start_pruner w cfg)) [
        | inr (e, p) ↦ grind (arith, h, t, a, p)
        | inl (pruner, p) ↦ elim (Result-cases (start_cache w cfg files)) [
          | inr (e, c) ↦ grind (arith, h, t, a, p, c)
          | inl (cache, c) ↦ grind (arith, h, t, a, p, c)
        ]
      ]
    ]
  ]

  pub start-serve :
      (files files' : Files) (s : Started)
      → serve w cfg files ≡ (files', ok s)
      → start w cfg files' ≡ ok s
  unfolding serve
  start-serve files files' s h = elim (Result-cases (preload w cfg no_providers files).1) [
    | inl (u, e) ↦ grind (arith, h, e)
    | inr (x, e) ↦ grind (arith, h, e)
  ]

  tls_iff :
      (tls : Option TlsConfig)
      → parse_tls w.machine w.appends cfg.server_tls_cfg ≡ ok tls
      → (tls ≡ none) ↔ IsPlain w.machine w.appends cfg.server_tls_cfg
  tls_iff tls h =
      let (only, if_) = parse_tls-IsPlain_iff w.machine w.appends cfg.server_tls_cfg in
      ((λ e. only (h ∙ ap ok e)), (λ p. ok-injective (sym h ∙ if_ p)))

  -- Where Serve starts the server, each manifest in its cache has the blobs of all its layers among the
  -- files that Serve leaves, and the server has no TLS configuration exactly where the client
  -- authentication is one of the three known, a key pair that is configured can be loaded, and either
  -- neither a key pair nor the verification of clients is configured, or clients are to be verified by a
  -- file that can be read and has no certificate.
  pub serve-started :
      (files files' : Files) (s : Started)
      → serve w cfg files ≡ (files', ok s)
      → IsComplete w.env files' s.cache.manifests
        × IsComplete w.env files' s.cache.latest
        × ((s.tls ≡ none) ↔ IsPlain w.machine w.appends cfg.server_tls_cfg)
  serve-started files files' s h =
      let (t, c, _) = start-ok files' s (start-serve files files' s h) in
      let (m, l) = load-IsComplete w.env files' in
      let same = sym (start_cache-ok files' s.cache c) in
      (
        subst (λ (x : Cache). IsComplete w.env files' x.manifests) same m,
        subst (λ (x : Cache). IsComplete w.env files' x.latest) same l,
        tls_iff s.tls (start_tls-ok s.tls t),
      )
