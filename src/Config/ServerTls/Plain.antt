-- ===== src/Config/ServerTls/Plain.antt =====
-- impl/globals/tls.go: when the server is to serve plain HTTP.
use ociregistry.Base.{
  ◌≡◌, refl, ◌↔◌, ◌⊎◌, inl, inr, true, false, Bool, Bool-cases, none, some, Option-cases, List, Str,
  is_empty, Result-cases, ok, arith,
}
use ociregistry.Config.{ServerTlsCfg}
use ociregistry.Config.Upstreams.{Machine}
use ociregistry.Config.ServerTls.{
  has_pair, is_verify, is_supported, load_certificates, verifying, parse_tls,
}

module _ (m : Machine) (appends : Str → Bool) where
  -- A file of certificates is named and read, and has none.
  abbrev pub HasBadCa : ServerTlsCfg → Type 0
  HasBadCa t =
      (is_empty t.ca ≡ false) × (pem : Str) × (m.read_file t.ca ≡ some pem) × (appends pem ≡ false)

  abbrev pub LoadsPair : ServerTlsCfg → Type 0
  LoadsPair t = (certs : List Str) × (load_certificates m t ≡ ok certs)

  verifying-bad :
      (t : ServerTlsCfg) (certs : List Str) → HasBadCa t → verifying m appends t certs ≡ ok none
  unfolding verifying
  verifying-bad t certs (named, pem, read, bad) = rw (verifying, named, read, bad) refl

  verifying-plain :
      (t : ServerTlsCfg) (certs : List Str) → verifying m appends t certs ≡ ok none → HasBadCa t
  unfolding verifying
  verifying-plain t certs h = elim (Bool-cases (is_empty t.ca)) [
    | inl e ↦ grind (arith, h, e)
    | inr e ↦ elim (Option-cases (m.read_file t.ca)) [
      | inl r ↦ grind (arith, h, e, r)
      | inr (pem, r) ↦ elim (Bool-cases (appends pem)) [
        | inl a ↦ grind (arith, h, e, r, a)
        | inr a ↦ (e, pem, r, a)
      ]
    ]
  ]

  -- The conditions under which there is no configuration.
  abbrev pub IsPlain : ServerTlsCfg → Type 0
  IsPlain t =
      (is_supported t ≡ true)
      × LoadsPair t
      × (((has_pair t ≡ false) × (is_verify t ≡ false)) ⊎ ((is_verify t ≡ true) × HasBadCa t))

  -- ParseTls gives no configuration and no error, so that the server serves plain HTTP, exactly where the
  -- client authentication is one of the three known, a key pair that is configured can be loaded, and
  -- either neither a key pair nor the verification of clients is configured, or clients are to be
  -- verified by a file that can be read and has no certificate.
  pub parse_tls-IsPlain_iff : (t : ServerTlsCfg) → (parse_tls m appends t ≡ ok none) ↔ IsPlain t
  unfolding parse_tls
  parse_tls-IsPlain_iff t = (only, if_)
    where
      only : parse_tls m appends t ≡ ok none → IsPlain t
      only h = elim (Result-cases (load_certificates m t)) [
        | inr (e, l) ↦ grind (arith, h, l)
        | inl (certs, l) ↦ elim (Bool-cases (is_supported t)) [
          | inr s ↦ grind (arith, h, l, s)
          | inl s ↦ elim (Bool-cases (is_verify t)) [
            | inl v ↦ (s, (certs, l), inr (v, verifying-plain t certs (grind (arith, h, l, s, v))))
            | inr v ↦ elim (Bool-cases (has_pair t)) [
              | inl p ↦ grind (arith, h, l, s, v, p)
              | inr p ↦ (s, (certs, l), inl (p, v))
            ]
          ]
        ]
      ]

      if_ : IsPlain t → parse_tls m appends t ≡ ok none
      if_ (s, (certs, l), inl (p, v)) = rw (parse_tls, l, s, v, p) refl
      if_ (s, (certs, l), inr (v, bad)) = rw (parse_tls, l, s, v) (verifying-bad t certs bad)
