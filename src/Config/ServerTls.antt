-- ===== src/Config/ServerTls.antt =====
-- impl/globals/tls.go: ParseTls, and tlsMsg of cmd/subcmd/serve.go: the TLS settings of the server. What
-- the machine answers is the parameter Machine; `appends` is AppendCertsFromPEM of the library x509.
pub mod Plain
use ociregistry.Base.{
  Bool, true, false, not, ◌&&◌, ◌||◌, Option, none, some, List, [], ◌∷◌, ◌++◌, Str, lit, str_eq,
  is_empty, to_lower, if◌then◌else◌, Result, ok, err, ◌>>=◌,
}
use ociregistry.Config.{ServerTlsCfg}
use ociregistry.Config.Upstreams.{Machine}

-- The part of tls.Config that ParseTls sets, with the certificates kept as what their files have.
pub record TlsConfig : Type 0 where
  pub certificates : List Str
  pub verify_clients : Bool
  pub client_cas : Option Str

pub data TlsError : Type 0 where
  no_key_pair unreadable_ca : TlsError
  unsupported_client_auth : Str → TlsError

abbrev pub has_pair : ServerTlsCfg → Bool
has_pair t = not (is_empty t.cert) && not (is_empty t.key)

abbrev pub is_verify : ServerTlsCfg → Bool
is_verify t = str_eq (to_lower t.client_auth) (lit "verify")

-- slices.Contains of the three values
abbrev pub is_supported : ServerTlsCfg → Bool
is_supported t =
    is_empty (to_lower t.client_auth)
    || (str_eq (to_lower t.client_auth) (lit "none") || is_verify t)

module _ (m : Machine) where
  unfoldable pub load_certificates : ServerTlsCfg → Result TlsError (List Str)
  load_certificates t =
      if has_pair t
      then elim (m.load_key_pair t.cert t.key) [
        | none ↦ err no_key_pair
        | some cert ↦ ok (cert ∷ [])
      ]
      else ok []

module _ (m : Machine) (appends : Str → Bool) where
  -- The branch for `verify`. Where the file has no certificate, `err` is nil when it is returned.
  unfoldable pub verifying : ServerTlsCfg → List Str → Result TlsError (Option TlsConfig)
  verifying t certs =
      let cfg : TlsConfig = record {
        certificates = certs;
        verify_clients = true;
        client_cas = none;
      } in
      if is_empty t.ca then ok (some cfg) else elim (m.read_file t.ca) [
        | none ↦ err unreadable_ca
        | some pem ↦ ok (if appends pem then some (record cfg { client_cas = some pem }) else none)
      ]

  -- ParseTls; ok none is a nil configuration without an error
  unfoldable pub parse_tls : ServerTlsCfg → Result TlsError (Option TlsConfig)
  parse_tls t = load_certificates m t >>= λ certs.
      if not (is_supported t)
      then err (unsupported_client_auth t.client_auth)
      else if is_verify t
      then verifying t certs
      else if has_pair t
      then ok (some (record { certificates = certs; verify_clients = false; client_cas = none }))
      else ok none

-- tlsMsg
unfoldable pub tls_msg : ServerTlsCfg → Str
tls_msg t =
    let pair = if has_pair t then lit "cert=" ++ t.cert ++ lit ", key=" ++ t.key else lit "none" in
    let msg = if is_empty t.ca then pair else pair ++ lit ", ca=" ++ t.ca in
    if str_eq msg (lit "none") then lit "none" else msg ++ lit ", client verify=" ++ t.client_auth
