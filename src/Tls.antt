-- ===== src/Tls.antt =====
-- internal/quictransport/tls.go, and generateSelfSignedTLSConfig of server.go. Files, randomness and
-- the certificate functions of Go's crypto packages are an interface; certificates, keys and pools are
-- handles.
pub mod Verifies
pub mod Sample
mod Tests
use Prim.Native.String.{String}
use text.Mathlib.Text.{◌==◌ as str_eq}
use mvp_vpn_lite.Base.{
  ℕ, ◌+◌, ◌*◌, ◌^◌, Bool, true, false, ◌&&◌, ◌||◌, Option, none, some, List, [], ◌∷◌, Result, ok,
  err, panic, ◌>>=◌, ◌>>◌, fail_if, map_err, or_err, if◌then◌else◌,
}
use mvp_vpn_lite.Base.Int.{ℤ, pos, sub_ℕ}
use mvp_vpn_lite.Net.{Ip, ipv4}
use mvp_vpn_lite.Io.{IoError}

abbrev pub mvp_quic_alpn : String
mvp_quic_alpn = "mvp-vpn-lite"

-- `tls.VersionTLS13`
abbrev pub version_tls13 : ℕ
version_tls13 = 0x0304

pub data ClientAuth : Type 0 where
  no_client_cert : ClientAuth
  require_and_verify_client_cert : ClientAuth

-- The fields of tls.Config that the sources set.
pub record TlsConfig : Type 0 where
  pub certificates : List ℕ
  pub next_protos : List String
  pub min_version : ℕ
  pub server_name : String
  pub insecure_skip_verify : Bool
  pub root_cas : Option ℕ
  pub client_cas : Option ℕ
  pub client_auth : ClientAuth

-- The fields of x509.Certificate that the template sets. Times are in seconds.
pub record CertTemplate : Type 0 where
  pub serial_number : ℕ
  pub common_name : String
  pub not_before : ℤ
  pub not_after : ℤ
  pub key_encipherment : Bool
  pub digital_signature : Bool
  pub server_auth : Bool
  pub basic_constraints_valid : Bool
  pub dns_names : List String
  pub ip_addresses : List Ip

pub record Crypto : Type 0 where
  pub load_x509_key_pair : String → String → Result IoError ℕ
  pub read_file : String → Result IoError (List ℕ)
  pub append_certs_from_pem : List ℕ → Option ℕ
  pub generate_key : ℕ → Result IoError ℕ
  pub random_int : ℕ → Result IoError ℕ
  pub now : ℕ
  pub create_certificate : CertTemplate → ℕ → Result IoError (List ℕ)
  pub marshal_private_key : ℕ → List ℕ
  pub encode_pem : String → List ℕ → List ℕ
  pub x509_key_pair : List ℕ → List ℕ → Result IoError ℕ

pub data TlsError : Type 0 where
  generate_key_failed : IoError → TlsError
  generate_serial_failed : IoError → TlsError
  create_certificate_failed : IoError → TlsError
  key_pair_required : TlsError
  load_key_pair_failed : IoError → TlsError
  load_client_key_pair_failed : IoError → TlsError
  read_certificate_failed : String → IoError → TlsError
  no_pem_certificates : String → String → TlsError

-- A tls.Config of which only these three fields are set.
abbrev pub config_with : List ℕ → TlsConfig
config_with certificates = record {
  certificates = certificates;
  next_protos = mvp_quic_alpn ∷ [];
  min_version = version_tls13;
  server_name = "";
  insecure_skip_verify = false;
  root_cas = none;
  client_cas = none;
  client_auth = no_client_cert;
}

module _ (crypto : Crypto) where
  pub self_signed_template : ℕ → CertTemplate
  self_signed_template serial_number = record {
    serial_number = serial_number;
    common_name = "mvp-vpn-lite";
    not_before = sub_ℕ crypto.now 3600;
    not_after = pos (crypto.now + 24 * 3600);
    key_encipherment = true;
    digital_signature = true;
    server_auth = true;
    basic_constraints_valid = true;
    dns_names = "localhost" ∷ [];
    ip_addresses = ipv4 127 0 0 1 ∷ [];
  }

  pub generate_self_signed_tls_config : Result TlsError TlsConfig
  generate_self_signed_tls_config = do
    key ← map_err generate_key_failed (crypto.generate_key 2048)
    serial_number ← map_err generate_serial_failed (crypto.random_int (2 ^ 128))
    cert_der ←
        map_err create_certificate_failed
          (crypto.create_certificate (self_signed_template serial_number) key)
    let key_der = crypto.marshal_private_key key
    let cert_pem = crypto.encode_pem "CERTIFICATE" cert_der
    let key_pem = crypto.encode_pem "RSA PRIVATE KEY" key_der
    cert ← map_err load_key_pair_failed (crypto.x509_key_pair cert_pem key_pem)
    ok (config_with (cert ∷ []))

  unfoldable pub load_cert_pool : String → String → Result TlsError ℕ
  load_cert_pool path label = do
    pem_bytes ← map_err (read_certificate_failed label) (crypto.read_file path)
    or_err (crypto.append_certs_from_pem pem_bytes) (no_pem_certificates label path)

  unfoldable pub load_key_pair : (IoError → TlsError) → String → String → Result TlsError ℕ
  load_key_pair failed cert_file key_file =
      map_err failed (crypto.load_x509_key_pair cert_file key_file)

  -- The configuration before the client CA.
  unfoldable pub server_certificate_config : String → String → Result TlsError TlsConfig
  server_certificate_config cert_file key_file =
      if str_eq cert_file "" && str_eq key_file ""
      then generate_self_signed_tls_config
      else if str_eq cert_file "" || str_eq key_file ""
      then err key_pair_required
      else (load_key_pair load_key_pair_failed cert_file key_file >>= λ cert.
          ok (config_with (cert ∷ [])))

  unfoldable pub server_tls_config : String → String → String → Result TlsError TlsConfig
  server_tls_config cert_file key_file client_ca_file = do
    cfg ← server_certificate_config cert_file key_file
    if str_eq client_ca_file ""
        then ok cfg
        else (load_cert_pool client_ca_file "client CA" >>= λ client_cas. ok (record cfg {
          client_cas = some client_cas;
          client_auth = require_and_verify_client_cert;
        }))

  -- The configuration before the client's own certificate.
  unfoldable pub client_roots_config : String → String → Result TlsError TlsConfig
  client_roots_config ca_file server_name =
      let cfg = record (config_with []) { server_name = server_name } in
      if str_eq ca_file ""
      then ok (record cfg { insecure_skip_verify = true })
      else (load_cert_pool ca_file "CA" >>= λ root_cas.
          ok (record cfg { root_cas = some root_cas }))

  unfoldable pub client_tls_config : String → String → String → String → Result TlsError TlsConfig
  client_tls_config ca_file server_name cert_file key_file = do
    cfg ← client_roots_config ca_file server_name
    if str_eq cert_file "" && str_eq key_file ""
        then ok cfg
        else if str_eq cert_file "" || str_eq key_file ""
        then err key_pair_required
        else (load_key_pair load_client_key_pair_failed cert_file key_file >>= λ cert.
            ok (record cfg { certificates = cert ∷ [] }))
