-- ===== src/Tls/Tests.antt =====
-- The configurations with a concrete interface.
use mvp_vpn_lite.Base.{refl, some, [], ◌∷◌, ok}
use mvp_vpn_lite.Tls.{
  TlsConfig, Crypto, config_with, require_and_verify_client_cert, client_tls_config,
  client_roots_config, load_cert_pool, load_key_pair,
}
use mvp_vpn_lite.Tls.Verifies.{IsClientConfig, client_tls_verifies}

abbrev crypto : Crypto
crypto = record {
  load_x509_key_pair = λ cert key. ok 7;
  read_file = λ path. ok (1 ∷ []);
  append_certs_from_pem = λ pem. some 9;
  generate_key = λ bits. ok 1;
  random_int = λ limit. ok 2;
  now = 1_000_000;
  create_certificate = λ template key. ok (3 ∷ []);
  marshal_private_key = λ key. 4 ∷ [];
  encode_pem = λ type der. der;
  x509_key_pair = λ cert key. ok 5;
}

abbrev mutual_tls : TlsConfig
mutual_tls = record (config_with (7 ∷ [])) {
  client_cas = some 9;
  client_auth = require_and_verify_client_cert;
}

abbrev with_roots : TlsConfig
with_roots = record (config_with (7 ∷ [])) { server_name = "vpn"; root_cas = some 9 }

client_tls_verifies_example : IsClientConfig crypto "ca.pem" "vpn" "cert.pem" "key.pem" with_roots
unfolding client_tls_config client_roots_config load_cert_pool load_key_pair
client_tls_verifies_example =
    client_tls_verifies crypto "ca.pem" "vpn" "cert.pem" "key.pem" with_roots refl
