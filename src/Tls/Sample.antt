-- ===== src/Tls/Sample.antt =====
-- A concrete interface for the tests of the clients, which then use no certificate.
use mvp_vpn_lite.Base.{none, err, []}
use mvp_vpn_lite.Io.{other_error}
use mvp_vpn_lite.Tls.{Crypto}

-- No file can be read.
abbrev pub no_files : Crypto
no_files = record {
  load_x509_key_pair = λ cert_file key_file. err (other_error 2);
  read_file = λ path. err (other_error 2);
  append_certs_from_pem = λ pem. none;
  generate_key = λ bits. err (other_error 2);
  random_int = λ max. err (other_error 2);
  now = 0;
  create_certificate = λ template key. err (other_error 2);
  marshal_private_key = λ key. [];
  encode_pem = λ label der. [];
  x509_key_pair = λ cert_pem key_pem. err (other_error 2);
}
