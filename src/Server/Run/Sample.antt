-- ===== src/Server/Run/Sample.antt =====
-- A TUN server with a certificate and a client CA, for the tests of its run.
use mvp_vpn_lite.Base.{ℕ, suc, ◌≡◌, ◌≢◌, refl, arith, List, true, some, [], ◌∷◌, ok, panic}
use mvp_vpn_lite.Base.Handles.{without}
use mvp_vpn_lite.Client.Dial.Sample.{sum, New-above}
use mvp_vpn_lite.Tls.{
  Crypto, server_tls_config, server_certificate_config, load_cert_pool, load_key_pair,
}
use mvp_vpn_lite.Tls.Sample.{no_files}
use mvp_vpn_lite.Client.TunRun.{Tun}
use mvp_vpn_lite.Client.TunRun.Start.{Opening}
use mvp_vpn_lite.Server.Run.{ServerConfig}

-- The devices that are open; a new one is above all of them.
abbrev pub tun : Tun (List ℕ)
tun = record {
  open_device = λ name d. (ok (suc (sum d)), suc (sum d) ∷ d);
  close_device = λ device d. without device d;
}

pub tun-Opening : Opening tun (λ d. d)
tun-Opening = record {
  open_ok = λ name d d' device e.
      let same : device ≡ suc (sum d) = ground arith in
      (rw same (New-above d (suc (sum d)) (omega arith)), ground arith);
  open_err = λ name d d' x e. absurd (cc e);
  open-ne-panic = λ name d e. cc;
  close_one = λ device d. refl;
}

abbrev pub with_files : Crypto
with_files = record no_files {
  load_x509_key_pair = λ cert_file key_file. ok 7;
  read_file = λ path. ok (1 ∷ []);
  append_certs_from_pem = λ pem. some 9;
}

abbrev pub cfg : ServerConfig
cfg = record {
  listen0 = ":4433";
  listen1 = "";
  tls_cert_file = "cert.pem";
  tls_key_file = "key.pem";
  client_ca_file = "ca.pem";
  virtual_ip = [];
  client_ip = [];
  tun_allowed_cidr = "";
  use_tun = true;
  device_name = "vpns0";
}

pub quiet : server_tls_config with_files "cert.pem" "key.pem" "ca.pem" ≢ panic
unfolding server_tls_config server_certificate_config load_cert_pool load_key_pair
quiet e = cc
