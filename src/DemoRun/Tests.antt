-- ===== src/DemoRun/Tests.antt =====
-- Two requests over two paths that one responder serves.
use text.Mathlib.Text.{◌==◌ as str_eq}
use mvp_vpn_lite.Base.{ℕ, ◌≡◌, refl, arith, true, ok, List, [], ◌∷◌, if◌then◌else◌}
use mvp_vpn_lite.Base.Int.{pos}
use mvp_vpn_lite.Net.{Ip, to4}
use mvp_vpn_lite.Stats.{no_counts}
use mvp_vpn_lite.Tls.Sample.{no_files}
use mvp_vpn_lite.Tls.{TlsConfig, config_with, client_tls_config, client_roots_config}
use mvp_vpn_lite.Client.Path.{ClientPath}
use mvp_vpn_lite.Client.Dial.{
  Network, dial_client_paths, dial_specs, after_dial, dial_client_path, after_dial_addr,
  after_open_stream, client_path_specs,
}
use mvp_vpn_lite.Client.Run.{ClientConfig, CheckedConfig, echo_requests, run_client}
use mvp_vpn_lite.DemoRun.Wire.{Wire, served, Idle}
use mvp_vpn_lite.DemoRun.Exchanges.{IsServed, Exchanged}
use mvp_vpn_lite.DemoRun.Session.{run_client_answered}

abbrev virtual_ip : Ip
virtual_ip = 10 ∷ 8 ∷ 0 ∷ 1 ∷ []

abbrev client_ip : Ip
client_ip = 10 ∷ 8 ∷ 0 ∷ 2 ∷ []

abbrev fresh : ℕ → Wire
fresh stream = record { sent = []; consumed = 0 }

abbrev paths : List ClientPath
paths =
    record { id = 0; address = "a:1"; conn = 1; stream = 1 }
    ∷ record { id = 1; address = "b:1"; conn = 2; stream = 2 }
    ∷ []

abbrev net : TlsConfig → Network (ℕ → Wire)
net tls_config = record {
  dial_addr = λ address w. (ok (if str_eq address "a:1" then 1 else 2), w);
  open_stream = λ conn w. (ok conn, w);
  close_conn = λ conn w. w;
  close_stream = λ stream w. w;
}

abbrev cfg : ClientConfig
cfg = record {
  server0 = "a:1";
  server1 = "b:1";
  ca_file = "";
  server_name = "localhost";
  client_cert_file = "";
  client_key_file = "";
  virtual_ip = virtual_ip;
  client_ip = client_ip;
  identifier = 7;
  count = pos 2;
  payload = 104 ∷ 105 ∷ [];
}

abbrev checked : CheckedConfig
checked = record {
  virtual_ipv4 = virtual_ip;
  client_ipv4 = client_ip;
  tls_config = record (config_with []) { server_name = "localhost"; insecure_skip_verify = true };
}

tls_given : client_tls_config no_files "" "localhost" "" "" ≡ ok checked.tls_config
unfolding client_tls_config client_roots_config
tls_given = refl

dialed : dial_client_paths (net checked.tls_config) "a:1" "b:1" fresh ≡ (ok paths, fresh)
unfolding dial_client_paths dial_specs after_dial dial_client_path after_dial_addr after_open_stream
    client_path_specs
dialed = refl

is_served : IsServed virtual_ip client_ip (echo_requests cfg checked paths)
unfolding to4
is_served = record {
  virtual_is_ipv4 = refl;
  client_is_ipv4 = refl;
  virtual_bytes = omega arith;
  client_bytes = omega arith;
  identifier_u16 = omega arith;
  payload_bytes = omega arith;
  payload_fits = omega arith;
}

idle : Idle virtual_ip client_ip fresh
idle stream = ([], record { fit = tt; sent_all = refl; read_all = refl })

run_client_answered_example :
    let run = run_client (served virtual_ip client_ip) net no_files cfg fresh in
    (run.result ≡ ok tt) × Exchanged 2 no_counts run.counters
unfolding to4
run_client_answered_example =
    run_client_answered virtual_ip client_ip net no_files cfg checked 1 paths fresh fresh
      (record {
        names_server = refl;
        virtual_is_ipv4 = refl;
        client_is_ipv4 = refl;
        counts = refl;
        tls_given = tls_given;
      })
      is_served dialed idle
