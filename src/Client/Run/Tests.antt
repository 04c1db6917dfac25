-- ===== src/Client/Run/Tests.antt =====
-- RunClient on a network that takes its connections and never answers.
use mvp_vpn_lite.Base.{◌≢◌, refl, none, [], ◌∷◌, panic}
use mvp_vpn_lite.Base.Int.{pos}
use mvp_vpn_lite.Io.{other_error}
use mvp_vpn_lite.Tls.{TlsConfig, client_tls_config, client_roots_config}
use mvp_vpn_lite.Tls.Sample.{no_files}
use mvp_vpn_lite.Client.Demo.{ClientStreams}
use mvp_vpn_lite.Client.Dial.{Network}
use mvp_vpn_lite.Client.Dial.Sample.{Counts, network, network-Counting}
use mvp_vpn_lite.Client.Run.{ClientConfig, run_client}
use mvp_vpn_lite.Client.Run.Safety.{Steady}
use mvp_vpn_lite.Client.Run.Balance.{Balanced, run_client-Balanced}

abbrev net : TlsConfig → Network Counts
net tls_config = network

-- Streams that have nothing to read.
abbrev io : ClientStreams Counts
io = record {
  write = λ stream w bytes. (none, w);
  reader = λ stream w. record { pending = []; end = other_error 0 };
  after_read = λ stream w r. w;
  set_deadline = λ stream on w. (none, w);
}

io-Steady : Steady io (λ w. w.open_conns)
io-Steady = record {
  write_keeps = λ stream w bytes. refl;
  read_keeps = λ stream w r. refl;
  deadline_keeps = λ stream on w. refl;
}

abbrev cfg : ClientConfig
cfg = record {
  server0 = "a:1";
  server1 = "b:1";
  ca_file = "";
  server_name = "localhost";
  client_cert_file = "";
  client_key_file = "";
  virtual_ip = 10 ∷ 8 ∷ 0 ∷ 1 ∷ [];
  client_ip = 10 ∷ 8 ∷ 0 ∷ 2 ∷ [];
  identifier = 7;
  count = pos 2;
  payload = 104 ∷ 105 ∷ [];
}

quiet : client_tls_config no_files "" "localhost" "" "" ≢ panic
unfolding client_tls_config client_roots_config
quiet e = cc

-- Two dials have been made before.
run_client-Balanced_example :
    Balanced
      (λ w. w.open_conns)
      (9 ∷ 4 ∷ [])
      (run_client io net no_files cfg (record { dials = 2; open_conns = 9 ∷ 4 ∷ [] }))
run_client-Balanced_example =
    run_client-Balanced io net (λ w. w.open_conns) (λ tls_config. network-Counting) io-Steady
      no_files cfg (record { dials = 2; open_conns = 9 ∷ 4 ∷ [] }) quiet
