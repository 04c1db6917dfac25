-- ===== src/DemoRun/Session.antt =====
-- The whole of RunClient against the server's responder.
use text.Mathlib.Text.{◌==◌ as str_eq}
use mvp_vpn_lite.Base.{ℕ, suc, ◌<◌, ◌≡◌, refl, arith, false, ◌&&◌, some, List, ok, length}
use mvp_vpn_lite.Base.Int.{pos}
use mvp_vpn_lite.Net.{Ip, to4}
use mvp_vpn_lite.Stats.{no_counts}
use mvp_vpn_lite.Tls.{Crypto, TlsConfig, client_tls_config}
use mvp_vpn_lite.Client.Path.{ClientPath}
use mvp_vpn_lite.Client.Dial.{Network, dial_client_paths}
use mvp_vpn_lite.Client.Dial.Paths.{dialed_some}
use mvp_vpn_lite.Client.Demo.{DemoState}
use mvp_vpn_lite.Client.Run.{
  ClientConfig, CheckedConfig, echo_requests, check_client_config, after_scheduler,
  after_dial_paths, after_check, run_client,
}
use mvp_vpn_lite.Client.Run.Balance.{scheduler_of_some}
use mvp_vpn_lite.DemoRun.Wire.{Wire, served, Idle}
use mvp_vpn_lite.DemoRun.Exchanges.{IsServed, Exchanged, exchanges_answered}

-- The client's configuration names a server, the addresses of the requests and a count, and its files
-- give a TLS configuration.
pub record IsChecked (crypto : Crypto) (cfg : ClientConfig) (checked : CheckedConfig) (m : ℕ)
    : Type 0 where
  pub names_server : (str_eq cfg.server0 "" && str_eq cfg.server1 "") ≡ false
  pub virtual_is_ipv4 : to4 cfg.virtual_ip ≡ some checked.virtual_ipv4
  pub client_is_ipv4 : to4 cfg.client_ip ≡ some checked.client_ipv4
  pub counts : cfg.count ≡ pos (suc m)
  pub tls_given :
      client_tls_config crypto cfg.ca_file cfg.server_name cfg.client_cert_file cfg.client_key_file
      ≡ ok checked.tls_config

check_passes :
    (crypto : Crypto) (cfg : ClientConfig) (checked : CheckedConfig) (m : ℕ)
    → IsChecked crypto cfg checked m
    → check_client_config crypto cfg ≡ ok checked
unfolding check_client_config
check_passes crypto cfg checked m x =
    rw (x.names_server, x.virtual_is_ipv4, x.client_is_ipv4, x.counts, x.tls_given) (ground arith)

module _ (virtual_ip client_ip : Ip) (net : TlsConfig → Network (ℕ → Wire)) where
  -- `RunClient` with a valid configuration returns no error once its paths are dialled, over streams
  -- that the server's responder serves with the same addresses: it has sent a request and received
  -- its reply as often as its count asks (modulo 2^64), with no drop and no error counted.
  pub run_client_answered :
      (crypto : Crypto) (cfg : ClientConfig) (checked : CheckedConfig) (m : ℕ)
      (paths : List ClientPath) (w w' : ℕ → Wire)
      → IsChecked crypto cfg checked m
      → IsServed virtual_ip client_ip (echo_requests cfg checked paths)
      → dial_client_paths (net checked.tls_config) cfg.server0 cfg.server1 w ≡ (ok paths, w')
      → Idle virtual_ip client_ip w'
      → let run = run_client (served virtual_ip client_ip) net crypto cfg w in
        (run.result ≡ ok tt) × Exchanged (suc m) no_counts run.counters
  unfolding run_client after_check after_dial_paths after_scheduler
  run_client_answered crypto cfg checked m paths w w' x served_by dialed idle =
      let some_path : 0 < length paths =
        dialed_some (net checked.tls_config) cfg.server0 cfg.server1 w paths x.names_server
          (rw dialed refl) in
      let start : DemoState (ℕ → Wire) = record {
        scheduler = record { path_count = length paths; next = 0 };
        streams = w';
        counters = no_counts;
      } in
      let (end, answered, ready, counted) =
        exchanges_answered virtual_ip client_ip (echo_requests cfg checked paths) served_by (suc m)
          0 start
          (record { scheduled = record { in_range = some_path }; all_paths = refl; idle = idle })
          (record {
            rx_packets_u64 = omega arith;
            rx_bytes_u64 = omega arith;
            tx_packets_u64 = omega arith;
            tx_bytes_u64 = omega arith;
            dropped_u64 = omega arith;
            errors_u64 = omega arith;
          }) in
      rw
        (
          check_passes crypto cfg checked m x,
          dialed,
          x.counts,
          scheduler_of_some paths some_path,
          answered,
        )
        (refl, counted)
