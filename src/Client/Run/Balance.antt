-- ===== src/Client/Run/Balance.antt =====
-- RunClient does not panic and leaves no connection open, whatever the network does.
use text.Mathlib.Text.{◌==◌ as str_eq}
use mvp_vpn_lite.Base.{
  ℕ, ◌<◌, ◌≡◌, ◌≢◌, refl, ap, ◌∙◌, arith, false, not, ◌&&◌, some, List, [], ◌∷◌, Result, ok, err,
  panic, length, bind-ne-panic, fail_if-ne-panic, or_err-ne-panic, map_err,
}
use mvp_vpn_lite.Base.Int.{pos, pos_part, ltb_ℤ}
use mvp_vpn_lite.Net.{to4}
use mvp_vpn_lite.Stats.{no_counts}
use mvp_vpn_lite.Multipath.{new_round_robin}
use mvp_vpn_lite.Tls.{Crypto, TlsConfig, client_tls_config}
use mvp_vpn_lite.Client.Path.{ClientPath}
use mvp_vpn_lite.Client.Dial.{Network, DialError, dial_client_paths}
use mvp_vpn_lite.Client.Dial.Balance.{
  Counting, AllEnds, close_paths_balance, dial_client_paths_balance,
}
use mvp_vpn_lite.Client.Dial.Closed.{closed}
use mvp_vpn_lite.Client.Dial.Paths.{dialed_some}
use mvp_vpn_lite.Client.Demo.{ClientStreams, DemoError, DemoState}
use mvp_vpn_lite.Client.Validate.Total.{map_err-ne-panic}
use mvp_vpn_lite.Client.Run.{
  ClientConfig, CheckedConfig, RunError, server_required, virtual_not_ipv4, client_not_ipv4,
  count_not_positive, tls_failed, no_scheduler, exchange_failed, ClientRun, echo_requests,
  check_client_config, request_over, after_scheduler, after_dial_paths, after_check, run_client,
}
use mvp_vpn_lite.Client.Run.Safety.{Steady, exchanges-Safe}

-- The run of RunClient did not panic, its scheduler was made, and the connections n are open.
pub record Balanced {W : Type 0} (open_conns : W → List ℕ) (n : List ℕ) (run : ClientRun W)
    : Type 0 where
  pub no_panic : run.result ≢ panic
  pub scheduled : run.result ≢ err no_scheduler
  pub connections : open_conns run.network ≡ n

pub scheduler_of_some :
    (paths : List ClientPath)
    → 0 < length paths
    → new_round_robin (pos (length paths)) ≡ some (record { path_count = length paths; next = 0 })
unfolding new_round_robin
scheduler_of_some [] lt = absurd (omega arith)
scheduler_of_some (p ∷ paths) lt = refl

exchange_error : (r : Result DemoError (Unit {0})) → map_err exchange_failed r ≢ err no_scheduler
exchange_error (ok u) e = cc
exchange_error (err x) e = cc
exchange_error panic e = cc

check-ne-panic :
    (crypto : Crypto) (cfg : ClientConfig)
    → client_tls_config crypto cfg.ca_file cfg.server_name cfg.client_cert_file cfg.client_key_file
      ≢ panic
    → check_client_config crypto cfg ≢ panic
unfolding check_client_config
check-ne-panic crypto cfg quiet =
    bind-ne-panic _ _
      (fail_if-ne-panic (str_eq cfg.server0 "" && str_eq cfg.server1 "") server_required)
      λ _. bind-ne-panic _ _ (or_err-ne-panic (to4 cfg.virtual_ip) virtual_not_ipv4) λ virtual_ipv4.
        bind-ne-panic _ _ (or_err-ne-panic (to4 cfg.client_ip) client_not_ipv4) λ client_ipv4.
          bind-ne-panic _ _
            (fail_if-ne-panic (not (ltb_ℤ (pos 0) cfg.count)) (count_not_positive cfg.count))
            λ _.
              bind-ne-panic _ _
                (map_err-ne-panic tls_failed
                  (client_tls_config crypto cfg.ca_file cfg.server_name cfg.client_cert_file
                    cfg.client_key_file)
                  quiet)
                λ tls_config e. cc

-- A configuration that passes names a server; a configuration error is none of the scheduler.
check_servers :
    (crypto : Crypto) (cfg : ClientConfig) (checked : CheckedConfig)
    → check_client_config crypto cfg ≡ ok checked
    → (str_eq cfg.server0 "" && str_eq cfg.server1 "") ≡ false
unfolding check_client_config
check_servers crypto cfg checked e = ground arith

check_error :
    (crypto : Crypto) (cfg : ClientConfig) → check_client_config crypto cfg ≢ err no_scheduler
unfolding check_client_config
check_error crypto cfg e = ground arith

module _ {W : Type 0} (io : ClientStreams W) (net : TlsConfig → Network W) (open_conns : W → List ℕ)
    (laws : (tls_config : TlsConfig) → Counting (net tls_config) open_conns)
    (steady : Steady io open_conns) where
  requests-Balanced :
      (cfg : ClientConfig) (checked : CheckedConfig) (paths : List ClientPath) (w : W)
      → 0 < length paths
      → Balanced open_conns (open_conns w) (request_over io cfg checked paths w)
  unfolding after_scheduler
  requests-Balanced cfg checked paths w lt =
      let start : DemoState W = record {
        scheduler = record { path_count = length paths; next = 0 };
        streams = w;
        counters = no_counts;
      } in
      let (ne, going) =
        exchanges-Safe io open_conns steady (echo_requests cfg checked paths) (open_conns w)
          (pos_part cfg.count) 0 start
          (record { scheduled = record { in_range = lt }; all_paths = refl; connections = refl }) in
      rw (scheduler_of_some paths lt) (record {
        no_panic = map_err-ne-panic exchange_failed _ ne;
        scheduled = exchange_error _;
        connections = going.connections;
      })

  dialed-Balanced :
      (cfg : ClientConfig) (checked : CheckedConfig) (n : List ℕ)
      (result : Result DialError (List ClientPath) × W)
      → AllEnds (net checked.tls_config) open_conns (laws checked.tls_config) n result
      → ((paths : List ClientPath) → result.0 ≡ ok paths → 0 < length paths)
      → Balanced open_conns n (after_dial_paths io net cfg checked result)
  unfolding after_dial_paths AllEnds
  dialed-Balanced cfg checked n (ok paths, w) held some_path =
      let run = requests-Balanced cfg checked paths w (some_path paths refl) in
      record {
        no_panic = run.no_panic;
        scheduled = run.scheduled;
        connections =
            close_paths_balance (net checked.tls_config) open_conns (laws checked.tls_config) paths
              (request_over io cfg checked paths w).network held.connected
            ∙ ap (closed paths) run.connections
            ∙ held.apart;
      }
  dialed-Balanced cfg checked n (err e, w) ends some_path = record {
    no_panic = λ e. cc;
    scheduled = λ e. cc;
    connections = ends;
  }
  dialed-Balanced cfg checked n (panic, w) ends some_path = absurd ends

  checked-Balanced :
      (cfg : ClientConfig) (w : W) (result : Result RunError CheckedConfig)
      → result ≢ panic
      → result ≢ err no_scheduler
      → ((checked : CheckedConfig)
          → result ≡ ok checked
          → (str_eq cfg.server0 "" && str_eq cfg.server1 "") ≡ false)
      → Balanced open_conns (open_conns w) (after_check io net cfg w result)
  unfolding after_check
  checked-Balanced cfg w (ok checked) np ns servers =
      dialed-Balanced cfg checked (open_conns w)
        (dial_client_paths (net checked.tls_config) cfg.server0 cfg.server1 w)
        (dial_client_paths_balance (net checked.tls_config) open_conns (laws checked.tls_config)
          cfg.server0 cfg.server1 w)
        λ paths e.
          dialed_some (net checked.tls_config) cfg.server0 cfg.server1 w paths
            (servers checked refl) e
  checked-Balanced cfg w (err e) np ns servers = record {
    no_panic = λ same. cc;
    scheduled = λ same. ns (cc);
    connections = refl;
  }
  checked-Balanced cfg w panic np ns servers = absurd (np refl)

  -- Whatever the network and the server answer, `RunClient` does not panic, the scheduler is never
  -- without a path, and when it returns, with an error or without, exactly the connections are open
  -- that were open before: each one that it opened is closed, and no other. The calls of the QUIC and
  -- TLS packages do not panic; a dial opens a new connection, and closing one closes that one.
  pub run_client-Balanced :
      (crypto : Crypto) (cfg : ClientConfig) (w : W)
      → client_tls_config crypto cfg.ca_file cfg.server_name cfg.client_cert_file
          cfg.client_key_file
        ≢ panic
      → Balanced open_conns (open_conns w) (run_client io net crypto cfg w)
  unfolding run_client
  run_client-Balanced crypto cfg w quiet =
      checked-Balanced cfg w (check_client_config crypto cfg) (check-ne-panic crypto cfg quiet)
        (check_error crypto cfg) (check_servers crypto cfg)
