-- ===== src/Client/Run.antt =====
-- internal/quictransport/client.go: RunClient. The log lines and the periodic report of the counters
-- are left out.
pub mod Safety
pub mod Balance
mod Tests
use Prim.Native.String.{String}
use text.Mathlib.Text.{◌==◌ as str_eq}
use mvp_vpn_lite.Base.{
  ℕ, Bool, not, ◌&&◌, ◌||◌, Option, none, some, List, [], Result, ok, err, panic, ◌>>=◌, ◌>>◌,
  fail_if, map_err, or_err, length,
}
use mvp_vpn_lite.Base.Int.{ℤ, pos, pos_part, ltb_ℤ}
use mvp_vpn_lite.Net.{Ip, to4}
use mvp_vpn_lite.Stats.{Counters, no_counts}
use mvp_vpn_lite.Multipath.{RoundRobin, new_round_robin}
use mvp_vpn_lite.Tls.{Crypto, TlsConfig, TlsError, client_tls_config}
use mvp_vpn_lite.Client.Path.{ClientPath}
use mvp_vpn_lite.Client.Dial.{Network, DialError, dial_client_paths, close_client_paths}
use mvp_vpn_lite.Client.Demo.{ClientStreams, DemoError, DemoState, EchoRequests, exchanges}

pub record ClientConfig : Type 0 where
  pub server0 : String
  pub server1 : String
  pub ca_file : String
  pub server_name : String
  pub client_cert_file : String
  pub client_key_file : String
  pub virtual_ip : Ip
  pub client_ip : Ip
  pub identifier : ℕ
  pub count : ℤ
  pub payload : List ℕ

pub data RunError : Type 0 where
  server_required : RunError
  virtual_not_ipv4 : RunError
  client_not_ipv4 : RunError
  count_not_positive : ℤ → RunError
  tls_failed : TlsError → RunError
  dial_paths_failed : DialError → RunError
  no_scheduler : RunError
  exchange_failed : DemoError → RunError

-- What RunClient leaves behind, its error among it.
pub record ClientRun (W : Type 0) : Type 0 where
  pub result : Result RunError (Unit {0})
  pub network : W
  pub counters : Counters

-- What the checks before the dials give.
pub record CheckedConfig : Type 0 where
  pub virtual_ipv4 : Ip
  pub client_ipv4 : Ip
  pub tls_config : TlsConfig

abbrev pub echo_requests : ClientConfig → CheckedConfig → List ClientPath → EchoRequests
echo_requests cfg checked paths = record {
  paths = paths;
  virtual_ipv4 = checked.virtual_ipv4;
  client_ipv4 = checked.client_ipv4;
  identifier = cfg.identifier;
  payload = cfg.payload;
}

module _ (crypto : Crypto) where
  unfoldable pub check_client_config : ClientConfig → Result RunError CheckedConfig
  check_client_config cfg = do
    fail_if (str_eq cfg.server0 "" && str_eq cfg.server1 "") server_required
    virtual_ipv4 ← or_err (to4 cfg.virtual_ip) virtual_not_ipv4
    client_ipv4 ← or_err (to4 cfg.client_ip) client_not_ipv4
    fail_if (not (ltb_ℤ (pos 0) cfg.count)) (count_not_positive cfg.count)
    tls_config ← map_err tls_failed (
        client_tls_config crypto cfg.ca_file cfg.server_name cfg.client_cert_file
          cfg.client_key_file)
    ok (record { virtual_ipv4 = virtual_ipv4; client_ipv4 = client_ipv4; tls_config = tls_config })

module _ {W : Type 0} (io : ClientStreams W) where
  abbrev pub after_exchanges : Result DemoError (Unit {0}) × DemoState W → ClientRun W
  after_exchanges (r, s) = record {
    result = map_err exchange_failed r;
    network = s.streams;
    counters = s.counters;
  }

  -- After `multipath.NewRoundRobin`.
  unfoldable pub after_scheduler :
      ClientConfig → CheckedConfig → List ClientPath → W → Option RoundRobin → ClientRun W
  after_scheduler cfg checked paths w none = record {
    result = err no_scheduler;
    network = w;
    counters = no_counts;
  }
  after_scheduler cfg checked paths w (some scheduler) = after_exchanges (
      exchanges io (echo_requests cfg checked paths) (pos_part cfg.count) 0
        (record { scheduler = scheduler; streams = w; counters = no_counts }))

  abbrev pub request_over : ClientConfig → CheckedConfig → List ClientPath → W → ClientRun W
  request_over cfg checked paths w =
      after_scheduler cfg checked paths w (new_round_robin (pos (length paths)))

  module _ (net : TlsConfig → Network W) where
    -- After `dialClientPaths`, with the deferred closing of the paths.
    unfoldable pub after_dial_paths :
        ClientConfig → CheckedConfig → Result DialError (List ClientPath) × W → ClientRun W
    after_dial_paths cfg checked (ok paths, w) =
        let run = request_over cfg checked paths w in
        record run { network = close_client_paths (net checked.tls_config) paths run.network }
    after_dial_paths cfg checked (err e, w) = record {
      result = err (dial_paths_failed e);
      network = w;
      counters = no_counts;
    }
    after_dial_paths cfg checked (panic, w) = record {
      result = panic;
      network = w;
      counters = no_counts;
    }

    unfoldable pub after_check : ClientConfig → W → Result RunError CheckedConfig → ClientRun W
    unfolding after_dial_paths
    after_check cfg w (ok checked) =
        after_dial_paths cfg checked
          (dial_client_paths (net checked.tls_config) cfg.server0 cfg.server1 w)
    after_check cfg w (err e) = record { result = err e; network = w; counters = no_counts }
    after_check cfg w panic = record { result = panic; network = w; counters = no_counts }

    unfoldable pub run_client : Crypto → ClientConfig → W → ClientRun W
    unfolding after_check
    run_client crypto cfg w = after_check cfg w (check_client_config crypto cfg)
