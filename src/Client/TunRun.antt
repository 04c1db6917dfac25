-- ===== src/Client/TunRun.antt =====
-- internal/quictransport/client.go: how RunTUNClient starts, up to pumpTUN, and how both end. The
-- device of package tun is an interface, whose state is apart from the network's.
pub mod Start
pub mod Changes
pub mod Goroutines
pub mod Lifetime
pub mod End
mod Tests
use Prim.Native.String.{String}
use text.Mathlib.Text.{◌==◌ as str_eq}
use mvp_vpn_lite.Base.{
  ℕ, Bool, ◌&&◌, Option, List, Result, ok, err, panic, ◌>>=◌, ◌>>◌, fail_if, map_err,
}
use mvp_vpn_lite.Base.Act.{Act}
use mvp_vpn_lite.Base.Int.{ℤ}
use mvp_vpn_lite.Io.{IoError}
use mvp_vpn_lite.Net.{IpNet}
use mvp_vpn_lite.Policy.{PacketPolicy, PolicyError, new_packet_policy}
use mvp_vpn_lite.Stats.{Counters, no_counts}
use mvp_vpn_lite.Tls.{Crypto, TlsConfig, TlsError, client_tls_config}
use mvp_vpn_lite.Client.Path.{ClientPath}
use mvp_vpn_lite.Client.PathSet.{ClientPathSet, new_client_path_set, snapshot}
use mvp_vpn_lite.Client.Backoff.{IntervalError, normalize_tun_reconnect_intervals}
use mvp_vpn_lite.Client.Dial.{
  Network, ClientPathSpec, client_path_specs, dial_available_client_paths, close_client_paths,
}

pub record TunClientConfig : Type 0 where
  pub server0 : String
  pub server1 : String
  pub ca_file : String
  pub server_name : String
  pub client_cert_file : String
  pub client_key_file : String
  pub tun_allowed_cidr : String
  pub device_name : String
  pub reconnect_min_interval : ℤ
  pub reconnect_max_interval : ℤ

-- `tun.Open` and `device.Close`; a device is a handle.
pub record Tun (D : Type 0) : Type 0 where
  pub open_device : String → Act D IoError ℕ
  pub close_device : ℕ → D → D

pub data TunRunError : Type 0 where
  server_required : TunRunError
  intervals_refused : IntervalError → TunRunError
  policy_refused : PolicyError → TunRunError
  open_failed : IoError → TunRunError
  tls_failed : TlsError → TunRunError

-- What the checks before the device give.
pub record CheckedTun : Type 0 where
  pub min_delay : ℤ
  pub max_delay : ℤ
  pub policy : PacketPolicy

-- What `pumpTUN` is started with.
pub record TunClient : Type 0 where
  pub checked : CheckedTun
  pub device : ℕ
  pub tls_config : TlsConfig
  pub path_specs : List ClientPathSpec
  pub path_set : ClientPathSet

pub record TunStart (D W : Type 0) : Type 0 where
  pub result : Result TunRunError TunClient
  pub devices : D
  pub network : W
  pub counters : Counters

pub check_tun_config : (String → Option IpNet) → TunClientConfig → Result TunRunError CheckedTun
check_tun_config parse_cidr cfg = do
  fail_if (str_eq cfg.server0 "" && str_eq cfg.server1 "") server_required
  (reconnect_min, reconnect_max) ←
      map_err intervals_refused
        (normalize_tun_reconnect_intervals cfg.reconnect_min_interval cfg.reconnect_max_interval)
  policy ← map_err policy_refused (new_packet_policy parse_cidr cfg.tun_allowed_cidr)
  ok (record { min_delay = reconnect_min; max_delay = reconnect_max; policy = policy })

module _ {D W : Type 0} (tun : Tun D) (net : TlsConfig → Network W) (ctx_done : W → Bool) where
  -- After `clientTLSConfig`, the device being open.
  pub after_tls :
      TunClientConfig → CheckedTun → ℕ → D → W → Result TlsError TlsConfig → TunStart D W
  after_tls cfg checked device d w (err e) = record {
    result = err (tls_failed e);
    devices = tun.close_device device d;
    network = w;
    counters = no_counts;
  }
  after_tls cfg checked device d w panic = record {
    result = panic;
    devices = tun.close_device device d;
    network = w;
    counters = no_counts;
  }
  after_tls cfg checked device d w (ok tls_config) =
      let specs = client_path_specs cfg.server0 cfg.server1 in
      let (paths, w, c) = dial_available_client_paths (net tls_config) ctx_done specs w no_counts in
      record {
        result = ok (record {
          checked = checked;
          device = device;
          tls_config = tls_config;
          path_specs = specs;
          path_set = new_client_path_set paths;
        });
        devices = d;
        network = w;
        counters = c;
      }

  -- After `tun.Open`.
  pub after_open_device :
      Crypto → TunClientConfig → CheckedTun → W → Result IoError ℕ × D → TunStart D W
  unfolding after_tls
  after_open_device crypto cfg checked w (ok device, d) = after_tls cfg checked device d w (
      client_tls_config crypto cfg.ca_file cfg.server_name cfg.client_cert_file cfg.client_key_file)
  after_open_device crypto cfg checked w (err e, d) = record {
    result = err (open_failed e);
    devices = d;
    network = w;
    counters = no_counts;
  }
  after_open_device crypto cfg checked w (panic, d) = record {
    result = panic;
    devices = d;
    network = w;
    counters = no_counts;
  }

  pub after_tun_check :
      Crypto → TunClientConfig → D → W → Result TunRunError CheckedTun → TunStart D W
  unfolding after_open_device
  after_tun_check crypto cfg d w (ok checked) =
      after_open_device crypto cfg checked w (tun.open_device cfg.device_name d)
  after_tun_check crypto cfg d w (err e) = record {
    result = err e;
    devices = d;
    network = w;
    counters = no_counts;
  }
  after_tun_check crypto cfg d w panic = record {
    result = panic;
    devices = d;
    network = w;
    counters = no_counts;
  }

  pub start_tun_client : (String → Option IpNet) → Crypto → TunClientConfig → D → W → TunStart D W
  unfolding after_tun_check
  start_tun_client parse_cidr crypto cfg d w =
      after_tun_check crypto cfg d w (check_tun_config parse_cidr cfg)

  -- The deferred calls of `pumpTUN` and of `RunTUNClient`. The device is closed twice, by the goroutine
  -- of `pumpTUN` that waits for the context, which its deferred call cancels, and by `RunTUNClient`.
  pub stop_tun_client : TunClient → ClientPathSet → D → W → D × W
  stop_tun_client client set d w = (
    tun.close_device client.device (tun.close_device client.device d),
    close_client_paths (net client.tls_config) (snapshot set) w,
  )
