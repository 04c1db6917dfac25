-- ===== src/ClientCommand.antt =====
-- cmd/client/main.go: how the configuration of the client comes about. What the package flag makes of
-- the command line is a parameter: for each flag the value given, if one is.
pub mod Identifier
mod Tests
use Prim.Native.String.{String}
use mvp_vpn_lite.Base.{
  ℕ, ◌*◌, ◌%◌, ◌^◌, Bool, true, false, Option, List, Result, ok, err, ◌>>=◌, ◌>>◌, fail_if, map_err,
  ltb, if◌then◌else◌,
}
use mvp_vpn_lite.Base.Int.{ℤ, pos}
use mvp_vpn_lite.Net.{Ip}
use mvp_vpn_lite.Client.Path.{second}
use mvp_vpn_lite.Client.Backoff.{
  default_tun_reconnect_min_interval, default_tun_reconnect_max_interval,
}
use mvp_vpn_lite.Client.Run.{ClientConfig}
use mvp_vpn_lite.Client.TunRun.{TunClientConfig}
use mvp_vpn_lite.Flags.{flag_or, text_flag}
use mvp_vpn_lite.EnvConfig.{Parsers, EnvError, env_bool, env_int, env_uint, env_duration}

pub record ClientFlags : Type 0 where
  pub server0 : Option String
  pub server1 : Option String
  pub ca_cert : Option String
  pub server_name : Option String
  pub client_cert : Option String
  pub client_key : Option String
  pub virtual_ip : Option String
  pub client_ip : Option String
  pub count : Option ℤ
  pub identifier : Option ℕ
  pub payload : Option String
  pub tun : Option Bool
  pub tun_name : Option String
  pub tun_allow_cidr : Option String
  pub reconnect_min : Option ℤ
  pub reconnect_max : Option ℤ
  pub version : Option Bool

pub data CommandError : Type 0 where
  bad_environment : EnvError → CommandError
  identifier_too_large : ℕ → CommandError

-- What main does: print the version, or run one of the two clients.
pub data ClientCommand : Type 0 where
  print_version : ClientCommand
  run_tun : TunClientConfig → ClientCommand
  run_demo : ClientConfig → ClientCommand

-- The defaults of the flags that come from the environment by a parser; each one is fatal if it is
-- malformed, also where the flag is given.
pub record ClientDefaults : Type 0 where
  pub count : ℤ
  pub identifier : ℕ
  pub tun : Bool
  pub reconnect_min : ℤ
  pub reconnect_max : ℤ

module _ (lookup_env : String → Option String) (parsers : Parsers) where
  unfoldable pub client_defaults : Result EnvError ClientDefaults
  client_defaults = do
    count ← env_int lookup_env parsers "MVPVPN_CLIENT_COUNT" (pos 4)
    identifier ← env_uint lookup_env parsers "MVPVPN_CLIENT_IDENTIFIER" 0x4d56
    timeout ← env_duration lookup_env parsers "MVPVPN_CLIENT_TIMEOUT" (pos (5 * second))
    stats_interval ←
        env_duration lookup_env parsers "MVPVPN_CLIENT_STATS_INTERVAL" (pos (10 * second))
    stats_json ← env_bool lookup_env parsers "MVPVPN_CLIENT_STATS_JSON" false
    tun ← env_bool lookup_env parsers "MVPVPN_CLIENT_TUN" false
    reconnect_min ←
        env_duration lookup_env parsers "MVPVPN_CLIENT_RECONNECT_MIN"
          default_tun_reconnect_min_interval
    reconnect_max ←
        env_duration lookup_env parsers "MVPVPN_CLIENT_RECONNECT_MAX"
          default_tun_reconnect_max_interval
    ok (record {
      count = count;
      identifier = identifier;
      tun = tun;
      reconnect_min = reconnect_min;
      reconnect_max = reconnect_max;
    })

  module _ (flags : ClientFlags) where
    unfoldable pub tun_client_config : ClientDefaults → TunClientConfig
    tun_client_config defaults = record {
      server0 = text_flag lookup_env flags.server0 "MVPVPN_CLIENT_SERVER0" "localhost:4433";
      server1 = text_flag lookup_env flags.server1 "MVPVPN_CLIENT_SERVER1" "localhost:4434";
      ca_file = text_flag lookup_env flags.ca_cert "MVPVPN_CLIENT_CA_CERT" "";
      server_name = text_flag lookup_env flags.server_name "MVPVPN_CLIENT_SERVER_NAME" "";
      client_cert_file = text_flag lookup_env flags.client_cert "MVPVPN_CLIENT_TLS_CERT" "";
      client_key_file = text_flag lookup_env flags.client_key "MVPVPN_CLIENT_TLS_KEY" "";
      tun_allowed_cidr =
          text_flag lookup_env flags.tun_allow_cidr "MVPVPN_CLIENT_TUN_ALLOW_CIDR" "";
      device_name = text_flag lookup_env flags.tun_name "MVPVPN_CLIENT_TUN_NAME" "mvpvpn0";
      reconnect_min_interval = flag_or flags.reconnect_min defaults.reconnect_min;
      reconnect_max_interval = flag_or flags.reconnect_max defaults.reconnect_max;
    }

    -- `net.ParseIP` and the bytes of a text are parameters.
    module _ (parse_ip : String → Ip) (bytes_of : String → List ℕ) where
      unfoldable pub demo_client_config : ClientDefaults → ClientConfig
      demo_client_config defaults = record {
        server0 = text_flag lookup_env flags.server0 "MVPVPN_CLIENT_SERVER0" "localhost:4433";
        server1 = text_flag lookup_env flags.server1 "MVPVPN_CLIENT_SERVER1" "localhost:4434";
        ca_file = text_flag lookup_env flags.ca_cert "MVPVPN_CLIENT_CA_CERT" "";
        server_name = text_flag lookup_env flags.server_name "MVPVPN_CLIENT_SERVER_NAME" "";
        client_cert_file = text_flag lookup_env flags.client_cert "MVPVPN_CLIENT_TLS_CERT" "";
        client_key_file = text_flag lookup_env flags.client_key "MVPVPN_CLIENT_TLS_KEY" "";
        virtual_ip =
            parse_ip (text_flag lookup_env flags.virtual_ip "MVPVPN_CLIENT_VIRTUAL_IP" "10.8.0.1");
        client_ip =
            parse_ip (text_flag lookup_env flags.client_ip "MVPVPN_CLIENT_CLIENT_IP" "10.8.0.2");
        identifier = flag_or flags.identifier defaults.identifier % 2 ^ 16;
        count = flag_or flags.count defaults.count;
        payload =
            bytes_of (text_flag lookup_env flags.payload "MVPVPN_CLIENT_PAYLOAD" "mvp-vpn-lite");
      }

      unfoldable pub client_command : Result CommandError ClientCommand
      client_command = do
        defaults ← map_err bad_environment client_defaults
        if flag_or flags.version false
            then ok print_version
            else if flag_or flags.tun defaults.tun
            then ok (run_tun (tun_client_config defaults))
            else (do
              let identifier = flag_or flags.identifier defaults.identifier
              fail_if (ltb 0xffff identifier) (identifier_too_large identifier)
              ok (run_demo (demo_client_config defaults)))
