-- ===== src/ServerCommand.antt =====
-- cmd/server/main.go: how the configuration of the server comes about. What the package flag makes of
-- the command line is a parameter: for each flag the value given, if one is.
mod Tests
use Prim.Native.String.{String}
use mvp_vpn_lite.Base.{Bool, false, Option, none, some, Result, ok, ◌>>=◌, ◌*◌, if◌then◌else◌}
use mvp_vpn_lite.Base.Int.{pos}
use mvp_vpn_lite.Net.{Ip}
use mvp_vpn_lite.Client.Path.{second}
use mvp_vpn_lite.Server.Run.{ServerConfig}
use mvp_vpn_lite.Flags.{flag_or, text_flag}
use mvp_vpn_lite.EnvConfig.{Parsers, EnvError, env_bool, env_duration}

pub record ServerFlags : Type 0 where
  pub listen0 : Option String
  pub listen1 : Option String
  pub tls_cert : Option String
  pub tls_key : Option String
  pub client_ca : Option String
  pub virtual_ip : Option String
  pub client_ip : Option String
  pub tun : Option Bool
  pub tun_name : Option String
  pub tun_allow_cidr : Option String
  pub version : Option Bool

module _ (lookup_env : String → Option String) (parsers : Parsers) (flags : ServerFlags)
    (parse_ip : String → Ip) where
  unfoldable pub server_config : Bool → ServerConfig
  server_config tun = record {
    listen0 = text_flag lookup_env flags.listen0 "MVPVPN_SERVER_LISTEN0" ":4433";
    listen1 = text_flag lookup_env flags.listen1 "MVPVPN_SERVER_LISTEN1" ":4434";
    tls_cert_file = text_flag lookup_env flags.tls_cert "MVPVPN_SERVER_TLS_CERT" "";
    tls_key_file = text_flag lookup_env flags.tls_key "MVPVPN_SERVER_TLS_KEY" "";
    client_ca_file = text_flag lookup_env flags.client_ca "MVPVPN_SERVER_CLIENT_CA" "";
    virtual_ip =
        parse_ip (text_flag lookup_env flags.virtual_ip "MVPVPN_SERVER_VIRTUAL_IP" "10.8.0.1");
    client_ip =
        parse_ip (text_flag lookup_env flags.client_ip "MVPVPN_SERVER_CLIENT_IP" "10.8.0.2");
    use_tun = flag_or flags.tun tun;
    device_name = text_flag lookup_env flags.tun_name "MVPVPN_SERVER_TUN_NAME" "mvpvpns0";
    tun_allowed_cidr = text_flag lookup_env flags.tun_allow_cidr "MVPVPN_SERVER_TUN_ALLOW_CIDR" "";
  }

  -- The configuration RunServer is called with, or `none` where the version is printed.
  unfoldable pub server_command : Result EnvError (Option ServerConfig)
  server_command = do
    stats_interval ←
        env_duration lookup_env parsers "MVPVPN_SERVER_STATS_INTERVAL" (pos (10 * second))
    stats_json ← env_bool lookup_env parsers "MVPVPN_SERVER_STATS_JSON" false
    tun ← env_bool lookup_env parsers "MVPVPN_SERVER_TUN" false
    ok (if flag_or flags.version false then none else some (server_config tun))
