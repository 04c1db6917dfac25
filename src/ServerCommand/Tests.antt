-- ===== src/ServerCommand/Tests.antt =====
-- The server's command without flags, in an environment that asks for a TUN device.
use Prim.Native.String.{String}
use text.Mathlib.Text.{◌==◌ as str_eq}
use mvp_vpn_lite.Base.{◌≡◌, refl, true, ok, err, Option, none, some, [], ◌∷◌, if◌then◌else◌}
use mvp_vpn_lite.Net.{Ip}
use mvp_vpn_lite.EnvConfig.{Parsers, parsed, env_string, env_bool, env_duration, not_boolean}
use mvp_vpn_lite.ServerCommand.{ServerFlags, server_config, server_command}

abbrev parsers : Parsers
parsers = record {
  parse_bool = λ s. if str_eq s "true" then some true else none;
  atoi = λ s. none;
  parse_uint = λ s. none;
  parse_duration = λ s. none;
}

abbrev no_flags : ServerFlags
no_flags = record {
  listen0 = none;
  listen1 = none;
  tls_cert = none;
  tls_key = none;
  client_ca = none;
  virtual_ip = none;
  client_ip = none;
  tun = none;
  tun_name = none;
  tun_allow_cidr = none;
  version = none;
}

abbrev tun_is : String → String → Option String
tun_is value name = if str_eq name "MVPVPN_SERVER_TUN" then some value else none

abbrev parse_ip : String → Ip
parse_ip text = 10 ∷ 8 ∷ 0 ∷ 1 ∷ []

tunnel :
    server_command (tun_is "true") parsers no_flags parse_ip
    ≡ ok (
        some (record {
          listen0 = ":4433";
          listen1 = ":4434";
          tls_cert_file = "";
          tls_key_file = "";
          client_ca_file = "";
          virtual_ip = parse_ip "10.8.0.1";
          client_ip = parse_ip "10.8.0.2";
          use_tun = true;
          device_name = "mvpvpns0";
          tun_allowed_cidr = "";
        }))
unfolding server_command server_config parsed env_string env_bool env_duration
tunnel = refl

malformed :
    server_command (tun_is "on") parsers no_flags parse_ip ≡ err (not_boolean "MVPVPN_SERVER_TUN")
unfolding server_command parsed env_bool env_duration
malformed = refl
