-- ===== src/ClientCommand/Tests.antt =====
-- The client's command with an empty environment and no flag.
use Prim.Native.String.{String}
use mvp_vpn_lite.Base.{ℕ, ◌≡◌, refl, ok, Option, List, none, [], ◌∷◌}
use mvp_vpn_lite.Base.Int.{pos}
use mvp_vpn_lite.Net.{Ip}
use mvp_vpn_lite.Client.Run.{ClientConfig}
use mvp_vpn_lite.EnvConfig.{Parsers, parsed, env_string, env_bool, env_int, env_uint, env_duration}
use mvp_vpn_lite.ClientCommand.{
  ClientFlags, run_demo, client_defaults, demo_client_config, client_command,
}

abbrev no_parsers : Parsers
no_parsers = record {
  parse_bool = λ s. none;
  atoi = λ s. none;
  parse_uint = λ s. none;
  parse_duration = λ s. none;
}

abbrev no_flags : ClientFlags
no_flags = record {
  server0 = none;
  server1 = none;
  ca_cert = none;
  server_name = none;
  client_cert = none;
  client_key = none;
  virtual_ip = none;
  client_ip = none;
  count = none;
  identifier = none;
  payload = none;
  tun = none;
  tun_name = none;
  tun_allow_cidr = none;
  reconnect_min = none;
  reconnect_max = none;
  version = none;
}

abbrev unset : String → Option String
unset name = none

abbrev parse_ip : String → Ip
parse_ip text = 10 ∷ 8 ∷ 0 ∷ 1 ∷ []

abbrev bytes_of : String → List ℕ
bytes_of text = 1 ∷ 2 ∷ []

abbrev demo : ClientConfig
demo = record {
  server0 = "localhost:4433";
  server1 = "localhost:4434";
  ca_file = "";
  server_name = "";
  client_cert_file = "";
  client_key_file = "";
  virtual_ip = 10 ∷ 8 ∷ 0 ∷ 1 ∷ [];
  client_ip = 10 ∷ 8 ∷ 0 ∷ 1 ∷ [];
  identifier = 0x4d56;
  count = pos 4;
  payload = 1 ∷ 2 ∷ [];
}

runs : client_command unset no_parsers no_flags parse_ip bytes_of ≡ ok (run_demo demo)
unfolding client_command client_defaults demo_client_config parsed env_string env_bool env_int
    env_uint env_duration
runs = refl
