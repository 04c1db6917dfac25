-- ===== src/Server/Run.antt =====
-- internal/quictransport/server.go: how RunServer and runTUNServer start, up to their listeners.
pub mod Start
pub mod Sample
mod Tests
use Prim.Native.String.{String}
use text.Mathlib.Text.{◌==◌ as str_eq}
use mvp_vpn_lite.Base.{
  ℕ, Bool, true, false, ◌&&◌, Option, none, some, List, [], ◌∷◌, ◌++◌, Result, ok, err, panic,
  ◌>>=◌, ◌>>◌, fail_if, map_err, or_err, if◌then◌else◌,
}
use mvp_vpn_lite.Io.{IoError}
use mvp_vpn_lite.Net.{Ip, IpNet, to4}
use mvp_vpn_lite.Policy.{PacketPolicy, PolicyError, new_packet_policy}
use mvp_vpn_lite.Tls.{Crypto, TlsConfig, TlsError, server_tls_config}
use mvp_vpn_lite.Client.TunRun.{Tun}
use mvp_vpn_lite.Server.Session.{ServerTunSession, new_server_tun_session}

pub record ServerConfig : Type 0 where
  pub listen0 : String
  pub listen1 : String
  pub tls_cert_file : String
  pub tls_key_file : String
  pub client_ca_file : String
  pub virtual_ip : Ip
  pub client_ip : Ip
  pub tun_allowed_cidr : String
  pub use_tun : Bool
  pub device_name : String

pub data ServerError : Type 0 where
  listen_required : ServerError
  virtual_not_ipv4 : ServerError
  client_not_ipv4 : ServerError
  tls_failed : TlsError → ServerError
  policy_refused : PolicyError → ServerError
  open_failed : IoError → ServerError

-- A goroutine that listens: its path and its address.
pub record Listener : Type 0 where
  pub path_id : ℕ
  pub address : String

-- What runs when the server has started.
pub data ServerMode : Type 0 where
  demo : ServerMode
  tun : ℕ → PacketPolicy → ServerTunSession → ServerMode

pub record ServerStart : Type 0 where
  pub mode : ServerMode
  pub tls_config : TlsConfig
  pub listeners : List Listener

unfoldable pub server_listeners : ServerConfig → List Listener
server_listeners cfg =
    (if str_eq cfg.listen0 "" then [] else record { path_id = 0; address = cfg.listen0 } ∷ [])
    ++ (if str_eq cfg.listen1 "" then [] else record { path_id = 1; address = cfg.listen1 } ∷ [])

-- In the demo mode both addresses must be IPv4.
unfoldable pub check_addresses : ServerConfig → Result ServerError (Unit {0})
check_addresses cfg = if cfg.use_tun then ok tt else (do
  _ ← or_err (to4 cfg.virtual_ip) virtual_not_ipv4
  _ ← or_err (to4 cfg.client_ip) client_not_ipv4
  ok tt)

unfoldable pub check_server_config : Crypto → ServerConfig → Result ServerError TlsConfig
check_server_config crypto cfg = do
  fail_if (str_eq cfg.listen0 "" && str_eq cfg.listen1 "") listen_required
  check_addresses cfg
  map_err tls_failed
      (server_tls_config crypto cfg.tls_cert_file cfg.tls_key_file cfg.client_ca_file)

module _ {D : Type 0} (tun : Tun D) where
  -- After `tun.Open`.
  pub after_server_open :
      ServerConfig
      → TlsConfig
      → PacketPolicy
      → Result IoError ℕ × D
      → Result ServerError ServerStart × D
  after_server_open cfg tls_config policy (ok device, d) = (
    ok (record {
      mode = ServerMode.tun device policy new_server_tun_session;
      tls_config = tls_config;
      listeners = server_listeners cfg;
    }),
    d,
  )
  after_server_open cfg tls_config policy (err e, d) = (err (open_failed e), d)
  after_server_open cfg tls_config policy (panic, d) = (panic, d)

  -- After `newPacketPolicy`, in `runTUNServer`.
  pub after_server_policy :
      ServerConfig
      → TlsConfig
      → D
      → Result PolicyError PacketPolicy
      → Result ServerError ServerStart × D
  after_server_policy cfg tls_config d (ok policy) =
      after_server_open cfg tls_config policy (tun.open_device cfg.device_name d)
  after_server_policy cfg tls_config d (err e) = (err (policy_refused e), d)
  after_server_policy cfg tls_config d panic = (panic, d)

  module _ (parse_cidr : String → Option IpNet) where
    -- `if cfg.UseTUN`
    pub start_mode : ServerConfig → TlsConfig → D → Bool → Result ServerError ServerStart × D
    unfolding after_server_policy
    start_mode cfg tls_config d true =
        after_server_policy cfg tls_config d (new_packet_policy parse_cidr cfg.tun_allowed_cidr)
    start_mode cfg tls_config d false =
        (ok (record { mode = demo; tls_config = tls_config; listeners = server_listeners cfg }), d)

    pub after_server_check :
        ServerConfig → D → Result ServerError TlsConfig → Result ServerError ServerStart × D
    unfolding start_mode
    after_server_check cfg d (ok tls_config) = start_mode cfg tls_config d cfg.use_tun
    after_server_check cfg d (err e) = (err e, d)
    after_server_check cfg d panic = (panic, d)

    pub start_server : Crypto → ServerConfig → D → Result ServerError ServerStart × D
    unfolding after_server_check
    start_server crypto cfg d = after_server_check cfg d (check_server_config crypto cfg)
