-- ===== src/Server/Run/Start.antt =====
-- What RunServer has when its listeners start, and that it holds nothing when it fails.
use Prim.Native.String.{String}
use text.Mathlib.Text.{◌==◌ as str_eq}
use mvp_vpn_lite.Base.{
  ℕ, ◌<◌, ◌≡◌, ◌≢◌, refl, arith, Bool, true, false, ◌&&◌, Option, none, List, [], ◌∷◌, Result, ok,
  err, panic, length,
}
use mvp_vpn_lite.Base.Handles.{New}
use mvp_vpn_lite.Io.{IoError}
use mvp_vpn_lite.Net.{IpNet, to4}
use mvp_vpn_lite.Policy.{PacketPolicy, PolicyError, new_packet_policy}
use mvp_vpn_lite.Tls.{Crypto, TlsConfig, server_tls_config}
use mvp_vpn_lite.Tls.Verifies.{IsServerConfig, server_tls_verifies}
use mvp_vpn_lite.Client.TunRun.{Tun}
use mvp_vpn_lite.Client.TunRun.Start.{Opening, policy-ne-panic}
use mvp_vpn_lite.Server.Session.{new_server_tun_session}
use mvp_vpn_lite.Server.Session.Invariant.{IsAt}
use mvp_vpn_lite.Server.Run.{
  ServerConfig, ServerError, ServerMode, ServerStart, server_listeners, check_addresses,
  check_server_config, after_server_open, after_server_policy, start_mode, after_server_check,
  start_server,
}

-- The mode that the configuration asks for: the demo with IPv4 addresses and no device, or the TUN
-- mode with a new device and a session without paths.
unfoldable pub ModeFits : ServerConfig → List ℕ → List ℕ → ServerMode → Type 0
ModeFits cfg n after ServerMode.demo =
    (cfg.use_tun ≡ false) × (after ≡ n) × (to4 cfg.virtual_ip ≢ none) × (to4 cfg.client_ip ≢ none)
ModeFits cfg n after (ServerMode.tun device policy session) =
    (cfg.use_tun ≡ true) × New device n × (after ≡ device ∷ n) × IsAt [] session

pub record Serves (crypto : Crypto) (cfg : ServerConfig) (n after : List ℕ) (start : ServerStart)
    : Type 0 where
  pub fits : ModeFits cfg n after start.mode
  pub verifies : IsServerConfig crypto cfg.client_ca_file start.tls_config
  pub listens : 0 < length start.listeners

-- What the checks say of a configuration that passes.
record Passed (crypto : Crypto) (cfg : ServerConfig) (tls_config : TlsConfig) : Type 0 where
  named : (str_eq cfg.listen0 "" && str_eq cfg.listen1 "") ≡ false
  addresses : check_addresses cfg ≡ ok tt
  accepted :
      server_tls_config crypto cfg.tls_cert_file cfg.tls_key_file cfg.client_ca_file ≡ ok tls_config

check-Passed :
    (crypto : Crypto) (cfg : ServerConfig) (tls_config : TlsConfig)
    → check_server_config crypto cfg ≡ ok tls_config
    → Passed crypto cfg tls_config
unfolding check_server_config
check-Passed crypto cfg tls_config e = record {
  named = ground arith;
  addresses = ground arith;
  accepted = ground arith;
}

check-ne-panic :
    (crypto : Crypto) (cfg : ServerConfig)
    → server_tls_config crypto cfg.tls_cert_file cfg.tls_key_file cfg.client_ca_file ≢ panic
    → check_server_config crypto cfg ≢ panic
unfolding check_server_config check_addresses
check-ne-panic crypto cfg quiet e = ground arith

listens_somewhere :
    (cfg : ServerConfig)
    → (str_eq cfg.listen0 "" && str_eq cfg.listen1 "") ≡ false
    → 0 < length (server_listeners cfg)
unfolding server_listeners
listens_somewhere cfg e = ground arith

demo_addresses :
    (cfg : ServerConfig)
    → cfg.use_tun ≡ false
    → check_addresses cfg ≡ ok tt
    → (to4 cfg.virtual_ip ≢ none) × (to4 cfg.client_ip ≢ none)
unfolding check_addresses
demo_addresses cfg demo e = (λ x. ground arith, λ x. ground arith)

-- Either the server serves, or it has failed and the devices are as they were.
unfoldable pub StartedFrom :
    Crypto → ServerConfig → List ℕ → List ℕ → Result ServerError ServerStart → Type 0
StartedFrom crypto cfg n after (ok start) = Serves crypto cfg n after start
StartedFrom crypto cfg n after (err e) = after ≡ n
StartedFrom crypto cfg n after panic = ⊥

module _ {D : Type 0} (tun : Tun D) (open_devices : D → List ℕ) (opening : Opening tun open_devices)
    (crypto : Crypto) (cfg : ServerConfig) where
  abbrev pub Started : List ℕ → Result ServerError ServerStart × D → Type 0
  Started n start = StartedFrom crypto cfg n (open_devices start.1) start.0

  open-Started :
      (tls_config : TlsConfig) (policy : PacketPolicy) (d : D) (result : Result IoError ℕ × D)
      → Passed crypto cfg tls_config
      → cfg.use_tun ≡ true
      → tun.open_device cfg.device_name d ≡ result
      → Started (open_devices d) (after_server_open tun cfg tls_config policy result)
  unfolding after_server_open StartedFrom ModeFits new_server_tun_session
  open-Started tls_config policy d (ok device, d') passed tunnel e = record {
    fits =
        let (new, now) = opening.open_ok cfg.device_name d d' device e in
        (tunnel, new, now, record { same_paths = refl; in_range = omega arith });
    verifies =
        server_tls_verifies crypto cfg.tls_cert_file cfg.tls_key_file cfg.client_ca_file tls_config
          passed.accepted;
    listens = listens_somewhere cfg passed.named;
  }
  open-Started tls_config policy d (err x, d') passed tunnel e =
      opening.open_err cfg.device_name d d' x e
  open-Started tls_config policy d (panic, d') passed tunnel e =
      absurd (opening.open-ne-panic cfg.device_name d (cc e))

  policy-Started :
      (tls_config : TlsConfig) (d : D) (result : Result PolicyError PacketPolicy)
      → Passed crypto cfg tls_config
      → cfg.use_tun ≡ true
      → result ≢ panic
      → Started (open_devices d) (after_server_policy tun cfg tls_config d result)
  unfolding after_server_policy StartedFrom
  policy-Started tls_config d (ok policy) passed tunnel ne =
      open-Started tls_config policy d (tun.open_device cfg.device_name d) passed tunnel refl
  policy-Started tls_config d (err e) passed tunnel ne = refl
  policy-Started tls_config d panic passed tunnel ne = absurd (ne refl)

  mode-Started :
      (parse_cidr : String → Option IpNet) (tls_config : TlsConfig) (d : D) (use_tun : Bool)
      → Passed crypto cfg tls_config
      → cfg.use_tun ≡ use_tun
      → Started (open_devices d) (start_mode tun parse_cidr cfg tls_config d use_tun)
  unfolding start_mode StartedFrom ModeFits
  mode-Started parse_cidr tls_config d true passed tunnel =
      policy-Started tls_config d (new_packet_policy parse_cidr cfg.tun_allowed_cidr) passed tunnel
        (policy-ne-panic parse_cidr cfg.tun_allowed_cidr)
  mode-Started parse_cidr tls_config d false passed demo =
      let (virtual, client) = demo_addresses cfg demo passed.addresses in
      record {
        fits = (demo, refl, virtual, client);
        verifies =
            server_tls_verifies crypto cfg.tls_cert_file cfg.tls_key_file cfg.client_ca_file
              tls_config passed.accepted;
        listens = listens_somewhere cfg passed.named;
      }

  checked-Started :
      (parse_cidr : String → Option IpNet) (d : D) (result : Result ServerError TlsConfig)
      → result ≢ panic
      → ((tls_config : TlsConfig) → result ≡ ok tls_config → Passed crypto cfg tls_config)
      → Started (open_devices d) (after_server_check tun parse_cidr cfg d result)
  unfolding after_server_check StartedFrom
  checked-Started parse_cidr d (ok tls_config) ne passes =
      mode-Started parse_cidr tls_config d cfg.use_tun (passes tls_config refl) refl
  checked-Started parse_cidr d (err e) ne passes = refl
  checked-Started parse_cidr d panic ne passes = absurd (ne refl)

  -- `RunServer` does not panic before its listeners start. Where it fails the devices are as they were.
  -- Where it starts it listens on a path at least, with a TLS configuration that verifies clients
  -- exactly when a client CA file is named: in the demo mode with IPv4 addresses and no device, in
  -- the TUN mode with one new device and a session without paths. The calls of the TUN and TLS packages
  -- do not panic; a device that is opened is new.
  pub start_server-Started :
      (parse_cidr : String → Option IpNet) (d : D)
      → server_tls_config crypto cfg.tls_cert_file cfg.tls_key_file cfg.client_ca_file ≢ panic
      → Started (open_devices d) (start_server tun parse_cidr crypto cfg d)
  unfolding start_server
  start_server-Started parse_cidr d quiet =
      checked-Started parse_cidr d (check_server_config crypto cfg)
        (check-ne-panic crypto cfg quiet) (check-Passed crypto cfg)
