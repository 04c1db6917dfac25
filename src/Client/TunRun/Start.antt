-- ===== src/Client/TunRun/Start.antt =====
-- What RunTUNClient holds when it starts, and that it holds nothing when it fails.
use Prim.Native.String.{String}
use text.Mathlib.Text.{◌==◌ as str_eq}
use mvp_vpn_lite.Base.{
  ℕ, ◌≤◌, ◌≡◌, ◌≢◌, refl, ap, ◌∙◌, arith, Bool, ◌&&◌, Option, List, ◌∷◌, Result, ok, err, panic,
  bind-ne-panic, fail_if-ne-panic, bind-eq-ok, fail_if, map_err, All,
}
use mvp_vpn_lite.Base.Int.{ℤ, pos}
use mvp_vpn_lite.Io.{IoError}
use mvp_vpn_lite.Net.{IpNet}
use mvp_vpn_lite.Policy.{new_packet_policy}
use mvp_vpn_lite.Stats.{no_counts}
use mvp_vpn_lite.Tls.{Crypto, TlsConfig, TlsError, client_tls_config}
use mvp_vpn_lite.Client.Path.{ClientPath}
use mvp_vpn_lite.Client.PathSet.{new_client_path_set}
use mvp_vpn_lite.Client.PathSet.Invariant.{IsValid}
use mvp_vpn_lite.Client.Backoff.{normalize_tun_reconnect_intervals}
use mvp_vpn_lite.Client.Backoff.Intervals.{normalize_pos}
use mvp_vpn_lite.Client.Dial.{Network, client_path_specs}
use mvp_vpn_lite.Client.Dial.Balance.{Counting, dial_available_balance}
use mvp_vpn_lite.Client.Dial.Closed.{opened, closed}
use mvp_vpn_lite.Base.Handles.{without, without_self, New}
use mvp_vpn_lite.Client.Dial.Paths.{dialed-IsValid}
use mvp_vpn_lite.Client.Validate.Total.{map_err-ne-panic}
use mvp_vpn_lite.Client.TunRun.{
  TunClientConfig, Tun, TunRunError, server_required, intervals_refused, policy_refused, CheckedTun,
  TunClient, TunStart, check_tun_config, after_tls, after_open_device, after_tun_check,
  start_tun_client,
}

-- The calls of package tun, with the devices that are open: opening gives a new one, closing closes that
-- one if it is open, so that a second time does nothing.
pub record Opening {D : Type 0} (tun : Tun D) (open_devices : D → List ℕ) : Type 0 where
  pub open_ok :
      (name : String) (d d' : D) (device : ℕ)
      → tun.open_device name d ≡ (ok device, d')
      → New device (open_devices d) × (open_devices d' ≡ device ∷ open_devices d)
  pub open_err :
      (name : String) (d d' : D) (e : IoError)
      → tun.open_device name d ≡ (err e, d')
      → open_devices d' ≡ open_devices d
  pub open-ne-panic : (name : String) (d : D) → (tun.open_device name d).0 ≢ panic
  pub close_one :
      (device : ℕ) (d : D)
      → open_devices (tun.close_device device d) ≡ without device (open_devices d)

-- A new device that has been opened and is closed.
pub close-New :
    {D : Type 0} (tun : Tun D) (open_devices : D → List ℕ) (opening : Opening tun open_devices)
    (device : ℕ) (n : List ℕ) (d : D)
    → New device n
    → open_devices d ≡ device ∷ n
    → open_devices (tun.close_device device d) ≡ n
close-New tun open_devices opening device n d new e =
    opening.close_one device d ∙ ap (without device) e ∙ without_self device n ∙ new

-- The reconnect delays are positive, and the first is at most the second.
abbrev pub Ordered : CheckedTun → Type 0
Ordered checked =
    (lo : ℕ) × (hi : ℕ) × (checked.min_delay ≡ pos lo)
    × (checked.max_delay ≡ pos hi)
    × (1 ≤ lo)
    × (lo ≤ hi)

normalize-ne-panic :
    (min_delay max_delay : ℤ) → normalize_tun_reconnect_intervals min_delay max_delay ≢ panic
unfolding normalize_tun_reconnect_intervals
normalize-ne-panic min_delay max_delay e = ground arith

pub policy-ne-panic :
    (parse_cidr : String → Option IpNet) (cidr : String) → new_packet_policy parse_cidr cidr ≢ panic
unfolding new_packet_policy
policy-ne-panic parse_cidr cidr e = ground arith

check-ne-panic :
    (parse_cidr : String → Option IpNet) (cfg : TunClientConfig)
    → check_tun_config parse_cidr cfg ≢ panic
unfolding check_tun_config
check-ne-panic parse_cidr cfg =
    bind-ne-panic _ _
      (fail_if-ne-panic (str_eq cfg.server0 "" && str_eq cfg.server1 "") server_required)
      λ _.
        bind-ne-panic _ _
          (map_err-ne-panic intervals_refused
            (normalize_tun_reconnect_intervals cfg.reconnect_min_interval
              cfg.reconnect_max_interval)
            (normalize-ne-panic cfg.reconnect_min_interval cfg.reconnect_max_interval))
          λ intervals.
            bind-ne-panic _ _
              (map_err-ne-panic policy_refused (new_packet_policy parse_cidr cfg.tun_allowed_cidr)
                (policy-ne-panic parse_cidr cfg.tun_allowed_cidr))
              λ policy e. cc

pub map_err-eq-ok :
    {E F A : Type 0} (f : E → F) (r : Result E A) (a : A) → map_err f r ≡ ok a → r ≡ ok a
map_err-eq-ok f (ok b) a e = cc
map_err-eq-ok f (err x) a e = absurd (cc e)
map_err-eq-ok f panic a e = absurd (cc e)

check-Ordered :
    (parse_cidr : String → Option IpNet) (cfg : TunClientConfig) (checked : CheckedTun)
    → check_tun_config parse_cidr cfg ≡ ok checked
    → Ordered checked
unfolding check_tun_config
check-Ordered parse_cidr cfg checked e =
    let (_, _, e1) =
      bind-eq-ok (fail_if (str_eq cfg.server0 "" && str_eq cfg.server1 "") server_required) _
        checked e in
    let ((a, b), normalized, e2) =
      bind-eq-ok
        (map_err intervals_refused
          (normalize_tun_reconnect_intervals cfg.reconnect_min_interval cfg.reconnect_max_interval))
        _ checked e1 in
    let (policy, _, e3) =
      bind-eq-ok (map_err policy_refused (new_packet_policy parse_cidr cfg.tun_allowed_cidr)) _
        checked e2 in
    let (lo, hi, is_lo, is_hi, one, le) =
      normalize_pos cfg.reconnect_min_interval cfg.reconnect_max_interval a b
        (map_err-eq-ok intervals_refused _ (a, b) normalized) in
    (lo, hi, ground arith, ground arith, one, le)

module _ {D W : Type 0} (tun : Tun D) (net : TlsConfig → Network W) (open_devices : D → List ℕ)
    (open_conns : W → List ℕ) where
  -- A client that has started holds a new device and a new connection for each path, besides those
  -- that were open, and its set of paths is valid.
  pub record Holding (n m : List ℕ) (d : D) (w : W) (client : TunClient) : Type 0 where
    pub valid : IsValid client.path_set
    pub connected : All (λ (p : ClientPath). p.conn ≢ 0) client.path_set.paths
    pub delays : Ordered client.checked
    pub new_device : New client.device n
    pub devices : open_devices d ≡ client.device ∷ n
    pub connections : open_conns w ≡ opened client.path_set.paths m
    pub apart : closed client.path_set.paths (open_conns w) ≡ m

  -- Either it holds these, or it has failed and holds nothing.
  unfoldable pub StartedFrom : List ℕ → List ℕ → D → W → Result TunRunError TunClient → Type 0
  StartedFrom n m d w (ok client) = Holding n m d w client
  StartedFrom n m d w (err e) = (open_devices d ≡ n) × (open_conns w ≡ m)
  StartedFrom n m d w panic = ⊥

  abbrev pub Started : List ℕ → List ℕ → TunStart D W → Type 0
  Started n m start = StartedFrom n m start.devices start.network start.result

  module _ (ctx_done : W → Bool) (opening : Opening tun open_devices)
      (laws : (tls_config : TlsConfig) → Counting (net tls_config) open_conns) where
    tls-Started :
        (cfg : TunClientConfig) (checked : CheckedTun) (device : ℕ) (n : List ℕ) (d : D) (w : W)
        (result : Result TlsError TlsConfig)
        → Ordered checked
        → New device n
        → open_devices d ≡ device ∷ n
        → result ≢ panic
        → Started n (open_conns w) (after_tls tun net ctx_done cfg checked device d w result)
    unfolding after_tls StartedFrom new_client_path_set
    tls-Started cfg checked device n d w (ok tls_config) ordered new now ne =
        let held =
          dial_available_balance (net tls_config) open_conns (laws tls_config) ctx_done
            (client_path_specs cfg.server0 cfg.server1) w no_counts in
        record {
          valid = dialed-IsValid (net tls_config) ctx_done cfg.server0 cfg.server1 w no_counts;
          connected = held.connected;
          delays = ordered;
          new_device = new;
          devices = now;
          connections = held.connections;
          apart = held.apart;
        }
    tls-Started cfg checked device n d w (err e) ordered new now ne =
        (close-New tun open_devices opening device n d new now, refl)
    tls-Started cfg checked device n d w panic ordered new now ne = absurd (ne refl)

    open-Started :
        (crypto : Crypto) (cfg : TunClientConfig) (checked : CheckedTun) (d : D) (w : W)
        (result : Result IoError ℕ × D)
        → Ordered checked
        → tun.open_device cfg.device_name d ≡ result
        → client_tls_config crypto cfg.ca_file cfg.server_name cfg.client_cert_file
            cfg.client_key_file
          ≢ panic
        → Started
            (open_devices d)
            (open_conns w)
            (after_open_device tun net ctx_done crypto cfg checked w result)
    unfolding after_open_device StartedFrom
    open-Started crypto cfg checked d w (ok device, d') ordered e quiet =
        let (new, now) = opening.open_ok cfg.device_name d d' device e in
        tls-Started cfg checked device (open_devices d) d' w
          (client_tls_config crypto cfg.ca_file cfg.server_name cfg.client_cert_file
            cfg.client_key_file)
          ordered new now quiet
    open-Started crypto cfg checked d w (err x, d') ordered e quiet =
        (opening.open_err cfg.device_name d d' x e, refl)
    open-Started crypto cfg checked d w (panic, d') ordered e quiet =
        absurd (opening.open-ne-panic cfg.device_name d (cc e))

    checked-Started :
        (crypto : Crypto) (cfg : TunClientConfig) (d : D) (w : W)
        (result : Result TunRunError CheckedTun)
        → result ≢ panic
        → ((checked : CheckedTun) → result ≡ ok checked → Ordered checked)
        → client_tls_config crypto cfg.ca_file cfg.server_name cfg.client_cert_file
            cfg.client_key_file
          ≢ panic
        → Started
            (open_devices d)
            (open_conns w)
            (after_tun_check tun net ctx_done crypto cfg d w result)
    unfolding after_tun_check StartedFrom
    checked-Started crypto cfg d w (ok checked) ne ordered quiet =
        open-Started crypto cfg checked d w (tun.open_device cfg.device_name d)
          (ordered checked refl) refl quiet
    checked-Started crypto cfg d w (err e) ne ordered quiet = (refl, refl)
    checked-Started crypto cfg d w panic ne ordered quiet = absurd (ne refl)

    -- `RunTUNClient` does not panic before its pump starts. Where it fails, the device is closed again
    -- and no connection is open that was not; where it starts, it holds, besides what was open, a new
    -- device and a new connection for each path and nothing else, the ids of its paths differ, and its
    -- reconnect delays are positive and in order. The calls of the TUN, QUIC and TLS packages do not
    -- panic; what they open is new, and closing closes the one handle.
    pub start-Started :
        (parse_cidr : String → Option IpNet) (crypto : Crypto) (cfg : TunClientConfig) (d : D)
        (w : W)
        → client_tls_config crypto cfg.ca_file cfg.server_name cfg.client_cert_file
            cfg.client_key_file
          ≢ panic
        → Started
            (open_devices d)
            (open_conns w)
            (start_tun_client tun net ctx_done parse_cidr crypto cfg d w)
    unfolding start_tun_client
    start-Started parse_cidr crypto cfg d w quiet =
        checked-Started crypto cfg d w (check_tun_config parse_cidr cfg)
          (check-ne-panic parse_cidr cfg) (check-Ordered parse_cidr cfg) quiet
