-- ===== src/Client/TunRun/End/Closes.antt =====
-- RunTUNClient goes on until its context is done or a goroutine fails, and then holds nothing.
use Prim.Native.String.{String}
use mathlib.Core.Path.{subst}
use mvp_vpn_lite.Base.{ℕ, ◌≡◌, ◌≢◌, refl, Bool, Option, List, [], ◌∷◌, ok, panic}
use mvp_vpn_lite.Net.{IpNet}
use mvp_vpn_lite.Tls.{Crypto, TlsConfig, client_tls_config}
use mvp_vpn_lite.Client.Path.{ClientPath}
use mvp_vpn_lite.Client.PathSet.{ClientPathSet}
use mvp_vpn_lite.Client.Demo.{ClientStreams}
use mvp_vpn_lite.Client.Dial.{Network}
use mvp_vpn_lite.Client.Dial.Balance.{Counting}
use mvp_vpn_lite.Client.Dial.Closed.{closed}
use mvp_vpn_lite.Client.Run.Safety.{Steady}
use mvp_vpn_lite.Client.TunRun.{TunClientConfig, Tun, TunClient, start_tun_client}
use mvp_vpn_lite.Client.TunRun.Start.{Opening, Holding, StartedFrom, start-Started}
use mvp_vpn_lite.Client.TunRun.Lifetime.{Steps, Steps-Held, tun_client_closes_all}
use mvp_vpn_lite.Client.TunRun.End.{
  PumpSignal, ctx_done, received, PumpError, canceled, failed, PumpEnd, pumping, ended,
  end_tun_client,
}

-- The error that a signal ends the client with.
abbrev pub EndsIn : PumpSignal → PumpError → Type 0
EndsIn ctx_done e = e ≡ canceled
EndsIn (received x) e = e ≡ failed x

-- From the open devices n and connections m. Without a signal the client's device is open too, and
-- besides the connections of its paths those m; with one it has ended, and these are open alone.
abbrev pub Ends :
    {D W : Type 0}
    → (D → List ℕ)
    → (W → List ℕ)
    → List ℕ
    → List ℕ
    → ℕ
    → List ClientPath
    → List PumpSignal
    → PumpEnd D W
    → Type 0
Ends open_devices open_conns n m device paths [] (pumping d w) =
    (open_devices d ≡ device ∷ n) × (closed paths (open_conns w) ≡ m)
Ends open_devices open_conns n m device paths (signal ∷ signals) (ended e (d, w)) =
    (open_devices d ≡ n) × (open_conns w ≡ m) × EndsIn signal e
Ends open_devices open_conns n m device paths [] (ended e x) = ⊥
Ends open_devices open_conns n m device paths (signal ∷ signals) (pumping d w) = ⊥

module _ {D W : Type 0} (tun : Tun D) (net : TlsConfig → Network W) (io : ClientStreams W)
    (ctx_done_of : W → Bool) (open_devices : D → List ℕ) (open_conns : W → List ℕ)
    (opening : Opening tun open_devices)
    (laws : (tls_config : TlsConfig) → Counting (net tls_config) open_conns)
    (steady : Steady io open_conns) where
  still_held :
      (n m : List ℕ) (d : D) (w w' : W) (client : TunClient) (set : ClientPathSet)
      → Holding tun net open_devices open_conns n m d w client
      → Steps (net client.tls_config) io (client.path_set, w) (set, w')
      → (open_devices d ≡ client.device ∷ n) × (closed set.paths (open_conns w') ≡ m)
  still_held n m d w w' client set holding steps = (
    holding.devices,
    (Steps-Held (net client.tls_config) io open_conns (laws client.tls_config) steady m
        (client.path_set, w) (set, w') steps
        (record { connected = holding.connected; apart = holding.apart })).apart,
  )

  -- `RunTUNClient`, once started, goes on until its context is done or a goroutine sends an error,
  -- whatever sequence of steps its goroutines take: turns of the loops that reconnect a path, with
  -- dials that fail or give one, sendings of a packet, over the paths that are left, reads and ends of
  -- the receiving loops. Until then its device is open, and besides connections of the paths in the
  -- set exactly those from before the start: none of a path that was replaced or removed. The first
  -- signal ends it with the error of the context or the one sent, the device is closed, twice, and
  -- exactly the devices and connections from before the start are open. The closing comes after the
  -- last step. The calls of the TUN and QUIC packages do not panic, and reads and writes of a stream
  -- open and close no connection; a device or connection that is opened is new, and closing one takes
  -- out that one.
  pub run_tun_client-Ends :
      (parse_cidr : String → Option IpNet) (crypto : Crypto) (cfg : TunClientConfig) (d : D)
      (w w' : W) (client : TunClient) (set : ClientPathSet) (signals : List PumpSignal)
      → client_tls_config crypto cfg.ca_file cfg.server_name cfg.client_cert_file
          cfg.client_key_file
        ≢ panic
      → (start_tun_client tun net ctx_done_of parse_cidr crypto cfg d w).result ≡ ok client
      → let start = start_tun_client tun net ctx_done_of parse_cidr crypto cfg d w in
        Steps (net client.tls_config) io (client.path_set, start.network) (set, w')
        → let start = start_tun_client tun net ctx_done_of parse_cidr crypto cfg d w in
          Ends open_devices open_conns
            (open_devices d)
            (open_conns w)
            client.device
            set.paths
            signals
            (end_tun_client tun net ctx_done_of client signals set start.devices w')
  unfolding end_tun_client StartedFrom
  run_tun_client-Ends parse_cidr crypto cfg d w w' client set [] quiet started steps =
      let start = start_tun_client tun net ctx_done_of parse_cidr crypto cfg d w in
      still_held (open_devices d) (open_conns w) start.devices start.network w' client set
        (subst
          (StartedFrom tun net open_devices open_conns (open_devices d) (open_conns w) start.devices
            start.network)
          started
          (start-Started tun net open_devices open_conns ctx_done_of opening laws parse_cidr crypto
            cfg d w quiet))
        steps
  run_tun_client-Ends parse_cidr crypto cfg d w w' client set (ctx_done ∷ signals) quiet started
        steps =
      let (devices, conns) =
        tun_client_closes_all tun net io ctx_done_of open_devices open_conns opening laws steady
          parse_cidr crypto cfg d w w' client set quiet started steps in
      (devices, conns, refl)
  run_tun_client-Ends parse_cidr crypto cfg d w w' client set (received e ∷ signals) quiet started
        steps =
      let (devices, conns) =
        tun_client_closes_all tun net io ctx_done_of open_devices open_conns opening laws steady
          parse_cidr crypto cfg d w w' client set quiet started steps in
      (devices, conns, refl)
