-- ===== src/Client/TunRun/Lifetime.antt =====
-- The connections of a TUN client from its start to its end, whatever its goroutines do in between.
use mvp_vpn_lite.Base.{ℕ, ◌≡◌, ◌≢◌, ◌∙◌, ap, Bool, Option, List, ok, panic}
use mvp_vpn_lite.Base.Handles.{without}
use mvp_vpn_lite.Base.Int.{ℤ}
use mathlib.Core.Path.{subst}
use Prim.Native.String.{String}
use mvp_vpn_lite.Io.{Reader}
use mvp_vpn_lite.Loop.{returned, waiting, stopped}
use mvp_vpn_lite.Net.{IpNet}
use mvp_vpn_lite.Tls.{Crypto, TlsConfig, client_tls_config}
use mvp_vpn_lite.Client.Path.{ClientPath}
use mvp_vpn_lite.Client.PathSet.{ClientPathSet, snapshot}
use mvp_vpn_lite.Client.Demo.{ClientStreams}
use mvp_vpn_lite.Client.Dial.{Network, ClientPathSpec, close_client_path, close_client_paths}
use mvp_vpn_lite.Client.Dial.Balance.{Counting, close_paths_balance}
use mvp_vpn_lite.Client.Dial.Closed.{closed}
use mvp_vpn_lite.Client.Receive.{stop_receiving}
use mvp_vpn_lite.Client.Reconnect.{Turn, ReconnectState, reconnect_turn}
use mvp_vpn_lite.Client.Run.Safety.{Steady}
use mvp_vpn_lite.Client.Send.{ClientShared, send_packet}
use mvp_vpn_lite.Client.TunRun.{TunClientConfig, Tun, TunClient, start_tun_client, stop_tun_client}
use mvp_vpn_lite.Client.TunRun.Start.{Opening, Holding, StartedFrom, start-Started, close-New}
use mvp_vpn_lite.Client.TunRun.Changes.{Held}
use mvp_vpn_lite.Client.TunRun.Goroutines.{
  Turned, turn-Turned, Sent, packet-Sent, stop_receiving-Held,
}

module _ {W : Type 0} (net : Network W) (io : ClientStreams W) where
  -- One step of a goroutine, on the set of the paths and the network: a turn of the loop that reconnects
  -- a path, after which it waits for its next turn or has returned; the sending of a packet; a read of
  -- a receiving loop, and its end.
  pub data Step : ClientPathSet × W → ClientPathSet × W → Type 0 where
    turns :
        (spec : ClientPathSpec) (min_delay : ℤ) (t : Turn) (st st' : ReconnectState W)
        → reconnect_turn net spec min_delay waiting t st ≡ waiting st'
        → Step (st.path_set, st.network) (st'.path_set, st'.network)
    returns :
        (spec : ClientPathSpec) (min_delay : ℤ) (t : Turn) (st st' : ReconnectState W)
        → reconnect_turn net spec min_delay waiting t st ≡ stopped st'
        → Step (st.path_set, st.network) (st'.path_set, st'.network)
    sends :
        (clock : ℕ → ℕ) (fuel : ℕ) (packet : List ℕ) (s s' : ClientShared W)
        → send_packet io.write (close_client_path net) clock fuel packet s ≡ returned s'
        → Step (s.path_set, s.streams) (s'.path_set, s'.streams)
    reads :
        (stream : ℕ) (r : Reader) (set : ClientPathSet) (w : W)
        → Step (set, w) (set, io.after_read stream w r)
    receiver_ends :
        (path : ClientPath) (set : ClientPathSet) (w : W)
        → Step (set, w) (stop_receiving (close_client_path net) path set w)

  pub data Steps : ClientPathSet × W → ClientPathSet × W → Type 0 where
    done : (x : ClientPathSet × W) → Steps x x
    more : (x y z : ClientPathSet × W) → Step x y → Steps y z → Steps x z

  module _ (open_conns : W → List ℕ) (laws : Counting net open_conns)
      (steady : Steady io open_conns) (base : List ℕ) where
    Step-Held :
        (x y : ClientPathSet × W)
        → Step x y
        → Held net open_conns laws base x.0 x.1
        → Held net open_conns laws base y.0 y.1
    Step-Held _ _ (Step.turns spec min_delay t st st' e) h =
        subst (Turned net io open_conns laws steady base) e
          (turn-Turned net io open_conns laws steady base spec min_delay t st h)
    Step-Held _ _ (Step.returns spec min_delay t st st' e) h =
        subst (Turned net io open_conns laws steady base) e
          (turn-Turned net io open_conns laws steady base spec min_delay t st h)
    Step-Held _ _ (Step.sends clock fuel packet s s' e) h =
        subst (Sent net io open_conns laws steady base) e
          (packet-Sent net io open_conns laws steady base clock fuel packet s h)
    Step-Held _ _ (Step.reads stream r set w) h = record {
      connected = h.connected;
      apart = ap (closed set.paths) (steady.read_keeps stream w r) ∙ h.apart;
    }
    Step-Held _ _ (Step.receiver_ends path set w) h =
        stop_receiving-Held net io open_conns laws steady base path set w h

    pub Steps-Held :
        (x y : ClientPathSet × W)
        → Steps x y
        → Held net open_conns laws base x.0 x.1
        → Held net open_conns laws base y.0 y.1
    Steps-Held _ _ (Steps.done x) h = h
    Steps-Held _ _ (Steps.more x y z first rest) h = Steps-Held y z rest (Step-Held x y first h)

    pub all_closed :
        (s t : ClientPathSet) (w w' : W)
        → Steps (s, w) (t, w')
        → Held net open_conns laws base s w
        → open_conns (close_client_paths net (snapshot t) w') ≡ base
    unfolding snapshot
    all_closed s t w w' steps h =
        let held = Steps-Held (s, w) (t, w') steps h in
        close_paths_balance net open_conns laws t.paths w' held.connected ∙ held.apart

module _ {D W : Type 0} (tun : Tun D) (net : TlsConfig → Network W) (io : ClientStreams W)
    (ctx_done : W → Bool) (open_devices : D → List ℕ) (open_conns : W → List ℕ)
    (opening : Opening tun open_devices)
    (laws : (tls_config : TlsConfig) → Counting (net tls_config) open_conns)
    (steady : Steady io open_conns) where
  stopped_all :
      (n m : List ℕ) (d : D) (w w' : W) (client : TunClient) (set : ClientPathSet)
      → Holding tun net open_devices open_conns n m d w client
      → Steps (net client.tls_config) io (client.path_set, w) (set, w')
      → let (d', w'') = stop_tun_client tun net ctx_done client set d w' in
        (open_devices d' ≡ n) × (open_conns w'' ≡ m)
  unfolding stop_tun_client
  stopped_all n m d w w' client set holding steps = (
    opening.close_one client.device (tun.close_device client.device d)
        ∙ ap (without client.device) (
            close-New tun open_devices opening client.device n d holding.new_device holding.devices)
        ∙ holding.new_device,
    all_closed (net client.tls_config) io open_conns (laws client.tls_config) steady m
        client.path_set set w w' steps
        (record { connected = holding.connected; apart = holding.apart }),
  )

  -- A TUN client that has started and ends has closed its device and every connection, those of its
  -- first dials and of later ones, whatever sequence of steps its goroutines have taken in between.
  pub tun_client_closes_all :
      (parse_cidr : String → Option IpNet) (crypto : Crypto) (cfg : TunClientConfig) (d : D)
      (w w' : W) (client : TunClient) (set : ClientPathSet)
      → client_tls_config crypto cfg.ca_file cfg.server_name cfg.client_cert_file
          cfg.client_key_file
        ≢ panic
      → (start_tun_client tun net ctx_done parse_cidr crypto cfg d w).result ≡ ok client
      → let start = start_tun_client tun net ctx_done parse_cidr crypto cfg d w in
        Steps (net client.tls_config) io (client.path_set, start.network) (set, w')
        → let start = start_tun_client tun net ctx_done parse_cidr crypto cfg d w in
          let (d', w'') = stop_tun_client tun net ctx_done client set start.devices w' in
          (open_devices d' ≡ open_devices d) × (open_conns w'' ≡ open_conns w)
  unfolding StartedFrom
  tun_client_closes_all parse_cidr crypto cfg d w w' client set quiet started steps =
      let start = start_tun_client tun net ctx_done parse_cidr crypto cfg d w in
      stopped_all (open_devices d) (open_conns w) start.devices start.network w' client set
        (subst
          (StartedFrom tun net open_devices open_conns (open_devices d) (open_conns w) start.devices
            start.network)
          started
          (start-Started tun net open_devices open_conns ctx_done opening laws parse_cidr crypto cfg
            d w quiet))
        steps
