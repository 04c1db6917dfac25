-- ===== src/Tunnel/Tests.antt =====
-- Three packets over two paths.
use mvp_vpn_lite.Base.{ℕ, ◌+◌, ◌≡◌, refl, arith, true, false, none, List, [], ◌∷◌, length, All}
use mvp_vpn_lite.Policy.{PacketPolicy}
use mvp_vpn_lite.Loop.{returned, waiting}
use mvp_vpn_lite.Stats.{no_counts}
use mvp_vpn_lite.Stats.Flow.{calls}
use mvp_vpn_lite.Device.Reads.{LoopState}
use mvp_vpn_lite.Server.Connection.{receive_frames}
use mvp_vpn_lite.Server.Connection.Delivers.{keep_write, allowed_packets, receive_calls, at_stream}
use mvp_vpn_lite.Client.Path.{ClientPath}
use mvp_vpn_lite.Client.Send.{ClientShared}
use mvp_vpn_lite.Client.Pump.{send_tun_packets}
use mvp_vpn_lite.Client.Receive.{receive_loop}
use mvp_vpn_lite.Client.Receive.Delivers.{at_path}
use mvp_vpn_lite.Server.Session.{ServerPath}
use mvp_vpn_lite.Server.Forward.{Shared, forward_device_packets}
use mvp_vpn_lite.Framing.RoundTrip.{Fits}
use mvp_vpn_lite.Tunnel.{
  Streams, streams_write, reads, client_stream, server_stream, routes, routed, new_client,
  new_server,
}
use mvp_vpn_lite.Tunnel.Delivers.{tunnel_delivers, tunnel_returns}

abbrev path0 : ClientPath
path0 = record { id = 0; address = "a:1"; conn = 20; stream = 10 }

abbrev path1 : ClientPath
path1 = record { id = 1; address = "b:1"; conn = 21; stream = 11 }

abbrev paths : List ClientPath
paths = path0 ∷ path1 ∷ []

abbrev open_policy : PacketPolicy
open_policy = record { allowed_cidr = none }

abbrev packets : List (List ℕ)
packets = (1 ∷ 2 ∷ []) ∷ (3 ∷ []) ∷ (4 ∷ 5 ∷ 6 ∷ []) ∷ []

packets-Fits : All Fits packets
packets-Fits = (
  record { not_empty = omega arith; not_large = omega arith },
  (
    record { not_empty = omega arith; not_large = omega arith },
    (record { not_empty = omega arith; not_large = omega arith }, tt),
  ),
)

-- The first and the third packet take the first path.
in_turn :
    routed 10 (routes (client_stream paths) (length paths) 0 packets)
    ≡ (1 ∷ 2 ∷ []) ∷ (4 ∷ 5 ∷ 6 ∷ []) ∷ []
unfolding routed routes
in_turn = refl

tunnel_delivers_example :
    let sent =
      routed 10
        (routes (client_stream paths) (length paths) 0 (allowed_packets open_policy packets)) in
    (end : LoopState (ClientShared Streams)) × (send_tun_packets streams_write
        (λ s w. w)
        (λ n. n)
        open_policy
        (reads packets)
        (new_client paths no_counts 0)
      ≡ waiting end)
    × (receive_frames keep_write open_policy false
          (length packets + 1)
          (at_stream (end.shared.streams 10) [] no_counts)
        ≡ returned (
            at_stream []
              (allowed_packets open_policy sent)
              (calls no_counts (receive_calls open_policy sent))))
tunnel_delivers_example =
    tunnel_delivers paths (λ s w. w) (λ n. n) open_policy open_policy packets no_counts no_counts 0
      10 false ((omega arith, tt), (tt, tt)) (omega arith) packets-Fits

abbrev server_paths : List ServerPath
server_paths = record { id = 0; stream = 10 } ∷ record { id = 1; stream = 11 } ∷ []

tunnel_returns_example :
    let sent = routed 11 (
      routes
        (server_stream server_paths)
        (length server_paths)
        0
        (allowed_packets open_policy packets)) in
    (end : LoopState (Shared Streams)) × (forward_device_packets streams_write open_policy
        (reads packets)
        (new_server server_paths no_counts)
      ≡ waiting end)
    × (receive_loop keep_write open_policy true
          (length packets + 1)
          (at_path (end.shared.streams 11) [] no_counts)
        ≡ returned (
            at_path []
              (allowed_packets open_policy sent)
              (calls no_counts (receive_calls open_policy sent))))
tunnel_returns_example =
    tunnel_returns server_paths open_policy open_policy packets no_counts no_counts 11 true
      (omega arith) packets-Fits
