-- ===== src/Tunnel/Delivers.antt =====
-- Packets that one side reads from its device reach the device of the other.
use mvp_vpn_lite.Base.{ℕ, ◌+◌, ◌<◌, ◌≡◌, arith, Bool, List, [], All, length}
use mvp_vpn_lite.Framing.RoundTrip.{Fits}
use mvp_vpn_lite.Policy.{PacketPolicy}
use mvp_vpn_lite.Loop.{returned, waiting}
use mvp_vpn_lite.Stats.{Counters}
use mvp_vpn_lite.Stats.Flow.{calls}
use mvp_vpn_lite.Device.Reads.{LoopState}
use mvp_vpn_lite.Server.Connection.{receive_frames}
use mvp_vpn_lite.Server.Connection.Delivers.{
  keep_write, allowed_packets, receive_calls, at_stream, receive_delivers,
}
use mvp_vpn_lite.Server.Session.{ServerPath}
use mvp_vpn_lite.Server.Forward.{Shared, forward_pump, forward_device_packets}
use mvp_vpn_lite.Client.Path.{ClientPath}
use mvp_vpn_lite.Client.PathSet.Invariant.{Distinct}
use mvp_vpn_lite.Client.Send.{ClientShared}
use mvp_vpn_lite.Client.Pump.{send_pump, send_tun_packets}
use mvp_vpn_lite.Client.Receive.{receive_loop}
use mvp_vpn_lite.Client.Receive.Delivers.{at_path, receive_loop_delivers}
use mvp_vpn_lite.Tunnel.{
  Streams, streams_write, reads, client_stream, server_stream, routes, routed, new_client,
  new_server,
}
use mvp_vpn_lite.Tunnel.Routes.{
  loop-Sends, allowed-Fits, length-allowed_packets, routed-Fits, length-routed,
}
use mvp_vpn_lite.Tunnel.Sends
use mvp_vpn_lite.Tunnel.Forwards

-- What goes over one of so many streams in turn is whole packets, not more than there are.
routed_allowed :
    (policy : PacketPolicy) (stream_at : ℕ → ℕ) (count stream : ℕ) (packets : List (List ℕ))
    → All Fits packets
    → let sent = routed stream (routes stream_at count 0 (allowed_packets policy packets)) in
      All Fits sent × (length sent < length packets + 1)
routed_allowed policy stream_at count stream packets fit =
    let allowed = allowed_packets policy packets in
    (
      routed-Fits stream_at count stream 0 allowed (allowed-Fits policy packets fit),
      omega (
        arith,
        length-routed stream_at count stream 0 allowed,
        length-allowed_packets policy packets,
      ),
    )

-- From the client's device to the server's. On paths that take all bytes, at least one and with
-- different ids, a new client reads packets of 1 to 65535 bytes: it sends those that its policy allows,
-- on the paths in turn from the first on. From each stream the server's loop then gives its device
-- exactly the packets that were sent there and that its own policy allows, in their order; it counts
-- them as received and the others as dropped, and no error. One more turn than there are packets is
-- enough.
pub tunnel_delivers :
    (paths : List ClientPath) (close : ClientPath → Streams → Streams) (clock : ℕ → ℕ)
    (policy server_policy : PacketPolicy) (packets : List (List ℕ)) (c server_counts : Counters)
    (clock_reads stream : ℕ) (ctx_done : Bool)
    → Distinct paths
    → 0 < length paths
    → All Fits packets
    → let sent =
        routed stream
          (routes (client_stream paths) (length paths) 0 (allowed_packets policy packets)) in
      (end : LoopState (ClientShared Streams)) × (send_tun_packets streams_write close clock policy
          (reads packets)
          (new_client paths c clock_reads)
        ≡ waiting end)
      × (receive_frames keep_write server_policy ctx_done
            (length packets + 1)
            (at_stream (end.shared.streams stream) [] server_counts)
          ≡ returned (
              at_stream []
                (allowed_packets server_policy sent)
                (calls server_counts (receive_calls server_policy sent))))
tunnel_delivers paths close clock policy server_policy packets c server_counts clock_reads stream
      ctx_done distinct some_path fit =
    let sent =
      routed stream
        (routes (client_stream paths) (length paths) 0 (allowed_packets policy packets)) in
    let (end, j, waits, at_end) =
      loop-Sends (send_pump streams_write close clock) (client_stream paths) (length paths)
        (Sends.At paths distinct some_path) (Sends.send-InTurn paths distinct some_path close clock)
        policy 0 [] packets (new_client paths c clock_reads)
        (Sends.new_client-At paths distinct some_path c clock_reads) fit in
    let (whole, few) =
      routed_allowed policy (client_stream paths) (length paths) stream packets fit in
    (
      end,
      waits,
      rw (at_end.written stream) (
          receive_delivers server_policy ctx_done (length packets + 1) sent [] server_counts whole
            few),
    )

-- From the server's device to the client's. On the paths of a session, at least one, that take all
-- bytes, the server reads packets of 1 to 65535 bytes: it sends those that its policy allows, on the
-- paths in turn from the first on. From each stream the client's receiving loop then gives its device
-- exactly the packets that were sent there and that its own policy allows, in their order; it counts
-- them as received and the others as dropped, no error, and sends none. One more turn than there are
-- packets is enough.
pub tunnel_returns :
    (paths : List ServerPath) (policy client_policy : PacketPolicy) (packets : List (List ℕ))
    (c client_counts : Counters) (stream : ℕ) (ctx_done : Bool)
    → 0 < length paths
    → All Fits packets
    → let sent =
        routed stream
          (routes (server_stream paths) (length paths) 0 (allowed_packets policy packets)) in
      (end : LoopState (Shared Streams)) × (forward_device_packets streams_write policy
          (reads packets)
          (new_server paths c)
        ≡ waiting end)
      × (receive_loop keep_write client_policy ctx_done
            (length packets + 1)
            (at_path (end.shared.streams stream) [] client_counts)
          ≡ returned (
              at_path []
                (allowed_packets client_policy sent)
                (calls client_counts (receive_calls client_policy sent))))
tunnel_returns paths policy client_policy packets c client_counts stream ctx_done some_path fit =
    let sent =
      routed stream
        (routes (server_stream paths) (length paths) 0 (allowed_packets policy packets)) in
    let (end, j, waits, at_end) =
      loop-Sends (forward_pump streams_write) (server_stream paths) (length paths)
        (Forwards.At paths some_path) (Forwards.forward-InTurn paths some_path) policy 0 [] packets
        (new_server paths c) (Forwards.new_server-At paths some_path c) fit in
    let (whole, few) =
      routed_allowed policy (server_stream paths) (length paths) stream packets fit in
    (
      end,
      waits,
      rw (at_end.written stream) (
          receive_loop_delivers client_policy ctx_done (length packets + 1) sent [] client_counts
            whole few),
    )
