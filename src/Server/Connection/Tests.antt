-- ===== src/Server/Connection/Tests.antt =====
-- The receiving loop at concrete streams.
use mvp_vpn_lite.Base.{ℕ, ◌≡◌, arith, false, some, List, [], ◌∷◌, ◌++◌}
use mvp_vpn_lite.Policy.{PacketPolicy}
use mvp_vpn_lite.Stats.{no_counts}
use mvp_vpn_lite.Stats.Flow.{calls}
use mvp_vpn_lite.Loop.{returned}
use mvp_vpn_lite.Server.Demo.Answers.{frames}
use mvp_vpn_lite.Server.Connection.{receive_frames}
use mvp_vpn_lite.Server.Connection.Delivers.{
  keep_write, allowed_packets, receive_calls, at_stream, receive_delivers,
}

abbrev local_only : PacketPolicy
local_only = record {
  allowed_cidr = some (record { ip = 10 ∷ 8 ∷ 0 ∷ 0 ∷ []; mask = 255 ∷ 255 ∷ 255 ∷ 0 ∷ [] });
}

-- A packet between two addresses of the network, and bytes that are no packet.
abbrev packets : List (List ℕ)
packets =
    (0x45 ∷ 0 ∷ 0 ∷ 20 ∷ 0 ∷ 0 ∷ 0 ∷ 0 ∷ 64 ∷ 17 ∷ 0 ∷ 0 ∷ 10 ∷ 8 ∷ 0 ∷ 2 ∷ 10 ∷ 8 ∷ 0 ∷ 1 ∷ [])
    ∷ (1 ∷ 2 ∷ [])
    ∷ []

denied_left_out :
    receive_frames keep_write local_only false 3 (at_stream (frames packets) [] no_counts)
    ≡ returned (
        at_stream []
          ([] ++ allowed_packets local_only packets)
          (calls no_counts (receive_calls local_only packets)))
denied_left_out =
    receive_delivers local_only false 3 packets [] no_counts (omega arith, (omega arith, tt))
      (omega arith)
