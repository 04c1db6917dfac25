-- ===== src/Server/Demo/Tests.antt =====
-- The responder at concrete streams.
use mvp_vpn_lite.Base.{ℕ, ◌≡◌, arith, List, [], ◌∷◌}
use mvp_vpn_lite.Net.{Ip}
use mvp_vpn_lite.Stats.{no_counts}
use mvp_vpn_lite.Stats.Flow.{calls}
use mvp_vpn_lite.Framing.RoundTrip.{buffer_write}
use mvp_vpn_lite.Loop.{returned}
use mvp_vpn_lite.Server.Demo.{handle_quic_stream}
use mvp_vpn_lite.Server.Demo.Answers.{frames, answers, all_calls, at_stream, handle_answers}

abbrev server : Ip
server = 10 ∷ 8 ∷ 0 ∷ 1 ∷ []

abbrev client : Ip
client = 10 ∷ 8 ∷ 0 ∷ 2 ∷ []

-- An echo request of the client, and a packet that is none.
abbrev request : List ℕ
request =
    0x45 ∷ 0 ∷ 0 ∷ 28 ∷ 0 ∷ 0 ∷ 0 ∷ 0 ∷ 64 ∷ 1 ∷ 0 ∷ 0 ∷ 10 ∷ 8 ∷ 0 ∷ 2 ∷ 10 ∷ 8 ∷ 0 ∷ 1 ∷ 8 ∷ 0 ∷ 0
    ∷ 0 ∷ 0 ∷ 7 ∷ 0 ∷ 1 ∷ []

abbrev packets : List (List ℕ)
packets = request ∷ (1 ∷ 2 ∷ []) ∷ []

handle_answers_example :
    handle_quic_stream buffer_write server client 3 (at_stream (frames packets) [] no_counts)
    ≡ returned (
        at_stream []
          (answers server client packets)
          (calls no_counts (all_calls server client packets)))
handle_answers_example =
    handle_answers server client 3 packets [] no_counts (omega arith, (omega arith, tt))
      (omega arith)
