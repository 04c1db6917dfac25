-- ===== src/Server/Demo/Answers.antt =====
-- What handleQUICStream answers on a stream of whole frames that then ends.
use mathlib.Core.List.{append_assoc, append-nil}
use mvp_vpn_lite.Base.{
  ℕ, zero, suc, ◌<◌, ◌≡◌, refl, ◌∙◌, arith, List, [], ◌∷◌, ◌++◌, Result, ok, err, panic, length,
  All,
}
use mvp_vpn_lite.Base.Int.{pos}
use mvp_vpn_lite.Net.{Ip}
use mvp_vpn_lite.Io.{eof}
use mvp_vpn_lite.Packet.Errors.{PacketError}
use mvp_vpn_lite.Packet.Echo.{build_icmp_echo_reply}
use mvp_vpn_lite.Packet.Echo.Total.{build_reply-ne-panic, length-build_reply}
use mvp_vpn_lite.Framing.{read_frame}
use mvp_vpn_lite.Framing.RoundTrip.{frame, Fits, buffer_write, write_frame-buffer, read_frame-frame}
use mvp_vpn_lite.Stats.{Counters, add_rx}
use mvp_vpn_lite.Stats.Flow.{Call, rx, tx, drop, calls, call, calls-append}
use mvp_vpn_lite.Device.{is_graceful_stream_end}
use mvp_vpn_lite.Loop.{Run, returned}
use mvp_vpn_lite.Server.Demo.{StreamState, after_build, after_write, after_read, handle_quic_stream}

-- The packets, a frame each.
abbrev pub frames : List (List ℕ) → List ℕ
frames [] = []
frames (p ∷ ps) = frame p ++ frames ps

-- The frame that answers a packet, if one does.
abbrev pub answer : Result PacketError (List ℕ) → List ℕ
answer (ok reply) = frame reply
answer _ = []

abbrev pub answer_calls : List ℕ → Result PacketError (List ℕ) → List Call
answer_calls packet (ok reply) = rx (pos (length packet)) ∷ tx (pos (length reply)) ∷ []
answer_calls packet _ = rx (pos (length packet)) ∷ drop ∷ []

abbrev pub answers : Ip → Ip → List (List ℕ) → List ℕ
answers virtual_ip client_ip [] = []
answers virtual_ip client_ip (p ∷ ps) =
    answer (build_icmp_echo_reply p virtual_ip client_ip) ++ answers virtual_ip client_ip ps

abbrev pub all_calls : Ip → Ip → List (List ℕ) → List Call
all_calls virtual_ip client_ip [] = []
all_calls virtual_ip client_ip (p ∷ ps) =
    answer_calls p (build_icmp_echo_reply p virtual_ip client_ip)
    ++ all_calls virtual_ip client_ip ps

-- The stream with some bytes to come, before its end.
abbrev pub at_stream : List ℕ → List ℕ → Counters → StreamState (List ℕ)
at_stream pending written c = record {
  reader = record { pending = pending; end = eof };
  writer = written;
  counters = c;
}

turn_at :
    (virtual_ip client_ip : Ip) (again : StreamState (List ℕ) → Run (StreamState (List ℕ)))
    (packet rest written : List ℕ) (c : Counters) (built : Result PacketError (List ℕ))
    → build_icmp_echo_reply packet virtual_ip client_ip ≡ built
    → after_build buffer_write virtual_ip client_ip again
        (at_stream rest written (add_rx c (pos (length packet))))
        built
      ≡ again (at_stream rest (written ++ answer built) (calls c (answer_calls packet built)))
unfolding after_build after_write calls call
turn_at virtual_ip client_ip again packet rest written c (ok reply) e =
    let (least, most) = length-build_reply packet reply virtual_ip client_ip e in
    rw (write_frame-buffer written reply (omega arith)) refl
turn_at virtual_ip client_ip again packet rest written c (err e) _ = rw (append-nil written) refl
turn_at virtual_ip client_ip again packet rest written c panic e =
    absurd (build_reply-ne-panic packet virtual_ip client_ip e)

turn :
    (virtual_ip client_ip : Ip) (fuel : ℕ) (packet rest written : List ℕ) (c : Counters)
    → Fits packet
    → let built = build_icmp_echo_reply packet virtual_ip client_ip in
      handle_quic_stream buffer_write virtual_ip client_ip
        (suc fuel)
        (at_stream (frame packet ++ rest) written c)
      ≡ handle_quic_stream buffer_write virtual_ip client_ip fuel
          (at_stream rest (written ++ answer built) (calls c (answer_calls packet built)))
unfolding handle_quic_stream after_read
turn virtual_ip client_ip fuel packet rest written c fits =
    rw (read_frame-frame packet rest eof fits) (
      turn_at virtual_ip client_ip (handle_quic_stream buffer_write virtual_ip client_ip fuel)
        packet rest written c (build_icmp_echo_reply packet virtual_ip client_ip) refl)

-- On a stream of whole frames that then ends, and a writer that does not fail, `handleQUICStream`
-- returns having written a frame for each packet that `BuildICMPEchoReply` answers, in their order,
-- and having counted every packet received, every reply sent and every other packet dropped, and no error.
pub handle_answers :
    (virtual_ip client_ip : Ip) (fuel : ℕ) (packets : List (List ℕ)) (written : List ℕ)
    (c : Counters)
    → All Fits packets
    → length packets < fuel
    → handle_quic_stream buffer_write virtual_ip client_ip fuel
        (at_stream (frames packets) written c)
      ≡ returned (
          at_stream []
            (written ++ answers virtual_ip client_ip packets)
            (calls c (all_calls virtual_ip client_ip packets)))
unfolding handle_quic_stream after_read read_frame is_graceful_stream_end calls
handle_answers virtual_ip client_ip zero packets written c fit lt = absurd (omega arith)
handle_answers virtual_ip client_ip (suc fuel) [] written c fit lt = rw (append-nil written) refl
handle_answers virtual_ip client_ip (suc fuel) (p ∷ ps) written c (fits, fit) lt =
    let built = build_icmp_echo_reply p virtual_ip client_ip in
    turn virtual_ip client_ip fuel p (frames ps) written c fits
    ∙ handle_answers virtual_ip client_ip fuel ps (written ++ answer built)
        (calls c (answer_calls p built)) fit (omega arith)
    ∙ rw
        (
          append_assoc written (answer built) (answers virtual_ip client_ip ps),
          calls-append c (answer_calls p built) (all_calls virtual_ip client_ip ps),
        )
        refl
