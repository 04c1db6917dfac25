-- ===== src/DemoRun/Exchanges.antt =====
-- Every request of RunClient's loop is answered by the server's responder.
use mvp_vpn_lite.Base.{
  ℕ, zero, suc, ◌+◌, ◌%◌, ◌^◌, ◌≤◌, ◌<◌, ◌≡◌, refl, arith, some, ok, length, All, get_elem?_lt,
  IsByte,
}
use mvp_vpn_lite.Base.Int.{pos}
use mvp_vpn_lite.Net.{Ip, to4, length-to4, to4_of_length}
use mvp_vpn_lite.Packet.Echo.{build_icmp_echo_reply}
use mvp_vpn_lite.Packet.Echo.Total.{length-build_request, reply_same}
use mvp_vpn_lite.Framing.RoundTrip.{Fits}
use mvp_vpn_lite.Multipath.{next_path}
use mvp_vpn_lite.Multipath.Rotation
use mvp_vpn_lite.Stats.{Counters, add_rx, add_tx}
use mvp_vpn_lite.Stats.Flow
use mvp_vpn_lite.Client.Validate.Exchange.{EchoInput, echo_exchange}
use mvp_vpn_lite.Client.Demo.{EchoRequests, DemoState, exchange, exchanges}
use mvp_vpn_lite.DemoRun.Wire.{
  Wire, served, Idle, write_frame-served, read_frame-served, after_reply-Idle,
}

-- The counters after n requests and their replies.
pub record Exchanged (n : ℕ) (c d : Counters) : Type 0 where
  pub tx_packets : d.tx_packets ≡ (c.tx_packets + n) % 2 ^ 64
  pub rx_packets : d.rx_packets ≡ (c.rx_packets + n) % 2 ^ 64
  pub dropped : d.dropped_packets ≡ c.dropped_packets
  pub errors : d.errors ≡ c.errors

one-Exchanged : (c : Counters) (n m : ℕ) → Exchanged 1 c (add_rx (add_tx c (pos n)) (pos m))
unfolding add_rx add_tx
one-Exchanged c n m = omega arith

-- The server's addresses are the client's, in a form of 4 or of 16 bytes; the client's payload fits.
pub record IsServed (virtual_ip client_ip : Ip) (cfg : EchoRequests) : Type 0 where
  pub virtual_is_ipv4 : to4 virtual_ip ≡ some cfg.virtual_ipv4
  pub client_is_ipv4 : to4 client_ip ≡ some cfg.client_ipv4
  pub virtual_bytes : All IsByte cfg.virtual_ipv4
  pub client_bytes : All IsByte cfg.client_ipv4
  pub identifier_u16 : cfg.identifier < 65536
  pub payload_bytes : All IsByte cfg.payload
  pub payload_fits : length cfg.payload ≤ 65507

module _ (virtual_ip client_ip : Ip) (cfg : EchoRequests)
    (x : IsServed virtual_ip client_ip cfg) where
  -- Between two requests: the scheduler is at one of the paths, and every stream is answered.
  pub record Ready (s : DemoState (ℕ → Wire)) : Type 0 where
    pub scheduled : Rotation.IsValid s.scheduler
    pub all_paths : s.scheduler.path_count ≡ length cfg.paths
    pub idle : Idle virtual_ip client_ip s.streams

  inputs :
      (sequence : ℕ)
      → sequence < 65536
      → EchoInput cfg.virtual_ipv4 cfg.client_ipv4 cfg.virtual_ipv4 cfg.client_ipv4 cfg.identifier
          sequence cfg.payload
  inputs sequence lt = record {
    virtual_is_ipv4 =
        to4_of_length cfg.virtual_ipv4 (length-to4 virtual_ip cfg.virtual_ipv4 x.virtual_is_ipv4);
    client_is_ipv4 =
        to4_of_length cfg.client_ipv4 (length-to4 client_ip cfg.client_ipv4 x.client_is_ipv4);
    virtual_bytes = x.virtual_bytes;
    client_bytes = x.client_bytes;
    identifier_u16 = x.identifier_u16;
    sequence_u16 = lt;
    payload_bytes = x.payload_bytes;
    payload_fits = x.payload_fits;
  }

  exchange_answered :
      (i : ℕ) (s : DemoState (ℕ → Wire))
      → Ready s
      → Flow.IsValid s.counters
      → (end : DemoState (ℕ → Wire)) × (exchange (served virtual_ip client_ip) cfg i s
          ≡ (ok tt, end))
        × Ready end
        × Exchanged 1 s.counters end.counters
        × Flow.IsValid end.counters
  unfolding exchange next_path Flow.call
  exchange_answered i s r v =
      let sequence = (i + 1) % 2 ^ 16 in
      let (request, reply, built, replied, valid) =
        echo_exchange cfg.virtual_ipv4 cfg.client_ipv4 cfg.virtual_ipv4 cfg.client_ipv4
          cfg.identifier sequence cfg.payload (inputs sequence (omega arith)) in
      let fits : Fits request =
        length-build_request cfg.client_ipv4 cfg.virtual_ipv4 cfg.identifier sequence cfg.payload
          request built in
      let (p, at) = get_elem?_lt cfg.paths s.scheduler.next (omega arith) in
      let (packets, answered) = r.idle p.stream in
      let replied' : build_icmp_echo_reply request virtual_ip client_ip ≡ ok reply =
        reply_same request reply virtual_ip client_ip cfg.virtual_ipv4 cfg.client_ipv4
          x.virtual_is_ipv4 x.client_is_ipv4 replied in
      rw
        (
          at,
          built,
          write_frame-served virtual_ip client_ip s.streams p.stream request fits,
          read_frame-served virtual_ip client_ip s.streams p.stream request reply packets answered
              fits replied',
          valid,
        )
        (
          _,
          refl,
          record {
            scheduled = Rotation.next-IsValid s.scheduler r.scheduled;
            all_paths = r.all_paths;
            idle = after_reply-Idle virtual_ip client_ip s.streams p.stream request r.idle fits;
          },
          one-Exchanged s.counters (length request) (length reply),
          Flow.call-IsValid (add_tx s.counters (pos (length request)))
              (Flow.rx (pos (length reply)))
              (Flow.call-IsValid s.counters (Flow.tx (pos (length request))) v),
        )

  -- On streams that the server's responder serves, every request of the loop is sent, answered and its
  -- reply accepted: the loop ends with no error, and the counters have one packet sent and one received
  -- more for each request, with no drop and no error.
  pub exchanges_answered :
      (left i : ℕ) (s : DemoState (ℕ → Wire))
      → Ready s
      → Flow.IsValid s.counters
      → (end : DemoState (ℕ → Wire)) × (exchanges (served virtual_ip client_ip) cfg left i s
          ≡ (ok tt, end))
        × Ready end
        × Exchanged left s.counters end.counters
  unfolding exchanges
  exchanges_answered zero i s r v = (s, refl, r, omega arith)
  exchanges_answered (suc left) i s r v =
      let (mid, first, ready, one, valid) = exchange_answered i s r v in
      let (end, rest, last, more) = exchanges_answered left (i + 1) mid ready valid in
      rw (first, rest) (end, refl, last, omega arith)
