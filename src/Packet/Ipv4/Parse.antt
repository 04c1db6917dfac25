-- ===== src/Packet/Ipv4/Parse.antt =====
-- What ParseIPv4Packet accepts and returns, on every input.
use mvp_vpn_lite.Base.{
  ℕ, ◌+◌, ◌-◌, ◌*◌, ◌/◌, ◌%◌, ◌≤◌, ◌<◌, ◌≡◌, ◌≢◌, ◌↔◌, arith, refl, List, [], ◌∷◌, length, take,
  drop, lt→ltb, ok, err, panic,
}
use native.Mathlib.Decide.{dec_lt}
use mvp_vpn_lite.Base.Bits.{bit_and_low4}
use mvp_vpn_lite.Packet.Errors.{packet_too_short}
use mvp_vpn_lite.Packet.Ipv4.{Ipv4Packet, parse_ipv4_packet}

-- The first twenty bytes and what follows them.
pub record Header : Type 0 where
  pub b0 : ℕ
  pub b1 : ℕ
  pub b2 : ℕ
  pub b3 : ℕ
  pub b4 : ℕ
  pub b5 : ℕ
  pub b6 : ℕ
  pub b7 : ℕ
  pub b8 : ℕ
  pub b9 : ℕ
  pub b10 : ℕ
  pub b11 : ℕ
  pub b12 : ℕ
  pub b13 : ℕ
  pub b14 : ℕ
  pub b15 : ℕ
  pub b16 : ℕ
  pub b17 : ℕ
  pub b18 : ℕ
  pub b19 : ℕ
  pub rest : List ℕ

abbrev pub header_bytes : Header → List ℕ
header_bytes h =
    b0 ∷ b1 ∷ b2 ∷ b3 ∷ b4 ∷ b5 ∷ b6 ∷ b7 ∷ b8 ∷ b9 ∷ b10 ∷ b11 ∷ b12 ∷ b13 ∷ b14 ∷ b15 ∷ b16 ∷ b17
    ∷ b18 ∷ b19 ∷ rest
  where
    open h use {
      b0, b1, b2, b3, b4, b5, b6, b7, b8, b9, b10, b11, b12, b13, b14, b15, b16, b17, b18, b19,
      rest,
    }

pub header_view : (bytes : List ℕ) → 20 ≤ length bytes → (h : Header) × (bytes ≡ header_bytes h)
header_view
      (b0 ∷ b1 ∷ b2 ∷ b3 ∷ b4 ∷ b5 ∷ b6 ∷ b7 ∷ b8 ∷ b9 ∷ b10 ∷ b11 ∷ b12 ∷ b13 ∷ b14 ∷ b15 ∷ b16
        ∷ b17 ∷ b18 ∷ b19 ∷ rest)
      le =
    (
      record {
        b0 = b0;
        b1 = b1;
        b2 = b2;
        b3 = b3;
        b4 = b4;
        b5 = b5;
        b6 = b6;
        b7 = b7;
        b8 = b8;
        b9 = b9;
        b10 = b10;
        b11 = b11;
        b12 = b12;
        b13 = b13;
        b14 = b14;
        b15 = b15;
        b16 = b16;
        b17 = b17;
        b18 = b18;
        b19 = b19;
        rest = rest;
      },
      refl,
    )
header_view _ le = absurd (omega arith)

-- The packet that a slice with such a header holds, with its fields at their offsets.
abbrev pub packet_of : Header → Ipv4Packet
packet_of h = record {
  version = h.b0 / 16;
  ihl = h.b0 % 16 * 4;
  total_length = h.b2 * 256 + h.b3;
  protocol = h.b9;
  source_ip = h.b12 ∷ h.b13 ∷ h.b14 ∷ h.b15 ∷ [];
  destination_ip = h.b16 ∷ h.b17 ∷ h.b18 ∷ h.b19 ∷ [];
  payload = take (h.b2 * 256 + h.b3 - h.b0 % 16 * 4) (drop (h.b0 % 16 * 4) (header_bytes h));
}

-- The conditions of the format.
pub record Accepts (h : Header) : Type 0 where
  pub version_is_4 : h.b0 / 16 ≡ 4
  pub header_min : 20 ≤ h.b0 % 16 * 4
  pub header_le_total : h.b0 % 16 * 4 ≤ h.b2 * 256 + h.b3
  pub total_le_length : h.b2 * 256 + h.b3 ≤ length (header_bytes h)
  pub protocol_is_icmp : h.b9 ≡ 1

pub accepts→parse : (h : Header) → Accepts h → parse_ipv4_packet (header_bytes h) ≡ ok (packet_of h)
unfolding parse_ipv4_packet
accepts→parse h a = ground (arith, bit_and_low4 h.b0)

parse→accepts :
    (h : Header) (p : Ipv4Packet)
    → parse_ipv4_packet (header_bytes h) ≡ ok p
    → Accepts h × (p ≡ packet_of h)
unfolding parse_ipv4_packet
parse→accepts h p e = ground (arith, bit_and_low4 h.b0)

pub parse_short :
    (bytes : List ℕ) → length bytes < 20 → parse_ipv4_packet bytes ≡ err packet_too_short
unfolding parse_ipv4_packet
parse_short bytes lt = rw (lt→ltb _ _ lt)

parse_header-ne-panic : (h : Header) → parse_ipv4_packet (header_bytes h) ≢ panic
unfolding parse_ipv4_packet
parse_header-ne-panic h e = ground (arith, bit_and_low4 h.b0)

-- `ParseIPv4Packet` succeeds on exactly the slices that start with an IPv4 header of version 4 whose
-- header length (20 at least), total length and slice length are in order and whose protocol is
-- ICMP; it then returns the fields at their offsets and the bytes from the header's end to the total
-- length.
pub parse_ipv4_iff :
    (bytes : List ℕ) (p : Ipv4Packet)
    → (parse_ipv4_packet bytes ≡ ok p)
      ↔ ((h : Header) × (bytes ≡ header_bytes h) × Accepts h × (p ≡ packet_of h))
parse_ipv4_iff bytes p = (forward, λ t. rw (t.1, t.3) (accepts→parse t.0 t.2))
  where
    forward :
        parse_ipv4_packet bytes ≡ ok p
        → (h : Header) × (bytes ≡ header_bytes h) × Accepts h × (p ≡ packet_of h)
    forward e = elim (dec_lt (length bytes) 20) [
      | yes lt ↦ absurd (cc (parse_short bytes lt))
      | no ge ↦
          let (h, view) = header_view bytes (omega arith) in
          let found = parse→accepts h p (rw view at e) in (h, view, found.0, found.1)
    ]

-- No index or slice expression of `ParseIPv4Packet` is out of range, whatever the input.
pub parse_ipv4-ne-panic : (bytes : List ℕ) → parse_ipv4_packet bytes ≢ panic
parse_ipv4-ne-panic bytes e = elim (dec_lt (length bytes) 20) [
  | yes lt ↦ absurd (cc (parse_short bytes lt))
  | no ge ↦
      let (h, view) = header_view bytes (omega arith) in parse_header-ne-panic h (rw view at e)
]
