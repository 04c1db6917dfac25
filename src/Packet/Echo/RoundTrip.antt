-- ===== src/Packet/Echo/RoundTrip.antt =====
-- The parsers on what the builders write.
use mvp_vpn_lite.Base.{
  ℕ, ◌+◌, ◌/◌, ◌%◌, ◌≤◌, ◌<◌, ◌≡◌, arith, refl, ap, ◌∙◌, List, [], ◌∷◌, ◌++◌, length, take_all,
  lt→ltb, ok, err, some,
}
use native.Mathlib.Decide.{dec_lt}
use mvp_vpn_lite.Net.{Ip, to4, length-to4, to4_of_length}
use mvp_vpn_lite.Packet.Errors.{packet_too_large}
use mvp_vpn_lite.Packet.Checksum.{checksum}
use mvp_vpn_lite.Packet.Icmp.{parse_icmp_packet}
use mvp_vpn_lite.Packet.Ipv4.{Ipv4Packet, parse_ipv4_packet}
use mvp_vpn_lite.Packet.Ipv4.Parse.{Header, accepts→parse}
use mvp_vpn_lite.Packet.Echo.{build_ipv4_icmp_packet}
use mvp_vpn_lite.Packet.Echo.Shape.{message, header, build_four}

record Four : Type 0 where
  a : ℕ
  b : ℕ
  c : ℕ
  d : ℕ

abbrev four_bytes : Four → Ip
four_bytes q = q.a ∷ q.b ∷ q.c ∷ q.d ∷ []

four_view : (ip : Ip) → length ip ≡ 4 → (q : Four) × (ip ≡ four_bytes q)
four_view (a ∷ b ∷ c ∷ d ∷ []) e = (record { a = a; b = b; c = c; d = d }, refl)
four_view _ e = absurd (omega arith)

-- The packet that the builder is to write.
abbrev pub icmp_packet_of : Ip → Ip → List ℕ → Ipv4Packet
icmp_packet_of source destination icmp = record {
  version = 4;
  ihl = 20;
  total_length = 20 + length icmp;
  protocol = 1;
  source_ip = source;
  destination_ip = destination;
  payload = icmp;
}

abbrev pub summed_header : Ip → Ip → List ℕ → List ℕ
summed_header source destination icmp =
    let total_len = 20 + length icmp in
    header total_len (checksum (header total_len 0 source destination)) source destination

need_same :
    (source_ip destination_ip source destination : Ip) (icmp : List ℕ)
    → to4 source_ip ≡ some source
    → to4 destination_ip ≡ some destination
    → build_ipv4_icmp_packet source_ip destination_ip icmp
      ≡ build_ipv4_icmp_packet source destination icmp
unfolding build_ipv4_icmp_packet
need_same source_ip destination_ip source destination icmp hs hd = rw (
  hs,
  hd,
  to4_of_length source (length-to4 source_ip source hs),
  to4_of_length destination (length-to4 destination_ip destination hd),
)

-- A header and the message, where the whole fits a 16-bit length.
pub build-ok :
    (source_ip destination_ip source destination : Ip) (icmp : List ℕ)
    → to4 source_ip ≡ some source
    → to4 destination_ip ≡ some destination
    → length icmp ≤ 65515
    → build_ipv4_icmp_packet source_ip destination_ip icmp
      ≡ ok (summed_header source destination icmp ++ icmp)
build-ok source_ip destination_ip source destination icmp hs hd le =
    let (p, ep) = four_view source (length-to4 source_ip source hs) in
    let (q, eq) = four_view destination (length-to4 destination_ip destination hd) in
    need_same source_ip destination_ip source destination icmp hs hd
    ∙ rw (ep, eq) (build_four p.a p.b p.c p.d q.a q.b q.c q.d icmp le)

pub build_too_large :
    (source_ip destination_ip source destination : Ip) (icmp : List ℕ)
    → to4 source_ip ≡ some source
    → to4 destination_ip ≡ some destination
    → 65515 < length icmp
    → build_ipv4_icmp_packet source_ip destination_ip icmp ≡ err packet_too_large
unfolding build_ipv4_icmp_packet
build_too_large source_ip destination_ip source destination icmp hs hd lt =
    rw (hs, hd, lt→ltb 65535 (20 + length icmp) (omega arith))

parse_four :
    (p q : Four) (sum : ℕ) (icmp : List ℕ)
    → length icmp ≤ 65515
    → parse_ipv4_packet (header (20 + length icmp) sum (four_bytes p) (four_bytes q) ++ icmp)
      ≡ ok (icmp_packet_of (four_bytes p) (four_bytes q) icmp)
parse_four p q sum icmp le =
    accepts→parse h (omega arith) ∙ ap ok (ground (arith, take_all (length icmp) icmp))
  where
    t : ℕ
    t = 20 + length icmp

    h : Header
    h = record {
      b0 = 0x45;
      b1 = 0;
      b2 = t / 256 % 256;
      b3 = t % 256;
      b4 = 0;
      b5 = 0;
      b6 = 0;
      b7 = 0;
      b8 = 64;
      b9 = 1;
      b10 = sum / 256 % 256;
      b11 = sum % 256;
      b12 = p.a;
      b13 = p.b;
      b14 = p.c;
      b15 = p.d;
      b16 = q.a;
      b17 = q.b;
      b18 = q.c;
      b19 = q.d;
      rest = icmp;
    }

-- The parser gets back what the builder was given.
pub parse_ipv4-build :
    (source_ip destination_ip source destination : Ip) (icmp raw : List ℕ)
    → to4 source_ip ≡ some source
    → to4 destination_ip ≡ some destination
    → build_ipv4_icmp_packet source_ip destination_ip icmp ≡ ok raw
    → parse_ipv4_packet raw ≡ ok (icmp_packet_of source destination icmp)
parse_ipv4-build source_ip destination_ip source destination icmp raw hs hd e =
    elim (dec_lt 65515 (length icmp)) [
      | yes lt ↦
          absurd (cc (build_too_large source_ip destination_ip source destination icmp hs hd lt))
      | no ge ↦
          let (p, ep) = four_view source (length-to4 source_ip source hs) in
          let (q, eq) = four_view destination (length-to4 destination_ip destination hd) in
          let built : raw ≡ summed_header source destination icmp ++ icmp =
            cc (build-ok source_ip destination_ip source destination icmp hs hd (omega arith)) in
          rw (built, ep, eq) (parse_four p q _ icmp (omega arith))
    ]

-- The ICMP parser reads the fields of an echo message.
pub parse_icmp-message :
    (type sum identifier sequence : ℕ) (payload : List ℕ)
    → sum < 65536
    → identifier < 65536
    → sequence < 65536
    → parse_icmp_packet (message type sum identifier sequence payload)
      ≡ ok (record {
        type = type;
        code = 0;
        checksum = sum;
        identifier = identifier;
        sequence = sequence;
        payload = payload;
      })
unfolding parse_icmp_packet
parse_icmp-message type sum identifier sequence payload hs hi hq =
    ground (arith, take_all (length payload) payload)
