-- ===== src/Packet/Echo/Total.antt =====
-- The builders on every input: no panic, and the size of what they build.
use mvp_vpn_lite.Base.{
  ℕ, ◌≤◌, ◌≡◌, ◌≢◌, arith, List, length, ◌++◌, length-append, some, ok, panic, not, ◌==◌, fail_if,
  or_err, bind-ne-panic, bind-eq-ok, fail_if-ne-panic, or_err-ne-panic, or_err-eq-ok,
}
use native.Mathlib.Decide.{dec_lt}
use mvp_vpn_lite.Net.{Ip, to4, ip_equal, length-to4, to4_of_length}
use mvp_vpn_lite.Framing.RoundTrip.{Fits}
use mvp_vpn_lite.Packet.Errors.{
  virtual_ip_not_ipv4, client_ip_not_ipv4, destination_mismatch, not_echo_request, source_not_ipv4,
  destination_not_ipv4,
}
use mvp_vpn_lite.Packet.Ipv4.{parse_ipv4_packet}
use mvp_vpn_lite.Packet.Ipv4.Parse.{parse_ipv4-ne-panic}
use mvp_vpn_lite.Packet.Icmp.{icmp_type_echo_reply, icmp_type_echo_request, parse_icmp_packet}
use mvp_vpn_lite.Packet.Icmp.Parse.{parse_icmp-ne-panic}
use mvp_vpn_lite.Packet.Echo.{
  icmp_echo, build_ipv4_icmp_packet, build_icmp_echo_reply, build_icmp_echo_request,
}
use mvp_vpn_lite.Packet.Echo.RoundTrip.{summed_header, build-ok, build_too_large}

build-ne-panic :
    (source_ip destination_ip : Ip) (icmp : List ℕ)
    → build_ipv4_icmp_packet source_ip destination_ip icmp ≢ panic
unfolding build_ipv4_icmp_packet
build-ne-panic source_ip destination_ip icmp e = ground arith

-- `BuildICMPEchoReply` does not panic, whatever the request and the addresses.
pub build_reply-ne-panic :
    (request : List ℕ) (virtual_ip client_ip : Ip)
    → build_icmp_echo_reply request virtual_ip client_ip ≢ panic
unfolding build_icmp_echo_reply
build_reply-ne-panic request virtual_ip client_ip =
    bind-ne-panic _ _ (or_err-ne-panic (to4 virtual_ip) virtual_ip_not_ipv4) λ server_ipv4.
      bind-ne-panic _ _ (or_err-ne-panic (to4 client_ip) client_ip_not_ipv4) λ client_ipv4.
        bind-ne-panic _ _ (parse_ipv4-ne-panic request) λ ip.
          bind-ne-panic _ _
            (fail_if-ne-panic (not (ip_equal ip.destination_ip server_ipv4)) destination_mismatch)
            λ _. bind-ne-panic _ _ (parse_icmp-ne-panic ip.payload) λ icmp.
              bind-ne-panic _ _
                (fail_if-ne-panic (not (icmp.type == icmp_type_echo_request))
                  (not_echo_request icmp.type))
                λ _.
                  build-ne-panic server_ipv4 client_ipv4
                    (icmp_echo icmp_type_echo_reply icmp.identifier icmp.sequence icmp.payload)

-- Neither does `BuildICMPEchoRequest`.
pub build_request-ne-panic :
    (source_ip destination_ip : Ip) (identifier sequence : ℕ) (payload : List ℕ)
    → build_icmp_echo_request source_ip destination_ip identifier sequence payload ≢ panic
unfolding build_icmp_echo_request
build_request-ne-panic source_ip destination_ip identifier sequence payload =
    build-ne-panic source_ip destination_ip
      (icmp_echo icmp_type_echo_request identifier sequence payload)

addresses_found :
    (source_ip destination_ip : Ip) (icmp raw : List ℕ)
    → build_ipv4_icmp_packet source_ip destination_ip icmp ≡ ok raw
    → (s : Ip) × (d : Ip) × (to4 source_ip ≡ some s) × (to4 destination_ip ≡ some d)
unfolding build_ipv4_icmp_packet
addresses_found source_ip destination_ip icmp raw e =
    let (s, hs, e) = bind-eq-ok (or_err (to4 source_ip) source_not_ipv4) _ raw e in
    let (d, hd, e) = bind-eq-ok (or_err (to4 destination_ip) destination_not_ipv4) _ raw e in
    (
      s,
      d,
      or_err-eq-ok (to4 source_ip) source_not_ipv4 s hs,
      or_err-eq-ok (to4 destination_ip) destination_not_ipv4 d hd,
    )

-- What is built has 20 bytes at least and fits a 16-bit length.
pub length-build :
    (source_ip destination_ip : Ip) (icmp raw : List ℕ)
    → build_ipv4_icmp_packet source_ip destination_ip icmp ≡ ok raw
    → (20 ≤ length raw) × (length raw ≤ 65535)
length-build source_ip destination_ip icmp raw e =
    let (s, d, hs, hd) = addresses_found source_ip destination_ip icmp raw e in
    elim (dec_lt 65515 (length icmp)) [
      | yes lt ↦ absurd (cc (build_too_large source_ip destination_ip s d icmp hs hd lt))
      | no ge ↦
          let same : raw ≡ summed_header s d icmp ++ icmp =
            cc (build-ok source_ip destination_ip s d icmp hs hd (omega arith)) in
          rw same (
            omega (
              arith,
              length-append (s ++ d) icmp,
              length-append s d,
              length-to4 source_ip s hs,
              length-to4 destination_ip d hd,
            ))
    ]

-- A reply fits a frame.
pub length-build_reply :
    (request reply : List ℕ) (virtual_ip client_ip : Ip)
    → build_icmp_echo_reply request virtual_ip client_ip ≡ ok reply
    → (20 ≤ length reply) × (length reply ≤ 65535)
unfolding build_icmp_echo_reply
length-build_reply request reply virtual_ip client_ip e =
    let (server_ipv4, hs, e) = bind-eq-ok (or_err (to4 virtual_ip) virtual_ip_not_ipv4) _ reply e in
    let (client_ipv4, hc, e) = bind-eq-ok (or_err (to4 client_ip) client_ip_not_ipv4) _ reply e in
    let (ip, hp, e) = bind-eq-ok (parse_ipv4_packet request) _ reply e in
    let (u, hu, e) =
      bind-eq-ok (fail_if (not (ip_equal ip.destination_ip server_ipv4)) destination_mismatch) _
        reply e in
    let (icmp, hi, e) = bind-eq-ok (parse_icmp_packet ip.payload) _ reply e in
    let (v, hv, e) =
      bind-eq-ok (fail_if (not (icmp.type == icmp_type_echo_request)) (not_echo_request icmp.type))
        _ reply e in
    length-build server_ipv4 client_ipv4
      (icmp_echo icmp_type_echo_reply icmp.identifier icmp.sequence icmp.payload) reply e

-- A request fits a frame.
pub length-build_request :
    (source_ip destination_ip : Ip) (identifier sequence : ℕ) (payload request : List ℕ)
    → build_icmp_echo_request source_ip destination_ip identifier sequence payload ≡ ok request
    → Fits request
unfolding build_icmp_echo_request
length-build_request source_ip destination_ip identifier sequence payload request e =
    let (least, most) =
      length-build source_ip destination_ip
        (icmp_echo icmp_type_echo_request identifier sequence payload) request e in
    omega arith

-- The reply depends on the IPv4 forms of the addresses only.
pub reply_same :
    (request reply : List ℕ) (virtual_ip client_ip virtual_ipv4 client_ipv4 : Ip)
    → to4 virtual_ip ≡ some virtual_ipv4
    → to4 client_ip ≡ some client_ipv4
    → build_icmp_echo_reply request virtual_ipv4 client_ipv4 ≡ ok reply
    → build_icmp_echo_reply request virtual_ip client_ip ≡ ok reply
unfolding build_icmp_echo_reply
reply_same request reply virtual_ip client_ip virtual_ipv4 client_ipv4 hv hc e =
    rw (hv, hc)
      (rw
        (
          to4_of_length virtual_ipv4 (length-to4 virtual_ip virtual_ipv4 hv),
          to4_of_length client_ipv4 (length-to4 client_ip client_ipv4 hc),
        )
        at e)
