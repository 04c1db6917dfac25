-- ===== src/Client/Validate/Total.antt =====
-- validateEchoReply on every input.
use mvp_vpn_lite.Base.{
  ℕ, ◌≢◌, arith, List, Result, ok, err, panic, refl, ◌>>◌, not, ltb, ◌==◌, length, equal, take,
  map_err, fail_if, bind-ne-panic, fail_if-ne-panic, Bool-cases, inl, inr,
}
use mvp_vpn_lite.Net.{Ip, ip_equal}
use mvp_vpn_lite.Packet.Checksum.{checksum}
use mvp_vpn_lite.Packet.Icmp.{IcmpPacket, icmp_type_echo_reply, parse_icmp_packet}
use mvp_vpn_lite.Packet.Icmp.Parse.{parse_icmp-ne-panic}
use mvp_vpn_lite.Packet.Ipv4.{parse_ipv4_packet}
use mvp_vpn_lite.Packet.Ipv4.Parse.{parse_ipv4-ne-panic}
use mvp_vpn_lite.Client.Validate.{
  ReplyError, validate_echo_reply, invalid_ipv4_checksum, parse_failed, source_mismatch,
  destination_mismatch, invalid_icmp_checksum, unexpected_type, unexpected_code,
  unexpected_identifier, unexpected_sequence, unexpected_payload,
}

pub map_err-ne-panic :
    {E F A : Type 0} (f : E → F) (r : Result E A) → r ≢ panic → map_err f r ≢ panic
map_err-ne-panic f (ok a) h e = cc
map_err-ne-panic f (err x) h e = cc
map_err-ne-panic f panic h e = h refl

-- The checks of the message's fields.
fields-ne-panic :
    (message : IcmpPacket) (identifier sequence : ℕ) (payload : List ℕ)
    → ◌≢◌ {A = Result ReplyError (Unit {0})}
        (fail_if (not (message.type == icmp_type_echo_reply)) (unexpected_type message.type)
          >> (fail_if (not (message.code == 0)) (unexpected_code message.code)
              >> (fail_if
                    (not (message.identifier == identifier))
                    (unexpected_identifier message.identifier)
                  >> (fail_if
                        (not (message.sequence == sequence))
                        (unexpected_sequence message.sequence)
                      >> (fail_if
                            (not (equal message.payload payload))
                            (unexpected_payload message.payload)
                          >> ok tt)))))
        panic
fields-ne-panic message identifier sequence payload e = ground arith

-- `validateEchoReply` does not panic.
pub validate-ne-panic :
    (reply : List ℕ) (virtual_ip client_ip : Ip) (identifier sequence : ℕ) (payload : List ℕ)
    → validate_echo_reply reply virtual_ip client_ip identifier sequence payload ≢ panic
unfolding validate_echo_reply
validate-ne-panic reply virtual_ip client_ip identifier sequence payload =
    elim (Bool-cases (ltb (length reply) 20)) [
      | inl short ↦ rw short (λ e. cc)
      | inr long ↦ rw long (
          bind-ne-panic _ _
            (fail_if-ne-panic (not (checksum (take 20 reply) == 0))
              (invalid_ipv4_checksum (checksum (take 20 reply))))
            λ _.
              bind-ne-panic _ _
                (map_err-ne-panic parse_failed (parse_ipv4_packet reply)
                  (parse_ipv4-ne-panic reply))
                λ packet.
                  bind-ne-panic _ _
                    (fail_if-ne-panic (not (ip_equal packet.source_ip virtual_ip)) source_mismatch)
                    λ _.
                      bind-ne-panic _ _
                        (fail_if-ne-panic (not (ip_equal packet.destination_ip client_ip))
                          destination_mismatch)
                        λ _.
                          bind-ne-panic _ _
                            (fail_if-ne-panic (not (checksum packet.payload == 0))
                              (invalid_icmp_checksum (checksum packet.payload)))
                            λ _.
                              bind-ne-panic _ _
                                (map_err-ne-panic parse_failed (parse_icmp_packet packet.payload)
                                  (parse_icmp-ne-panic packet.payload))
                                λ message. fields-ne-panic message identifier sequence payload)
    ]
