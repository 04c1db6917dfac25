-- ===== src/Packet/Echo/Shape.antt =====
-- The bytes that the builders write.
use mvp_vpn_lite.Base.{
  ℕ, suc, ◌+◌, ◌/◌, ◌%◌, ◌≤◌, ◌≡◌, arith, List, [], ◌∷◌, ◌++◌, length, copy_at-nil,
  copy_at-replicate, le→ltb, ok,
}
use mvp_vpn_lite.Net.{Ip, to4}
use mvp_vpn_lite.Packet.Checksum.{checksum}
use mvp_vpn_lite.Packet.Echo.{icmp_echo, build_ipv4_icmp_packet}

-- An echo message with the given checksum field.
abbrev pub message : ℕ → ℕ → ℕ → ℕ → List ℕ → List ℕ
message type sum identifier sequence payload =
    type
    ∷ 0
    ∷ sum / 256 % 256
    ∷ sum % 256
    ∷ identifier / 256 % 256
    ∷ identifier % 256
    ∷ sequence / 256 % 256
    ∷ sequence % 256
    ∷ payload

message_sum : ℕ → ℕ → ℕ → List ℕ → ℕ
message_sum type identifier sequence payload = checksum (message type 0 identifier sequence payload)

pub icmp_echo-message :
    (type identifier sequence : ℕ) (payload : List ℕ)
    → icmp_echo type identifier sequence payload
      ≡ message type
          (checksum (message type 0 identifier sequence payload))
          identifier
          sequence
          payload
unfolding icmp_echo
icmp_echo-message type identifier sequence payload = rw (eight, copy_at-replicate)
  where
    eight : 8 + length payload ≡ suc (suc (suc (suc (suc (suc (suc (suc (length payload))))))))
    eight = omega arith

-- The header of twenty bytes with the given checksum field.
abbrev pub header : ℕ → ℕ → Ip → Ip → List ℕ
header total_len sum source destination =
    0x45
    ∷ 0
    ∷ total_len / 256 % 256
    ∷ total_len % 256
    ∷ 0
    ∷ 0
    ∷ 0
    ∷ 0
    ∷ 64
    ∷ 1
    ∷ sum / 256 % 256
    ∷ sum % 256
    ∷ (source ++ destination)

high_byte : (t : ℕ) → t % 65536 / 256 % 256 ≡ t / 256 % 256
high_byte t = omega arith

low_byte : (t : ℕ) → t % 65536 % 256 ≡ t % 256
low_byte t = omega arith

pub build_four :
    (a b c d e f g h : ℕ) (icmp : List ℕ)
    → length icmp ≤ 65515
    → let source = a ∷ b ∷ c ∷ d ∷ [] in
      let destination = e ∷ f ∷ g ∷ h ∷ [] in
      let total_len = 20 + length icmp in
      build_ipv4_icmp_packet source destination icmp
      ≡ ok (
          header total_len (checksum (header total_len 0 source destination)) source destination
          ++ icmp)
unfolding build_ipv4_icmp_packet to4
build_four a b c d e f g h icmp le = rw (
  le→ltb 65535 (20 + length icmp) (omega arith),
  twenty,
  high_byte,
  low_byte,
  copy_at-nil,
  copy_at-replicate,
)
  where
    twenty :
        20 + length icmp
        ≡ suc (
            suc (
              suc (
                suc (
                  suc (
                    suc (
                      suc (
                        suc (
                          suc (
                            suc (
                              suc (
                                suc (
                                  suc (
                                    suc
                                      (suc (suc (suc (suc (suc (suc (length icmp))))))))))))))))))))
    twenty = omega arith
