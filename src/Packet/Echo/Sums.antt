-- ===== src/Packet/Echo/Sums.antt =====
-- The checksums of what the builders write verify.
use mvp_vpn_lite.Base.{
  ℕ, ◌/◌, ◌%◌, ◌≤◌, ◌<◌, ◌≡◌, arith, List, [], ◌∷◌, ◌++◌, length, All, IsByte, length-append,
  All-append,
}
use mvp_vpn_lite.Net.{Ip}
use mvp_vpn_lite.Packet.Checksum.{checksum}
use mvp_vpn_lite.Packet.Checksum.Verify.{checksum_self}
use mvp_vpn_lite.Packet.Echo.Shape.{message, header}

pub header-checksum :
    (total_len : ℕ) (source destination : Ip)
    → length source ≡ 4
    → length destination ≡ 4
    → All IsByte source
    → All IsByte destination
    → checksum
        (header total_len (checksum (header total_len 0 source destination)) source destination)
      ≡ 0
header-checksum total_len source destination hs hd bs bd =
    checksum_self (0x45 ∷ 0 ∷ total_len / 256 % 256 ∷ total_len % 256 ∷ 0 ∷ 0 ∷ 0 ∷ 0 ∷ 64 ∷ 1 ∷ [])
      (source ++ destination) (omega arith)
      (All-append IsByte
        (0x45 ∷ 0 ∷ total_len / 256 % 256 ∷ total_len % 256 ∷ 0 ∷ 0 ∷ 0 ∷ 0 ∷ 64 ∷ 1 ∷ 0 ∷ 0 ∷ [])
        (source ++ destination) (omega arith) (All-append IsByte source destination bs bd))
      (omega (arith, length-append source destination))

pub message-checksum :
    (type identifier sequence : ℕ) (payload : List ℕ)
    → type < 256
    → All IsByte payload
    → length payload ≤ 65507
    → checksum (
        message type
          (checksum (message type 0 identifier sequence payload))
          identifier
          sequence
          payload)
      ≡ 0
message-checksum type identifier sequence payload ht bp le =
    checksum_self (type ∷ 0 ∷ [])
      (identifier / 256 % 256 ∷ identifier % 256 ∷ sequence / 256 % 256 ∷ sequence % 256 ∷ payload)
      (omega arith)
      (All-append IsByte
        (type
          ∷ 0
          ∷ 0
          ∷ 0
          ∷ identifier / 256 % 256
          ∷ identifier % 256
          ∷ sequence / 256 % 256
          ∷ sequence % 256
          ∷ [])
        payload (omega arith) bp)
      (omega arith)
