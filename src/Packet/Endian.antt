-- ===== src/Packet/Endian.antt =====
-- binary.BigEndian.Uint16 and PutUint16, of encoding/binary.
use mvp_vpn_lite.Base.{ℕ, ◌+◌, ◌*◌, ◌/◌, ◌%◌, List, Result, ok, ◌>>=◌, index, set}

-- `binary.BigEndian.Uint16(b)`
abbrev pub uint16 : {E : Type 0} → List ℕ → Result E ℕ
uint16 b = do low ← index b 1; high ← index b 0; ok (high * 256 + low)

-- `binary.BigEndian.PutUint16(b[at:at+2], v)`
abbrev pub put_uint16 : List ℕ → ℕ → ℕ → List ℕ
put_uint16 b at v = set (set b at (v / 256 % 256)) (at + 1) (v % 256)
