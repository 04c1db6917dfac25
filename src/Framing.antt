-- ===== src/Framing.antt =====
-- internal/quictransport/framing.go: length-prefixed frames.
pub mod RoundTrip
pub mod Truncated
pub mod Progress
mod Tests
use mvp_vpn_lite.Base.{
  ℕ, ◌+◌, ◌*◌, ◌/◌, ◌%◌, ◌^◌, Bool, Option, none, some, List, [], ◌∷◌, Result, ok, err, panic,
  length, ltb, ◌==◌, if◌then◌else◌,
}
use mvp_vpn_lite.Io.{IoError, Reader, read_full, Write}

abbrev pub max_frame_size : ℕ
max_frame_size = 65535

pub data FrameError : Type 0 where
  empty_payload : FrameError
  payload_too_large : ℕ → FrameError
  io_error : IoError → FrameError

-- `binary.BigEndian.PutUint32(header[:], v)`
abbrev pub put_uint32 : ℕ → List ℕ
put_uint32 v = v / 2 ^ 24 % 256 ∷ v / 2 ^ 16 % 256 ∷ v / 2 ^ 8 % 256 ∷ v % 256 ∷ []

-- `binary.BigEndian.Uint32(header[:])`, of an array of four bytes
abbrev pub uint32 : List ℕ → ℕ
uint32 (a ∷ b ∷ c ∷ d ∷ rest) = a * 2 ^ 24 + b * 2 ^ 16 + c * 2 ^ 8 + d
uint32 _ = 0

module _ {W : Type 0} (write : Write W) where
  write_payload : Option IoError × W → List ℕ → Option FrameError × W
  write_payload (some e, w) payload = (some (io_error e), w)
  write_payload (none, w) payload =
      let (e, w) = write w payload in (elim e [ none ↦ none | some e ↦ some (io_error e) ], w)

  unfoldable pub write_frame : W → List ℕ → Option FrameError × W
  unfolding write_payload
  write_frame w payload =
      if length payload == 0
      then (some empty_payload, w)
      else if ltb max_frame_size (length payload)
      then (some (payload_too_large (length payload)), w)
      else write_payload (write w (put_uint32 (length payload % 2 ^ 32))) payload

-- The payload of a checked length.
read_payload : Reader → ℕ → Result FrameError (List ℕ) × Reader
read_payload r n =
    let (payload, r) = read_full r n in
    (elim payload [ ok bytes ↦ ok bytes | err e ↦ err (io_error e) | panic ↦ panic ], r)

check_length : Reader → ℕ → Result FrameError (List ℕ) × Reader
unfolding read_payload
check_length r n =
    if n == 0
    then (err empty_payload, r)
    else if ltb max_frame_size n
    then (err (payload_too_large n), r)
    else read_payload r n

read_body : Result IoError (List ℕ) × Reader → Result FrameError (List ℕ) × Reader
unfolding check_length
read_body (ok header, r) = check_length r (uint32 header)
read_body (err e, r) = (err (io_error e), r)
read_body (panic, r) = (panic, r)

unfoldable pub read_frame : Reader → Result FrameError (List ℕ) × Reader
unfolding read_body
read_frame r = read_body (read_full r 4)
