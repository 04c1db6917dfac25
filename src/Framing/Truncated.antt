-- ===== src/Framing/Truncated.antt =====
-- Streams that end inside a frame.
use mvp_vpn_lite.Base.{
  ne→==, ℕ, zero, suc, ◌+◌, ◌<◌, ◌≡◌, arith, refl, List, [], ◌∷◌, ◌++◌, err, length, take, ◌==◌,
  ◌||◌, if◌then◌else◌, length-take,
}
use mvp_vpn_lite.Io.{eof, unexpected_eof}
use mvp_vpn_lite.Framing.{put_uint32, read_frame, io_error}
use mvp_vpn_lite.Framing.RoundTrip.{frame, Fits}

header_only :
    (payload : List ℕ)
    → Fits payload
    → read_frame (record { pending = put_uint32 (length payload); end = eof })
      ≡ (err (io_error eof), record { pending = []; end = eof })
unfolding read_frame
header_only payload f = ground arith

inside_payload :
    (payload : List ℕ) (j : ℕ)
    → Fits payload
    → suc j < length payload
    → read_frame
        (record { pending = put_uint32 (length payload) ++ take (suc j) payload; end = eof })
      ≡ (err (io_error unexpected_eof), record { pending = []; end = eof })
unfolding read_frame
inside_payload [] j f lt = absurd (omega arith)
inside_payload (x ∷ payload) j f lt = ground (arith, length-take j payload)

-- A stream that ends inside a frame gives io.ErrUnexpectedEOF, and io.EOF where it ends before the
-- frame or exactly between the frame's header and its payload.
pub read_frame_truncated :
    (payload : List ℕ) (k : ℕ)
    → Fits payload
    → k < 4 + length payload
    → read_frame (record { pending = take k (frame payload); end = eof }) ≡ (
      err (io_error (if k == 0 || k == 4 then eof else unexpected_eof)),
      record { pending = []; end = eof },
    )
unfolding read_frame
read_frame_truncated payload zero f lt = refl
read_frame_truncated payload (suc zero) f lt = refl
read_frame_truncated payload (suc (suc zero)) f lt = refl
read_frame_truncated payload (suc (suc (suc zero))) f lt = refl
read_frame_truncated payload (suc (suc (suc (suc zero)))) f lt = header_only payload f
read_frame_truncated payload (suc (suc (suc (suc (suc j))))) f lt =
    rw
      (
        ne→== (suc (suc (suc (suc (suc j))))) 0 (omega arith),
        ne→== (suc (suc (suc (suc (suc j))))) 4 (omega arith),
      )
      (inside_payload payload j f (omega arith))
