-- ===== src/Framing/Tests.antt =====
-- The frame theorems at concrete streams.
use mvp_vpn_lite.Base.{◌≡◌, refl, arith, [], ◌∷◌, ◌++◌, ok, err}
use mvp_vpn_lite.Io.{eof, Reader}
use mvp_vpn_lite.Framing.{read_frame, io_error}
use mvp_vpn_lite.Framing.RoundTrip.{
  frame, Fits, write_frame-buffer, read_frame-write_frame, read_frame_sound,
}
use mvp_vpn_lite.Framing.Truncated.{read_frame_truncated}

abbrev stream : Reader
stream = record { pending = 0 ∷ 0 ∷ 0 ∷ 2 ∷ 7 ∷ 8 ∷ 9 ∷ []; end = eof }

abbrev behind_frame : Reader
behind_frame = record { pending = 9 ∷ []; end = eof }

read_stream : read_frame stream ≡ (ok (7 ∷ 8 ∷ []), behind_frame)
unfolding read_frame
read_stream = refl

read_frame-write_frame_example : read_frame stream ≡ (ok (7 ∷ 8 ∷ []), behind_frame)
read_frame-write_frame_example =
    read_frame-write_frame (7 ∷ 8 ∷ []) (9 ∷ []) (0 ∷ 0 ∷ 0 ∷ 2 ∷ 7 ∷ 8 ∷ []) eof (omega arith)
      (write_frame-buffer [] (7 ∷ 8 ∷ []) (omega arith))

read_frame_sound_example :
    Fits (7 ∷ 8 ∷ []) × (stream.pending ≡ frame (7 ∷ 8 ∷ []) ++ (9 ∷ [])) × (stream.end ≡ eof)
read_frame_sound_example =
    read_frame_sound stream behind_frame (7 ∷ 8 ∷ []) (omega arith) read_stream

read_frame_truncated_example :
    read_frame (record { pending = 0 ∷ 0 ∷ 0 ∷ 2 ∷ []; end = eof })
    ≡ (err (io_error eof), record { pending = []; end = eof })
read_frame_truncated_example = read_frame_truncated (7 ∷ 8 ∷ []) 4 (omega arith) (omega arith)
