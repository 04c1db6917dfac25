-- ===== src/Framing/RoundTrip.antt =====
-- What one side writes the other reads.
use mvp_vpn_lite.Base.{
  ℕ, ◌≤◌, ◌≡◌, arith, refl, none, List, [], ◌∷◌, ◌++◌, ok, length, All, IsByte, length-append,
  take-append, take-append-drop, length-take, drop-append,
}
use mathlib.Core.List.{append_assoc}
use mvp_vpn_lite.Io.{IoError, Reader, Write}
use mvp_vpn_lite.Framing.{put_uint32, uint32, write_frame, read_frame}

-- The bytes of one frame.
abbrev pub frame : List ℕ → List ℕ
frame payload = put_uint32 (length payload) ++ payload

-- A writer that keeps what is written, and never fails.
abbrev pub buffer_write : Write (List ℕ)
buffer_write w bytes = (none, w ++ bytes)

pub record Fits (payload : List ℕ) : Type 0 where
  pub not_empty : 1 ≤ length payload
  pub not_large : length payload ≤ 65535

-- On a writer that does not fail, exactly the frame is written.
pub write_frame-buffer :
    (w payload : List ℕ)
    → Fits payload
    → write_frame buffer_write w payload ≡ (none, w ++ frame payload)
unfolding write_frame
write_frame-buffer w payload f =
    ground (arith, append_assoc w (put_uint32 (length payload)) payload)

length_field : (n : ℕ) → n ≤ 65535 → uint32 (put_uint32 n) ≡ n
length_field n h = omega arith

-- Reading a frame gives its payload back and leaves what follows it.
pub read_frame-frame :
    (payload rest : List ℕ) (end : IoError)
    → Fits payload
    → read_frame (record { pending = frame payload ++ rest; end = end })
      ≡ (ok payload, record { pending = rest; end = end })
unfolding read_frame
read_frame-frame payload rest end f = ground (
  arith,
  take-append (length payload) payload rest refl,
  drop-append (length payload) payload rest refl,
  length-append payload rest,
)

-- A frame that `WriteFrame` writes on a stream is the next that `ReadFrame` reads from it, and the
-- bytes behind it stay.
pub read_frame-write_frame :
    (payload rest written : List ℕ) (end : IoError)
    → Fits payload
    → write_frame buffer_write [] payload ≡ (none, written)
    → read_frame (record { pending = written ++ rest; end = end })
      ≡ (ok payload, record { pending = rest; end = end })
read_frame-write_frame payload rest written end f e =
    let same : written ≡ frame payload = cc (write_frame-buffer [] payload f) in
    rw same (read_frame-frame payload rest end f)

sound_at :
    (pending payload : List ℕ) (end : IoError) (r' : Reader)
    → All IsByte pending
    → read_frame (record { pending = pending; end = end }) ≡ (ok payload, r')
    → Fits payload × (pending ≡ frame payload ++ r'.pending) × (r'.end ≡ end)
unfolding read_frame
sound_at [] payload end r' h e = ground arith
sound_at (a ∷ []) payload end r' h e = ground arith
sound_at (a ∷ b ∷ []) payload end r' h e = ground arith
sound_at (a ∷ b ∷ c ∷ []) payload end r' h e = ground arith
sound_at (a ∷ b ∷ c ∷ d ∷ rest) payload end r' h e =
    let n = uint32 (a ∷ b ∷ c ∷ d ∷ []) in
    ground (arith, length-take n rest, take-append-drop n rest)

-- What is read is the front of the stream: its bytes are the frame of the payload, whose length is
-- from 1 to 65535.
pub read_frame_sound :
    (r r' : Reader) (payload : List ℕ)
    → All IsByte r.pending
    → read_frame r ≡ (ok payload, r')
    → Fits payload × (r.pending ≡ frame payload ++ r'.pending) × (r'.end ≡ r.end)
read_frame_sound r r' payload bytes e = sound_at r.pending payload r.end r' bytes e
