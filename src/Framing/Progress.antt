-- ===== src/Framing/Progress.antt =====
-- What ReadFrame takes from a stream, whatever the bytes.
use mvp_vpn_lite.Base.{
  ℕ, ◌%◌, ◌^◌, ◌<◌, ◌≡◌, ◌≢◌, arith, Option, none, some, List, [], ◌∷◌, ok, panic, length,
  length-drop, ltb, ◌==◌, Bool-cases, inl, inr,
}
use mvp_vpn_lite.Io.{IoError, Reader, Write}
use mvp_vpn_lite.Framing.{
  uint32, put_uint32, max_frame_size, read_frame, write_payload, write_frame,
}

takes_at :
    (pending payload : List ℕ) (end : IoError) (r' : Reader)
    → read_frame (record { pending = pending; end = end }) ≡ (ok payload, r')
    → length r'.pending < length pending
unfolding read_frame
takes_at [] payload end r' e = ground arith
takes_at (a ∷ []) payload end r' e = ground arith
takes_at (a ∷ b ∷ []) payload end r' e = ground arith
takes_at (a ∷ b ∷ c ∷ []) payload end r' e = ground arith
takes_at (a ∷ b ∷ c ∷ d ∷ rest) payload end r' e =
    ground (arith, length-drop (uint32 (a ∷ b ∷ c ∷ d ∷ [])) rest)

-- A frame that is read leaves fewer bytes.
pub read_frame_takes :
    (r r' : Reader) (payload : List ℕ)
    → read_frame r ≡ (ok payload, r')
    → length r'.pending < length r.pending
read_frame_takes r r' payload e = takes_at r.pending payload r.end r' e

-- `ReadFrame` does not panic.
pub read_frame-ne-panic : (r : Reader) → (read_frame r).0 ≢ panic
unfolding read_frame
read_frame-ne-panic r e = ground arith

module _ {W : Type 0} (write : Write W) (P : W → Type 0)
    (kept : (w : W) (bytes : List ℕ) → P w → P (write w bytes).1) where
  payload_keeps :
      (header : Option IoError × W) (payload : List ℕ)
      → P header.1
      → P (write_payload write header payload).1
  unfolding write_payload
  payload_keeps (some e, w) payload p = p
  payload_keeps (none, w) payload p = kept w payload p

  -- A property of the writer that each write keeps is kept by the writing of a frame.
  pub write_frame_keeps : (w : W) (payload : List ℕ) → P w → P (write_frame write w payload).1
  unfolding write_frame
  write_frame_keeps w payload p = elim (Bool-cases (length payload == 0)) [
    | inl empty ↦ rw empty p
    | inr filled ↦ elim (Bool-cases (ltb max_frame_size (length payload))) [
      | inl large ↦ rw (filled, large) p
      | inr fits ↦
          rw (filled, fits)
            (payload_keeps (write w (put_uint32 (length payload % 2 ^ 32))) payload
              (kept w (put_uint32 (length payload % 2 ^ 32)) p))
    ]
  ]
