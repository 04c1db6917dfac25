-- ===== src/Io.antt =====
-- The parts of Go's package io that the sources call: errors, io.ReadFull over a byte stream that
-- delivers its bytes in order and then fails, and a writer as a parameter.
use mvp_vpn_lite.Base.{
  ℕ, Option, List, [], ◌∷◌, Result, ok, err, length, take, drop, ltb, if◌then◌else◌,
}

-- What `errors.Is` and `errors.As` tell apart: io.EOF, io.ErrUnexpectedEOF, os.ErrClosed, a QUIC
-- application error with its code, an error whose text has "not pollable", and any other error.
pub data IoError : Type 0 where
  eof : IoError
  unexpected_eof : IoError
  closed : IoError
  application_error : ℕ → IoError
  not_pollable : IoError
  other_error : ℕ → IoError

-- The bytes still to come, and the error of a read behind them.
pub record Reader : Type 0 where
  pub pending : List ℕ
  pub end : IoError

-- The error of io.ReadFull after fewer bytes than asked for.
abbrev pub short_read : List ℕ → IoError → IoError
short_read [] e = e
short_read (b ∷ bs) eof = unexpected_eof
short_read (b ∷ bs) e = e

-- `io.ReadFull(r, buf)` with `len(buf) = n`
abbrev pub read_full : Reader → ℕ → Result IoError (List ℕ) × Reader
read_full r n =
    if ltb (length r.pending) n
    then (err (short_read r.pending r.end), record r { pending = [] })
    else (ok (take n r.pending), record r { pending = drop n r.pending })

-- `w.Write(p)`: the error, and the writer after it.
abbrev pub Write : Type 0 → Type 0
Write W = W → List ℕ → Option IoError × W
