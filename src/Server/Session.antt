-- ===== src/Server/Session.antt =====
-- internal/quictransport/server.go: serverTUNSession, the paths of the TUN server. The server has one
-- stream per connection; streams are numbered, and `stream ==` compares the numbers. A method that
-- holds pathsMu throughout is one step.
pub mod Invariant
mod Tests
use mvp_vpn_lite.Base.{
  ℕ, ◌+◌, ◌%◌, Bool, Option, none, some, List, [], ◌∷◌, Result, ok, err, panic, or_panic, length,
  get_elem?, leb, ◌==◌, if◌then◌else◌,
}
use mvp_vpn_lite.Io.{Write}
use mvp_vpn_lite.Framing.{FrameError, write_frame}

pub record ServerPath : Type 0 where
  pub id : ℕ
  pub stream : ℕ

pub record ServerTunSession : Type 0 where
  pub paths : List ServerPath
  pub next_path : ℕ

unfoldable pub new_server_tun_session : ServerTunSession
new_server_tun_session = record { paths = []; next_path = 0 }

unfoldable pub append_path : List ServerPath → ServerPath → List ServerPath
append_path [] path = path ∷ []
append_path (p ∷ rest) path = p ∷ append_path rest path

unfoldable pub add_path : ServerTunSession → ℕ → ℕ → ServerTunSession
unfolding append_path
add_path s path_id stream = record s {
  paths = append_path s.paths (record { id = path_id; stream = stream });
}

-- The others, where a path has the stream.
unfoldable pub without_stream : ℕ → List ServerPath → Option (List ServerPath)
without_stream stream [] = none
without_stream stream (path ∷ rest) =
    if path.stream == stream
    then some rest
    else elim (without_stream stream rest) [ none ↦ none | some rest' ↦ some (path ∷ rest') ]

abbrev pub next_within : ℕ → ℕ → ℕ
next_within next count = if count == 0 then 0 else if leb count next then next % count else next

unfoldable pub remove_path : ServerTunSession → ℕ → ServerTunSession
unfolding without_stream
remove_path s stream = elim (without_stream stream s.paths) [
  | none ↦ s
  | some paths ↦ record { paths = paths; next_path = next_within s.next_path (length paths) }
]

-- The locked part of `writeNextPath`: the path to write to. The only error is that there is none.
unfoldable pub take_path : ServerTunSession → Result (Unit {0}) ServerPath × ServerTunSession
take_path s = if length s.paths == 0 then (err tt, s) else (
  or_panic (get_elem? s.paths (s.next_path % length s.paths)),
  record s { next_path = (s.next_path + 1) % length s.paths },
)
