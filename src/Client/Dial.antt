-- ===== src/Client/Dial.antt =====
-- internal/quictransport/client.go: the paths that are dialled at the start, and closing them. The
-- QUIC calls are an interface; a connection and a stream are handles, and 0 is nil.
pub mod Closed
pub mod Balance
pub mod Paths
pub mod Sample
use Prim.Native.String.{String}
use text.Mathlib.Text.{◌==◌ as str_eq}
use mvp_vpn_lite.Base.{
  ℕ, Bool, true, false, Option, none, some, List, [], ◌∷◌, ◌++◌, Result, ok, err, panic, ◌==◌,
  if◌then◌else◌,
}
use mvp_vpn_lite.Base.Act.{Act}
use mvp_vpn_lite.Io.{IoError}
use mvp_vpn_lite.Stats.{Counters, add_error}
use mvp_vpn_lite.Client.Path.{ClientPath}

pub record ClientPathSpec : Type 0 where
  pub id : ℕ
  pub address : String

-- `quic.DialAddr`, `conn.OpenStreamSync`, `conn.CloseWithError` and `stream.Close`.
pub record Network (W : Type 0) : Type 0 where
  pub dial_addr : String → Act W IoError ℕ
  pub open_stream : ℕ → Act W IoError ℕ
  pub close_conn : ℕ → W → W
  pub close_stream : ℕ → W → W

pub data DialError : Type 0 where
  dial_failed : ℕ → String → IoError → DialError
  open_stream_failed : ℕ → IoError → DialError

unfoldable pub client_path_specs : String → String → List ClientPathSpec
client_path_specs server0 server1 =
    (if str_eq server0 "" then [] else record { id = 0; address = server0 } ∷ [])
    ++ (if str_eq server1 "" then [] else record { id = 1; address = server1 } ∷ [])

module _ {W : Type 0} (net : Network W) where
  unfoldable pub close_client_path : ClientPath → W → W
  close_client_path path w =
      let w = if path.stream == 0 then w else net.close_stream path.stream w in
      if path.conn == 0 then w else net.close_conn path.conn w

  pub close_client_paths : List ClientPath → W → W
  close_client_paths [] w = w
  close_client_paths (path ∷ paths) w = close_client_paths paths (close_client_path path w)

  -- After `conn.OpenStreamSync`.
  unfoldable pub after_open_stream :
      ClientPathSpec → ℕ → Result IoError ℕ × W → Result DialError ClientPath × W
  after_open_stream spec conn (ok stream, w) =
      (ok (record { id = spec.id; address = spec.address; conn = conn; stream = stream }), w)
  after_open_stream spec conn (err e, w) =
      (err (open_stream_failed spec.id e), net.close_conn conn w)
  after_open_stream spec conn (panic, w) = (panic, w)

  -- After `quic.DialAddr`.
  unfoldable pub after_dial_addr :
      ClientPathSpec → Result IoError ℕ × W → Result DialError ClientPath × W
  after_dial_addr spec (ok conn, w) = after_open_stream spec conn (net.open_stream conn w)
  after_dial_addr spec (err e, w) = (err (dial_failed spec.id spec.address e), w)
  after_dial_addr spec (panic, w) = (panic, w)

  unfoldable pub dial_client_path : ClientPathSpec → Act W DialError ClientPath
  dial_client_path spec w = after_dial_addr spec (net.dial_addr spec.address w)

  -- One turn of the loop of `dialClientPaths`, with the paths so far.
  unfoldable pub after_dial :
      (List ClientPath → Act W DialError (List ClientPath))
      → List ClientPath
      → Result DialError ClientPath × W
      → Result DialError (List ClientPath) × W
  after_dial again paths (ok path, w) = again (paths ++ (path ∷ [])) w
  after_dial again paths (err e, w) = (err e, close_client_paths paths w)
  after_dial again paths (panic, w) = (panic, w)

  unfoldable pub dial_specs :
      List ClientPathSpec → List ClientPath → Act W DialError (List ClientPath)
  dial_specs [] paths w = (ok paths, w)
  dial_specs (spec ∷ specs) paths w = after_dial (dial_specs specs) paths (dial_client_path spec w)

  unfoldable pub dial_client_paths : String → String → Act W DialError (List ClientPath)
  dial_client_paths server0 server1 = dial_specs (client_path_specs server0 server1) []

  -- The same in `dialAvailableClientPaths`: it goes on after a failure, unless the context is done.
  module _ (ctx_done : W → Bool) where
    unfoldable pub after_try :
        (List ClientPath → W → Counters → List ClientPath × W × Counters)
        → List ClientPath
        → Counters
        → Result DialError ClientPath × W
        → List ClientPath × W × Counters
    after_try again paths c (ok path, w) = again (paths ++ (path ∷ [])) w c
    after_try again paths c (err e, w) =
        if ctx_done w then (paths, w, c) else again paths w (add_error c)
    after_try again paths c (panic, w) = (paths, w, c)

    unfoldable pub dial_available :
        List ClientPathSpec → List ClientPath → W → Counters → List ClientPath × W × Counters
    dial_available [] paths w c = (paths, w, c)
    dial_available (spec ∷ specs) paths w c =
        after_try (dial_available specs) paths c (dial_client_path spec w)

    unfoldable pub dial_available_client_paths :
        List ClientPathSpec → W → Counters → List ClientPath × W × Counters
    dial_available_client_paths specs w c = dial_available specs [] w c
