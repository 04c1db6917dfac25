-- ===== src/Server/Listen.antt =====
-- internal/quictransport/server.go: serveQUICPath and serveTUNQUICPath, the goroutine of a listener.
-- What its Accept calls give, and what other goroutines count in between, are events.
pub mod Ends
mod Tests
use Prim.Native.String.{String}
use mvp_vpn_lite.Base.{
  ℕ, Bool, true, false, Option, none, some, List, [], ◌∷◌, ◌++◌, Result, ok, err, panic,
}
use mvp_vpn_lite.Base.Act.{Act}
use mvp_vpn_lite.Io.{IoError}
use mvp_vpn_lite.Stats.{Counters, add_error}
use mvp_vpn_lite.Stats.Flow.{Call, call}

-- `quic.ListenAddr` and `listener.Close`; a listener is a handle.
pub record Listening (W : Type 0) : Type 0 where
  pub listen_addr : String → Act W IoError ℕ
  pub close_listener : ℕ → W → W

-- What goroutines send on `errCh`: the error of the context, or their own.
pub data StopError : Type 0 where
  canceled : StopError
  listen_failed : ℕ → String → IoError → StopError
  accept_failed : ℕ → IoError → StopError
  device_failed : IoError → StopError

-- `listener.Accept` gives a connection, or fails with the context done or not.
pub data ListenEvent : Type 0 where
  accepted : ℕ → ListenEvent
  failed : IoError → Bool → ListenEvent
  other : Call → ListenEvent

-- `handled` are the connections that a handler was started for, first to last.
pub record ListenState (W : Type 0) : Type 0 where
  pub network : W
  pub counters : Counters
  pub handled : List ℕ

pub data Served (W : Type 0) : Type 0 where
  serving : ListenState W → Served W
  ended : Option StopError → ListenState W → Served W

module _ {W : Type 0} (listening : Listening W) (on_cancel : Option StopError) (path_id : ℕ) where
  -- The deferred `listener.Close`, and that of the goroutine that waits for the context, which the
  -- deferred `cancel` ends.
  pub close_after : ℕ → ListenState W → ListenState W
  close_after listener st =
      let closed = listening.close_listener listener st.network in
      record st { network = listening.close_listener listener closed }

  -- After a failed Accept.
  pub after_failed_accept : ℕ → ListenState W → IoError → Bool → Served W
  unfolding close_after
  after_failed_accept listener st e true = ended on_cancel (close_after listener st)
  after_failed_accept listener st e false =
      ended (some (accept_failed path_id e))
        (close_after listener (record st { counters = add_error st.counters }))

  pub accept_loop : ℕ → List ListenEvent → ListenState W → Served W
  unfolding after_failed_accept
  accept_loop listener [] st = serving st
  accept_loop listener (accepted conn ∷ events) st =
      accept_loop listener events (record st { handled = st.handled ++ (conn ∷ []) })
  accept_loop listener (failed e ctx_done ∷ events) st = after_failed_accept listener st e ctx_done
  accept_loop listener (other x ∷ events) st =
      accept_loop listener events (record st { counters = call st.counters x })

  -- After `quic.ListenAddr`; `none` stands for a panic of the call.
  pub after_listen : String → List ListenEvent → Counters → Result IoError ℕ × W → Option (Served W)
  unfolding accept_loop
  after_listen addr events c (ok listener, w) =
      some (accept_loop listener events (record { network = w; counters = c; handled = [] }))
  after_listen addr events c (err e, w) = some (
      ended (some (listen_failed path_id addr e))
        (record { network = w; counters = add_error c; handled = [] }))
  after_listen addr events c (panic, w) = none

  pub serve_path : String → List ListenEvent → Counters → W → Option (Served W)
  unfolding after_listen
  serve_path addr events c w = after_listen addr events c (listening.listen_addr addr w)

-- The demo's listener sends the error of the context, the TUN server's does not.
abbrev pub serve_quic_path :
    {W : Type 0} → Listening W → ℕ → String → List ListenEvent → Counters → W → Option (Served W)
serve_quic_path listening path_id = serve_path listening (some canceled) path_id

abbrev pub serve_tun_quic_path :
    {W : Type 0} → Listening W → ℕ → String → List ListenEvent → Counters → W → Option (Served W)
serve_tun_quic_path listening path_id = serve_path listening none path_id
