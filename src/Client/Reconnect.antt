-- ===== src/Client/Reconnect.antt =====
-- internal/quictransport/client.go: reconnectClientPath, which dials a path again when it has left the
-- set. What other goroutines do to the set between two turns of the loop is an event too.
pub mod Keeps
pub mod Recovery
mod Tests
use mvp_vpn_lite.Base.{
  ℕ, Bool, Option, none, some, List, [], ◌∷◌, ◌++◌, Result, ok, err, panic, if◌then◌else◌,
}
use mvp_vpn_lite.Base.Int.{ℤ}
use mvp_vpn_lite.Loop.{Outcome, waiting, stopped, crashed}
use mvp_vpn_lite.Stats.{Counters, add_error}
use mvp_vpn_lite.Client.Path.{ClientPath}
use mvp_vpn_lite.Client.PathSet.{ClientPathSet, add, has_path_id}
use mvp_vpn_lite.Client.PathSet.Invariant.{Op, step}
use mvp_vpn_lite.Client.Backoff.{ReconnectBackoff, next_delay, reset}
use mvp_vpn_lite.Client.Dial.{
  Network, ClientPathSpec, DialError, close_client_path, dial_client_path,
}

-- What a turn finds: whether the context is done at its start and after a dial, and whether
-- `sleepContext` waits to the end.
pub record Turn : Type 0 where
  pub ctx_done : Bool
  pub ctx_done_after : Bool
  pub slept : Bool

pub data ReconnectEvent : Type 0 where
  turn : Turn → ReconnectEvent
  other : Op → ReconnectEvent

-- The shared state, with the delays that were waited for and the paths whose receiving loop was
-- started, first to last.
pub record ReconnectState (W : Type 0) : Type 0 where
  pub network : W
  pub path_set : ClientPathSet
  pub counters : Counters
  pub backoff : ReconnectBackoff
  pub delays : List ℤ
  pub receivers : List ClientPath

module _ {W : Type 0} (net : Network W) where
  -- `sleepContext(ctx, delay)` and the end of the turn.
  unfoldable pub sleep :
      (ReconnectState W → Outcome (ReconnectState W))
      → Bool
      → ℤ
      → ReconnectState W
      → Outcome (ReconnectState W)
  sleep again slept delay st =
      let st' = record st { delays = st.delays ++ (delay ∷ []) } in
      if slept then again st' else stopped st'

  abbrev pub close_replaced : Option ClientPath → W → W
  close_replaced none w = w
  close_replaced (some old) w = close_client_path net old w

  unfoldable pub after_reconnect_dial :
      (ReconnectState W → Outcome (ReconnectState W))
      → Turn
      → ReconnectState W
      → Result DialError ClientPath × W
      → Outcome (ReconnectState W)
  unfolding sleep
  after_reconnect_dial again t st (ok path, w) =
      let (replaced, set) = add st.path_set path in
      again (record st {
        network = close_replaced replaced w;
        path_set = set;
        backoff = reset st.backoff;
        receivers = st.receivers ++ (path ∷ []);
      })
  after_reconnect_dial again t st (err e, w) =
      let (delay, backoff) = next_delay st.backoff in
      if t.ctx_done_after
      then stopped (record st { network = w })
      else sleep again t.slept delay
          (record st { network = w; counters = add_error st.counters; backoff = backoff })
  after_reconnect_dial again t st (panic, w) = crashed

  module _ (spec : ClientPathSpec) (min_delay : ℤ) where
    unfoldable pub reconnect_turn :
        (ReconnectState W → Outcome (ReconnectState W))
        → Turn
        → ReconnectState W
        → Outcome (ReconnectState W)
    unfolding after_reconnect_dial
    reconnect_turn again t st =
        if t.ctx_done
        then stopped st
        else if has_path_id st.path_set spec.id
        then sleep again t.slept min_delay st
        else after_reconnect_dial again t st (dial_client_path net spec st.network)

    pub reconnect_client_path : List ReconnectEvent → ReconnectState W → Outcome (ReconnectState W)
    unfolding reconnect_turn
    reconnect_client_path [] st = waiting st
    reconnect_client_path (turn t ∷ events) st = reconnect_turn (reconnect_client_path events) t st
    reconnect_client_path (other op ∷ events) st =
        reconnect_client_path events (record st { path_set = step st.path_set op })
