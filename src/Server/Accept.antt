-- ===== src/Server/Accept.antt =====
-- internal/quictransport/server.go: handleQUICConnection and handleTUNQUICConnection, which accept one
-- stream of a connection and hand it to their loops. What other goroutines do to the session during
-- the TUN loop is a list of calls.
pub mod Closes
mod Tests
use mvp_vpn_lite.Base.{ℕ, Bool, List, Result, ok, err, panic, if◌then◌else◌}
use mvp_vpn_lite.Base.Act.{Act}
use mvp_vpn_lite.Io.{IoError, Reader, Write}
use mvp_vpn_lite.Net.{Ip}
use mvp_vpn_lite.Policy.{PacketPolicy}
use mvp_vpn_lite.Stats.{Counters, add_error}
use mvp_vpn_lite.Loop.{Run, returned, crashed, unfinished}
use mvp_vpn_lite.Server.Session.{ServerTunSession, add_path, remove_path}
use mvp_vpn_lite.Server.Session.Invariant.{Op, run}
use mvp_vpn_lite.Server.Connection.{ConnectionState, receive_frames}
use mvp_vpn_lite.Server.Demo.{StreamState, handle_quic_stream}

-- `conn.AcceptStream`, the closing calls, and the bytes that a stream will give.
pub record ServerQuic (W : Type 0) : Type 0 where
  pub accept_stream : ℕ → Act W IoError ℕ
  pub close_conn : ℕ → W → W
  pub close_stream : ℕ → W → W
  pub reader : ℕ → W → Reader

-- The network, and the state of the handler.
pub record Handled (W S : Type 0) : Type 0 where
  pub network : W
  pub state : S

module _ {W S : Type 0} (quic : ServerQuic W) where
  -- The deferred calls of both handlers.
  pub finish : ℕ → ℕ → W → Run S → Run (Handled W S)
  finish conn stream w (returned s) =
      returned (record { network = quic.close_conn conn (quic.close_stream stream w); state = s })
  finish conn stream w crashed = crashed
  finish conn stream w unfinished = unfinished

  -- After `conn.AcceptStream`, with the handler's loop.
  pub after_accept :
      Bool → (S → S) → (ℕ → W → S → Run S) → ℕ → S → Result IoError ℕ × W → Run (Handled W S)
  after_accept ctx_done count_error loop conn s (ok stream, w) =
      finish conn stream w (loop stream w s)
  after_accept ctx_done count_error loop conn s (err e, w) =
      returned
        (record { network = quic.close_conn conn w; state = if ctx_done then s else count_error s })
  after_accept ctx_done count_error loop conn s (panic, w) = crashed

pub record DemoHandler (X : Type 0) : Type 0 where
  pub writer : X
  pub counters : Counters

pub record TunHandler (D : Type 0) : Type 0 where
  pub session : ServerTunSession
  pub device : D
  pub counters : Counters

-- What a loop leaves, as the handler's state.
abbrev pub map_run : {S T : Type 0} → (S → T) → Run S → Run T
map_run f (returned s) = returned (f s)
map_run f crashed = crashed
map_run f unfinished = unfinished

module _ {W X : Type 0} (quic : ServerQuic W) (write : Write X) (virtual_ip client_ip : Ip)
    (ctx_done : Bool) where
  pub demo_loop : ℕ → ℕ → W → DemoHandler X → Run (DemoHandler X)
  demo_loop fuel stream w h =
      map_run (λ (end : StreamState X). record { writer = end.writer; counters = end.counters })
        (handle_quic_stream write virtual_ip client_ip fuel
          (record { reader = quic.reader stream w; writer = h.writer; counters = h.counters }))

  pub handle_quic_connection : ℕ → ℕ → Handled W (DemoHandler X) → Run (Handled W (DemoHandler X))
  handle_quic_connection fuel conn h =
      after_accept quic ctx_done (λ s. record s { counters = add_error s.counters })
        (demo_loop fuel) conn h.state (quic.accept_stream conn h.network)

module _ {W D : Type 0} (quic : ServerQuic W) (write_device : Write D) (policy : PacketPolicy)
    (ctx_done : Bool) (meanwhile : List Op) where
  -- From `session.addPath` to `session.removePath`.
  pub tun_loop : ℕ → ℕ → ℕ → W → TunHandler D → Run (TunHandler D)
  tun_loop fuel path_id stream w h =
      let joined = run (add_path h.session path_id stream) meanwhile in
      map_run
        (λ (end : ConnectionState D). record {
          session = remove_path joined stream;
          device = end.device;
          counters = end.counters;
        })
        (receive_frames write_device policy ctx_done fuel
          (record { reader = quic.reader stream w; device = h.device; counters = h.counters }))

  pub handle_tun_quic_connection :
      ℕ → ℕ → ℕ → Handled W (TunHandler D) → Run (Handled W (TunHandler D))
  handle_tun_quic_connection fuel path_id conn h =
      after_accept quic ctx_done (λ s. record s { counters = add_error s.counters })
        (tun_loop fuel path_id) conn h.state (quic.accept_stream conn h.network)
