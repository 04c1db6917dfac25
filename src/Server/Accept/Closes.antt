-- ===== src/Server/Accept/Closes.antt =====
-- The handlers of a connection return, close the connection and leave the session.
use mvp_vpn_lite.Base.{
  ℕ, ◌-◌, ◌<◌, ◌≡◌, ◌≢◌, refl, sym, arith, Bool, List, ◌∷◌, Result, ok, err, panic, length,
  Bool-cases, inl, inr,
}
use mvp_vpn_lite.Io.{IoError, Write}
use mvp_vpn_lite.Net.{Ip}
use mvp_vpn_lite.Policy.{PacketPolicy}
use mvp_vpn_lite.Stats.{add_error}
use mvp_vpn_lite.Loop.{Run, returned}
use mvp_vpn_lite.Server.Session.{ServerPath, ServerTunSession}
use mvp_vpn_lite.Server.Session.Invariant.{Op, joins, Avoids, Fresh, run}
use mvp_vpn_lite.Server.Demo.Total.{handle_total}
use mvp_vpn_lite.Server.Accept.{
  ServerQuic, Handled, finish, after_accept, DemoHandler, demo_loop, handle_quic_connection,
}

-- How the QUIC calls count the open connections. They do not panic, and a stream has less than the
-- given number of bytes to give.
pub record Serving {W : Type 0} (quic : ServerQuic W) (open_conns : W → ℕ) (fuel : ℕ) : Type 0 where
  pub accept_keeps : (conn : ℕ) (w : W) → open_conns (quic.accept_stream conn w).1 ≡ open_conns w
  pub accept-ne-panic : (conn : ℕ) (w : W) → (quic.accept_stream conn w).0 ≢ panic
  pub close_one : (conn : ℕ) (w : W) → open_conns (quic.close_conn conn w) ≡ open_conns w - 1
  pub close_stream_keeps :
      (stream : ℕ) (w : W) → open_conns (quic.close_stream stream w) ≡ open_conns w
  pub enough : (stream : ℕ) (w : W) → length (quic.reader stream w).pending < fuel

-- The handler has returned with a state of this kind, n connections being open.
abbrev pub Closed : {W S : Type 0} → (W → ℕ) → ℕ → (S → Type 0) → Run (Handled W S) → Type 0
Closed {W} {S} open_conns n P run =
    (end : Handled W S) × (run ≡ returned end) × (open_conns end.network ≡ n) × P end.state

module _ {W S : Type 0} (quic : ServerQuic W) (open_conns : W → ℕ) (fuel : ℕ)
    (serving : Serving quic open_conns fuel) (P : S → Type 0) where
  finish-Closed :
      (conn stream : ℕ) (w : W) (run : Run S) (end : S)
      → run ≡ returned end
      → P end
      → Closed open_conns (open_conns w - 1) P (finish quic conn stream w run)
  unfolding finish
  finish-Closed conn stream w run end e p = rw e (
    _,
    refl,
    omega (
      arith,
      serving.close_one conn (quic.close_stream stream w),
      serving.close_stream_keeps stream w,
    ),
    p,
  )

  accept-Closed :
      (ctx_done : Bool) (count_error : S → S) (loop : ℕ → W → S → Run S) (conn : ℕ) (s : S)
      (result : Result IoError ℕ × W)
      → result.0 ≢ panic
      → ((stream : ℕ) (w : W)
          → result ≡ (ok stream, w)
          → (end : S) × (loop stream w s ≡ returned end) × P end)
      → ((x : IoError) → result.0 ≡ err x → P s × P (count_error s))
      → Closed open_conns
          (open_conns result.1 - 1)
          P
          (after_accept quic ctx_done count_error loop conn s result)
  unfolding after_accept
  accept-Closed ctx_done count_error loop conn s (ok stream, w) ne returns failed =
      let (end, e, r) = returns stream w refl in
      finish-Closed conn stream w (loop stream w s) end e r
  accept-Closed ctx_done count_error loop conn s (err x, w) ne returns failed =
      elim (Bool-cases ctx_done) [
        | inl done ↦ rw done (_, refl, serving.close_one conn w, (failed x refl).0)
        | inr going ↦ rw going (_, refl, serving.close_one conn w, (failed x refl).1)
      ]
  accept-Closed ctx_done count_error loop conn s (panic, w) ne returns failed = absurd (ne refl)

module _ {W D : Type 0} (quic : ServerQuic W) (open_conns : W → ℕ) (fuel : ℕ)
    (serving : Serving quic open_conns fuel) (write_device : Write D) (policy : PacketPolicy)
    (ctx_done : Bool) (meanwhile : List Op) where
  -- The stream that is accepted, if one is, and those that join later are new to the session.
  unfoldable pub New : ℕ → List ServerPath → Result IoError ℕ → Type 0
  New path_id paths (ok stream) = Fresh paths (joins path_id stream ∷ meanwhile)
  New path_id paths _ = Unit

  -- What the accepted stream, if there is one, leaves of the session.
  unfoldable pub Left : Result IoError ℕ → ServerTunSession → ServerTunSession → Type 0
  Left (ok stream) before after = Avoids stream after.paths
  Left _ before after = after ≡ before

module _ {W X : Type 0} (quic : ServerQuic W) (open_conns : W → ℕ) (fuel : ℕ)
    (serving : Serving quic open_conns fuel) (write : Write X) (virtual_ip client_ip : Ip)
    (ctx_done : Bool) where
  demo_loop-returns :
      (stream : ℕ) (w : W) (s : DemoHandler X)
      → (end : DemoHandler X) × (demo_loop quic write virtual_ip client_ip ctx_done fuel stream w s
          ≡ returned end)
        × Unit {0}
  unfolding demo_loop
  demo_loop-returns stream w s =
      let (end, e) =
        handle_total write virtual_ip client_ip fuel
          (record { reader = quic.reader stream w; writer = s.writer; counters = s.counters })
          (serving.enough stream w) in
      rw e (_, refl, tt)

  -- The handler of a demo connection returns, whatever the client sends and the writer does, and has
  -- closed its connection. One more turn than a stream has bytes is enough.
  handle_quic-Closed :
      (conn : ℕ) (h : Handled W (DemoHandler X))
      → Closed open_conns
          (open_conns h.network - 1)
          (λ end. Unit {0})
          (handle_quic_connection quic write virtual_ip client_ip ctx_done fuel conn h)
  unfolding handle_quic_connection
  handle_quic-Closed conn h =
      let result = quic.accept_stream conn h.network in
      rw (sym (serving.accept_keeps conn h.network)) (
        accept-Closed quic open_conns fuel serving (λ end. Unit {0}) ctx_done
          (λ s. record s { counters = add_error s.counters })
          (demo_loop quic write virtual_ip client_ip ctx_done fuel) conn h.state result
          (serving.accept-ne-panic conn h.network)
          (λ stream w e. demo_loop-returns stream w h.state) λ x e. (tt, tt))
