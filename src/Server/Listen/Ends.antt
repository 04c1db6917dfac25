-- ===== src/Server/Listen/Ends.antt =====
-- How the goroutine of a listener ends, and that it then listens no more.
use Prim.Native.String.{String}
use mathlib.Core.List.{append_assoc, append-nil}
use mvp_vpn_lite.Base.{
  ℕ, ◌≡◌, ◌≢◌, refl, sym, ap, ◌∙◌, Bool, true, false, Option, none, some, List, [], ◌∷◌, ◌++◌,
  Result, ok, err, panic, if◌then◌else◌,
}
use mvp_vpn_lite.Base.Handles.{without, without_self, without_idem, New}
use mvp_vpn_lite.Io.{IoError}
use mvp_vpn_lite.Stats.{Counters, add_error}
use mvp_vpn_lite.Stats.Flow.{Call, call, calls}
use mvp_vpn_lite.Server.Listen.{
  Listening, StopError, canceled, listen_failed, accept_failed, ListenEvent, accepted, failed,
  other, ListenState, Served, serving, ended, close_after, after_failed_accept, accept_loop,
  after_listen, serve_path, serve_quic_path, serve_tun_quic_path,
}

-- The listeners that are open: ListenAddr gives one that was not, and Close takes out that one.
pub record Listeners {W : Type 0} (listening : Listening W) (open_listeners : W → List ℕ)
    : Type 0 where
  pub listen_ok :
      (addr : String) (w w' : W) (listener : ℕ)
      → listening.listen_addr addr w ≡ (ok listener, w')
      → New listener (open_listeners w) × (open_listeners w' ≡ listener ∷ open_listeners w)
  pub listen_err :
      (addr : String) (w w' : W) (e : IoError)
      → listening.listen_addr addr w ≡ (err e, w')
      → open_listeners w' ≡ open_listeners w
  pub listen-ne-panic : (addr : String) (w : W) → (listening.listen_addr addr w).0 ≢ panic
  pub close_one :
      (listener : ℕ) (w : W)
      → open_listeners (listening.close_listener listener w) ≡ without listener (open_listeners w)

-- The failure of Accept that ends the loop, if there is one, and the connections and calls before it.
pub first_failure : List ListenEvent → Option (IoError × Bool)
first_failure [] = none
first_failure (accepted conn ∷ events) = first_failure events
first_failure (failed e ctx_done ∷ events) = some (e, ctx_done)
first_failure (other x ∷ events) = first_failure events

pub connections : List ListenEvent → List ℕ
connections [] = []
connections (accepted conn ∷ events) = conn ∷ connections events
connections (failed e ctx_done ∷ events) = []
connections (other x ∷ events) = connections events

pub counted : List ListenEvent → List Call
counted [] = []
counted (accepted conn ∷ events) = counted events
counted (failed e ctx_done ∷ events) = []
counted (other x ∷ events) = x ∷ counted events

module _ {W : Type 0} (listening : Listening W) (open_listeners : W → List ℕ)
    (on_cancel : Option StopError) (path_id : ℕ) where
  -- What is sent and counted for a failed Accept.
  abbrev pub sent_for : IoError → Bool → Option StopError
  sent_for e ctx_done = if ctx_done then on_cancel else some (accept_failed path_id e)

  abbrev pub counters_for : Bool → Counters → Counters
  counters_for ctx_done c = if ctx_done then c else add_error c

  -- From the listeners n and its own: it listens until Accept fails, and then no more.
  abbrev pub EndsWith : ℕ → List ℕ → List ℕ → Counters → Option (IoError × Bool) → Served W → Type 0
  EndsWith listener n handled c none (serving st) =
      (open_listeners st.network ≡ listener ∷ n) × (st.handled ≡ handled) × (st.counters ≡ c)
  EndsWith listener n handled c (some (e, ctx_done)) (ended sent st) =
      (open_listeners st.network ≡ n)
      × (st.handled ≡ handled)
      × (st.counters ≡ counters_for ctx_done c)
      × (sent ≡ sent_for e ctx_done)
  EndsWith listener n handled c none (ended sent st) = ⊥
  EndsWith listener n handled c (some failure) (serving st) = ⊥

  abbrev pub Ends :
      List ℕ
      → String
      → List ListenEvent
      → Counters
      → Result IoError ℕ × W
      → Option (Served W)
      → Type 0
  Ends n addr events c (ok listener, w) (some served) =
      New listener n
      × EndsWith listener n (connections events) (calls c (counted events)) (first_failure events)
          served
  Ends n addr events c (err e, w) (some (ended sent st)) =
      (open_listeners st.network ≡ n)
      × (st.handled ≡ [])
      × (st.counters ≡ add_error c)
      × (sent ≡ some (listen_failed path_id addr e))
  Ends n addr events c (err e, w) (some (serving st)) = ⊥
  Ends n addr events c (panic, w) (some served) = ⊥
  Ends n addr events c result none = ⊥

  module _ (laws : Listeners listening open_listeners) where
    closed_twice :
        (listener : ℕ) (n : List ℕ) (st : ListenState W)
        → New listener n
        → open_listeners st.network ≡ listener ∷ n
        → open_listeners (close_after listening on_cancel path_id listener st).network ≡ n
    unfolding close_after
    closed_twice listener n st new o =
        laws.close_one listener (listening.close_listener listener st.network)
        ∙ ap (without listener) (laws.close_one listener st.network)
        ∙ without_idem listener (open_listeners st.network)
        ∙ ap (without listener) o
        ∙ without_self listener n
        ∙ new

    failed-EndsWith :
        (listener : ℕ) (n : List ℕ) (st : ListenState W) (e : IoError) (ctx_done : Bool)
        → New listener n
        → open_listeners st.network ≡ listener ∷ n
        → EndsWith listener n st.handled st.counters
            (some (e, ctx_done))
            (after_failed_accept listening on_cancel path_id listener st e ctx_done)
    unfolding after_failed_accept close_after
    failed-EndsWith listener n st e true new o =
        (closed_twice listener n st new o, refl, refl, refl)
    failed-EndsWith listener n st e false new o =
        (closed_twice listener n st new o, refl, refl, refl)

    loop-EndsWith :
        (listener : ℕ) (n : List ℕ) (events : List ListenEvent) (st : ListenState W)
        → New listener n
        → open_listeners st.network ≡ listener ∷ n
        → EndsWith listener n
            (st.handled ++ connections events)
            (calls st.counters (counted events))
            (first_failure events)
            (accept_loop listening on_cancel path_id listener events st)
    unfolding accept_loop connections counted first_failure calls
    loop-EndsWith listener n [] st new o = (o, sym (append-nil st.handled), refl)
    loop-EndsWith listener n (accepted conn ∷ events) st new o =
        rw (append_assoc st.handled (conn ∷ []) (connections events)) at (
          loop-EndsWith listener n events (record st { handled = st.handled ++ (conn ∷ []) }) new o)
    loop-EndsWith listener n (failed e ctx_done ∷ events) st new o =
        rw (append-nil st.handled) (failed-EndsWith listener n st e ctx_done new o)
    loop-EndsWith listener n (other x ∷ events) st new o =
        loop-EndsWith listener n events (record st { counters = call st.counters x }) new o

    listen-Ends :
        (addr : String) (events : List ListenEvent) (c : Counters) (w : W)
        (result : Result IoError ℕ × W)
        → listening.listen_addr addr w ≡ result
        → Ends
            (open_listeners w)
            addr
            events
            c
            result
            (after_listen listening on_cancel path_id addr events c result)
    unfolding after_listen
    listen-Ends addr events c w (ok listener, w') e =
        let (new, one) = laws.listen_ok addr w w' listener e in
        (
          new,
          loop-EndsWith listener (open_listeners w) events
              (record { network = w'; counters = c; handled = [] }) new one,
        )
    listen-Ends addr events c w (err x, w') e = (laws.listen_err addr w w' x e, refl, refl, refl)
    listen-Ends addr events c w (panic, w') e =
        absurd (laws.listen-ne-panic addr w (ap (λ r. r.0) e))

    serve_path-Ends :
        (addr : String) (events : List ListenEvent) (c : Counters) (w : W)
        → Ends
            (open_listeners w)
            addr
            events
            c
            (listening.listen_addr addr w)
            (serve_path listening on_cancel path_id addr events c w)
    unfolding serve_path
    serve_path-Ends addr events c w = listen-Ends addr events c w _ refl

-- The goroutine of a listener, of the demo and of the TUN mode. Where ListenAddr fails it counts an
-- error, sends it and ends, and the listeners are those before. Otherwise it listens, besides them on a
-- new one, until an Accept fails: it starts a handler for each connection before that, in order, counts
-- nothing but what the others do, and sends nothing. At the failure its listener is closed, twice, and
-- exactly the listeners before are open: with the context done it counts nothing, and the demo's sends
-- the error of the context while that of the TUN mode sends nothing; otherwise either counts one error
-- and sends that of Accept. The calls of the QUIC package do not panic; a listener that is opened is
-- new, and closing one takes out that one.
pub serve_quic_path-Ends :
    {W : Type 0} (listening : Listening W) (open_listeners : W → List ℕ)
    (laws : Listeners listening open_listeners) (path_id : ℕ) (addr : String)
    (events : List ListenEvent) (c : Counters) (w : W)
    → Ends listening open_listeners
        (some canceled)
        path_id
        (open_listeners w)
        addr
        events
        c
        (listening.listen_addr addr w)
        (serve_quic_path listening path_id addr events c w)
      × Ends listening open_listeners none path_id
          (open_listeners w)
          addr
          events
          c
          (listening.listen_addr addr w)
          (serve_tun_quic_path listening path_id addr events c w)
serve_quic_path-Ends listening open_listeners laws path_id addr events c w = (
  serve_path-Ends listening open_listeners (some canceled) path_id laws addr events c w,
  serve_path-Ends listening open_listeners none path_id laws addr events c w,
)
