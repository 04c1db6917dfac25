-- ===== src/Server/Listen/Tests.antt =====
-- A listener that accepts two connections and then finds its context done.
use mvp_vpn_lite.Base.{ℕ, suc, ◌≡◌, refl, arith, true, none, some, List, [], ◌∷◌, ok}
use mvp_vpn_lite.Base.Handles.{without}
use mvp_vpn_lite.Client.Dial.Sample.{sum, New-above}
use mvp_vpn_lite.Io.{other_error}
use mvp_vpn_lite.Stats.{no_counts}
use mvp_vpn_lite.Stats.Flow.{drop}
use mvp_vpn_lite.Server.Listen.{
  Listening, ListenEvent, accepted, failed, other, canceled, serve_quic_path, serve_tun_quic_path,
}
use mvp_vpn_lite.Server.Listen.Ends.{Listeners, Ends, serve_quic_path-Ends}

-- The listeners that are open; a new one is above all of them.
abbrev listening : Listening (List ℕ)
listening = record {
  listen_addr = λ addr n. (ok (suc (sum n)), suc (sum n) ∷ n);
  close_listener = λ listener n. without listener n;
}

listening-Listeners : Listeners listening (λ n. n)
listening-Listeners = record {
  listen_ok = λ addr w w' listener e.
      let same : listener ≡ suc (sum w) = ground arith in
      (rw same (New-above w (suc (sum w)) (omega arith)), ground arith);
  listen_err = λ addr w w' x e. absurd (cc e);
  listen-ne-panic = λ addr w e. cc;
  close_one = λ listener w. refl;
}

abbrev events : List ListenEvent
events = accepted 1 ∷ other drop ∷ accepted 2 ∷ failed (other_error 0) true ∷ accepted 3 ∷ []

serve_quic_path-Ends_example :
    Ends listening
      (λ n. n)
      (some canceled)
      0
      (5 ∷ [])
      "a:1"
      events
      no_counts
      (ok 6, 6 ∷ 5 ∷ [])
      (serve_quic_path listening 0 "a:1" events no_counts (5 ∷ []))
    × Ends listening
        (λ n. n)
        none
        0
        (5 ∷ [])
        "a:1"
        events
        no_counts
        (ok 6, 6 ∷ 5 ∷ [])
        (serve_tun_quic_path listening 0 "a:1" events no_counts (5 ∷ []))
serve_quic_path-Ends_example =
    serve_quic_path-Ends listening (λ n. n) listening-Listeners 0 "a:1" events no_counts (5 ∷ [])
