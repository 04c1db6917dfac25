-- ===== src/Server/Serve/Blocks.antt =====
-- RunServer blocks until its context is done or one of its goroutines fails, and keeps no device.
use Prim.Native.String.{String}
use mvp_vpn_lite.Base.{
  ℕ, zero, suc, ◌<◌, ◌≡◌, ◌≢◌, refl, ap, ◌∙◌, arith, true, false, Bool, Option, none, some, List,
  [], ◌∷◌, Result, ok, err, panic, length, All,
}
use mvp_vpn_lite.Base.Handles.{without, New}
use mvp_vpn_lite.Net.{IpNet}
use mvp_vpn_lite.Tls.{Crypto, server_tls_config}
use mvp_vpn_lite.Client.TunRun.{Tun}
use mvp_vpn_lite.Client.TunRun.Start.{Opening, close-New}
use mvp_vpn_lite.Server.Listen.{StopError, canceled}
use mvp_vpn_lite.Server.Run.{
  ServerConfig, ServerError, ServerMode, ServerStart, demo, tun, start_server,
}
use mvp_vpn_lite.Server.Run.Start.{ModeFits, StartedFrom, start_server-Started}
use mvp_vpn_lite.Server.Serve.{
  Signal, ctx_done, received, start_failed, stopped, RunEnd, running, finished, crashed,
  wait_listeners, wait_session, serve_mode, after_start, run_server,
}

-- Not a nil from `errCh`.
abbrev pub IsStop : Signal → Type 0
IsStop ctx_done = Unit
IsStop (received none) = ⊥
IsStop (received (some e)) = Unit

-- The error that a signal ends the server with.
abbrev pub EndsIn : Signal → StopError → Type 0
EndsIn ctx_done e = e ≡ canceled
EndsIn (received message) e = message ≡ some e

module _ {D : Type 0} (open_devices : D → List ℕ) where
  -- Without a signal the server runs, in the TUN mode with one device more; with one it has ended. From
  -- the open devices n.
  abbrev pub Blocks : Bool → List ℕ → List Signal → RunEnd D → Type 0
  Blocks true n [] (running d) = (device : ℕ) × New device n × (open_devices d ≡ device ∷ n)
  Blocks false n [] (running d) = open_devices d ≡ n
  Blocks use_tun n (signal ∷ signals) (running d) = ⊥
  Blocks use_tun n [] (finished (some (stopped e)) d) = ⊥
  Blocks use_tun n (signal ∷ signals) (finished (some (stopped e)) d) =
      (open_devices d ≡ n) × EndsIn signal e
  Blocks use_tun n signals (finished (some (start_failed e)) d) = open_devices d ≡ n
  Blocks use_tun n signals (finished none d) = ⊥
  Blocks use_tun n signals crashed = ⊥

module _ {D : Type 0} (tun_package : Tun D) (open_devices : D → List ℕ)
    (opening : Opening tun_package open_devices) where
  closed_twice :
      (n : List ℕ) (device : ℕ) (d : D)
      → New device n
      → open_devices d ≡ device ∷ n
      → open_devices (tun_package.close_device device (tun_package.close_device device d)) ≡ n
  closed_twice n device d new one =
      opening.close_one device (tun_package.close_device device d)
      ∙ ap (without device) (close-New tun_package open_devices opening device n d new one)
      ∙ new

  mode-Blocks :
      (cfg : ServerConfig) (n : List ℕ) (started : ℕ) (d : D) (mode : ServerMode)
      (signals : List Signal)
      → All IsStop signals
      → 0 < started
      → ModeFits cfg n (open_devices d) mode
      → Blocks open_devices cfg.use_tun n signals (serve_mode tun_package signals started d mode)
  unfolding serve_mode wait_listeners wait_session ModeFits
  mode-Blocks cfg n zero d mode signals stops listens fits = absurd (omega arith)
  mode-Blocks cfg n (suc k) d demo [] stops listens (is_demo, same, _, _) = rw is_demo same
  mode-Blocks cfg n (suc k) d demo (ctx_done ∷ signals) stops listens (is_demo, same, _, _) =
      (same, refl)
  mode-Blocks cfg n (suc k) d demo (received (some e) ∷ signals) stops listens
        (is_demo, same, _, _) =
      (same, refl)
  mode-Blocks cfg n (suc k) d demo (received none ∷ signals) (nil, _) listens fits = absurd nil
  mode-Blocks cfg n (suc k) d (tun device policy session) [] stops listens (is_tun, new, one, _) =
      rw is_tun (device, new, one)
  mode-Blocks cfg n (suc k) d (tun device policy session) (ctx_done ∷ signals) stops listens
        (is_tun, new, one, _) =
      (closed_twice n device d new one, refl)
  mode-Blocks cfg n (suc k) d (tun device policy session) (received (some e) ∷ signals) stops
        listens (is_tun, new, one, _) =
      (closed_twice n device d new one, refl)
  mode-Blocks cfg n (suc k) d (tun device policy session) (received none ∷ signals) (nil, _) listens
        fits =
      absurd nil

  module _ (crypto : Crypto) (cfg : ServerConfig) (signals : List Signal)
      (stops : All IsStop signals) where
    start-Blocks :
        (n : List ℕ) (start : Result ServerError ServerStart × D)
        → StartedFrom crypto cfg n (open_devices start.1) start.0
        → Blocks open_devices cfg.use_tun n signals (after_start tun_package signals start)
    unfolding after_start StartedFrom
    start-Blocks n (ok start, d) serves =
        mode-Blocks cfg n (length start.listeners) d start.mode signals stops serves.listens
          serves.fits
    start-Blocks n (err e, d) same = same
    start-Blocks n (panic, d) nil = absurd nil

    -- `RunServer` blocks until its context is done or a goroutine sends an error. The first of these
    -- ends it, with the error of the context or the one sent, never without an error. In the TUN mode
    -- one device that was not open before is open until then; it is closed twice, and exactly the
    -- devices that were open before are then open, as they are where the start fails. The goroutines
    -- send no nil, and the calls of the TUN and TLS packages do not panic; a device that is opened is
    -- new, and closing a device takes out that one, once.
    pub run_server-Blocks :
        (parse_cidr : String → Option IpNet) (d : D)
        → server_tls_config crypto cfg.tls_cert_file cfg.tls_key_file cfg.client_ca_file ≢ panic
        → Blocks open_devices cfg.use_tun
            (open_devices d)
            signals
            (run_server tun_package signals parse_cidr crypto cfg d)
    unfolding run_server
    run_server-Blocks parse_cidr d quiet =
        start-Blocks (open_devices d) (start_server tun_package parse_cidr crypto cfg d)
          (start_server-Started tun_package open_devices opening crypto cfg parse_cidr d quiet)
