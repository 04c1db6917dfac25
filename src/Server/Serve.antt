-- ===== src/Server/Serve.antt =====
-- internal/quictransport/server.go: RunServer and runTUNServer to their end, with the loops that wait
-- for the context or for what the goroutines send on `errCh`.
pub mod Blocks
mod Tests
use Prim.Native.String.{String}
use mvp_vpn_lite.Base.{
  ℕ, zero, suc, Option, none, some, List, [], ◌∷◌, Result, ok, err, panic, length,
}
use mvp_vpn_lite.Net.{IpNet}
use mvp_vpn_lite.Tls.{Crypto}
use mvp_vpn_lite.Client.TunRun.{Tun}
use mvp_vpn_lite.Server.Listen.{StopError, canceled}
use mvp_vpn_lite.Server.Run.{
  ServerConfig, ServerError, ServerMode, ServerStart, demo, tun, start_server,
}

-- What `select` takes: the context is done, or an error (or nil) comes from `errCh`.
pub data Signal : Type 0 where
  ctx_done : Signal
  received : Option StopError → Signal

pub data ServeError : Type 0 where
  start_failed : ServerError → ServeError
  stopped : StopError → ServeError

pub data RunEnd (D : Type 0) : Type 0 where
  running : D → RunEnd D
  finished : Option ServeError → D → RunEnd D
  crashed : RunEnd D

-- The loop of `RunServer`, which takes at most one nil from each listener, given what to do at a
-- return and at the end of the signals.
unfoldable pub wait_listeners : {A : Type 0} → (Option ServeError → A) → A → ℕ → List Signal → A
wait_listeners return blocked zero signals = return none
wait_listeners return blocked (suc n) [] = blocked
wait_listeners return blocked (suc n) (ctx_done ∷ signals) = return (some (stopped canceled))
wait_listeners return blocked (suc n) (received (some e) ∷ signals) = return (some (stopped e))
wait_listeners return blocked (suc n) (received none ∷ signals) =
    wait_listeners return blocked n signals

-- The loop of `runTUNServer`.
unfoldable pub wait_session : {A : Type 0} → (Option ServeError → A) → A → List Signal → A
wait_session return blocked [] = blocked
wait_session return blocked (ctx_done ∷ signals) = return (some (stopped canceled))
wait_session return blocked (received (some e) ∷ signals) = return (some (stopped e))
wait_session return blocked (received none ∷ signals) = wait_session return blocked signals

module _ {D : Type 0} (tun_package : Tun D) (signals : List Signal) where
  -- The mode's loop. At the end of the TUN mode the device is closed twice, by the deferred call of
  -- `runTUNServer` and by its goroutine that waits for the context, which is then done too.
  pub serve_mode : ℕ → D → ServerMode → RunEnd D
  unfolding wait_listeners wait_session
  serve_mode started d demo = wait_listeners (λ error. finished error d) (running d) started signals
  serve_mode started d (tun device policy session) =
      wait_session
        (λ error.
          finished error (tun_package.close_device device (tun_package.close_device device d)))
        (running d) signals

  -- After the start.
  pub after_start : Result ServerError ServerStart × D → RunEnd D
  unfolding serve_mode
  after_start (ok start, d) = serve_mode (length start.listeners) d start.mode
  after_start (err e, d) = finished (some (start_failed e)) d
  after_start (panic, d) = crashed

  pub run_server : (String → Option IpNet) → Crypto → ServerConfig → D → RunEnd D
  unfolding after_start
  run_server parse_cidr crypto cfg d =
      after_start (start_server tun_package parse_cidr crypto cfg d)
