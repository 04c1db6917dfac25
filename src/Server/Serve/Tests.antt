-- ===== src/Server/Serve/Tests.antt =====
-- A TUN server of which a listener fails, and the demo's loop.
use mvp_vpn_lite.Base.{◌≡◌, refl, true, none, some, List, [], ◌∷◌}
use mvp_vpn_lite.Io.{other_error}
use mvp_vpn_lite.Server.Listen.{accept_failed, canceled}
use mvp_vpn_lite.Server.Run.Sample.{tun, tun-Opening, with_files, cfg, quiet}
use mvp_vpn_lite.Server.Serve.{Signal, ctx_done, received, wait_listeners, run_server, stopped}
use mvp_vpn_lite.Server.Serve.Blocks.{Blocks, run_server-Blocks}

abbrev signals : List Signal
signals = received (some (accept_failed 0 (other_error 2))) ∷ ctx_done ∷ []

run_server-Blocks_example :
    Blocks
      (λ d. d)
      true
      (4 ∷ [])
      signals
      (run_server tun signals (λ cidr. none) with_files cfg (4 ∷ []))
run_server-Blocks_example =
    run_server-Blocks tun (λ d. d) tun-Opening with_files cfg signals (tt, (tt, tt)) (λ cidr. none)
      (4 ∷ []) quiet

-- A nil from a listener leaves the loop one message fewer.
nil_counts : wait_listeners (λ error. error) (some (stopped canceled)) 1 (received none ∷ []) ≡ none
unfolding wait_listeners
nil_counts = refl
