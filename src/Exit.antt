-- ===== src/Exit.antt =====
-- How the mains of cmd/client/main.go and cmd/server/main.go end: log.Fatal exits with status 1, and the
-- error of a context that was cancelled, as by SIGINT, is none.
use mvp_vpn_lite.Base.{ℕ, ◌≡◌, refl, arith, Option, none, some, ◌⊎◌, inl, inr}
use mvp_vpn_lite.Client.TunRun.End.{PumpError, canceled, failed}
use mvp_vpn_lite.Server.Listen.{StopError, listen_failed, accept_failed, device_failed}
use mvp_vpn_lite.Server.Serve.{ServeError, start_failed, stopped}

-- The TUN client, once started.
unfoldable pub tun_client_status : PumpError → ℕ
tun_client_status canceled = 0
tun_client_status (failed e) = 1

unfoldable pub server_status : Option ServeError → ℕ
server_status none = 0
server_status (some (start_failed e)) = 1
server_status (some (stopped StopError.canceled)) = 0
server_status (some (stopped (listen_failed path_id address e))) = 1
server_status (some (stopped (accept_failed path_id e))) = 1
server_status (some (stopped (device_failed e))) = 1

-- The server's main ends well only without an error or with that of the context.
server_status-eq-zero :
    (e : Option ServeError)
    → server_status e ≡ 0
    → (e ≡ none) ⊎ (e ≡ some (stopped StopError.canceled))
unfolding server_status
server_status-eq-zero none h = inl refl
server_status-eq-zero (some (start_failed e)) h = absurd (omega (arith, h))
server_status-eq-zero (some (stopped StopError.canceled)) h = inr refl
server_status-eq-zero (some (stopped (listen_failed path_id address e))) h =
    absurd (omega (arith, h))
server_status-eq-zero (some (stopped (accept_failed path_id e))) h = absurd (omega (arith, h))
server_status-eq-zero (some (stopped (device_failed e))) h = absurd (omega (arith, h))
