-- ===== src/Client/TunRun/End.antt =====
-- pumpTUN of internal/quictransport/client.go: the goroutines that it starts, the size of its error
-- channel, and the select that ends it, with the end of RunTUNClient.
pub mod Fits
pub mod Closes
use mvp_vpn_lite.Base.{
  ℕ, ◌+◌, Bool, Option, none, some, List, [], ◌∷◌, ◌++◌, map, length, ltb, if◌then◌else◌,
}
use mvp_vpn_lite.Io.{IoError}
use mvp_vpn_lite.Tls.{TlsConfig}
use mvp_vpn_lite.Loop.{Run, returned, crashed, unfinished, Outcome, gave_up}
use mvp_vpn_lite.Client.Path.{ClientPath}
use mvp_vpn_lite.Client.PathSet.{ClientPathSet}
use mvp_vpn_lite.Client.Dial.{Network, ClientPathSpec}
use mvp_vpn_lite.Client.Receive.{ReceiveState}
use mvp_vpn_lite.Client.TunRun.{Tun, TunClient, stop_tun_client}

pub data Goroutine : Type 0 where
  receive_path_packets : ClientPath → Goroutine
  reconnect_client_path : ClientPathSpec → Goroutine
  send_tun_packets : Goroutine

-- In the order of the `go` statements; RunTUNClient gives a reconnect configuration.
pub pump_goroutines : TunClient → List Goroutine
pump_goroutines client =
    map receive_path_packets client.path_set.paths
    ++ (map reconnect_client_path client.path_specs ++ (send_tun_packets ∷ []))

pub max_tun_client_errors : List ClientPath → List ClientPathSpec → ℕ
max_tun_client_errors paths path_specs =
    if ltb (length paths) (length path_specs) then length path_specs else length paths

-- The capacity of `errCh`.
pub error_capacity : TunClient → ℕ
unfolding max_tun_client_errors
error_capacity client = max_tun_client_errors client.path_set.paths client.path_specs + 1

-- What a receiving loop, and the loop that sends, have sent on `errCh` when they have ended.
pub receiver_errors : {D : Type 0} → Run (ReceiveState D) → List IoError
receiver_errors (returned st) = elim st.fatal [ none ↦ [] | some e ↦ e ∷ [] ]
receiver_errors crashed = []
receiver_errors unfinished = []

pub sender_errors : {S : Type 0} → Outcome S → List IoError
sender_errors (gave_up e st) = e ∷ []
sender_errors _ = []

-- What `select` takes.
pub data PumpSignal : Type 0 where
  ctx_done : PumpSignal
  received : IoError → PumpSignal

pub data PumpError : Type 0 where
  canceled : PumpError
  failed : IoError → PumpError

pub data PumpEnd (D W : Type 0) : Type 0 where
  pumping : D → W → PumpEnd D W
  ended : PumpError → D × W → PumpEnd D W

module _ {D W : Type 0} (tun : Tun D) (net : TlsConfig → Network W) (ctx_done_of : W → Bool) where
  -- The `select` of `pumpTUN`, with the deferred calls of both functions.
  pub end_tun_client : TunClient → List PumpSignal → ClientPathSet → D → W → PumpEnd D W
  end_tun_client client [] set d w = pumping d w
  end_tun_client client (ctx_done ∷ signals) set d w =
      ended canceled (stop_tun_client tun net ctx_done_of client set d w)
  end_tun_client client (received e ∷ signals) set d w =
      ended (failed e) (stop_tun_client tun net ctx_done_of client set d w)
