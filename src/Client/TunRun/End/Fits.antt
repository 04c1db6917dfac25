-- ===== src/Client/TunRun/End/Fits.antt =====
-- The errors of the goroutines that pumpTUN starts find room in its channel.
use mvp_vpn_lite.Base.{◌+◌, ◌≤◌, ◌≡◌, arith, none, some, List, [], ◌∷◌, ◌++◌, length, length-append}
use mvp_vpn_lite.Io.{IoError}
use mvp_vpn_lite.Loop.{Run, returned, crashed, unfinished, Outcome, waiting, stopped, gave_up}
use mvp_vpn_lite.Client.Receive.{ReceiveState}
use mvp_vpn_lite.Client.TunRun.{TunClient}
use mvp_vpn_lite.Client.TunRun.End.{
  receiver_errors, sender_errors, error_capacity, max_tun_client_errors,
}

sent_errors : {D S : Type 0} → List (Run (ReceiveState D)) → Outcome S → List IoError
sent_errors [] sender = sender_errors sender
sent_errors (receiver ∷ receivers) sender = receiver_errors receiver ++ sent_errors receivers sender

receiver_one :
    {D : Type 0} (receiver : Run (ReceiveState D)) → length (receiver_errors receiver) ≤ 1
unfolding receiver_errors
receiver_one (returned st) =
    elim st.fatal as (λ f. length (elim f [ none ↦ [] | some e ↦ e ∷ [] ]) ≤ 1) [
      | none ↦ omega arith
      | some e ↦ omega arith
    ]
receiver_one crashed = omega arith
receiver_one unfinished = omega arith

sender_one : {S : Type 0} (sender : Outcome S) → length (sender_errors sender) ≤ 1
unfolding sender_errors
sender_one (gave_up e st) = omega arith
sender_one (waiting st) = omega arith
sender_one (stopped st) = omega arith
sender_one Outcome.crashed = omega arith

all_one :
    {D S : Type 0} (receivers : List (Run (ReceiveState D))) (sender : Outcome S)
    → length (sent_errors receivers sender) ≤ length receivers + 1
unfolding sent_errors
all_one [] sender = omega (arith, sender_one sender)
all_one (receiver ∷ receivers) sender = omega (
  arith,
  receiver_one receiver,
  all_one receivers sender,
  length-append (receiver_errors receiver) (sent_errors receivers sender),
)

-- As long as no path has come back, no goroutine blocks on `errCh`: the errors of the receiving loops,
-- one for each path, and of the loop that sends, however they end, are at most its capacity.
sent_errors-fit :
    {D S : Type 0} (client : TunClient) (receivers : List (Run (ReceiveState D)))
    (sender : Outcome S)
    → length receivers ≡ length client.path_set.paths
    → length (sent_errors receivers sender) ≤ error_capacity client
unfolding error_capacity max_tun_client_errors
sent_errors-fit client receivers sender e = ground (arith, all_one receivers sender)
