-- ===== src/Client/Reconnect/Tests.antt =====
-- A path that comes back at the second dial.
use mvp_vpn_lite.Base.{◌≡◌, refl, arith, List, [], ◌∷◌, ◌++◌, replicate, none, ok, err}
use mvp_vpn_lite.Base.Int.{pos}
use mvp_vpn_lite.Io.{other_error}
use mvp_vpn_lite.Stats.Flow.{calls, error}
use mvp_vpn_lite.Client.Path.{ClientPath}
use mvp_vpn_lite.Client.PathSet.{append_path}
use mvp_vpn_lite.Client.PathSet.Invariant.{removes}
use mvp_vpn_lite.Client.PathSet.Membership.{has_path_id-find_id}
use mvp_vpn_lite.Client.Backoff.{new_reconnect_backoff}
use mvp_vpn_lite.Client.Dial.{
  ClientPathSpec, dial_failed, dial_client_path, after_dial_addr, after_open_stream,
}
use mvp_vpn_lite.Client.Dial.Sample.{Counts, network, network-Counting}
use mvp_vpn_lite.Client.Reconnect.{ReconnectEvent, other, ReconnectState, reconnect_client_path}
use mvp_vpn_lite.Client.Reconnect.Keeps.{Ends, reconnect-Ends}
use mvp_vpn_lite.Stats.{no_counts}
use mvp_vpn_lite.Client.Reconnect.Recovery.{alive, doubling, Fails, reconnect_recovers}

abbrev spec : ClientPathSpec
spec = record { id = 1; address = "b:1" }

abbrev start : ReconnectState Counts
start = record {
  network = record { dials = 0; open_conns = [] };
  path_set = record { paths = []; next = 0; health = λ id. none };
  counters = no_counts;
  backoff = record { min = pos 3; max = pos 10; current = pos 3 };
  delays = [];
  receivers = [];
}

abbrev path : ClientPath
path = record { id = 1; address = "b:1"; conn = 1; stream = 101 }

abbrev events : List ReconnectEvent
events = alive ∷ alive ∷ other (removes 101) ∷ alive ∷ []

reconnect-Ends_example : Ends 1 3 10 (reconnect_client_path network spec (pos 3) events start)
reconnect-Ends_example =
    reconnect-Ends network (λ w. w.open_conns) network-Counting spec 3 10 (omega arith)
      (omega arith) events start
      (record {
        valid = record { in_range = omega arith; distinct = tt };
        own_paths = tt;
        delays_within = tt;
        next_within = (3, refl, omega arith, omega arith);
      })

first_fails :
    dial_client_path network spec start.network
    ≡ (err (dial_failed 1 "b:1" (other_error 1)), record { dials = 1; open_conns = [] })
unfolding dial_client_path after_dial_addr
first_fails = refl

second_connects :
    dial_client_path network spec (record { dials = 1; open_conns = [] })
    ≡ (ok path, record { dials = 2; open_conns = 1 ∷ [] })
unfolding dial_client_path after_dial_addr after_open_stream
second_connects = refl

reconnect_recovers_example :
    reconnect_client_path network spec (pos 3) (replicate 1 alive ++ alive ∷ []) start
    ≡ reconnect_client_path network spec (pos 3) [] (record start {
      network = record { dials = 2; open_conns = 1 ∷ [] };
      path_set = record start.path_set { paths = append_path [] path };
      counters = calls start.counters (replicate 1 error);
      backoff = new_reconnect_backoff (pos 3) (pos 10);
      delays = doubling 3 10 1 0;
      receivers = path ∷ [];
    })
reconnect_recovers_example =
    reconnect_recovers network spec 3 10 1 [] start (record { dials = 1; open_conns = [] })
      (record { dials = 2; open_conns = 1 ∷ [] }) path (omega arith) (omega arith)
      (has_path_id-find_id start.path_set 1) (unfold new_reconnect_backoff in refl)
      (Fails.again 0 _ _ _ _ first_fails (Fails.done (record { dials = 1; open_conns = [] })))
      second_connects
