-- ===== src/Client/TunRun/Tests.antt =====
-- A TUN client whose first path cannot be dialled at the start, and comes back.
use mvp_vpn_lite.Base.{ℕ, suc, ◌≡◌, refl, arith, true, false, none, List, [], ◌∷◌, ok}
use mvp_vpn_lite.Base.Handles.{without}
use mvp_vpn_lite.Base.Int.{pos}
use mvp_vpn_lite.Io.{other_error}
use mvp_vpn_lite.Policy.{new_packet_policy}
use mvp_vpn_lite.Stats.{no_counts, add_error}
use mvp_vpn_lite.Tls.Sample.{no_files}
use mvp_vpn_lite.Tls.{TlsConfig, config_with, client_tls_config, client_roots_config}
use mvp_vpn_lite.Client.Path.{ClientPath}
use mvp_vpn_lite.Client.PathSet.{
  ClientPathSet, new_client_path_set, add, replace_path, append_path, remove, remove_path,
  has_path_id, has_id,
}
use mvp_vpn_lite.Client.Backoff.{normalize_tun_reconnect_intervals, new_reconnect_backoff, reset}
use mvp_vpn_lite.Client.Demo.{ClientStreams}
use mvp_vpn_lite.Client.Dial.{
  Network, client_path_specs, dial_available_client_paths, dial_available, after_try,
  dial_client_path, after_dial_addr, after_open_stream, close_client_path,
}
use mvp_vpn_lite.Client.Dial.Sample.{Counts, network, network-Counting, sum, New-above}
use mvp_vpn_lite.Client.Receive.{stop_receiving}
use mvp_vpn_lite.Client.Reconnect.{ReconnectState, after_reconnect_dial, reconnect_turn}
use mvp_vpn_lite.Loop.{waiting}
use mvp_vpn_lite.Client.Run.Safety.{Steady}
use mvp_vpn_lite.Client.TunRun.{
  TunClientConfig, Tun, TunClient, check_tun_config, after_tls, after_open_device, after_tun_check,
  start_tun_client,
}
use mvp_vpn_lite.Client.TunRun.Start.{Opening, Started, start-Started}
use mvp_vpn_lite.Client.TunRun.Lifetime.{Step, Steps}
use mvp_vpn_lite.Client.TunRun.End.{ctx_done, received, end_tun_client}
use mvp_vpn_lite.Client.TunRun.End.Closes.{Ends, run_tun_client-Ends}

-- The devices that are open; a new one is above all of them.
abbrev tun : Tun (List ℕ)
tun = record {
  open_device = λ name d. (ok (suc (sum d)), suc (sum d) ∷ d);
  close_device = λ device d. without device d;
}

tun-Opening : Opening tun (λ d. d)
tun-Opening = record {
  open_ok = λ name d d' device e.
      let same : device ≡ suc (sum d) = ground arith in
      (rw same (New-above d (suc (sum d)) (omega arith)), ground arith);
  open_err = λ name d d' x e. absurd (cc e);
  open-ne-panic = λ name d e. cc;
  close_one = λ device d. refl;
}

abbrev net : TlsConfig → Network Counts
net tls_config = network

abbrev io : ClientStreams Counts
io = record {
  write = λ stream w bytes. (none, w);
  reader = λ stream w. record { pending = []; end = other_error 0 };
  after_read = λ stream w r. w;
  set_deadline = λ stream on w. (none, w);
}

io-Steady : Steady io (λ w. w.open_conns)
io-Steady = record {
  write_keeps = λ stream w bytes. refl;
  read_keeps = λ stream w r. refl;
  deadline_keeps = λ stream on w. refl;
}

abbrev cfg : TunClientConfig
cfg = record {
  server0 = "a:1";
  server1 = "b:1";
  ca_file = "";
  server_name = "localhost";
  client_cert_file = "";
  client_key_file = "";
  tun_allowed_cidr = "";
  device_name = "vpn0";
  reconnect_min_interval = pos 0;
  reconnect_max_interval = pos 0;
}

abbrev start : Counts
start = record { dials = 0; open_conns = [] }

abbrev path1 : ClientPath
path1 = record { id = 1; address = "b:1"; conn = 1; stream = 101 }

abbrev path0 : ClientPath
path0 = record { id = 0; address = "a:1"; conn = 2; stream = 102 }

abbrev client : TunClient
client = record {
  checked = record {
    min_delay = pos 1_000_000_000;
    max_delay = pos 30_000_000_000;
    policy = record { allowed_cidr = none };
  };
  device = 1;
  tls_config = record (config_with []) { server_name = "localhost"; insecure_skip_verify = true };
  path_specs = record { id = 0; address = "a:1" } ∷ record { id = 1; address = "b:1" } ∷ [];
  path_set = record { paths = path1 ∷ []; next = 0; health = λ id. none };
}

tls_given : client_tls_config no_files "" "localhost" "" "" ≡ ok client.tls_config
unfolding client_tls_config client_roots_config
tls_given = refl

started : start_tun_client tun net (λ w. false) (λ cidr. none) no_files cfg [] start ≡ record {
  result = ok client;
  devices = 1 ∷ [];
  network = record { dials = 2; open_conns = 1 ∷ [] };
  counters = record no_counts { errors = 1 };
}
unfolding start_tun_client after_tun_check check_tun_config after_open_device after_tls
    normalize_tun_reconnect_intervals new_packet_policy client_tls_config client_roots_config
    client_path_specs dial_available_client_paths dial_available after_try dial_client_path
    after_dial_addr after_open_stream new_client_path_set add_error
started = refl

start-Started_example :
    Started tun net
      (λ d. d)
      (λ w. w.open_conns)
      []
      []
      (start_tun_client tun net (λ w. false) (λ cidr. none) no_files cfg [] start)
start-Started_example =
    start-Started tun net (λ d. d) (λ w. w.open_conns) (λ w. false) tun-Opening
      (λ tls_config. network-Counting) (λ cidr. none) no_files cfg [] start (λ e. cc (tls_given, e))

-- The loop of the first path finds it gone and dials it again.
abbrev before : ReconnectState Counts
before = record {
  network = record { dials = 2; open_conns = 1 ∷ [] };
  path_set = client.path_set;
  counters = no_counts;
  backoff = new_reconnect_backoff client.checked.min_delay client.checked.max_delay;
  delays = [];
  receivers = [];
}

abbrev after : ReconnectState Counts
after = record before {
  network = record { dials = 3; open_conns = 2 ∷ 1 ∷ [] };
  path_set = (add client.path_set path0).1;
  receivers = path0 ∷ [];
}

reconnected :
    reconnect_turn network
      (record { id = 0; address = "a:1" })
      (pos 1_000_000_000)
      waiting
      (record { ctx_done = false; ctx_done_after = false; slept = true })
      before
    ≡ waiting after
unfolding reconnect_turn has_path_id has_id after_reconnect_dial dial_client_path after_dial_addr
    after_open_stream add replace_path append_path reset new_reconnect_backoff
reconnected = refl

-- Then the receiving loop of the second path ends.
abbrev end : ClientPathSet × Counts
end = stop_receiving (close_client_path network) path1 after.path_set after.network

run_tun_client-Ends_example :
    Ends
      (λ d. d)
      (λ w. w.open_conns)
      []
      []
      1
      end.0.paths
      (received (other_error 1) ∷ ctx_done ∷ [])
      (end_tun_client tun net
        (λ w. false)
        client
        (received (other_error 1) ∷ ctx_done ∷ [])
        end.0
        (start_tun_client tun net (λ w. false) (λ cidr. none) no_files cfg [] start).devices
        end.1)
unfolding start_tun_client after_tun_check check_tun_config after_open_device after_tls
    normalize_tun_reconnect_intervals new_packet_policy client_tls_config client_roots_config
    client_path_specs dial_available_client_paths dial_available after_try dial_client_path
    after_dial_addr after_open_stream new_client_path_set add_error
run_tun_client-Ends_example =
    run_tun_client-Ends tun net io (λ w. false) (λ d. d) (λ w. w.open_conns) tun-Opening
      (λ tls_config. network-Counting) io-Steady (λ cidr. none) no_files cfg [] start end.1 client
      end.0 (received (other_error 1) ∷ ctx_done ∷ []) (λ e. cc (tls_given, e)) refl
      (Steps.more _ _ _ (Step.turns _ _ _ before after reconnected)
        (Steps.more _ _ _ (Step.receiver_ends path1 after.path_set after.network) (Steps.done _)))

-- Of the two connections the one of the second path is closed.
left_open : end.1.open_conns ≡ 2 ∷ []
unfolding stop_receiving add replace_path append_path remove remove_path close_client_path without
left_open = refl
