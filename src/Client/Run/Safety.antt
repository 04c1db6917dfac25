-- ===== src/Client/Run/Safety.antt =====
-- The requests of RunClient on any network: no panic, and the connections stay as they are.
use mvp_vpn_lite.Base.{
  ℕ, zero, suc, ◌+◌, ◌%◌, ◌^◌, true, false, ◌≡◌, ◌≢◌, refl, ◌∙◌, arith, Bool, Option, none, some,
  List, Result, ok, err, panic, length, get_elem?_lt,
}
use mvp_vpn_lite.Base.Act.{Safe, bind-Safe, lift, modify}
use mvp_vpn_lite.Base.Int.{pos}
use mvp_vpn_lite.Io.{IoError, Reader}
use mvp_vpn_lite.Framing.{write_frame, read_frame}
use mvp_vpn_lite.Framing.Progress.{read_frame-ne-panic, write_frame_keeps}
use mvp_vpn_lite.Packet.Echo.Total.{build_request-ne-panic}
use mvp_vpn_lite.Multipath.{next_path}
use mvp_vpn_lite.Multipath.Rotation
use mvp_vpn_lite.Stats.{Counters, add_rx, add_tx, add_error}
use mvp_vpn_lite.Client.Path.{ClientPath}
use mvp_vpn_lite.Client.Validate.Total.{map_err-ne-panic, validate-ne-panic}
use mvp_vpn_lite.Client.Demo.{
  ClientStreams, DemoError, EchoRequests, DemoState, check, check_result, next_of_paths,
  change_deadline, write_request, read_reply, exchange, exchanges,
}

-- What is done to a stream opens and closes no connection.
pub record Steady {W : Type 0} (io : ClientStreams W) (open_conns : W → List ℕ) : Type 0 where
  pub write_keeps :
      (stream : ℕ) (w : W) (bytes : List ℕ) → open_conns (io.write stream w bytes).1 ≡ open_conns w
  pub read_keeps :
      (stream : ℕ) (w : W) (r : Reader) → open_conns (io.after_read stream w r) ≡ open_conns w
  pub deadline_keeps :
      (stream : ℕ) (on : Bool) (w : W) → open_conns (io.set_deadline stream on w).1 ≡ open_conns w

module _ {W : Type 0} (io : ClientStreams W) (open_conns : W → List ℕ)
    (steady : Steady io open_conns) (cfg : EchoRequests) (n : List ℕ) where
  -- The scheduler is at one of the paths, and the connections n are open.
  pub record Going (s : DemoState W) : Type 0 where
    pub scheduled : Rotation.IsValid s.scheduler
    pub all_paths : s.scheduler.path_count ≡ length cfg.paths
    pub connections : open_conns s.streams ≡ n

  counted : (s : DemoState W) (c : Counters) → Going s → Going (record s { counters = c })
  counted s c g = record {
    scheduled = g.scheduled;
    all_paths = g.all_paths;
    connections = g.connections;
  }

  check-Safe :
      {E : Type 0} (failed : E → DemoError) (s : DemoState W) (e : Option E)
      → Going s
      → ((check failed e s).0 ≢ panic) × Going (check failed e s).1
  check-Safe failed s none g = ((λ e. cc), g)
  check-Safe failed s (some x) g = ((λ e. cc), counted s (add_error s.counters) g)

  check_result-Safe :
      {E A : Type 0} (failed : E → DemoError) (s : DemoState W) (r : Result E A)
      → r ≢ panic
      → Going s
      → ((check_result failed r s).0 ≢ panic) × Going (check_result failed r s).1
  check_result-Safe failed s (ok a) ne g = ((λ e. cc), g)
  check_result-Safe failed s (err x) ne g = ((λ e. cc), counted s (add_error s.counters) g)
  check_result-Safe failed s panic ne g = absurd (ne refl)

  next-Safe : Safe Going (next_of_paths io cfg)
  unfolding next_of_paths next_path
  next-Safe s g =
      let (p, at) = get_elem?_lt cfg.paths s.scheduler.next (omega arith) in
      rw at (
        (λ e. cc),
        record {
          scheduled = Rotation.next-IsValid s.scheduler g.scheduled;
          all_paths = g.all_paths;
          connections = g.connections;
        },
      )

  deadline-Safe :
      (path : ClientPath) (on : Bool) (failed : IoError → DemoError)
      → Safe Going (change_deadline io cfg path on failed)
  unfolding change_deadline
  deadline-Safe path on failed s g =
      check-Safe failed (record s { streams = (io.set_deadline path.stream on s.streams).1 })
        (io.set_deadline path.stream on s.streams).0
        (record {
          scheduled = g.scheduled;
          all_paths = g.all_paths;
          connections = steady.deadline_keeps path.stream on s.streams ∙ g.connections;
        })

  write-Safe :
      (path : ClientPath) (request : List ℕ) → Safe Going (write_request io cfg path request)
  unfolding write_request
  write-Safe path request s g =
      let result = write_frame (io.write path.stream) s.streams request in
      check-Safe (DemoError.write_request_failed path.id) (record s { streams = result.1 }) result.0
        (record {
          scheduled = g.scheduled;
          all_paths = g.all_paths;
          connections =
              write_frame_keeps (io.write path.stream) (λ w. open_conns w ≡ n)
                (λ w bytes e. steady.write_keeps path.stream w bytes ∙ e) s.streams request
                g.connections;
        })

  read-Safe : (path : ClientPath) → Safe Going (read_reply io cfg path)
  unfolding read_reply
  read-Safe path s g =
      let (r, reader) = read_frame (io.reader path.stream s.streams) in
      check_result-Safe (DemoError.read_reply_failed path.id)
        (record s { streams = io.after_read path.stream s.streams reader }) r
        (read_frame-ne-panic (io.reader path.stream s.streams))
        (record {
          scheduled = g.scheduled;
          all_paths = g.all_paths;
          connections = steady.read_keeps path.stream s.streams reader ∙ g.connections;
        })

  lift-Safe : {E A : Type 0} (r : Result E A) → r ≢ panic → Safe Going (lift {S = DemoState W} r)
  lift-Safe r ne s g = (ne, g)

  modify-Safe :
      {E : Type 0} (f : DemoState W → DemoState W)
      → ((s : DemoState W) → Going s → Going (f s))
      → Safe Going (modify {E = E} f)
  modify-Safe f kept s g = ((λ e. cc), kept s g)

  exchange-Safe : (i : ℕ) → Safe Going (exchange io cfg i)
  unfolding exchange
  exchange-Safe i = bind-Safe Going _ _ next-Safe λ path.
      bind-Safe Going _ _
        (lift-Safe _ (
          map_err-ne-panic _ _ (
            build_request-ne-panic cfg.client_ipv4 cfg.virtual_ipv4 cfg.identifier
              ((i + 1) % 2 ^ 16) cfg.payload)))
        λ request.
          bind-Safe Going _ _ (deadline-Safe path true (DemoError.set_deadline_failed path.id)) λ _.
            bind-Safe Going _ _ (write-Safe path request) λ _.
              bind-Safe Going _ _
                (modify-Safe _ (λ s. counted s (add_tx s.counters (pos (length request)))))
                λ _. bind-Safe Going _ _ (read-Safe path) λ reply.
                  bind-Safe Going _ _
                    (modify-Safe _ (λ s. counted s (add_rx s.counters (pos (length reply)))))
                    λ _.
                      bind-Safe Going _ _
                        (λ s. check_result-Safe (DemoError.validate_reply_failed path.id) s _ (
                          validate-ne-panic reply cfg.virtual_ipv4 cfg.client_ipv4 cfg.identifier
                            ((i + 1) % 2 ^ 16) cfg.payload))
                        λ _. deadline-Safe path false (DemoError.clear_deadline_failed path.id)

  -- The requests do not panic, and leave the open connections as they are.
  pub exchanges-Safe : (left i : ℕ) → Safe Going (exchanges io cfg left i)
  unfolding exchanges
  exchanges-Safe zero i s g = ((λ e. cc), g)
  exchanges-Safe (suc left) i s g =
      bind-Safe Going _ _ (exchange-Safe i) (λ _. exchanges-Safe left (i + 1)) s g
