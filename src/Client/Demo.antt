-- ===== src/Client/Demo.antt =====
-- internal/quictransport/client.go: the request loop of RunClient. What it does to a stream is an
-- interface: the writes, the bytes that a read finds, and the deadline.
use mvp_vpn_lite.Base.{
  ℕ, zero, suc, ◌+◌, ◌%◌, ◌^◌, Bool, true, false, Option, none, some, List, Result, ok, err, panic,
  length, get_elem?, or_panic, map_err,
}
use mvp_vpn_lite.Base.Act.{Act, ◌>>=◌, ◌>>◌, lift, modify}
use mvp_vpn_lite.Base.Int.{pos}
use mvp_vpn_lite.Net.{Ip}
use mvp_vpn_lite.Io.{IoError, Reader, Write}
use mvp_vpn_lite.Packet.Errors.{PacketError}
use mvp_vpn_lite.Packet.Echo.{build_icmp_echo_request}
use mvp_vpn_lite.Framing.{FrameError, read_frame, write_frame}
use mvp_vpn_lite.Multipath.{RoundRobin, next_path}
use mvp_vpn_lite.Stats.{Counters, add_rx, add_tx, add_error}
use mvp_vpn_lite.Client.Path.{ClientPath}
use mvp_vpn_lite.Client.Validate.{ReplyError, validate_echo_reply}

-- The streams by their numbers. `set_deadline` sets the deadline of a request, or clears it.
pub record ClientStreams (W : Type 0) : Type 0 where
  pub write : ℕ → Write W
  pub reader : ℕ → W → Reader
  pub after_read : ℕ → W → Reader → W
  pub set_deadline : ℕ → Bool → W → Option IoError × W

pub data DemoError : Type 0 where
  build_failed : PacketError → DemoError
  set_deadline_failed : ℕ → IoError → DemoError
  write_request_failed : ℕ → FrameError → DemoError
  read_reply_failed : ℕ → FrameError → DemoError
  validate_reply_failed : ℕ → ReplyError → DemoError
  clear_deadline_failed : ℕ → IoError → DemoError

-- What stays the same from one request to the next.
pub record EchoRequests : Type 0 where
  pub paths : List ClientPath
  pub virtual_ipv4 : Ip
  pub client_ipv4 : Ip
  pub identifier : ℕ
  pub payload : List ℕ

pub record DemoState (W : Type 0) : Type 0 where
  pub scheduler : RoundRobin
  pub streams : W
  pub counters : Counters

module _ {W : Type 0} where
  -- `if err != nil { counters.AddError(); return … }`
  abbrev pub check :
      {E : Type 0} → (E → DemoError) → Option E → Act (DemoState W) DemoError (Unit {0})
  check failed none s = (ok tt, s)
  check failed (some e) s = (err (failed e), record s { counters = add_error s.counters })

  abbrev pub check_result :
      {E A : Type 0} → (E → DemoError) → Result E A → Act (DemoState W) DemoError A
  check_result failed (ok a) s = (ok a, s)
  check_result failed (err e) s = (err (failed e), record s { counters = add_error s.counters })
  check_result failed panic s = (panic, s)

module _ {W : Type 0} (io : ClientStreams W) (cfg : EchoRequests) where
  -- `paths[scheduler.Next()]`
  unfoldable pub next_of_paths : Act (DemoState W) DemoError ClientPath
  next_of_paths s =
      let (i, scheduler) = next_path s.scheduler in
      (or_panic (get_elem? cfg.paths i), record s { scheduler = scheduler })

  unfoldable pub change_deadline :
      ClientPath → Bool → (IoError → DemoError) → Act (DemoState W) DemoError (Unit {0})
  change_deadline path on failed s =
      let (e, w) = io.set_deadline path.stream on s.streams in
      check failed e (record s { streams = w })

  unfoldable pub write_request : ClientPath → List ℕ → Act (DemoState W) DemoError (Unit {0})
  write_request path request s =
      let (e, w) = write_frame (io.write path.stream) s.streams request in
      check (write_request_failed path.id) e (record s { streams = w })

  unfoldable pub read_reply : ClientPath → Act (DemoState W) DemoError (List ℕ)
  read_reply path s =
      let (r, reader) = read_frame (io.reader path.stream s.streams) in
      check_result (read_reply_failed path.id) r
        (record s { streams = io.after_read path.stream s.streams reader })

  -- One turn of the loop.
  unfoldable pub exchange : ℕ → Act (DemoState W) DemoError (Unit {0})
  unfolding next_of_paths change_deadline write_request read_reply
  exchange i = do
    path ← next_of_paths
    let sequence = (i + 1) % 2 ^ 16
    request ← lift (
        map_err build_failed (
          build_icmp_echo_request cfg.client_ipv4 cfg.virtual_ipv4 cfg.identifier sequence
            cfg.payload))
    change_deadline path true (set_deadline_failed path.id)
    write_request path request
    modify (λ s. record s { counters = add_tx s.counters (pos (length request)) })
    reply ← read_reply path
    modify (λ s. record s { counters = add_rx s.counters (pos (length reply)) })
    check_result (validate_reply_failed path.id) (
        validate_echo_reply reply cfg.virtual_ipv4 cfg.client_ipv4 cfg.identifier sequence
          cfg.payload)
    change_deadline path false (clear_deadline_failed path.id)

  -- `for i := 0; i < cfg.Count; i++`, from `i` on with `left` turns to go
  unfoldable pub exchanges : ℕ → ℕ → Act (DemoState W) DemoError (Unit {0})
  exchanges zero i = lift (ok tt)
  exchanges (suc left) i = do exchange i; exchanges left (i + 1)
