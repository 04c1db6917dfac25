-- ===== src/Stats/Snapshot.antt =====
-- internal/stats/stats.go: Counters.Snapshot. It loads the six counters one after the other, and other
-- goroutines' calls may come between two loads.
use mvp_vpn_lite.Base.{ℕ, ◌+◌, ◌^◌, ◌≤◌, ◌<◌, ◌≡◌, arith, List, [], ◌∷◌, ◌++◌}
use mvp_vpn_lite.Stats.{Counters}
use mvp_vpn_lite.Stats.Flow.{
  Call, calls, total, IsValid, calls-total, rx_packets_of, rx_bytes_of, tx_packets_of, tx_bytes_of,
  drops_of, errors_of,
}

pub record Snapshot : Type 0 where
  pub rx_packets : ℕ
  pub rx_bytes : ℕ
  pub tx_packets : ℕ
  pub tx_bytes : ℕ
  pub dropped_packets : ℕ
  pub errors : ℕ

-- The calls of other goroutines between the loads.
pub record Between : Type 0 where
  pub calls1 : List Call
  pub calls2 : List Call
  pub calls3 : List Call
  pub calls4 : List Call
  pub calls5 : List Call

-- The snapshot, and the counters behind its last load.
pub snapshot : Counters → Between → Snapshot × Counters
snapshot c b =
    let c1 = calls c b.calls1 in
    let c2 = calls c1 b.calls2 in
    let c3 = calls c2 b.calls3 in
    let c4 = calls c3 b.calls4 in
    let c5 = calls c4 b.calls5 in
    (
      record {
        rx_packets = c.rx_packets;
        rx_bytes = c1.rx_bytes;
        tx_packets = c2.tx_packets;
        tx_bytes = c3.tx_bytes;
        dropped_packets = c4.dropped_packets;
        errors = c5.errors;
      },
      c5,
    )

-- From one state of the counters to a later one no counter falls.
pub record Grows (c d : Counters) : Type 0 where
  pub rx_packets_grows : c.rx_packets ≤ d.rx_packets
  pub rx_bytes_grows : c.rx_bytes ≤ d.rx_bytes
  pub tx_packets_grows : c.tx_packets ≤ d.tx_packets
  pub tx_bytes_grows : c.tx_bytes ≤ d.tx_bytes
  pub dropped_grows : c.dropped_packets ≤ d.dropped_packets
  pub errors_grow : c.errors ≤ d.errors

-- No counter wraps over these calls.
pub record Room (c : Counters) (xs : List Call) : Type 0 where
  pub rx_packets_room : c.rx_packets + total rx_packets_of xs < 2 ^ 64
  pub rx_bytes_room : c.rx_bytes + total rx_bytes_of xs < 2 ^ 64
  pub tx_packets_room : c.tx_packets + total tx_packets_of xs < 2 ^ 64
  pub tx_bytes_room : c.tx_bytes + total tx_bytes_of xs < 2 ^ 64
  pub dropped_room : c.dropped_packets + total drops_of xs < 2 ^ 64
  pub errors_room : c.errors + total errors_of xs < 2 ^ 64

-- A snapshot as counters.
abbrev pub counters_of : Snapshot → Counters
counters_of s = record {
  rx_packets = s.rx_packets;
  rx_bytes = s.rx_bytes;
  tx_packets = s.tx_packets;
  tx_bytes = s.tx_bytes;
  dropped_packets = s.dropped_packets;
  errors = s.errors;
}

total-append : (f : Call → ℕ) (xs ys : List Call) → total f (xs ++ ys) ≡ total f xs + total f ys
total-append f [] ys = omega arith
total-append f (x ∷ xs) ys = omega (arith, total-append f xs ys)

Room-IsValid : (c : Counters) (xs : List Call) → Room c xs → IsValid c
Room-IsValid c xs r = omega arith

-- Some calls, and the room that is left for the others.
calls-Room :
    (c : Counters) (xs ys : List Call)
    → Room c (xs ++ ys)
    → Grows c (calls c xs) × Room (calls c xs) ys
calls-Room c xs ys r = rw (calls-total xs c (Room-IsValid c (xs ++ ys) r)) (
    omega (
      arith,
      total-append rx_packets_of xs ys,
      total-append rx_bytes_of xs ys,
      total-append tx_packets_of xs ys,
      total-append tx_bytes_of xs ys,
      total-append drops_of xs ys,
      total-append errors_of xs ys,
    ))

-- Each count of a snapshot lies between the counts before its first load and behind its last, whatever
-- the other goroutines call in between, as long as no counter wraps.
pub snapshot_between :
    (c : Counters) (b : Between)
    → Room c (b.calls1 ++ (b.calls2 ++ (b.calls3 ++ (b.calls4 ++ (b.calls5 ++ [])))))
    → let (s, end) = snapshot c b in Grows c (counters_of s) × Grows (counters_of s) end
unfolding snapshot
snapshot_between c b r =
    let (g1, r1) = calls-Room c b.calls1 _ r in
    let (g2, r2) = calls-Room (calls c b.calls1) b.calls2 _ r1 in
    let (g3, r3) = calls-Room (calls (calls c b.calls1) b.calls2) b.calls3 _ r2 in
    let (g4, r4) = calls-Room (calls (calls (calls c b.calls1) b.calls2) b.calls3) b.calls4 _ r3 in
    let (g5, _) =
      calls-Room (calls (calls (calls (calls c b.calls1) b.calls2) b.calls3) b.calls4) b.calls5 []
        r4 in
    (omega arith, omega arith)
