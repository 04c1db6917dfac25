-- ===== src/Client/Reconnect/Keeps.antt =====
-- What the reconnecting loop keeps.
use mvp_vpn_lite.Base.{
  ℕ, ◌*◌, ◌^◌, ◌≤◌, ◌≡◌, refl, arith, Bool, List, [], ◌∷◌, ◌++◌, Result, ok, err, panic, All,
  All-append, Bool-cases, inl, inr, min,
}
use mvp_vpn_lite.Base.Int.{ℤ, pos}
use mvp_vpn_lite.Loop.{Outcome, waiting, stopped, gave_up, crashed}
use mvp_vpn_lite.Client.Path.{ClientPath}
use mvp_vpn_lite.Client.PathSet.{has_path_id}
use mvp_vpn_lite.Client.PathSet.Invariant.{IsValid, add-IsValid, step, step-IsValid}
use mvp_vpn_lite.Client.Backoff.{reset}
use mvp_vpn_lite.Client.Backoff.Delays.{at_delay, next_at}
use mvp_vpn_lite.Client.Dial.{Network, ClientPathSpec, DialError, dial_client_path}
use mvp_vpn_lite.Client.Dial.Balance.{Counting, dial_ends, DialEnds}
use mvp_vpn_lite.Client.Dial.Paths.{HasId, dial-HasId}
use mvp_vpn_lite.Client.Reconnect.{
  Turn, ReconnectEvent, turn, other, ReconnectState, sleep, after_reconnect_dial, reconnect_turn,
  reconnect_client_path,
}

abbrev pub Within : ℕ → ℕ → ℤ → Type 0
Within lo hi delay = (n : ℕ) × (delay ≡ pos n) × (lo ≤ n) × (n ≤ hi)

-- The set of the paths is valid, each receiving loop runs on the path of this spec, and every delay so
-- far and the next one is between the bounds.
pub record Sound {W : Type 0} (id lo hi : ℕ) (st : ReconnectState W) : Type 0 where
  pub valid : IsValid st.path_set
  pub own_paths : All (λ (p : ClientPath). p.id ≡ id) st.receivers
  pub delays_within : All (Within lo hi) st.delays
  pub next_within : (n : ℕ) × (st.backoff ≡ at_delay lo hi n) × (lo ≤ n) × (n ≤ hi)

-- The loop waits for its next turn or has returned, and the state is sound.
unfoldable pub Ends : {W : Type 0} → ℕ → ℕ → ℕ → Outcome (ReconnectState W) → Type 0
Ends id lo hi (waiting st) = Sound id lo hi st
Ends id lo hi (stopped st) = Sound id lo hi st
Ends id lo hi (gave_up e st) = ⊥
Ends id lo hi crashed = ⊥

module _ {W : Type 0} (net : Network W) (open_conns : W → List ℕ) (laws : Counting net open_conns)
    (spec : ClientPathSpec) (lo hi : ℕ) (le : lo ≤ hi) (fits : hi ≤ 2 ^ 62) where
  abbrev Goes : (ReconnectState W → Outcome (ReconnectState W)) → Type 0
  Goes again = (st : ReconnectState W) → Sound spec.id lo hi st → Ends spec.id lo hi (again st)

  sleep-Ends :
      (again : ReconnectState W → Outcome (ReconnectState W)) (slept : Bool) (delay : ℤ)
      (st : ReconnectState W)
      → Goes again
      → Within lo hi delay
      → Sound spec.id lo hi st
      → Ends spec.id lo hi (sleep net again slept delay st)
  unfolding sleep Ends
  sleep-Ends again slept delay st go within sound =
      let later : Sound spec.id lo hi (record st { delays = st.delays ++ (delay ∷ []) }) = record {
        valid = sound.valid;
        own_paths = sound.own_paths;
        delays_within =
            All-append (Within lo hi) st.delays (delay ∷ []) sound.delays_within (within, tt);
        next_within = sound.next_within;
      } in
      elim (Bool-cases slept) [ inl whole ↦ rw whole (go _ later) | inr cut ↦ rw cut later ]

  after_dial-Ends :
      (again : ReconnectState W → Outcome (ReconnectState W)) (t : Turn) (st : ReconnectState W)
      (result : Result DialError ClientPath × W) (n : List ℕ)
      → Goes again
      → DialEnds net open_conns laws n result
      → HasId net spec.id result
      → Sound spec.id lo hi st
      → Ends spec.id lo hi (after_reconnect_dial net again t st result)
  unfolding after_reconnect_dial reset Ends
  after_dial-Ends again t st (ok path, w) n go ends has sound =
      let (m, at, lom, mhi) = sound.next_within in
      go _ (record {
        valid = add-IsValid st.path_set path sound.valid;
        own_paths =
            All-append (λ (p : ClientPath). p.id ≡ spec.id) st.receivers (path ∷ []) sound.own_paths
              (has, tt);
        delays_within = sound.delays_within;
        next_within = (lo, rw at refl, omega arith, le);
      })
  after_dial-Ends again t st (err e, w) n go ends has sound =
      let (m, at, lom, mhi) = sound.next_within in
      elim (Bool-cases t.ctx_done_after) [
        | inl done ↦ rw done (record {
          valid = sound.valid;
          own_paths = sound.own_paths;
          delays_within = sound.delays_within;
          next_within = sound.next_within;
        })
        | inr going ↦
            rw (going, at, next_at lo hi m mhi fits)
              (sleep-Ends again t.slept (pos m) _ go (m, refl, lom, mhi)
                (record {
                  valid = sound.valid;
                  own_paths = sound.own_paths;
                  delays_within = sound.delays_within;
                  next_within = (min (m * 2) hi, refl, omega arith, omega arith);
                }))
      ]
  after_dial-Ends again t st (panic, w) n go ends has sound = absurd ends

  turn-Ends :
      (again : ReconnectState W → Outcome (ReconnectState W)) (t : Turn) (st : ReconnectState W)
      → Goes again
      → Sound spec.id lo hi st
      → Ends spec.id lo hi (reconnect_turn net spec (pos lo) again t st)
  unfolding reconnect_turn
  turn-Ends again t st go sound = elim (Bool-cases t.ctx_done) [
    | inl done ↦ rw done (unfold Ends in sound)
    | inr going ↦ elim (Bool-cases (has_path_id st.path_set spec.id)) [
      | inl there ↦
          rw (going, there)
            (sleep-Ends again t.slept (pos lo) st go (lo, refl, omega arith, le) sound)
      | inr missing ↦
          rw (going, missing)
            (after_dial-Ends again t st (dial_client_path net spec st.network)
              (open_conns st.network) go (dial_ends net open_conns laws spec st.network)
              (dial-HasId net spec st.network) sound)
    ]
  ]

  -- On a network whose calls do not panic, and with bounds of which the upper is at most 2^62
  -- nanoseconds, the loop that reconnects a path does not panic, whatever the dials give and the other
  -- goroutines do to the set. The set stays valid, a receiving loop is started only on a path with the
  -- id of the spec, and no wait is shorter than the lower bound or longer than the upper one.
  pub reconnect-Ends :
      (events : List ReconnectEvent) (st : ReconnectState W)
      → Sound spec.id lo hi st
      → Ends spec.id lo hi (reconnect_client_path net spec (pos lo) events st)
  unfolding reconnect_client_path Ends
  reconnect-Ends [] st sound = sound
  reconnect-Ends (turn t ∷ events) st sound =
      turn-Ends (reconnect_client_path net spec (pos lo) events) t st (reconnect-Ends events) sound
  reconnect-Ends (other op ∷ events) st sound =
      reconnect-Ends events (record st { path_set = step st.path_set op })
        (record {
          valid = step-IsValid st.path_set op sound.valid;
          own_paths = sound.own_paths;
          delays_within = sound.delays_within;
          next_within = sound.next_within;
        })
