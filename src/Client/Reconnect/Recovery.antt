-- ===== src/Client/Reconnect/Recovery.antt =====
-- A path comes back: the failed dials, their delays, and the dial that succeeds.
use mvp_vpn_lite.Base.{
  ℕ, zero, suc, ◌+◌, ◌*◌, ◌^◌, ◌≤◌, ◌≡◌, refl, sym, arith, ap, ◌∙◌, true, false, List, [], ◌∷◌,
  ◌++◌, replicate, Result, ok, err, min,
}
use mathlib.Core.Path.{subst}
use native.Mathlib.Nat.{pow-suc, add-zero}
use mathlib.Core.List.{append-nil, append_assoc}
use mvp_vpn_lite.Base.Int.{ℤ, pos}
use mvp_vpn_lite.Stats.Flow.{calls, call, error}
use mvp_vpn_lite.Client.Path.{ClientPath}
use mvp_vpn_lite.Client.PathSet.{append_path, has_path_id}
use mvp_vpn_lite.Client.PathSet.Membership.{add-missing}
use mvp_vpn_lite.Client.Backoff.{new_reconnect_backoff, reset}
use mvp_vpn_lite.Client.Backoff.Delays.{at_delay, next_at}
use mvp_vpn_lite.Client.Dial.{Network, ClientPathSpec, DialError, dial_client_path}
use mvp_vpn_lite.Client.Dial.Paths.{HasId, dial-HasId}
use mvp_vpn_lite.Client.Reconnect.{
  ReconnectEvent, turn, ReconnectState, sleep, after_reconnect_dial, reconnect_turn,
  reconnect_client_path,
}

-- A turn in which the context is not done and no wait is cut short.
abbrev pub alive : ReconnectEvent
alive = turn (record { ctx_done = false; ctx_done_after = false; slept = true })

-- The delays after k failures in a row, the first after i earlier ones.
abbrev pub doubling : ℕ → ℕ → ℕ → ℕ → List ℤ
doubling lo hi zero i = []
doubling lo hi (suc k) i = pos (min (lo * 2 ^ i) hi) ∷ doubling lo hi k (suc i)

-- k dials of a path fail in a row.
pub data Fails {W : Type 0} (net : Network W) (spec : ClientPathSpec) : ℕ → W → W → Type 0 where
  done : (w : W) → Fails net spec 0 w w
  again :
      (k : ℕ) (w w' w'' : W) (e : DialError)
      → dial_client_path net spec w ≡ (err e, w')
      → Fails net spec k w' w''
      → Fails net spec (suc k) w w''

module _ {W : Type 0} (net : Network W) (spec : ClientPathSpec) (lo hi : ℕ) where
  -- After k failures in a row, of which i were before.
  abbrev failed_state : ℕ → ℕ → W → ReconnectState W → ReconnectState W
  failed_state k i w st = record st {
    network = w;
    counters = calls st.counters (replicate k error);
    backoff = at_delay lo hi (min (lo * 2 ^ (i + k)) hi);
    delays = st.delays ++ doubling lo hi k i;
  }

  -- After a dial that succeeds.
  abbrev joined_state : ClientPath → W → ReconnectState W → ReconnectState W
  joined_state path w st = record st {
    network = w;
    path_set = record st.path_set { paths = append_path st.path_set.paths path };
    backoff = new_reconnect_backoff (pos lo) (pos hi);
    receivers = st.receivers ++ (path ∷ []);
  }

  capped : (i : ℕ) → min (min (lo * 2 ^ i) hi * 2) hi ≡ min (lo * 2 ^ suc i) hi
  capped i = rw (pow-suc 2 i) (grind arith)

  failures :
      (k i : ℕ) (events : List ReconnectEvent) (st : ReconnectState W) (w : W)
      → hi ≤ 2 ^ 62
      → has_path_id st.path_set spec.id ≡ false
      → st.backoff ≡ at_delay lo hi (min (lo * 2 ^ i) hi)
      → Fails net spec k st.network w
      → reconnect_client_path net spec (pos lo) (replicate k alive ++ events) st
        ≡ reconnect_client_path net spec (pos lo) events (failed_state k i w st)
  unfolding reconnect_client_path reconnect_turn after_reconnect_dial sleep calls call
  failures zero i events st w fits missing at (Fails.done _) =
      rw (append-nil st.delays, add-zero i, sym at) refl
  failures (suc k) i events st w fits missing at (Fails.again j w0 w' w'' e failed fails) =
      let d = min (lo * 2 ^ i) hi in
      let st' = record st {
        network = w';
        counters = call st.counters error;
        backoff = at_delay lo hi (min (lo * 2 ^ suc i) hi);
        delays = st.delays ++ (pos d ∷ []);
      } in
      rw (missing, failed, at, next_at lo hi d (omega arith) fits, capped i)
        (failures k (suc i) events st' w fits missing refl fails
          ∙ rw (append_assoc st.delays (pos d ∷ []) (doubling lo hi k (suc i))) (
              ap
                (λ m.
                  reconnect_client_path net spec (pos lo) events
                    (record (failed_state (suc k) i w st) {
                      backoff = at_delay lo hi (min (lo * 2 ^ m) hi);
                    }))
                (omega arith)))

  joined :
      (events : List ReconnectEvent) (st : ReconnectState W) (w : W) (path : ClientPath) (n : ℕ)
      → has_path_id st.path_set spec.id ≡ false
      → st.backoff ≡ at_delay lo hi n
      → dial_client_path net spec st.network ≡ (ok path, w)
      → reconnect_client_path net spec (pos lo) (alive ∷ events) st
        ≡ reconnect_client_path net spec (pos lo) events (joined_state path w st)
  unfolding reconnect_client_path reconnect_turn after_reconnect_dial reset new_reconnect_backoff
  joined events st w path n missing at dialed =
      let same : path.id ≡ spec.id =
        subst (λ (r : Result DialError ClientPath × W). HasId net spec.id r) dialed
          (dial-HasId net spec st.network) in
      rw (missing, dialed, at, add-missing st.path_set path (rw same missing)) refl

  -- A path that is not in the set, and of which k dials in a row fail and the next does not, comes
  -- back: the errors are counted, the waits are the lower bound doubled each time up to the upper
  -- bound (at most 2^62 nanoseconds), the path is added to the set and a receiving loop started on it,
  -- and the delays start over.
  pub reconnect_recovers :
      (k : ℕ) (events : List ReconnectEvent) (st : ReconnectState W) (w w' : W) (path : ClientPath)
      → lo ≤ hi
      → hi ≤ 2 ^ 62
      → has_path_id st.path_set spec.id ≡ false
      → st.backoff ≡ new_reconnect_backoff (pos lo) (pos hi)
      → Fails net spec k st.network w
      → dial_client_path net spec w ≡ (ok path, w')
      → reconnect_client_path net spec (pos lo) (replicate k alive ++ alive ∷ events) st
        ≡ reconnect_client_path net spec (pos lo) events (record st {
          network = w';
          path_set = record st.path_set { paths = append_path st.path_set.paths path };
          counters = calls st.counters (replicate k error);
          backoff = new_reconnect_backoff (pos lo) (pos hi);
          delays = st.delays ++ doubling lo hi k 0;
          receivers = st.receivers ++ (path ∷ []);
        })
  unfolding new_reconnect_backoff
  reconnect_recovers k events st w w' path le fits missing fresh fails dialed =
      failures k 0 (alive ∷ events) st w fits missing (fresh ∙ ap (at_delay lo hi) (omega arith))
        fails
      ∙ joined events (failed_state k 0 w st) w' path (min (lo * 2 ^ (0 + k)) hi) missing refl
          dialed
