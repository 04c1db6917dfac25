-- ===== src/Client/Dial/Sample.antt =====
-- A concrete network for the tests: its first dial fails, the others do not, and it knows the dials and
-- the open connections.
use mvp_vpn_lite.Base.{
  ℕ, suc, ◌+◌, ◌<◌, ◌≡◌, refl, arith, List, [], ◌∷◌, Result, ok, err, Bool-cases, inl, inr, ◌==◌,
  if◌then◌else◌,
}
use mvp_vpn_lite.Base.Handles.{without, New}
use mvp_vpn_lite.Io.{other_error, IoError}
use mvp_vpn_lite.Client.Dial.{Network}
use mvp_vpn_lite.Client.Dial.Balance.{Counting}

pub record Counts : Type 0 where
  pub dials : ℕ
  pub open_conns : List ℕ

-- Above all handles.
abbrev pub sum : List ℕ → ℕ
sum [] = 0
sum (k ∷ l) = k + sum l

pub New-above : (l : List ℕ) (h : ℕ) → sum l < h → New h l
unfolding without
New-above [] h lt = refl
New-above (k ∷ l) h lt = ground (arith, New-above l h (omega arith))

abbrev dial : Counts → Result IoError ℕ × Counts
dial w = if w.dials == 0 then (err (other_error 1), record w { dials = w.dials + 1 }) else (
  ok (suc (sum w.open_conns)),
  record { dials = w.dials + 1; open_conns = suc (sum w.open_conns) ∷ w.open_conns },
)

abbrev pub network : Network Counts
network = record {
  dial_addr = λ address w. dial w;
  open_stream = λ conn w. (ok (conn + 100), w);
  close_conn = λ conn w. record w { open_conns = without conn w.open_conns };
  close_stream = λ stream w. w;
}

pub network-Counting : Counting network (λ w. w.open_conns)
network-Counting = record {
  dial_ok = λ address w w' conn e. elim (Bool-cases (w.dials == 0)) [
    | inl first ↦ absurd (ground arith)
    | inr later ↦
        let same : conn ≡ suc (sum w.open_conns) = ground arith in
        (
          omega arith,
          rw same (New-above w.open_conns (suc (sum w.open_conns)) (omega arith)),
          ground arith,
        )
  ];
  dial_err = λ address w w' x e. ground arith;
  dial-ne-panic = λ address w e. ground arith;
  stream_keeps = λ conn w. refl;
  stream-ne-panic = λ conn w e. cc;
  close_one = λ conn w. refl;
  close_stream_keeps = λ stream w. refl;
}
