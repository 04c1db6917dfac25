-- ===== src/Loop.antt =====
-- How the loops that run on fuel here end: they return, they panic, or the fuel runs out.
use mvp_vpn_lite.Io.{IoError}

pub data Run (S : Type 0) : Type 0 where
  returned : S → Run S
  crashed : Run S
  unfinished : Run S

-- A loop over events waits for the next one, has returned, or has sent an error and returned; or it
-- panics.
pub data Outcome (S : Type 0) : Type 0 where
  waiting : S → Outcome S
  stopped : S → Outcome S
  gave_up : IoError → S → Outcome S
  crashed : Outcome S
