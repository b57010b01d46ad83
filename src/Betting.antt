-- ===== src/Betting.antt =====
-- The financial gate of src/betting.py.
pub mod Paper
pub mod Settled
mod Tests
use lol_predictor.Prelude.{ℕ, String, Bool, ◌&&◌, Option, none, some, Float, fle, if◌then◌else◌}
use lol_predictor.Approval.{is_text}

pub data Decision : Type 0 where
  go no_go : Decision

pub data Reason : Type 0 where
  gate_missing shadow_only sample_insufficient : Reason

-- `data/market_gate.json`; a key that is missing is `none`.
pub record GateRecord (N : Type 0) : Type 0 where
  pub verdict : Option String
  pub matured_matches : Option N
  pub required_matured_matches : Option N
  pub calendar_days : Option N
  pub required_calendar_days : Option N

-- `malformed`: a file that `json.loads` refuses, or with a field that cannot be compared.
pub data GateFile (N : Type 0) : Type 0 where
  absent malformed : GateFile N
  gate_record : GateRecord N → GateFile N

pub data GateReport : Type 0 where
  gate_failed : GateReport
  decided : Decision → Reason → GateReport

module _ {N : Type 0} ⦃f : Float N⦄ where
  -- `data.get(key, n)`
  abbrev or_default : Option N → ℕ → N
  or_default none n = f.of_nat n
  or_default (some x) n = x

  unfoldable pub ready : GateRecord N → Bool
  ready g =
      is_text "GATE_PASSED_FOR_PROSPECTIVE_SHADOW" g.verdict
      && fle (or_default g.required_matured_matches 50) (or_default g.matured_matches 0)
      && fle (or_default g.required_calendar_days 30) (or_default g.calendar_days 0)

  unfoldable pub go_gate : GateFile N → GateReport
  unfolding ready
  go_gate absent = decided no_go gate_missing
  go_gate malformed = gate_failed
  go_gate (gate_record g) = decided no_go (if ready g then shadow_only else sample_insufficient)
