-- ===== src/H4/Signals.antt =====
-- The signals of the H4 cohort: `validate_signal`, `_finite` and `build_signal` of src/h4_gate.py.
use lol_predictor.Prelude.{
  ℕ, String, Bool, true, false, ◌&&◌, not, Option, none, some, Result, ok, fail, ◌>>=◌, ◌>>◌,
  require, Stamp, instant, Float, flt, fle, fzero, fone, codes, length, eqb, leb, ltb, present,
  if◌then◌else◌,
}
use lol_predictor.Approval.{is_text}

-- Why a row is refused. `crash` is an exception that is no `H4Error`, which callers do not catch.
pub data Refusal : Type 0 where
  no_competition missing_field bad_schema bad_snapshot bad_time temporal bad_probability : Refusal
  not_normalised bad_odds before_cohort crash : Refusal

-- What `float(value)` makes of a field.
pub data Numeric (N : Type 0) : Type 0 where
  not_number : Numeric N
  number : N → Numeric N

-- One line of the cohort. `none` is a missing key or null; an empty text counts as missing too.
pub record Signal (N : Type 0) : Type 0 where
  pub signal_id : Option String
  pub trial_id : Option String
  pub model_version : Option String
  pub code_commit : Option String
  pub event_id : Option String
  pub canonical_event_id : Option String
  pub competition_id : Option String
  pub competition_name : Option String
  pub source : Option String
  pub source_event_id : Option String
  pub snapshot_hash : Option String
  pub snapshot_status : Option String
  pub schema_version : Option String
  pub provenance_hash : Option String
  pub market : Option String
  pub selection : Option String
  pub settlement_status : Option String
  pub predicted_at : Option Stamp
  pub event_start_at : Option Stamp
  pub retrieved_at : Option Stamp
  pub available_at : Option Stamp
  pub odds_captured_at : Option Stamp
  pub model_probability : Option (Numeric N)
  pub market_probability : Option (Numeric N)
  pub captured_odds : Option (Numeric N)
  pub result : Option ℕ

abbrev pub given {ℓ} : {A : Type ℓ} → Option A → Bool
given none = false
given (some _) = true

-- `_dt`
abbrev pub dt : Option Stamp → Result Refusal ℕ
dt none = fail bad_time
dt (some s) = elim (instant s) [ none ↦ fail bad_time | some t ↦ ok t ]

-- `len(text) == 64`
abbrev pub has_digest : Option String → Bool
has_digest none = false
has_digest (some h) = eqb (length (codes h)) 64

module _ {N : Type 0} where
  -- none of the required keys is missing, null or empty
  unfoldable pub complete : Signal N → Bool
  complete r =
      (present r.signal_id
        && present r.trial_id
        && present r.model_version
        && present r.code_commit
        && present r.event_id
        && present r.canonical_event_id
        && present r.competition_id
        && present r.competition_name)
      && (given r.predicted_at
          && given r.event_start_at
          && present r.source
          && present r.source_event_id
          && given r.retrieved_at
          && given r.available_at
          && present r.snapshot_hash
          && present r.snapshot_status)
      && (present r.schema_version
          && present r.provenance_hash
          && present r.market
          && present r.selection
          && given r.model_probability
          && given r.market_probability
          && given r.captured_odds
          && given r.odds_captured_at
          && present r.settlement_status)

  unfoldable pub names_trial : Signal N → String → Bool
  names_trial r trial = is_text "lol-h4-signal/1.0" r.schema_version && is_text trial r.trial_id

  unfoldable pub frozen : Signal N → Bool
  frozen r = has_digest r.snapshot_hash && is_text "FROZEN_VALID" r.snapshot_status

module _ {N : Type 0} ⦃f : Float N⦄ where
  -- `_finite` with its default bounds 0 and 1, both excluded
  unfoldable pub finite_between : Option (Numeric N) → Result Refusal N
  finite_between none = fail bad_probability
  finite_between (some not_number) = fail bad_probability
  finite_between (some (number x)) =
      if f.finite x && flt fzero x && flt x fone then ok x else fail bad_probability

  -- `float(value)` outside any `try`, then `not isfinite or <= 1`
  unfoldable pub odds_above_one : Option (Numeric N) → Result Refusal N
  odds_above_one none = fail crash
  odds_above_one (some not_number) = fail crash
  odds_above_one (some (number x)) = if f.finite x && not (fle x fone) then ok x else fail bad_odds

  unfoldable pub validate_signal : Signal N → String → Result Refusal (Unit {0})
  unfolding complete names_trial frozen finite_between odds_above_one
  validate_signal r trial = do
    require (complete r && names_trial r trial) bad_schema
    require (frozen r) bad_snapshot
    predicted ← dt r.predicted_at
    available ← dt r.available_at
    start ← dt r.event_start_at
    require (leb available predicted && ltb predicted start) temporal
    retrieved ← dt r.retrieved_at
    require (eqb retrieved predicted) temporal
    odds_at ← dt r.odds_captured_at
    require (eqb odds_at predicted) temporal
    p ← finite_between r.model_probability
    q ← finite_between r.market_probability
    o ← odds_above_one r.captured_odds
    ok tt
