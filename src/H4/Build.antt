-- ===== src/H4/Build.antt =====
-- `build_signal` of src/h4_gate.py. Of the quote and of the signal only what some function reads back
-- is kept: region, tournament, split, patch and the two team ids are copied and never read.
use lol_predictor.Prelude.{
  ℕ, String, Bool, ◌&&◌, not, Option, none, some, Result, ok, ◌>>=◌, ◌>>◌, require, Stamp, aware,
  Float, flt, fle, fone, leb, ltb, present, truthy, if◌then◌else◌, append_text,
}
use lol_predictor.H4.Signals.{
  Refusal, no_competition, missing_field, temporal, not_normalised, Numeric, number, Signal, given,
  dt, finite_between, odds_above_one,
}

-- The quote; `model_name` tells a missing key from null.
pub record Quote (N : Type 0) : Type 0 where
  pub event_id : Option String
  pub team_a : Option String
  pub team_b : Option String
  pub observed_at : Option Stamp
  pub published_at : Option Stamp
  pub scheduled_at : Option Stamp
  pub model_probability_a : Option (Numeric N)
  pub model_probability_b : Option (Numeric N)
  pub probability_a : Option (Numeric N)
  pub probability_b : Option (Numeric N)
  pub decimal_a : Option (Numeric N)
  pub decimal_b : Option (Numeric N)
  pub ratings_sha256 : Option String
  pub source : Option String
  pub market_id : Option String
  pub condition_id : Option String
  pub format : Option String
  pub model_name : Option (Option String)

pub record Provenance : Type 0 where
  pub trial_id : String
  pub code_commit : String
  pub source : Option String
  pub source_event_id : Option String
  pub market_id : Option String
  pub condition_id : Option String
  pub snapshot_hash : Option String
  pub available_at : ℕ
  pub retrieved_at : ℕ

pub record Identity : Type 0 where
  pub canonical_event_id : Option String
  pub selection : String
  pub predicted_at : ℕ
  pub provenance : Provenance

-- `_hash`: SHA-256 of the canonical JSON text of a record, in hexadecimal
pub record Hashes : Type 0 where
  pub of_provenance : Provenance → String
  pub of_identity : Identity → String

-- the arguments of `build_signal` beside the quote
pub record Context : Type 0 where
  pub trial_id : String
  pub code_commit : String
  pub competition_id : String
  pub competition_name : String

-- `f"polymarket:{condition_id}"`
abbrev pub canonical : Option String → Option String
canonical none = none
canonical (some c) = some (append_text "polymarket:" c)

-- `quote.get("model_name", "elo-h1-series")`
abbrev pub model_or_default : Option (Option String) → Option String
model_or_default none = some "elo-h1-series"
model_or_default (some name) = name

abbrev pub side_name : Bool → String
side_name a = if a then "team_a" else "team_b"

module _ {N : Type 0} where
  unfoldable pub has_provenance : Quote N → Bool
  has_provenance q =
      (present q.event_id && present q.team_a && present q.team_b)
      && (given q.observed_at && given q.published_at && given q.scheduled_at)
      && (given q.model_probability_a
          && given q.model_probability_b
          && given q.probability_a
          && given q.probability_b
          && given q.decimal_a
          && given q.decimal_b)
      && (present q.ratings_sha256
          && present q.source
          && present q.market_id
          && present q.condition_id
          && present q.format)

  unfoldable pub provenance_of : Quote N → Context → ℕ → ℕ → Provenance
  provenance_of q c predicted available = record {
    trial_id = c.trial_id;
    code_commit = c.code_commit;
    source = q.source;
    source_event_id = q.event_id;
    market_id = q.market_id;
    condition_id = q.condition_id;
    snapshot_hash = q.ratings_sha256;
    available_at = available;
    retrieved_at = predicted;
  }

  unfoldable pub identity_of : Quote N → Context → Bool → ℕ → ℕ → Identity
  unfolding provenance_of
  identity_of q c a predicted available = record {
    canonical_event_id = canonical q.condition_id;
    selection = side_name a;
    predicted_at = predicted;
    provenance = provenance_of q c predicted available;
  }

  -- the row, for the side `a` with its two probabilities and its odds
  unfoldable pub signal_of :
      Hashes
      → Quote N
      → Context
      → (predicted available start : ℕ) (a : Bool) (p m odds : N) → Signal N
  unfolding provenance_of identity_of
  signal_of h q c predicted available start a p m odds = record {
    signal_id = some (h.of_identity (identity_of q c a predicted available));
    trial_id = some c.trial_id;
    model_version = model_or_default q.model_name;
    code_commit = some c.code_commit;
    event_id = q.event_id;
    canonical_event_id = canonical q.condition_id;
    competition_id = some c.competition_id;
    competition_name = some c.competition_name;
    source = q.source;
    source_event_id = q.event_id;
    snapshot_hash = q.ratings_sha256;
    snapshot_status = some "FROZEN_VALID";
    schema_version = some "lol-h4-signal/1.0";
    provenance_hash = some (h.of_provenance (provenance_of q c predicted available));
    market = some "series_moneyline";
    selection = some (side_name a);
    settlement_status = some "PENDING";
    predicted_at = some (aware predicted);
    event_start_at = some (aware start);
    retrieved_at = some (aware predicted);
    available_at = some (aware available);
    odds_captured_at = some (aware predicted);
    model_probability = some (number p);
    market_probability = some (number m);
    captured_odds = some (number odds);
    result = none;
  }

module _ {N : Type 0} ⦃f : Float N⦄ where
  -- `abs(x + y - 1) > 1e-6` is false
  abbrev pub normalised : N → N → Bool
  normalised x y = not (flt (f.decimal 1 6) (f.abs (f.sub (f.add x y) fone)))

  -- `abs(pa - ma) >= abs(pb - mb)`: the side where model and market differ most
  abbrev pub picks_a : N → N → N → N → Bool
  picks_a pa ma pb mb = fle (f.abs (f.sub pb mb)) (f.abs (f.sub pa ma))

  abbrev pub signal_for :
      Hashes
      → Quote N
      → Context
      → (predicted available start : ℕ) (a : Bool) (pa ma pb mb : N) → Result Refusal (Signal N)
  signal_for h q c predicted available start a pa ma pb mb = do
    odds ← odds_above_one (if a then q.decimal_a else q.decimal_b)
    ok (
        signal_of h q c predicted available start a (if a then pa else pb) (if a then ma else mb)
          odds)

  -- the probabilities and the odds, and the row
  unfoldable pub priced :
      Hashes → Quote N → Context → (predicted available start : ℕ) → Result Refusal (Signal N)
  unfolding signal_of finite_between odds_above_one
  priced h q c predicted available start = do
    pa ← finite_between q.model_probability_a
    pb ← finite_between q.model_probability_b
    ma ← finite_between q.probability_a
    mb ← finite_between q.probability_b
    require (normalised pa pb && normalised ma mb) not_normalised
    signal_for h q c predicted available start (picks_a pa ma pb mb) pa ma pb mb

  unfoldable pub build_signal : Hashes → Quote N → Context → Result Refusal (Signal N)
  unfolding has_provenance priced
  build_signal h q c = do
    require (truthy c.competition_id && truthy c.competition_name) no_competition
    require (has_provenance q) missing_field
    predicted ← dt q.observed_at
    available ← dt q.published_at
    start ← dt q.scheduled_at
    require (leb available predicted && ltb predicted start) temporal
    priced h q c predicted available start
