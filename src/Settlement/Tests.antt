-- ===== src/Settlement/Tests.antt =====
-- `settle` of scripts/settle_h4_signals.py on a cohort of two rows, with hundredths for floats.
use lol_predictor.Prelude.{
  ℕ, String, ◌≡◌, refl, true, none, some, List, [], ◌∷◌, ok, fail, aware, All, cents,
}
use lol_predictor.H4.Signals.{Signal, number, validate_signal}
use lol_predictor.H4.Cohort.{lines, no_signals}
use lol_predictor.Settlement.{
  OfficialResult, supplied, unreadable_results, settle, bad_result, with_result,
}
use lol_predictor.Settlement.Kept.{Valid, FileValid, settle-FileValid}
use lol_predictor.Settlement.Idempotent.{settle-again}

abbrev digest : String
digest = "0123456789abcdef0123456789abcdef0123456789abcdef0123456789abcdef"

abbrev row : String → ℕ → Signal ℕ
row event start = record {
  signal_id = some "s";
  trial_id = some "h4";
  model_version = some "m1";
  code_commit = some "c";
  event_id = some event;
  canonical_event_id = some event;
  competition_id = some "lck";
  competition_name = some "LCK";
  source = some "polymarket";
  source_event_id = some "e";
  snapshot_hash = some digest;
  snapshot_status = some "FROZEN_VALID";
  schema_version = some "lol-h4-signal/1.0";
  provenance_hash = some "p";
  market = some "series_winner";
  selection = some "team_a";
  settlement_status = some "PENDING";
  predicted_at = some (aware 5);
  event_start_at = some (aware start);
  retrieved_at = some (aware 5);
  available_at = some (aware 4);
  odds_captured_at = some (aware 5);
  model_probability = some (number 60);
  market_probability = some (number 50);
  captured_odds = some (number 200);
  result = none;
}

abbrev official : String → ℕ → OfficialResult
official event r = record {
  canonical_event_id = some event;
  result = some r;
  source = some "oracle-elixir";
  result_available_at = some (aware 20);
}

abbrev rows : List (Signal ℕ)
rows = row "a" 10 ∷ row "b" 30 ∷ []

-- of two results for one event the later one counts
abbrev results : List OfficialResult
results = official "a" 0 ∷ official "a" 1 ∷ []

settles :
    settle true (lines rows) (supplied results)
    ≡ (ok 1, lines (with_result (official "a" 1) (row "a" 10) ∷ row "b" 30 ∷ []))
unfolding settle
settles = refl

changes_nothing :
    settle true (lines rows) (supplied (official "a" 2 ∷ [])) ≡ (fail bad_result, lines rows)
unfolding settle
changes_nothing = refl

no_cohort : settle {N = ℕ} true no_signals unreadable_results ≡ (ok 0, no_signals)
unfolding settle
no_cohort = refl

settled : (settle true (lines rows) (supplied results)).0 ≡ ok 1
unfolding settle
settled = refl

valid : All (Valid "h4") rows
unfolding validate_signal
valid = (refl, (refl, tt))

settle-again_example :
    settle true (settle true (lines rows) (supplied results)).1 (supplied results)
    ≡ (ok 0, (settle true (lines rows) (supplied results)).1)
settle-again_example = settle-again rows results settled

settle-FileValid_example : FileValid "h4" (settle true (lines rows) (supplied results)).1
settle-FileValid_example = settle-FileValid true rows (supplied results) "h4" valid
