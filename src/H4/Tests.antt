-- ===== src/H4/Tests.antt =====
-- The gate of src/h4_gate.py on concrete cohorts, with probabilities and odds in hundredths.
use lol_predictor.Prelude.{
  ℕ, String, ◌≡◌, refl, true, false, Option, none, some, List, [], ◌∷◌, ok, fail, keep, aware,
  cents, day, ◌*◌,
}
use lol_predictor.H4.Closure.{
  ClosureRecord, closure, assert_h4_open, ShowsOpen, assert_h4_open-ShowsOpen, cohort_closed,
  is_closed, is_closure_record,
}
use lol_predictor.H4.Signals.{Signal, number, validate_signal}
use lol_predictor.H4.Accepted.{Accepted, validate_signal-Accepted, Accepted-validated}
use lol_predictor.H4.Build.{Hashes, Context, Quote, build_signal, signal_of}
use lol_predictor.H4.Roundtrip.{build_signal-validated}
use lol_predictor.H4.Cohort.{
  ready_for_evaluation, Trial, SignalsFile, lines, Counts, status, cohort_status, evaluation_rows,
  closed, not_open, rows_of_file, is_mature,
}
use lol_predictor.H4.Ready.{Ready}
use lol_predictor.H4.Gate.{cohort_status-Ready, closure-blocks, evaluation_rows-Ready}

abbrev digest : String
digest = "0123456789abcdef0123456789abcdef0123456789abcdef0123456789abcdef"

abbrev trial : Trial
trial = record {
  name = "h4-lol-market-shadow-prospectivo-v2";
  collection_start_exclusive = some (aware 0);
  min_calendar_days = 2;
  min_matured_matches = 1;
  min_shadow_signals = 2;
  min_competitions = 1;
}

-- a signal of an event that starts at the given time
abbrev signal : String → ℕ → Option String → Option ℕ → Signal ℕ
signal event start settlement result = record {
  signal_id = some "s";
  trial_id = some "h4-lol-market-shadow-prospectivo-v2";
  model_version = some "m1";
  code_commit = some "c";
  event_id = some event;
  canonical_event_id = some event;
  competition_id = some "lck";
  competition_name = some "LCK";
  source = some "polymarket";
  source_event_id = some "e";
  snapshot_hash = some digest;
  snapshot_status = some "FROZEN_VALID";
  schema_version = some "lol-h4-signal/1.0";
  provenance_hash = some "p";
  market = some "series_winner";
  selection = some "team_a";
  settlement_status = settlement;
  predicted_at = some (aware 5);
  event_start_at = some (aware start);
  retrieved_at = some (aware 5);
  available_at = some (aware 4);
  odds_captured_at = some (aware 5);
  model_probability = some (number 60);
  market_probability = some (number 50);
  captured_odds = some (number 200);
  result = result;
}

abbrev past : Signal ℕ
past = signal "a" 10 (some "OFFICIAL") (some 1)

abbrev future : Signal ℕ
future = signal "b" (10 * day) (some "PENDING") none

abbrev cohort : SignalsFile ℕ
cohort = lines (past ∷ future ∷ [])

abbrev reopening : ClosureRecord
reopening = record {
  schema_version = some "lol-h4-closure/1.0";
  trial = some "h4-lol-market-shadow-prospectivo-v2";
  scientific_status = some "REOPENED_BY_HUMAN_DECISION";
  operational_status = some "NO_GO";
  has_reopened_at = true;
  has_reopening_decision = true;
  has_supersedes_commit = true;
}

abbrev closing : ClosureRecord
closing = record {
  schema_version = some "lol-h4-closure/1.0";
  trial = some "h4-lol-market-shadow-prospectivo-v2";
  scientific_status = some "CLOSED_BY_HUMAN_DECISION";
  operational_status = some "NO_GO";
  has_reopened_at = false;
  has_reopening_decision = false;
  has_supersedes_commit = false;
}

abbrev report : Counts
report = record {
  state = ready_for_evaluation;
  decision_ready = true;
  issues = [];
  matured_matches = 1;
  elapsed = 3 * day;
  eligible_signals = 2;
  competition_count = 1;
  raw_signals = 2;
}

reports : cohort_status cohort trial (3 * day) (some (closure reopening)) ≡ ok (status report)
unfolding cohort_status
reports = refl

takes : evaluation_rows cohort trial (3 * day) none ≡ ok (past ∷ [])
unfolding evaluation_rows
takes = refl

valid : validate_signal past trial.name ≡ ok tt
unfolding validate_signal
valid = refl

reopens : assert_h4_open (closure reopening) ≡ ok tt
unfolding assert_h4_open
reopens = refl

cohort_status-Ready_example :
    (rows : List (Signal ℕ)) × (rows_of_file cohort ≡ ok rows) × Ready trial (3 * day) rows report
cohort_status-Ready_example =
    cohort_status-Ready cohort trial (3 * day) (some (closure reopening)) reports refl

closure-blocks_example :
    (cohort_status cohort trial (3 * day) (some (closure closing)) ≡ ok (closed closing))
    × (evaluation_rows cohort trial (3 * day) (some (closure closing))
        ≡ fail (not_open cohort_closed))
unfolding is_closure_record is_closed
closure-blocks_example = closure-blocks cohort trial (3 * day) closing refl refl

evaluation_rows-Ready_example :
    (rows : List (Signal ℕ)) × (rows_of_file cohort ≡ ok rows)
    × ((c : Counts) × Ready trial (3 * day) rows c)
    × ((past ∷ []) ≡ keep (is_mature (3 * day)) rows)
evaluation_rows-Ready_example = evaluation_rows-Ready cohort trial (3 * day) none takes

validate_signal-Accepted_example : Accepted past trial.name
validate_signal-Accepted_example = validate_signal-Accepted past trial.name valid

Accepted-validated_example : validate_signal past trial.name ≡ ok tt
Accepted-validated_example =
    Accepted-validated past trial.name (validate_signal-Accepted past trial.name valid)

assert_h4_open-ShowsOpen_example : ShowsOpen (closure reopening)
assert_h4_open-ShowsOpen_example = assert_h4_open-ShowsOpen (closure reopening) reopens

abbrev hashes : Hashes
hashes = record { of_provenance = λ _. "p"; of_identity = λ _. "i" }

abbrev context : Context
context = record {
  trial_id = "h4-lol-market-shadow-prospectivo-v2";
  code_commit = "c0ffee";
  competition_id = "lck";
  competition_name = "LCK";
}

abbrev quote : String → Quote ℕ
quote ratings = record {
  event_id = some "e";
  team_a = some "T1";
  team_b = some "Gen.G";
  observed_at = some (aware 5);
  published_at = some (aware 4);
  scheduled_at = some (aware 10);
  model_probability_a = some (number 60);
  model_probability_b = some (number 40);
  probability_a = some (number 50);
  probability_b = some (number 50);
  decimal_a = some (number 200);
  decimal_b = some (number 200);
  ratings_sha256 = some ratings;
  source = some "polymarket";
  market_id = some "m";
  condition_id = some "0x1";
  format = some "bo3";
  model_name = none;
}

-- the signal that is built from a quote, for side a
abbrev built : String → Signal ℕ
unfolding signal_of
built ratings = signal_of hashes (quote ratings) context 5 4 10 true 60 50 200

builds : build_signal hashes (quote digest) context ≡ ok (built digest)
unfolding build_signal signal_of
builds = refl

-- a signal with a short ratings hash is built, and then refused
builds_short : build_signal hashes (quote "abc") context ≡ ok (built "abc")
unfolding build_signal signal_of
builds_short = refl

build_signal-validated_example : validate_signal (built digest) context.trial_id ≡ ok tt
build_signal-validated_example =
    build_signal-validated hashes (quote digest) context (λ _. refl) (λ _. refl) refl refl refl
      builds
