-- ===== src/H4/Cohort.antt =====
-- `cohort_status` of src/h4_gate.py over the parsed lines of the cohort file. Times are exact
-- microseconds: `days < min` is compared as elapsed < min · day. The report's issues keep the order
-- of the code's list, before `sorted(set(issues))`.
use lol_predictor.Prelude.{
  ℕ, String, ◌-◌, ◌*◌, Bool, true, false, ◌&&◌, ◌||◌, not, Option, none, some, List, [], ◌∷◌, ◌++◌,
  map, length, keep, Result, ok, fail, ◌>>=◌, ◌>>◌, require, Stamp, day, Float, eqb, ltb, ◌==◌,
  if◌then◌else◌,
}
use lol_predictor.Approval.{is_text}
use lol_predictor.H4.Closure.{H4Error, ClosureRecord, ClosureFile, closure_status, assert_h4_open}
use lol_predictor.H4.Signals.{Refusal, Signal, dt, before_cohort, crash, validate_signal}

pub data Problem : Type 0 where
  refused : Refusal → Problem
  repeated_event model_changed unsettled : Problem

pub data CohortState : Type 0 where
  data_quality_blocked waiting_for_time_window waiting_for_matured_events : CohortState
  waiting_for_signals waiting_for_competition_coverage ready_for_evaluation : CohortState

-- `trial["name"]` and `trial["params"]`
pub record Trial : Type 0 where
  pub name : String
  pub collection_start_exclusive : Option Stamp
  pub min_calendar_days : ℕ
  pub min_matured_matches : ℕ
  pub min_shadow_signals : ℕ
  pub min_competitions : ℕ

pub data SignalsFile (N : Type 0) : Type 0 where
  no_signals unreadable_signals : SignalsFile N
  lines : List (Signal N) → SignalsFile N

pub data CohortError : Type 0 where
  not_open : H4Error → CohortError
  invalid : Refusal → CohortError
  unreadable_cohort not_ready : CohortError

pub record Counts : Type 0 where
  pub state : CohortState
  pub decision_ready : Bool
  pub issues : List Problem
  pub matured_matches : ℕ
  pub elapsed : ℕ
  pub eligible_signals : ℕ
  pub competition_count : ℕ
  pub raw_signals : ℕ

pub data Report : Type 0 where
  closed : ClosureRecord → Report
  status : Counts → Report

abbrev pub lift {ℓ} : {E F : Type 0} {A : Type ℓ} → (E → F) → Result E A → Result F A
lift g (ok a) = ok a
lift g (fail e) = fail (g e)

abbrev pub same_key : Option String → Option String → Bool
same_key none none = true
same_key (some s) (some t) = s == t
same_key _ _ = false

-- `Counter(keys)[key]`
abbrev pub occurrences : Option String → List (Option String) → ℕ
occurrences key keys = length (keep (same_key key) keys)

abbrev pub member : Option String → List (Option String) → Bool
member key [] = false
member key (k ∷ ks) = same_key key k || member key ks

-- `set(keys)`
abbrev pub distinct : List (Option String) → List (Option String)
distinct [] = []
distinct (k ∷ ks) = let rest = distinct ks in if member k rest then rest else k ∷ rest

abbrev pub any_repeated : List (Option String) → List (Option String) → Bool
any_repeated [] keys = false
any_repeated (k ∷ ks) keys = ltb 1 (occurrences k keys) || any_repeated ks keys

abbrev pub is_crash : Refusal → Bool
is_crash crash = true
is_crash _ = false

abbrev pub when : Bool → Problem → List Problem
when true p = p ∷ []
when false p = []

-- `result in (0, 1)`
abbrev pub is_result : Option ℕ → Bool
is_result none = false
is_result (some y) = eqb y 0 || eqb y 1

module _ {N : Type 0} where
  -- `_rows`
  unfoldable pub rows_of_file : SignalsFile N → Result CohortError (List (Signal N))
  rows_of_file no_signals = ok []
  rows_of_file unreadable_signals = fail unreadable_cohort
  rows_of_file (lines rs) = ok rs

  -- `_dt(row["event_start_at"]) < observed`; every row it is asked of has a readable start
  unfoldable pub is_mature : ℕ → Signal N → Bool
  is_mature observed r = elim (dt r.event_start_at) [ fail _ ↦ false | ok t ↦ ltb t observed ]

  unfoldable pub is_settled : Signal N → Bool
  is_settled r = is_text "OFFICIAL" r.settlement_status && is_result r.result

module _ {N : Type 0} ⦃f : Float N⦄ where
  -- the body of the loop's `try`
  unfoldable pub admit : String → ℕ → Signal N → Result Refusal (Unit {0})
  unfolding validate_signal
  admit trial start r = do
    validate_signal r trial
    predicted ← dt r.predicted_at
    require (ltb start predicted) before_cohort

  abbrev pub noted :
      Refusal
      → Result Refusal (List (Signal N) × List Problem)
      → Result Refusal (List (Signal N) × List Problem)
  noted e (ok (valid, issues)) = ok (valid, refused e ∷ issues)
  noted e (fail e') = fail e'

  -- what one row adds to `valid` and `issues`, or the exception that ends the loop
  abbrev pub sorted_out :
      Signal N
      → Result Refusal (Unit {0})
      → Result Refusal (List (Signal N) × List Problem)
      → Result Refusal (List (Signal N) × List Problem)
  sorted_out r (ok _) (ok (valid, issues)) = ok (r ∷ valid, issues)
  sorted_out r (ok _) (fail e) = fail e
  sorted_out r (fail e) rest = if is_crash e then fail e else noted e rest

  unfoldable pub sift :
      String → ℕ → List (Signal N) → Result Refusal (List (Signal N) × List Problem)
  unfolding admit
  sift trial start [] = ok ([], [])
  sift trial start (r ∷ rs) =
      let rest = sift trial start rs in sorted_out r (admit trial start r) rest

module _ {N : Type 0} where
  unfoldable pub settled_of : ℕ → List (Signal N) → List (Signal N)
  unfolding is_mature is_settled
  settled_of observed valid = keep is_settled (keep (is_mature observed) valid)

  -- the three checks after the loop
  unfoldable pub cohort_issues : ℕ → List (Signal N) → List Problem
  unfolding is_mature is_settled settled_of
  cohort_issues observed valid =
      let events = map (λ r. r.canonical_event_id) valid in
      when (any_repeated events events) repeated_event
      ++ when (ltb 1 (length (distinct (map (λ r. r.model_version) valid)))) model_changed
      ++ when
          (not
            (eqb (length (settled_of observed valid)) (length (keep (is_mature observed) valid))))
          unsettled

  unfoldable pub competitions_of : List (Signal N) → List (Option String)
  competitions_of rows = distinct (map (λ r. r.competition_id) rows)

abbrev pub has_none : List Problem → Bool
has_none [] = true
has_none (_ ∷ _) = false

unfoldable pub choose_state : Trial → List Problem → ℕ → ℕ → ℕ → ℕ → CohortState
choose_state t issues elapsed matured signals competitions =
    if not (has_none issues)
    then data_quality_blocked
    else if ltb elapsed (t.min_calendar_days * day)
    then waiting_for_time_window
    else if ltb matured t.min_matured_matches
    then waiting_for_matured_events
    else if ltb signals t.min_shadow_signals
    then waiting_for_signals
    else if ltb competitions t.min_competitions
    then waiting_for_competition_coverage
    else ready_for_evaluation

abbrev pub assert_open_if_given : Option ClosureFile → Result H4Error (Unit {0})
assert_open_if_given none = ok tt
assert_open_if_given (some file) = assert_h4_open file

abbrev pub is_ready : CohortState → Bool
is_ready ready_for_evaluation = true
is_ready _ = false

abbrev pub require_ready : Report → Result CohortError (Unit {0})
require_ready (closed c) = fail not_ready
require_ready (status c) = if is_ready c.state then ok tt else fail not_ready

module _ {N : Type 0} ⦃f : Float N⦄ where
  unfoldable pub counts : Trial → ℕ → ℕ → List (Signal N) → List (Signal N) × List Problem → Counts
  unfolding choose_state settled_of cohort_issues competitions_of
  counts t observed start rows (valid, refusals) =
      let issues = refusals ++ cohort_issues observed valid in
      let settled = settled_of observed valid in
      let places = length (competitions_of settled) in
      let s = choose_state t issues (observed - start) (length settled) (length valid) places in
      record {
        state = s;
        decision_ready = is_ready s;
        issues = issues;
        matured_matches = length settled;
        elapsed = observed - start;
        eligible_signals = length valid;
        competition_count = places;
        raw_signals = length rows;
      }

  -- the part of `cohort_status` below the closure check
  unfoldable pub open_status : SignalsFile N → Trial → ℕ → Result CohortError Report
  unfolding rows_of_file sift counts
  open_status signals t observed = do
    start ← lift invalid (dt t.collection_start_exclusive)
    rows ← rows_of_file signals
    sorted ← lift invalid (sift t.name start rows)
    ok (status (counts t observed start rows sorted))

  -- `none` for the last argument is a call without `closure_path`
  unfoldable pub cohort_status :
      SignalsFile N → Trial → ℕ → Option ClosureFile → Result CohortError Report
  unfolding closure_status open_status
  cohort_status signals t observed none = open_status signals t observed
  cohort_status signals t observed (some file) = do
    human ← lift not_open (closure_status file)
    elim human [ some c ↦ ok (closed c) | none ↦ open_status signals t observed ]

  unfoldable pub is_eligible : ℕ → Signal N → Bool
  unfolding is_mature
  is_eligible observed r = is_mature observed r && is_text "OFFICIAL" r.settlement_status

  -- `evaluate`, with its second reading of the same file, down to the list it computes its statistics from
  unfoldable pub evaluation_rows :
      SignalsFile N → Trial → ℕ → Option ClosureFile → Result CohortError (List (Signal N))
  unfolding rows_of_file cohort_status is_eligible assert_h4_open
  evaluation_rows signals t observed file = do
    lift not_open (assert_open_if_given file)
    report ← cohort_status signals t observed none
    require_ready report
    rows ← rows_of_file signals
    ok (keep (is_eligible observed) rows)
