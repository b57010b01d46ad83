-- ===== src/H4/Gate.antt =====
-- The gate of src/h4_gate.py as its callers see it: `cohort_status` and the rows `evaluate` takes.
use lol_predictor.Prelude.{
  ℕ, String, ◌≡◌, refl, sym, ap, ◌∙◌, true, false, Option, none, some, List, [], ◌∷◌, keep, All, ok,
  fail, >>=-ok, >>-ok, Float, Bool-cases, inl, inr, eq_iff, both, ok-eq, subst,
}
use lol_predictor.Approval.{is_text}
use lol_predictor.H4.Closure.{
  cohort_closed, ClosureRecord, ClosureFile, closure, closure_status, assert_h4_open,
  is_closure_record, is_closed, is_reopened,
}
use lol_predictor.H4.Signals.{Signal}
use lol_predictor.H4.Cohort.{
  CohortState, ready_for_evaluation, Trial, SignalsFile, Counts, Report, closed, status, lift,
  not_open, rows_of_file, is_mature, is_settled, is_eligible, open_status, cohort_status,
  evaluation_rows, assert_open_if_given, require_ready, is_ready,
}
use lol_predictor.H4.Ready.{Ready, open_status-Ready}

is_ready-eq : (s : CohortState) → is_ready s ≡ true → s ≡ ready_for_evaluation
is_ready-eq ready_for_evaluation h = refl
is_ready-eq _ h = cc

closed-reopened : (c : ClosureRecord) → is_closed c ≡ true → is_reopened c ≡ false
unfolding is_closed is_reopened
closed-reopened c h = go c.scientific_status h
  where
    go :
        (o : Option String)
        → is_text "CLOSED_BY_HUMAN_DECISION" o ≡ true
        → is_text "REOPENED_BY_HUMAN_DECISION" o ≡ false
    go none h = refl
    go (some s) h = rw ((eq_iff s "CLOSED_BY_HUMAN_DECISION").0 h) refl

closure_status-closed :
    (c : ClosureRecord)
    → is_closure_record c ≡ true
    → is_closed c ≡ true
    → closure_status (closure c) ≡ ok (some c)
unfolding closure_status
closure_status-closed c good shut = rw (good, closed-reopened c shut) refl

require_ready-status :
    (report : Report)
    → require_ready report ≡ ok tt
    → (c : Counts) × (report ≡ status c) × (c.state ≡ ready_for_evaluation)
require_ready-status (closed c) h = cc
require_ready-status (status c) h = elim (Bool-cases (is_ready c.state)) [
  | inl good ↦ (c, refl, is_ready-eq c.state good)
  | inr bad ↦ cc (rw bad at h)
]

module _ {N : Type 0} ⦃f : Float N⦄ where
  -- If `cohort_status` reports the state READY_FOR_EVALUATION, with or without a closure file, then
  -- the cohort file reads as rows that are all valid and made after the start of the collection, no
  -- event occurs twice, all rows have one model version, every row whose event has begun has an
  -- official result, and the trial's four minimums are met.
  pub cohort_status-Ready :
      (cohort : SignalsFile N) (t : Trial) (observed : ℕ) (file : Option ClosureFile) {c : Counts}
      → cohort_status cohort t observed file ≡ ok (status c)
      → c.state ≡ ready_for_evaluation
      → (rows : List (Signal N)) × (rows_of_file cohort ≡ ok rows) × Ready t observed rows c
  unfolding cohort_status
  cohort_status-Ready cohort t observed none h ready = open_status-Ready cohort t observed h ready
  cohort_status-Ready cohort t observed (some file) {c = c} h ready =
      let (human, _, later) = >>=-ok (lift not_open (closure_status file)) _ h in
      still_open human later
    where
      still_open :
          (human : Option ClosureRecord)
          → (elim human [ some c ↦ ok (closed c) | none ↦ open_status cohort t observed ])
            ≡ ok (status c)
          → (rows : List (Signal N)) × (rows_of_file cohort ≡ ok rows) × Ready t observed rows c
      still_open none h = open_status-Ready cohort t observed h ready
      still_open (some r) h = cc

  -- With a well-formed record of a human closure, whatever the cohort holds, `cohort_status` reports
  -- the closure and `evaluate` raises.
  pub closure-blocks :
      (cohort : SignalsFile N) (t : Trial) (observed : ℕ) (c : ClosureRecord)
      → is_closure_record c ≡ true
      → is_closed c ≡ true
      → (cohort_status cohort t observed (some (closure c)) ≡ ok (closed c))
        × (evaluation_rows cohort t observed (some (closure c)) ≡ fail (not_open cohort_closed))
  unfolding cohort_status evaluation_rows assert_h4_open
  closure-blocks cohort t observed c good shut =
      let e = closure_status-closed c good shut in (rw e refl, rw e refl)

  keep-eligible :
      (observed : ℕ) (rows : List (Signal N))
      → All (λ r. is_settled r ≡ true) (keep (is_mature observed) rows)
      → keep (is_eligible observed) rows ≡ keep (is_mature observed) rows
  unfolding is_eligible is_settled
  keep-eligible observed [] _ = refl
  keep-eligible observed (r ∷ rs) all = elim (Bool-cases (is_mature observed r)) [
    | inr early ↦ rw early (keep-eligible observed rs (rw early at all))
    | inl late ↦
        let (good, rest) = rw late at all in
        let official = (both {a = is_text "OFFICIAL" r.settlement_status} good).0 in
        rw (late, official) (ap (r ∷◌) (keep-eligible observed rs rest))
  ]

  -- If `evaluate` gets as far as its statistics, the cohort is ready, and the rows it takes are all
  -- the rows whose event has begun.
  pub evaluation_rows-Ready :
      (cohort : SignalsFile N) (t : Trial) (observed : ℕ) (file : Option ClosureFile)
      {taken : List (Signal N)}
      → evaluation_rows cohort t observed file ≡ ok taken
      → (rows : List (Signal N)) × (rows_of_file cohort ≡ ok rows)
        × ((c : Counts) × Ready t observed rows c)
        × (taken ≡ keep (is_mature observed) rows)
  unfolding evaluation_rows
  evaluation_rows-Ready cohort t observed file h =
      let (_, h1) = >>-ok (lift not_open (assert_open_if_given file)) _ h in
      let (report, e2, h2) = >>=-ok (cohort_status cohort t observed none) _ h1 in
      let (good, h3) = >>-ok (require_ready report) _ h2 in
      let (rows, e4, h4) = >>=-ok (rows_of_file cohort) _ h3 in
      let (c, as_status, ready) = require_ready-status report good in
      let (rows', e5, all) =
        cohort_status-Ready cohort t observed none (e2 ∙ ap ok as_status) ready in
      let now_ready = subst (λ x. Ready t observed x c) (ok-eq e5 e4) all in
      (
        rows,
        e4,
        (c, now_ready),
        sym (ok-eq refl h4) ∙ keep-eligible observed rows now_ready.all_settled,
      )
