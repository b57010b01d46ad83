-- ===== src/H4/Ready.antt =====
-- What `cohort_status` of src/h4_gate.py has established when it reports that the cohort is ready.
pub mod Keys
use lol_predictor.Prelude.{
  ℕ, String, ◌≡◌, ◌≤◌, ◌<◌, ◌-◌, ◌*◌, refl, sym, ap, ◌∙◌, subst, Bool, true, false, not, Option,
  none, some, List, [], ◌∷◌, ◌++◌, map, length, keep, All, Result, ok, fail, >>=-ok, >>-ok,
  require-ok, aware, day, Float, ltb, eqb, arith, Bool-cases, inl, inr, eq_iff,
}
use lol_predictor.H4.Signals.{Refusal, Signal, dt, validate_signal}
use lol_predictor.H4.Accepted.{Accepted, validate_signal-Accepted, dt-ok}
use lol_predictor.H4.Cohort.{
  Problem, ready_for_evaluation, Trial, SignalsFile, Counts, Report, status, lift, same_key,
  occurrences, member, distinct, any_repeated, rows_of_file, is_mature, is_settled, admit,
  sorted_out, sift, when, settled_of, cohort_issues, competitions_of, has_none, choose_state,
  counts, open_status, repeated_event, model_changed, unsettled, invalid, CohortError,
}
use lol_predictor.H4.Ready.Keys.{
  same_key-eq, member-All, distinct-All, one_distinct, any_repeated-All, has_none-append,
  has_none-eq, has_none-when, keep-whole, keep-All,
}

pub record Reached (t : Trial) (issues : List Problem) (elapsed m s c : ℕ) : Type 0 where
  pub clean : has_none issues ≡ true
  pub enough_days : t.min_calendar_days * day ≤ elapsed
  pub enough_matured : t.min_matured_matches ≤ m
  pub enough_signals : t.min_shadow_signals ≤ s
  pub enough_competitions : t.min_competitions ≤ c

choose_state-ready :
    (t : Trial) (issues : List Problem) (elapsed m s c : ℕ)
    → choose_state t issues elapsed m s c ≡ ready_for_evaluation
    → Reached t issues elapsed m s c
unfolding choose_state
choose_state-ready t issues elapsed m s c h = record {
  clean = ground arith;
  enough_days = ground arith;
  enough_matured = ground arith;
  enough_signals = ground arith;
  enough_competitions = ground arith;
}

not_unequal : (a b : ℕ) → not (eqb a b) ≡ false → a ≡ b
not_unequal a b h = ground arith

abbrev settled_as : Report → Result CohortError Report
settled_as r = ok r

status-eq : {a b : Counts} → settled_as (status a) ≡ settled_as (status b) → a ≡ b
status-eq h = cc

lift-ok :
    {E F : Type 0} {A : Type 0} (g : E → F) (m : Result E A) {a : A} → lift g m ≡ ok a → m ≡ ok a
lift-ok g (ok a) h = cc
lift-ok g (fail e) h = cc

ltb-lt : (a b : ℕ) → ltb a b ≡ true → a < b
ltb-lt a b h = ground arith

instant_unique : {a b : ℕ} → some (aware a) ≡ some (aware b) → a ≡ b
instant_unique h = cc

module _ {N : Type 0} ⦃f : Float N⦄ where
  sorted_out-clean :
      (r : Signal N) (a : Result Refusal (Unit {0}))
      (rest : Result Refusal (List (Signal N) × List Problem)) {valid : List (Signal N)}
      → sorted_out r a rest ≡ ok (valid, [])
      → (a ≡ ok tt) × ((others : List (Signal N)) × (rest ≡ ok (others, [])) × (valid ≡ r ∷ others))
  sorted_out-clean r (ok _) (ok (others, [])) h = (refl, (others, refl, cc))
  sorted_out-clean r (ok _) (ok (others, p ∷ ps)) h = cc
  sorted_out-clean r (ok _) (fail e) h = cc
  sorted_out-clean r (fail e) (ok (others, ps)) h = ground arith
  sorted_out-clean r (fail e) (fail e') h = ground arith

  sift-clean :
      (trial : String) (start : ℕ) (rows : List (Signal N)) {valid : List (Signal N)}
      → sift trial start rows ≡ ok (valid, [])
      → (valid ≡ rows) × All (λ r. admit trial start r ≡ ok tt) rows
  unfolding sift
  sift-clean trial start [] h = (cc, tt)
  sift-clean trial start (r ∷ rs) h =
      let (good, rest) = sorted_out-clean r (admit trial start r) (sift trial start rs) h in
      let (others, e, same) = rest in
      let (whole, all) = sift-clean trial start rs e in (same ∙ ap (r ∷◌) whole, (good, all))

  pub record Admitted (trial : String) (start : ℕ) (r : Signal N) : Type 0 where
    pub accepted : Accepted r trial
    pub in_cohort : start < accepted.predicted

  admit-Admitted :
      (trial : String) (start : ℕ) (r : Signal N)
      → admit trial start r ≡ ok tt
      → Admitted trial start r
  unfolding admit
  admit-Admitted trial start r h =
      let (valid, later) = >>-ok (validate_signal r trial) _ h in
      let (p, read, after) = >>=-ok (dt r.predicted_at) _ later in
      let a = validate_signal-Accepted r trial valid in
      let same : p ≡ a.predicted =
        instant_unique (sym (dt-ok r.predicted_at read) ∙ a.predicted_at) in
      let late : ltb start p ≡ true = require-ok (ltb start p) _ after in
      record { accepted = a; in_cohort = rw (← same) (ltb-lt start p late) }

  -- What a report of readiness rests on, for the rows of the cohort file.
  pub record Ready (t : Trial) (observed : ℕ) (rows : List (Signal N)) (c : Counts) : Type 0 where
    pub start : ℕ
    pub starts : t.collection_start_exclusive ≡ some (aware start)
    pub admitted : All (Admitted t.name start) rows
    pub once :
        All
          (λ k. occurrences k (map (λ r. r.canonical_event_id) rows) ≤ 1)
          (map (λ r. r.canonical_event_id) rows)
    pub model : Option String
    pub one_model : All (λ k. k ≡ model) (map (λ r. r.model_version) rows)
    pub all_settled : All (λ r. is_settled r ≡ true) (keep (is_mature observed) rows)
    pub counted : c.matured_matches ≡ length (keep (is_mature observed) rows)
    pub enough_days : t.min_calendar_days * day ≤ observed - start
    pub enough_matured : t.min_matured_matches ≤ length (keep (is_mature observed) rows)
    pub enough_signals : t.min_shadow_signals ≤ length rows
    pub enough_competitions :
        t.min_competitions ≤ length (competitions_of (keep (is_mature observed) rows))

  Admitted-All :
      (trial : String) (start : ℕ) (rows : List (Signal N))
      → All (λ r. admit trial start r ≡ ok tt) rows
      → All (Admitted trial start) rows
  Admitted-All trial start [] _ = tt
  Admitted-All trial start (r ∷ rs) (a, later) =
      (admit-Admitted trial start r a, Admitted-All trial start rs later)

  cohort_issues-clean :
      (observed : ℕ) (rows : List (Signal N))
      → has_none (cohort_issues observed rows) ≡ true
      → (any_repeated (map (λ r. r.canonical_event_id) rows) (map (λ r. r.canonical_event_id) rows)
          ≡ false)
        × (ltb 1 (length (distinct (map (λ r. r.model_version) rows))) ≡ false)
        × (length (settled_of observed rows) ≡ length (keep (is_mature observed) rows))
  unfolding cohort_issues settled_of
  cohort_issues-clean observed rows h =
      let events = map (λ r. r.canonical_event_id) rows in
      let twice = any_repeated events events in
      let changed = ltb 1 (length (distinct (map (λ r. r.model_version) rows))) in
      let matured = length (keep (is_mature observed) rows) in
      let open_ones = not (eqb (length (settled_of observed rows)) matured) in
      let first_two = when twice repeated_event ++ when changed model_changed in
      let (ab, c) = has_none-append first_two (when open_ones unsettled) h in
      let (a, b) = has_none-append (when twice repeated_event) (when changed model_changed) ab in
      (
        has_none-when twice repeated_event a,
        has_none-when changed model_changed b,
        not_unequal _ _ (has_none-when open_ones unsettled c),
      )

  counts-Ready :
      (t : Trial) (observed start : ℕ) (rows : List (Signal N))
      → t.collection_start_exclusive ≡ some (aware start)
      → All (λ r. admit t.name start r ≡ ok tt) rows
      → (counts t observed start rows (rows, [])).state ≡ ready_for_evaluation
      → Ready t observed rows (counts t observed start rows (rows, []))
  unfolding counts settled_of
  counts-Ready t observed start rows at_start good ready =
      let reached = choose_state-ready t _ _ _ _ _ ready in
      let (unique, one, all) = cohort_issues-clean observed rows reached.clean in
      let events = map (λ r. r.canonical_event_id) rows in
      let mature = keep (is_mature observed) rows in
      let (model, versions) = one_distinct (map (λ r. r.model_version) rows) one in
      let settled = (keep-whole is_settled mature).1 all in
      let whole : settled_of observed rows ≡ mature = keep-All is_settled mature settled in
      record {
        start = start;
        starts = at_start;
        admitted = Admitted-All t.name start rows good;
        once = any_repeated-All events events unique;
        model = model;
        one_model = versions;
        all_settled = settled;
        counted = all;
        enough_days = reached.enough_days;
        enough_matured = rw (← all) reached.enough_matured;
        enough_signals = reached.enough_signals;
        enough_competitions = rw (← whole) reached.enough_competitions;
      }

  counts-refusals :
      (t : Trial) (observed start : ℕ) (rows valid : List (Signal N)) (refusals : List Problem)
      → (counts t observed start rows (valid, refusals)).state ≡ ready_for_evaluation
      → refusals ≡ []
  unfolding counts
  counts-refusals t observed start rows valid refusals ready =
      let reached = choose_state-ready t _ _ _ _ _ ready in
      has_none-eq refusals (has_none-append refusals (cohort_issues observed valid) reached.clean).0

  sift-Ready :
      (t : Trial) (observed start : ℕ) (rows valid : List (Signal N)) (refusals : List Problem)
      → t.collection_start_exclusive ≡ some (aware start)
      → sift t.name start rows ≡ ok (valid, refusals)
      → (counts t observed start rows (valid, refusals)).state ≡ ready_for_evaluation
      → Ready t observed rows (counts t observed start rows (valid, refusals))
  sift-Ready t observed start rows valid refusals at_start sorted ready =
      let none_refused = counts-refusals t observed start rows valid refusals ready in
      let (whole, good) = sift-clean t.name start rows (rw none_refused at sorted) in
      let now_ready = rw (none_refused, whole) at ready in
      rw (none_refused, whole) (counts-Ready t observed start rows at_start good now_ready)

  pub open_status-Ready :
      (signals : SignalsFile N) (t : Trial) (observed : ℕ) {c : Counts}
      → open_status signals t observed ≡ ok (status c)
      → c.state ≡ ready_for_evaluation
      → (rows : List (Signal N)) × (rows_of_file signals ≡ ok rows) × Ready t observed rows c
  unfolding open_status
  open_status-Ready signals t observed h ready =
      let (start, e1, h1) = >>=-ok (lift invalid (dt t.collection_start_exclusive)) _ h in
      let (rows, e2, h2) = >>=-ok (rows_of_file signals) _ h1 in
      let (sorted, e3, h3) = >>=-ok (lift invalid (sift t.name start rows)) _ h2 in
      let same = status-eq h3 in
      let at_start = dt-ok t.collection_start_exclusive (lift-ok invalid _ e1) in
      (
        rows,
        e2,
        subst (Ready t observed rows) same (
            sift-Ready t observed start rows sorted.0 sorted.1 at_start (lift-ok invalid _ e3)
              (ap (λ k. k.state) same ∙ ready)),
      )
