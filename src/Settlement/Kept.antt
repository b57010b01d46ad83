-- ===== src/Settlement/Kept.antt =====
-- What `settle` of scripts/settle_h4_signals.py does to the rows of the cohort file.
use lol_predictor.Prelude.{
  ℕ, suc, ◌≡◌, refl, ◌⊎◌, inl, inr, Bool, true, false, ◌&&◌, ◌||◌, not, Option, none, some, List,
  [], ◌∷◌, All, Result, ok, fail, >>=-ok, require-then, ok-eq, Bool-cases, ltb, subst, arith,
  String, Float, present, In,
}
use lol_predictor.Approval.{is_text}
use lol_predictor.H4.Signals.{Signal, given, complete, names_trial, frozen, validate_signal}
use lol_predictor.H4.Accepted.{Accepted, validate_signal-Accepted, Accepted-validated}
use lol_predictor.H4.Cohort.{SignalsFile, lines, is_result}
use lol_predictor.Settlement.{
  SettleError, OfficialResult, ResultsFile, supplied, unreadable_results, by_id, zoned, same_result,
  is_official, with_result, apply_result, settle_with, settle_row, counting, replaced, settle_rows,
  settle,
}
use lol_predictor.Settlement.Official.{Official, AlreadySettled, Broken, settle_rows-Broken}

module _ {N : Type 0} where
  -- The rows before and after, and how many of them were settled.
  pub data Settles (os : List OfficialResult) : List (Signal N) → List (Signal N) → ℕ → Type 0 where
    end : Settles os [] [] 0
    left :
        {rs rs' : List (Signal N)} {n : ℕ} (r : Signal N)
        → ((by_id r.canonical_event_id os ≡ none) ⊎ AlreadySettled os r)
        → Settles os rs rs' n
        → Settles os (r ∷ rs) (r ∷ rs') n
    put :
        {rs rs' : List (Signal N)} {n : ℕ} (r : Signal N) (o : OfficialResult)
        → Official os r o
        → is_official r ≡ false
        → Settles os rs rs' n
        → Settles os (r ∷ rs) (with_result o r ∷ rs') (suc n)

  settle_with-Official :
      (os : List OfficialResult) (r : Signal N) (o : OfficialResult) {x : Signal N × Bool}
      → by_id r.canonical_event_id os ≡ some o
      → settle_with o r ≡ ok x
      → Official os r o × (apply_result o r ≡ ok x)
  unfolding settle_with
  settle_with-Official os r o found h =
      let trusted = is_text "oracle-elixir" o.source || is_text "riot-esports" o.source in
      let (good, h1) = require-then (is_result o.result && trusted) _ _ h in
      let (available, e1, h2) = >>=-ok (zoned o.result_available_at) _ h1 in
      let (start, e2, h3) = >>=-ok (zoned r.event_start_at) _ h2 in
      let (late, h4) = require-then (not (ltb available start)) _ _ h3 in
      (
        record {
          found = found;
          zero_or_one = ground arith;
          trusted = ground arith;
          available = available;
          start = start;
          available_at = e1;
          starts_at = e2;
          start-le-available = ground arith;
        },
        h4,
      )

  grown :
      (os : List OfficialResult) (r : Signal N) (o : OfficialResult) {x : Signal N × Bool}
      {rs rs' : List (Signal N)} {n : ℕ}
      → Official os r o
      → apply_result o r ≡ ok x
      → Settles os rs rs' n
      → Settles os (r ∷ rs) (x.0 ∷ rs') (counting x.1 n)
  grown os r o {rs = rs} {rs' = rs'} {n = n} good h rest = elim (Bool-cases (is_official r)) [
    | inr open_row ↦
        subst (λ y. Settles os (r ∷ rs) (y.0 ∷ rs') (counting y.1 n))
          (ok-eq refl (rw open_row at h)) (put r o good open_row rest)
    | inl official ↦ elim (Bool-cases (same_result r.result o.result)) [
      | inr changed ↦ cc (rw (official, changed) at h)
      | inl same ↦
          subst (λ y. Settles os (r ∷ rs) (y.0 ∷ rs') (counting y.1 n))
            (ok-eq refl (rw (official, same) at h))
            (left r (inr (record { one = o; official = good; closed = official; same = same }))
              rest)
    ]
  ]

  grown_row :
      (os : List OfficialResult) (r : Signal N) (found : Option OfficialResult)
      {x : Signal N × Bool} {rs rs' : List (Signal N)} {n : ℕ}
      → by_id r.canonical_event_id os ≡ found
      → settle_row found r ≡ ok x
      → Settles os rs rs' n
      → Settles os (r ∷ rs) (x.0 ∷ rs') (counting x.1 n)
  grown_row os r none {rs = rs} {rs' = rs'} {n = n} e h rest =
      subst (λ y. Settles os (r ∷ rs) (y.0 ∷ rs') (counting y.1 n)) (ok-eq refl h)
        (left r (inl e) rest)
  grown_row os r (some o) e h rest =
      let (good, applied) = settle_with-Official os r o e h in grown os r o good applied rest

  settle_rows-Settles :
      (os : List OfficialResult) (rs : List (Signal N)) {x : List (Signal N) × ℕ}
      → settle_rows os rs ≡ ok x
      → Settles os rs x.0 x.1
  unfolding settle_rows
  settle_rows-Settles os [] h = subst (λ y. Settles os [] y.0 y.1) (ok-eq refl h) end
  settle_rows-Settles os (r ∷ rs) h =
      let found = by_id r.canonical_event_id os in
      let (first, e1, h1) = >>=-ok (settle_row found r) _ h in
      let (others, e2, h2) = >>=-ok (settle_rows os rs) _ h1 in
      let rest = settle_rows-Settles os rs e2 in
      subst (λ y. Settles os (r ∷ rs) y.0 y.1) (ok-eq refl h2) (grown_row os r found refl e1 rest)

  -- Why a run may raise: the results file, the disk, or a row with a result that is refused.
  abbrev pub Refusal : Bool → ResultsFile → List (Signal N) → Type 0
  Refusal writes unreadable_results rows = Unit {0}
  Refusal writes (supplied os) rows = (writes ≡ false) ⊎ ((r : Signal N) × In r rows × Broken os r)

  -- A run either raised and left the file as it was, or it put the supplied results on the rows.
  pub data Settling (writes : Bool) (results : ResultsFile) (rows : List (Signal N))
      : Result SettleError ℕ × SignalsFile N → Type 0 where
    raised :
        (e : SettleError)
        → Refusal writes results rows
        → Settling writes results rows (fail e, lines rows)
    settled :
        {rows' : List (Signal N)} {n : ℕ} (os : List OfficialResult)
        → results ≡ supplied os
        → Settles os rows rows' n
        → Settling writes results rows (ok n, lines rows')

  replaced-Settling :
      (writes : Bool) (rows : List (Signal N)) (os : List OfficialResult)
      (x : Result SettleError (List (Signal N) × ℕ))
      → settle_rows os rows ≡ x
      → Settling writes (supplied os) rows (replaced writes (lines rows) x)
  replaced-Settling writes rows os (fail e) made = raised e (inr (settle_rows-Broken os rows made))
  replaced-Settling false rows os (ok (rows', n)) made = raised _ (inl refl)
  replaced-Settling true rows os (ok (rows', n)) made =
      settled os refl (settle_rows-Settles os rows made)

  pub settle-Settling :
      (writes : Bool) (rows : List (Signal N)) (results : ResultsFile)
      → Settling writes results rows (settle writes (lines rows) results)
  unfolding settle
  settle-Settling writes rows unreadable_results = raised _ tt
  settle-Settling writes rows (supplied os) = replaced-Settling writes rows os _ refl

last_given :
    (x y a b c d e f g h k : Bool)
    → (x && y && (a && b && c && d && e && f && g && h && k)) ≡ true
    → (x && y && (a && b && c && d && e && f && g && h && true)) ≡ true
last_given x y a b c d e f g h k given = ground arith

complete-with_result :
    {N : Type 0} (o : OfficialResult) (r : Signal N)
    → complete r ≡ true
    → complete (with_result o r) ≡ true
unfolding complete
complete-with_result o r =
    last_given
      (present r.signal_id
        && present r.trial_id
        && present r.model_version
        && present r.code_commit
        && present r.event_id
        && present r.canonical_event_id
        && present r.competition_id
        && present r.competition_name)
      (given r.predicted_at
        && given r.event_start_at
        && present r.source
        && present r.source_event_id
        && given r.retrieved_at
        && given r.available_at
        && present r.snapshot_hash
        && present r.snapshot_status)
      (present r.schema_version) (present r.provenance_hash) (present r.market)
      (present r.selection) (given r.model_probability) (given r.market_probability)
      (given r.captured_odds) (given r.odds_captured_at) (present r.settlement_status)

module _ {N : Type 0} ⦃f : Float N⦄ where
  with_result-Accepted :
      (o : OfficialResult) (r : Signal N) (trial : String)
      → Accepted r trial
      → Accepted (with_result o r) trial
  unfolding names_trial frozen
  with_result-Accepted o r trial a = record {
    whole = complete-with_result o r a.whole;
    of_trial = a.of_trial;
    sealed = a.sealed;
    predicted = a.predicted;
    available = a.available;
    start = a.start;
    predicted_at = a.predicted_at;
    available_at = a.available_at;
    event_start_at = a.event_start_at;
    retrieved_at = a.retrieved_at;
    odds_captured_at = a.odds_captured_at;
    available-le-predicted = a.available-le-predicted;
    predicted-lt-start = a.predicted-lt-start;
    model = a.model;
    market = a.market;
    odds = a.odds;
    captured_odds = a.captured_odds;
    odds_finite = a.odds_finite;
    odds_above = a.odds_above;
  }

  abbrev pub Valid : String → Signal N → Type 0
  Valid trial r = validate_signal r trial ≡ ok tt

  Settles-Valid :
      {os : List OfficialResult} {rs rs' : List (Signal N)} {n : ℕ} (trial : String)
      → Settles os rs rs' n
      → All (Valid trial) rs
      → All (Valid trial) rs'
  Settles-Valid trial end v = tt
  Settles-Valid trial (left r _ rest) v = (v.0, Settles-Valid trial rest v.1)
  Settles-Valid trial (put r o _ _ rest) v = (
    Accepted-validated (with_result o r) trial
        (with_result-Accepted o r trial (validate_signal-Accepted r trial v.0)),
    Settles-Valid trial rest v.1,
  )

  abbrev pub FileValid : String → SignalsFile N → Type 0
  FileValid trial (lines rows) = All (Valid trial) rows
  FileValid trial _ = ⊥

  Settling-FileValid :
      {writes : Bool} {results : ResultsFile} {rows : List (Signal N)}
      {x : Result SettleError ℕ × SignalsFile N} (trial : String)
      → Settling writes results rows x
      → All (Valid trial) rows
      → FileValid trial x.1
  Settling-FileValid trial (raised e _) v = v
  Settling-FileValid trial (settled os _ s) v = Settles-Valid trial s v

  -- If `validate_signal` accepts every row of the cohort file for a trial, it accepts every row of
  -- the file that `settle` leaves, whatever the results and the disk.
  pub settle-FileValid :
      (writes : Bool) (rows : List (Signal N)) (results : ResultsFile) (trial : String)
      → All (Valid trial) rows
      → FileValid trial (settle writes (lines rows) results).1
  settle-FileValid writes rows results trial v =
      Settling-FileValid trial (settle-Settling writes rows results) v
