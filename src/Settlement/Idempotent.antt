-- ===== src/Settlement/Idempotent.antt =====
-- A second `settle` of scripts/settle_h4_signals.py with the same results changes nothing.
use lol_predictor.Prelude.{
  ℕ, ◌≡◌, refl, ap, ◌∙◌, Bool, true, false, ◌&&◌, ◌||◌, not, Option, none, some, List, [], ◌∷◌,
  Result, ok, fail, >>=-ok, require-then, ok-eq, Bool-cases, inl, inr, ltb, arith, subst,
}
use lol_predictor.Approval.{is_text}
use lol_predictor.H4.Signals.{Signal}
use lol_predictor.H4.Cohort.{lines, is_result}
use lol_predictor.Settlement.{
  SettleError, OfficialResult, supplied, by_id, zoned, same_result, is_official, apply_result,
  settle_with, settle_row, replaced, settle_rows, settle,
}

same_result_self : (a : Option ℕ) → same_result a a ≡ true
same_result_self none = refl
same_result_self (some a) = ground arith

module _ {N : Type 0} where
  -- What `apply_result` does to a row, and that doing it again does nothing.
  pub record Applied (o : OfficialResult) (r r' : Signal N) : Type 0 where
    pub same_event : r'.canonical_event_id ≡ r.canonical_event_id
    pub same_start : r'.event_start_at ≡ r.event_start_at
    pub again : apply_result o r' ≡ ok (r', false)

  apply_result-Applied :
      (o : OfficialResult) (r : Signal N) {x : Signal N × Bool}
      → apply_result o r ≡ ok x
      → Applied o r x.0
  apply_result-Applied o r h = elim (Bool-cases (is_official r)) [
    | inr open_row ↦
        let e = ok-eq refl (rw open_row at h) in
        subst (λ y. Applied o r y.0) e
          (record {
            same_event = refl;
            same_start = refl;
            again = rw (same_result_self o.result) refl;
          })
    | inl official ↦ elim (Bool-cases (same_result r.result o.result)) [
      | inr changed ↦ cc (rw (official, changed) at h)
      | inl same ↦
          let e = ok-eq refl (rw (official, same) at h) in
          subst (λ y. Applied o r y.0) e
            (record { same_event = refl; same_start = refl; again = rw (official, same) refl })
    ]
  ]

  -- a row that was settled is settled again as it is
  settle_with-again :
      (o : OfficialResult) (r : Signal N) {x : Signal N × Bool}
      → settle_with o r ≡ ok x
      → (x.0.canonical_event_id ≡ r.canonical_event_id) × (settle_with o x.0 ≡ ok (x.0, false))
  unfolding settle_with
  settle_with-again o r {x = x} h =
      let valid =
        is_result o.result
        && (is_text "oracle-elixir" o.source || is_text "riot-esports" o.source) in
      let (good, h1) = require-then valid _ _ h in
      let (available, e1, h2) = >>=-ok (zoned o.result_available_at) _ h1 in
      let (start, e2, h3) = >>=-ok (zoned r.event_start_at) _ h2 in
      let (late, h4) = require-then (not (ltb available start)) _ _ h3 in
      let applied = apply_result-Applied o r h4 in
      let e2' : zoned x.0.event_start_at ≡ ok start = ap zoned applied.same_start ∙ e2 in
      (applied.same_event, rw (good, e1, e2', late) applied.again)

  settle_row-again :
      (found : Option OfficialResult) (r : Signal N) {x : Signal N × Bool}
      → settle_row found r ≡ ok x
      → (x.0.canonical_event_id ≡ r.canonical_event_id) × (settle_row found x.0 ≡ ok (x.0, false))
  settle_row-again none r h =
      subst
        (λ y.
          (y.0.canonical_event_id ≡ r.canonical_event_id) × (settle_row none y.0 ≡ ok (y.0, false)))
        (ok-eq refl h) (refl, refl)
  settle_row-again (some o) r h = settle_with-again o r h

  pub settle_rows-again :
      (os : List OfficialResult) (rs : List (Signal N)) {x : List (Signal N) × ℕ}
      → settle_rows os rs ≡ ok x
      → settle_rows os x.0 ≡ ok (x.0, 0)
  unfolding settle_rows
  settle_rows-again os [] h = subst (λ y. settle_rows os y.0 ≡ ok (y.0, 0)) (ok-eq refl h) refl
  settle_rows-again os (r ∷ rs) h =
      let (first, e1, h1) = >>=-ok (settle_row (by_id r.canonical_event_id os) r) _ h in
      let (others, e2, h2) = >>=-ok (settle_rows os rs) _ h1 in
      let (same, done) = settle_row-again (by_id r.canonical_event_id os) r e1 in
      let rest = settle_rows-again os rs e2 in
      subst (λ y. settle_rows os y.0 ≡ ok (y.0, 0)) (ok-eq refl h2) (rw (same, done, rest) refl)

  replaced-again :
      (rows : List (Signal N)) (os : List OfficialResult)
      (x : Result SettleError (List (Signal N) × ℕ)) {n : ℕ}
      → settle_rows os rows ≡ x
      → (replaced true (lines rows) x).0 ≡ ok n
      → settle true (replaced true (lines rows) x).1 (supplied os)
        ≡ (ok 0, (replaced true (lines rows) x).1)
  unfolding settle
  replaced-again rows os (fail e) made h = cc
  replaced-again rows os (ok (rows', m)) made h = rw (settle_rows-again os rows made) refl

  -- If `settle` ends, a second run with the same results on the file that it left changes no row and
  -- leaves the file as it is.
  pub settle-again :
      (rows : List (Signal N)) (os : List OfficialResult) {n : ℕ}
      → (settle true (lines rows) (supplied os)).0 ≡ ok n
      → settle true (settle true (lines rows) (supplied os)).1 (supplied os)
        ≡ (ok 0, (settle true (lines rows) (supplied os)).1)
  unfolding settle
  settle-again rows os h = replaced-again rows os (settle_rows os rows) refl h
