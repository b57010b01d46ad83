-- ===== src/Settlement/Official.antt =====
-- When `settle` of scripts/settle_h4_signals.py takes a result for a row, and when it refuses one.
use lol_predictor.Prelude.{
  ℕ, ◌≤◌, ◌≡◌, refl, sym, ◌∙◌, ◌⊎◌, inl, inr, Bool, true, false, ◌||◌, not, Option, none, some,
  List, [], ◌∷◌, In, Result, ok, fail, Bool-cases, ltb, arith, ◌>>=◌,
}
use lol_predictor.Approval.{is_text}
use lol_predictor.H4.Signals.{Signal}
use lol_predictor.H4.Cohort.{is_result}
use lol_predictor.Settlement.{
  SettleError, OfficialResult, by_id, zoned, same_result, is_official, apply_result, settle_with,
  settle_row, settle_rows, counting,
}

on_time : (a b : ℕ) → a ≤ b → not (ltb b a) ≡ true
on_time a b h = ground arith

module _ {N : Type 0} where
  -- The result of the event is official and no earlier than the event.
  pub record Official (os : List OfficialResult) (r : Signal N) (o : OfficialResult) : Type 0 where
    pub found : by_id r.canonical_event_id os ≡ some o
    pub zero_or_one : is_result o.result ≡ true
    pub trusted : (is_text "oracle-elixir" o.source || is_text "riot-esports" o.source) ≡ true
    pub available : ℕ
    pub start : ℕ
    pub available_at : zoned o.result_available_at ≡ ok available
    pub starts_at : zoned r.event_start_at ≡ ok start
    pub start-le-available : start ≤ available

  pub record AlreadySettled (os : List OfficialResult) (r : Signal N) : Type 0 where
    pub one : OfficialResult
    pub official : Official os r one
    pub closed : is_official r ≡ true
    pub same : same_result r.result one.result ≡ true

  -- A result for the row that is not official, or differs from the one that the row was settled with.
  pub record Broken (os : List OfficialResult) (r : Signal N) : Type 0 where
    pub one : OfficialResult
    pub found : by_id r.canonical_event_id os ≡ some one
    pub reason :
        (¬ Official os r one) ⊎ ((is_official r ≡ true) × (same_result r.result one.result ≡ false))

  Official-settle_with :
      (os : List OfficialResult) (r : Signal N) (o : OfficialResult)
      → Official os r o
      → settle_with o r ≡ apply_result o r
  unfolding settle_with
  Official-settle_with os r o a =
      rw
        (
          a.zero_or_one,
          a.trusted,
          a.available_at,
          a.starts_at,
          on_time a.start a.available a.start-le-available,
        )
        refl

  settle_with-Broken :
      (os : List OfficialResult) (r : Signal N) (o : OfficialResult) {e : SettleError}
      → by_id r.canonical_event_id os ≡ some o
      → settle_with o r ≡ fail e
      → Broken os r
  settle_with-Broken os r o found h = elim (Bool-cases (is_official r)) [
    | inr open_row ↦ record {
      one = o;
      found = found;
      reason =
          inl (λ a. let same = sym (Official-settle_with os r o a) ∙ h in cc (rw open_row at same));
    }
    | inl closed ↦ elim (Bool-cases (same_result r.result o.result)) [
      | inr changed ↦ record { one = o; found = found; reason = inr (closed, changed) }
      | inl kept ↦ record {
        one = o;
        found = found;
        reason = inl (λ a.
            let same = sym (Official-settle_with os r o a) ∙ h in cc (rw (closed, kept) at same));
      }
    ]
  ]

  settle_row-Broken :
      (os : List OfficialResult) (r : Signal N) (found : Option OfficialResult) {e : SettleError}
      → by_id r.canonical_event_id os ≡ found
      → settle_row found r ≡ fail e
      → Broken os r
  settle_row-Broken os r none same h = cc
  settle_row-Broken os r (some o) same h = settle_with-Broken os r o same h

  -- one step of the loop and the later ones
  abbrev joined :
      Result SettleError (Signal N × Bool)
      → Result SettleError (List (Signal N) × ℕ)
      → Result SettleError (List (Signal N) × ℕ)
  joined first others = do a ← first; b ← others; ok (a.0 ∷ b.0, counting a.1 b.1)

  -- the row of the failing step, or one that the later rows have
  first-Broken :
      (os : List OfficialResult) (r : Signal N) (rs : List (Signal N))
      (first : Result SettleError (Signal N × Bool))
      (others : Result SettleError (List (Signal N) × ℕ)) {e : SettleError}
      → settle_row (by_id r.canonical_event_id os) r ≡ first
      → ((e' : SettleError) → others ≡ fail e' → (q : Signal N) × In q rs × Broken os q)
      → joined first others ≡ fail e
      → (q : Signal N) × In q (r ∷ rs) × Broken os q
  first-Broken os r rs (fail e') others made later h =
      (r, inl refl, settle_row-Broken os r _ refl made)
  first-Broken os r rs (ok x) (fail e') made later h =
      let (q, i, b) = later e' refl in (q, inr i, b)
  first-Broken os r rs (ok x) (ok y) made later h = cc

  -- if the rows are refused, one of them has a result that is refused
  pub settle_rows-Broken :
      (os : List OfficialResult) (rs : List (Signal N)) {e : SettleError}
      → settle_rows os rs ≡ fail e
      → (r : Signal N) × In r rs × Broken os r
  unfolding settle_rows
  settle_rows-Broken os [] h = cc
  settle_rows-Broken os (r ∷ rs) h =
      first-Broken os r rs (settle_row (by_id r.canonical_event_id os) r) (settle_rows os rs) refl
        (λ e' failed. settle_rows-Broken os rs failed) h
