-- ===== src/H4/Accepted.antt =====
-- What a row that `validate_signal` of src/h4_gate.py accepts is known to hold.
use lol_predictor.Prelude.{
  ℕ, String, ◌≡◌, refl, ◌≤◌, ◌<◌, true, false, ◌&&◌, Option, none, some, ok, >>=-ok, require-then,
  Stamp, aware, naive, garbled, Float, flt, fle, fzero, fone, leb, ltb, eqb, eqb_iff, arith, both,
  in_order,
}
use lol_predictor.H4.Signals.{
  Signal, Numeric, number, not_number, dt, complete, names_trial, frozen, finite_between,
  odds_above_one, validate_signal,
}

ordered : (a p s : ℕ) → a ≤ p → p < s → (leb a p && ltb p s) ≡ true
ordered a p s h k = ground arith

pub dt-ok : (o : Option Stamp) {t : ℕ} → dt o ≡ ok t → o ≡ some (aware t)
dt-ok none h = cc
dt-ok (some (aware s)) h = cc
dt-ok (some (naive s)) h = cc
dt-ok (some garbled) h = cc

module _ {N : Type 0} ⦃f : Float N⦄ where
  pub record Probability (o : Option (Numeric N)) : Type 0 where
    pub value : N
    pub read : o ≡ some (number value)
    pub finite : f.finite value ≡ true
    pub above : flt fzero value ≡ true
    pub below : flt value fone ≡ true

  pub record Accepted (r : Signal N) (trial : String) : Type 0 where
    pub whole : complete r ≡ true
    pub of_trial : names_trial r trial ≡ true
    pub sealed : frozen r ≡ true
    pub predicted : ℕ
    pub available : ℕ
    pub start : ℕ
    pub predicted_at : r.predicted_at ≡ some (aware predicted)
    pub available_at : r.available_at ≡ some (aware available)
    pub event_start_at : r.event_start_at ≡ some (aware start)
    pub retrieved_at : r.retrieved_at ≡ some (aware predicted)
    pub odds_captured_at : r.odds_captured_at ≡ some (aware predicted)
    pub available-le-predicted : available ≤ predicted
    pub predicted-lt-start : predicted < start
    pub model : Probability r.model_probability
    pub market : Probability r.market_probability
    pub odds : N
    pub captured_odds : r.captured_odds ≡ some (number odds)
    pub odds_finite : f.finite odds ≡ true
    pub odds_above : fle odds fone ≡ false

  finite_between-ok : (o : Option (Numeric N)) {x : N} → finite_between o ≡ ok x → Probability o
  unfolding finite_between
  finite_between-ok none h = cc
  finite_between-ok (some not_number) h = cc
  finite_between-ok (some (number x)) h = record {
    value = x;
    read = refl;
    finite = ground arith;
    above = ground arith;
    below = ground arith;
  }

  odds_above_one-ok :
      (o : Option (Numeric N)) {x : N}
      → odds_above_one o ≡ ok x
      → (o ≡ some (number x)) × (f.finite x ≡ true) × (fle x fone ≡ false)
  unfolding odds_above_one
  odds_above_one-ok none h = cc
  odds_above_one-ok (some not_number) h = cc
  odds_above_one-ok (some (number y)) h = ground arith

  -- A row that `validate_signal` accepts is complete and frozen, belongs to the trial, was predicted
  -- before its event from what was available, at the time of the retrieval and of the odds, with
  -- both probabilities strictly between 0 and 1 and finite odds above 1.
  pub validate_signal-Accepted :
      (r : Signal N) (trial : String) → validate_signal r trial ≡ ok tt → Accepted r trial
  unfolding validate_signal
  validate_signal-Accepted r trial h =
      let (named, h1) = require-then (complete r && names_trial r trial) _ _ h in
      let (fz, h2) = require-then (frozen r) _ _ h1 in
      let (p, ep, h3) = >>=-ok (dt r.predicted_at) _ h2 in
      let (a, ea, h4) = >>=-ok (dt r.available_at) _ h3 in
      let (s, es, h5) = >>=-ok (dt r.event_start_at) _ h4 in
      let (order, h6) = require-then (leb a p && ltb p s) _ _ h5 in
      let (t, et, h7) = >>=-ok (dt r.retrieved_at) _ h6 in
      let (same, h8) = require-then (eqb t p) _ _ h7 in
      let (u, eu, h9) = >>=-ok (dt r.odds_captured_at) _ h8 in
      let (same', h10) = require-then (eqb u p) _ _ h9 in
      let (x, ex, h11) = >>=-ok (finite_between r.model_probability) _ h10 in
      let (y, ey, h12) = >>=-ok (finite_between r.market_probability) _ h11 in
      let (o, eo, h13) = >>=-ok (odds_above_one r.captured_odds) _ h12 in
      let (read, fin, above) = odds_above_one-ok r.captured_odds eo in
      record {
        whole = (both named).0;
        of_trial = (both named).1;
        sealed = fz;
        predicted = p;
        available = a;
        start = s;
        predicted_at = dt-ok r.predicted_at ep;
        available_at = dt-ok r.available_at ea;
        event_start_at = dt-ok r.event_start_at es;
        retrieved_at = rw (← (eqb_iff t p).0 same) (dt-ok r.retrieved_at et);
        odds_captured_at = rw (← (eqb_iff u p).0 same') (dt-ok r.odds_captured_at eu);
        available-le-predicted = (in_order a p s order).0;
        predicted-lt-start = (in_order a p s order).1;
        model = finite_between-ok r.model_probability ex;
        market = finite_between-ok r.market_probability ey;
        odds = o;
        captured_odds = read;
        odds_finite = fin;
        odds_above = above;
      }

  Probability-finite_between :
      (o : Option (Numeric N)) (p : Probability o) → finite_between o ≡ ok p.value
  unfolding finite_between
  Probability-finite_between o p = rw (p.read, p.finite, p.above, p.below) refl

  odds-above :
      (o : Option (Numeric N)) (x : N)
      → o ≡ some (number x)
      → f.finite x ≡ true
      → fle x fone ≡ false
      → odds_above_one o ≡ ok x
  unfolding odds_above_one
  odds-above o x read fin above = rw (read, fin, above) refl

  -- `validate_signal` accepts every row with the properties that an accepted row is known to have.
  pub Accepted-validated :
      (r : Signal N) (trial : String) → Accepted r trial → validate_signal r trial ≡ ok tt
  unfolding validate_signal
  Accepted-validated r trial a =
      rw
        (
          a.whole,
          a.of_trial,
          a.sealed,
          a.predicted_at,
          a.available_at,
          a.event_start_at,
          ordered a.available a.predicted a.start a.available-le-predicted a.predicted-lt-start,
          a.retrieved_at,
          (eqb_iff a.predicted a.predicted).1 refl,
          a.odds_captured_at,
          (eqb_iff a.predicted a.predicted).1 refl,
          Probability-finite_between r.model_probability a.model,
          Probability-finite_between r.market_probability a.market,
          odds-above r.captured_odds a.odds a.captured_odds a.odds_finite a.odds_above,
        )
        refl
