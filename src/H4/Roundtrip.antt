-- ===== src/H4/Roundtrip.antt =====
-- What `build_signal` of src/h4_gate.py builds, and what `validate_signal` then says of it.
use lol_predictor.Prelude.{
  ℕ, String, ◌≡◌, refl, Bool, true, false, ◌&&◌, Option, none, some, ok, fail, >>=-ok, ok-eq,
  require-then, Float, leb, ltb, eqb_iff, present, truthy, if◌then◌else◌, Bool-cases, inl, inr,
  both, arith, eq_refl, ok-eq,
}
use lol_predictor.H4.Signals.{
  Numeric, number, not_number, Signal, given, dt, finite_between, odds_above_one, has_digest,
  bad_snapshot, validate_signal, complete, names_trial, frozen,
}
use lol_predictor.H4.Build.{
  Quote, Provenance, Identity, Hashes, Context, canonical, model_or_default, has_provenance,
  signal_of, normalised, picks_a, signal_for, build_signal, side_name, identity_of, provenance_of,
  priced,
}

canonical-present : (o : Option String) → present o ≡ true → present (canonical o) ≡ true
canonical-present none h = cc
canonical-present (some c) h = refl

side_name-present : (a : Bool) → truthy (side_name a) ≡ true
side_name-present true = refl
side_name-present false = refl

conjuncts :
    (event team_a team_b times prices digest source market condition format : Bool)
    → ((event && team_a && team_b)
        && times
        && prices
        && (digest && source && market && condition && format))
      ≡ true
    → (event ≡ true) × (source ≡ true) × (digest ≡ true) × (condition ≡ true)
conjuncts false _ _ _ _ _ _ _ _ _ h = cc
conjuncts true false _ _ _ _ _ _ _ _ h = cc
conjuncts true true false _ _ _ _ _ _ _ h = cc
conjuncts true true true false _ _ _ _ _ _ h = cc
conjuncts true true true true false _ _ _ _ _ h = cc
conjuncts true true true true true false _ _ _ _ h = cc
conjuncts true true true true true true false _ _ _ h = cc
conjuncts true true true true true true true false _ _ h = cc
conjuncts true true true true true true true true false _ h = cc
conjuncts true true true true true true true true true _ h = (refl, refl, refl, refl)

module _ {N : Type 0} ⦃f : Float N⦄ where
  finite_between-again :
      (o : Option (Numeric N)) {x : N}
      → finite_between o ≡ ok x
      → finite_between (some (number x)) ≡ ok x
  unfolding finite_between
  finite_between-again none h = cc
  finite_between-again (some not_number) h = cc
  finite_between-again (some (number y)) h = ground arith

  odds_above_one-again :
      (o : Option (Numeric N)) {x : N}
      → odds_above_one o ≡ ok x
      → odds_above_one (some (number x)) ≡ ok x
  unfolding odds_above_one
  odds_above_one-again none h = cc
  odds_above_one-again (some not_number) h = cc
  odds_above_one-again (some (number y)) h = ground arith

  pub record Priced (h : Hashes) (q : Quote N) (c : Context) (predicted available start : ℕ)
      (s : Signal N) : Type 0 where
    pub side : Bool
    pub model : N
    pub market : N
    pub odds : N
    pub model_read : finite_between (some (number model)) ≡ ok model
    pub market_read : finite_between (some (number market)) ≡ ok market
    pub odds_read : odds_above_one (some (number odds)) ≡ ok odds
    pub row : signal_of h q c predicted available start side model market odds ≡ s

  -- The parts of a signal that was built.
  pub record Built (h : Hashes) (q : Quote N) (c : Context) (s : Signal N) : Type 0 where
    pub competition : (truthy c.competition_id && truthy c.competition_name) ≡ true
    pub provenance : has_provenance q ≡ true
    pub predicted : ℕ
    pub available : ℕ
    pub start : ℕ
    pub order : (leb available predicted && ltb predicted start) ≡ true
    pub prices : Priced h q c predicted available start s

  ok_of_side :
      (a : Bool) {x y : N}
      → finite_between (some (number x)) ≡ ok x
      → finite_between (some (number y)) ≡ ok y
      → finite_between (some (number (if a then x else y))) ≡ ok (if a then x else y)
  ok_of_side true hx hy = hx
  ok_of_side false hx hy = hy

  signal_for-Priced :
      (h : Hashes) (q : Quote N) (c : Context) (predicted available start : ℕ) (a : Bool)
      (pa ma pb mb : N) {s : Signal N}
      → finite_between (some (number pa)) ≡ ok pa
      → finite_between (some (number ma)) ≡ ok ma
      → finite_between (some (number pb)) ≡ ok pb
      → finite_between (some (number mb)) ≡ ok mb
      → signal_for h q c predicted available start a pa ma pb mb ≡ ok s
      → Priced h q c predicted available start s
  signal_for-Priced h q c predicted available start a pa ma pb mb ra sa rb sb e =
      let quoted = if a then q.decimal_a else q.decimal_b in
      let (odds, ro, e12) = >>=-ok (odds_above_one quoted) _ e in
      record {
        side = a;
        model = if a then pa else pb;
        market = if a then ma else mb;
        odds = odds;
        model_read = ok_of_side a ra rb;
        market_read = ok_of_side a sa sb;
        odds_read = odds_above_one-again quoted ro;
        row = ok-eq refl e12;
      }

  priced-Priced :
      (h : Hashes) (q : Quote N) (c : Context) (predicted available start : ℕ) {s : Signal N}
      → priced h q c predicted available start ≡ ok s
      → Priced h q c predicted available start s
  unfolding priced
  priced-Priced h q c predicted available start e =
      let (pa, ra, e8) = >>=-ok (finite_between q.model_probability_a) _ e in
      let (pb, rb, e9) = >>=-ok (finite_between q.model_probability_b) _ e8 in
      let (ma, sa, e10) = >>=-ok (finite_between q.probability_a) _ e9 in
      let (mb, sb, e11) = >>=-ok (finite_between q.probability_b) _ e10 in
      let (_, e12) = require-then (normalised pa pb && normalised ma mb) _ _ e11 in
      signal_for-Priced h q c predicted available start (picks_a pa ma pb mb) pa ma pb mb
        (finite_between-again q.model_probability_a ra) (finite_between-again q.probability_a sa)
        (finite_between-again q.model_probability_b rb) (finite_between-again q.probability_b sb)
        e12

  build_signal-Built :
      (h : Hashes) (q : Quote N) (c : Context) {s : Signal N}
      → build_signal h q c ≡ ok s
      → Built h q c s
  unfolding build_signal
  build_signal-Built h q c e =
      let (named, e1) = require-then (truthy c.competition_id && truthy c.competition_name) _ _ e in
      let (given_all, e2) = require-then (has_provenance q) _ _ e1 in
      let (predicted, _, e3) = >>=-ok (dt q.observed_at) _ e2 in
      let (available, _, e4) = >>=-ok (dt q.published_at) _ e3 in
      let (start, _, e5) = >>=-ok (dt q.scheduled_at) _ e4 in
      let (order, e6) = require-then (leb available predicted && ltb predicted start) _ _ e5 in
      record {
        competition = named;
        provenance = given_all;
        predicted = predicted;
        available = available;
        start = start;
        order = order;
        prices = priced-Priced h q c predicted available start e6;
      }

  has_provenance-present :
      (q : Quote N)
      → has_provenance q ≡ true
      → (present q.event_id ≡ true)
        × (present q.source ≡ true)
        × (present q.ratings_sha256 ≡ true)
        × (present q.condition_id ≡ true)
  unfolding has_provenance
  has_provenance-present q h =
      conjuncts _ (present q.team_a) (present q.team_b)
        (given q.observed_at && given q.published_at && given q.scheduled_at)
        (given q.model_probability_a
          && given q.model_probability_b
          && given q.probability_a
          && given q.probability_b
          && given q.decimal_a
          && given q.decimal_b)
        _ _ (present q.market_id) _ (present q.format) h

  signal_of-complete :
      (h : Hashes) (q : Quote N) (c : Context) (predicted available start : ℕ) (a : Bool)
      (p m odds : N)
      → ((x : Provenance) → truthy (h.of_provenance x) ≡ true)
      → ((x : Identity) → truthy (h.of_identity x) ≡ true)
      → truthy c.trial_id ≡ true
      → truthy c.code_commit ≡ true
      → present (model_or_default q.model_name) ≡ true
      → (truthy c.competition_id && truthy c.competition_name) ≡ true
      → has_provenance q ≡ true
      → complete (signal_of h q c predicted available start a p m odds) ≡ true
  unfolding complete signal_of
  signal_of-complete h q c predicted available start a p m odds hp hi ht hc hm named given_all =
      let (event, source, digest, condition) = has_provenance-present q given_all in
      let (competition, name) = both {a = truthy c.competition_id} named in
      rw
        (
          hi (identity_of q c a predicted available),
          hp (provenance_of q c predicted available),
          ht,
          hm,
          hc,
          event,
          canonical-present q.condition_id condition,
          competition,
          name,
          source,
          digest,
          side_name-present a,
        )
        refl

  signal_of-validated :
      (h : Hashes) (q : Quote N) (c : Context) (predicted available start : ℕ) (a : Bool)
      (p m odds : N)
      → complete (signal_of h q c predicted available start a p m odds) ≡ true
      → (leb available predicted && ltb predicted start) ≡ true
      → finite_between (some (number p)) ≡ ok p
      → finite_between (some (number m)) ≡ ok m
      → odds_above_one (some (number odds)) ≡ ok odds
      → validate_signal (signal_of h q c predicted available start a p m odds) c.trial_id
        ≡ (if has_digest q.ratings_sha256 then ok tt else fail bad_snapshot)
  unfolding validate_signal signal_of names_trial frozen
  signal_of-validated h q c predicted available start a p m odds whole order rp rm ro =
      elim (Bool-cases (has_digest q.ratings_sha256)) [
        | inl full ↦
            rw
              (
                whole,
                eq_refl c.trial_id,
                full,
                order,
                (eqb_iff predicted predicted).1 refl,
                rp,
                rm,
                ro,
              )
              refl
        | inr short ↦ rw (whole, eq_refl c.trial_id, short) refl
      ]

  -- Let SHA-256 digests, trial, commit and model name be non-empty. If `build_signal` returns a
  -- signal, `validate_signal` accepts it for the same trial exactly if the quote's ratings hash has 64
  -- characters, and otherwise refuses it for its snapshot.
  pub build_signal-validated :
      (h : Hashes) (q : Quote N) (c : Context) {s : Signal N}
      → ((x : Provenance) → truthy (h.of_provenance x) ≡ true)
      → ((x : Identity) → truthy (h.of_identity x) ≡ true)
      → truthy c.trial_id ≡ true
      → truthy c.code_commit ≡ true
      → present (model_or_default q.model_name) ≡ true
      → build_signal h q c ≡ ok s
      → validate_signal s c.trial_id
        ≡ (if has_digest q.ratings_sha256 then ok tt else fail bad_snapshot)
  build_signal-validated h q c hp hi ht hc hm e =
      let b = build_signal-Built h q c e in
      let p = b.prices in
      let whole =
        signal_of-complete h q c b.predicted b.available b.start p.side p.model p.market p.odds hp
          hi ht hc hm b.competition b.provenance in
      rw (← p.row) (
        signal_of-validated h q c b.predicted b.available b.start p.side p.model p.market p.odds
          whole b.order p.model_read p.market_read p.odds_read)
