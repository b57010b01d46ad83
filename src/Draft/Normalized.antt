-- ===== src/Draft/Normalized.antt =====
-- The whole contract of `normalize_observation` of src/draft_shadow.py.
use lol_predictor.Prelude.{
  ℕ, ◌≡◌, ◌≤◌, ◌<◌, refl, subst, Bool, true, false, ◌&&◌, ◌||◌, not, some, ok, >>=-ok, >>-ok,
  require-then, ok-eq, both, in_order, aware, Float, flt, fle, fzero, fone, leb, ltb,
}
use lol_predictor.Approval.{is_text}
use lol_predictor.H4.Cohort.{same_key}
use lol_predictor.Draft.Observation.{
  time, point_of, check_roster, check_draft, has_contract, observation_of, finite_number,
  with_prices, with_times, normalize_observation,
}
use lol_predictor.Draft.Raw.{Point, Raw, Observation}
use lol_predictor.Draft.Contract.{
  time-ok, leb-le, Lineup, check_roster-Lineup, DraftAt, check_draft-DraftAt,
}

not-false : (b : Bool) → not b ≡ true → b ≡ false
not-false true h = cc
not-false false h = refl

module _ {N : Type 0} ⦃f : Float N⦄ where
  -- The prices of an observation, from what its raw fields say.
  record Quoted (r : Raw N) (point : Point) (published observed cutoff scheduled : ℕ)
      (o : Observation N) : Type 0 where
    bid : N
    ask : N
    bid_size : N
    ask_size : N
    probability : N
    ranges :
        (flt fzero bid
          && fle bid ask
          && flt ask fone
          && (flt fzero probability && flt probability fone))
        ≡ true
    row :
        observation_of r point published observed cutoff scheduled bid ask bid_size ask_size
          (f.sub ask bid)
          (f.div fone ask)
          probability
        ≡ o

  with_prices-Quoted :
      (r : Raw N) (point : Point) (published observed cutoff scheduled : ℕ) {o : Observation N}
      → with_prices r point published observed cutoff scheduled ≡ ok o
      → Quoted r point published observed cutoff scheduled o
  unfolding with_prices
  with_prices-Quoted r point published observed cutoff scheduled h =
      let (bid, _, h1) = >>=-ok (finite_number false r.best_bid) _ h in
      let (ask, _, h2) = >>=-ok (finite_number false r.best_ask) _ h1 in
      let (bid_size, _, h3) = >>=-ok (finite_number true r.best_bid_size) _ h2 in
      let (ask_size, _, h4) = >>=-ok (finite_number true r.best_ask_size) _ h3 in
      let (p, _, h5) = >>=-ok (finite_number false r.model_probability) _ h4 in
      let (ranges, h6) =
        require-then (flt fzero bid && fle bid ask && flt ask fone && (flt fzero p && flt p fone)) _
          _ h5 in
      record {
        bid = bid;
        ask = ask;
        bid_size = bid_size;
        ask_size = ask_size;
        probability = p;
        ranges = ranges;
        row = ok-eq refl h6;
      }

  -- What the rosters and the draft are like for a decision at the given times.
  record Setting (r : Raw N) (point : Point) (published observed : ℕ) : Type 0 where
    lineup_a : Lineup observed r.roster_a
    lineup_b : Lineup observed r.roster_b
    started : ℕ
    started_at : r.draft_started_at ≡ some (aware started)
    draft : DraftAt observed published started r.draft_completed_at r.draft_actions point

  with_times-Setting :
      (r : Raw N) (point : Point) (published observed cutoff scheduled : ℕ) {o : Observation N}
      → with_times r point published observed cutoff scheduled ≡ ok o
      → Setting r point published observed × Quoted r point published observed cutoff scheduled o
  unfolding with_times
  with_times-Setting r point published observed cutoff scheduled h =
      let (a, h1) = >>-ok (check_roster observed r.roster_a) _ h in
      let (b, h2) = >>-ok (check_roster observed r.roster_b) _ h1 in
      let (started, read, h3) = >>=-ok (time r.draft_started_at) _ h2 in
      let (draft, h4) =
        >>-ok (check_draft point observed published started r.draft_completed_at r.draft_actions) _
          h3 in
      let (_, h5) = require-then (not (is_text "MAP_WINNER" r.market) || r.has_map_number) _ _ h4 in
      (
        record {
          lineup_a = check_roster-Lineup observed r.roster_a a;
          lineup_b = check_roster-Lineup observed r.roster_b b;
          started = started;
          started_at = time-ok r.draft_started_at read;
          draft =
              check_draft-DraftAt point observed published started r.draft_completed_at
                r.draft_actions draft;
        },
        with_prices-Quoted r point published observed cutoff scheduled h5,
      )

  pub record Normalized (r : Raw N) (o : Observation N) : Type 0 where
    pub point : point_of r.decision_point ≡ ok o.decision_point
    pub teams_differ : same_key r.team_a_id r.team_b_id ≡ false
    pub published_at : r.published_at ≡ some (aware o.published_at)
    pub observed_at : r.observed_at ≡ some (aware o.observed_at)
    pub cutoff_at : r.market_cutoff_at ≡ some (aware o.market_cutoff_at)
    pub scheduled_at : r.scheduled_at ≡ some (aware o.scheduled_at)
    pub published-le-observed : o.published_at ≤ o.observed_at
    pub observed-lt-cutoff : o.observed_at < o.market_cutoff_at
    pub cutoff-le-scheduled : o.market_cutoff_at ≤ o.scheduled_at
    pub lineup_a : Lineup o.observed_at r.roster_a
    pub lineup_b : Lineup o.observed_at r.roster_b
    pub started : ℕ
    pub started_at : r.draft_started_at ≡ some (aware started)
    pub draft :
        DraftAt o.observed_at o.published_at started r.draft_completed_at r.draft_actions
          o.decision_point
    pub ranges :
        (flt fzero o.best_bid
          && fle o.best_bid o.best_ask
          && flt o.best_ask fone
          && (flt fzero o.model_probability && flt o.model_probability fone))
        ≡ true

  assembled :
      (r : Raw N) (point : Point) (p t c s : ℕ) {o : Observation N}
      → point_of r.decision_point ≡ ok point
      → same_key r.team_a_id r.team_b_id ≡ false
      → r.published_at ≡ some (aware p)
      → r.observed_at ≡ some (aware t)
      → r.market_cutoff_at ≡ some (aware c)
      → r.scheduled_at ≡ some (aware s)
      → (leb p t && ltb t c && leb c s) ≡ true
      → Setting r point p t
      → Quoted r point p t c s o
      → Normalized r o
  unfolding observation_of
  assembled r point p t c s at differ rp rt rc rs order setting quoted =
      let (early, late) = both {a = leb p t && ltb t c} order in
      let (a, b) = in_order p t c early in
      subst (Normalized r) quoted.row record {
        point = at;
        teams_differ = differ;
        published_at = rp;
        observed_at = rt;
        cutoff_at = rc;
        scheduled_at = rs;
        published-le-observed = a;
        observed-lt-cutoff = b;
        cutoff-le-scheduled = leb-le c s late;
        lineup_a = setting.lineup_a;
        lineup_b = setting.lineup_b;
        started = setting.started;
        started_at = setting.started_at;
        draft = setting.draft;
        ranges = quoted.ranges;
      }

  -- An observation that `normalize_observation` returns has two different teams, was published no
  -- later than observed, observed before the cutoff and cut off no later than scheduled, has two
  -- rosters of five different players known by the time of observation, a draft that for PRE_DRAFT
  -- has not begun and is blank and otherwise was complete, and numbered from 1 without gaps, no
  -- later than the publication, and 0 < bid ≤ ask < 1 and 0 < probability < 1.
  pub normalize_observation-Normalized :
      (r : Raw N) {o : Observation N} → normalize_observation r ≡ ok o → Normalized r o
  unfolding normalize_observation
  normalize_observation-Normalized r h =
      let (_, h1) = require-then (has_contract r) _ _ h in
      let (_, h2) =
        require-then (is_text "SERIES_WINNER" r.market || is_text "MAP_WINNER" r.market) _ _ h1 in
      let (point, at, h3) = >>=-ok (point_of r.decision_point) _ h2 in
      let (differ, h4) = require-then (not (same_key r.team_a_id r.team_b_id)) _ _ h3 in
      let (_, h5) =
        require-then (is_text "team_a" r.selection || is_text "team_b" r.selection) _ _ h4 in
      let (p, ep, h6) = >>=-ok (time r.published_at) _ h5 in
      let (t, et, h7) = >>=-ok (time r.observed_at) _ h6 in
      let (c, ec, h8) = >>=-ok (time r.market_cutoff_at) _ h7 in
      let (s, es, h9) = >>=-ok (time r.scheduled_at) _ h8 in
      let (order, h10) = require-then (leb p t && ltb t c && leb c s) _ _ h9 in
      let (setting, quoted) = with_times-Setting r point p t c s h10 in
      assembled r point p t c s at (not-false (same_key r.team_a_id r.team_b_id) differ)
        (time-ok r.published_at ep) (time-ok r.observed_at et) (time-ok r.market_cutoff_at ec)
        (time-ok r.scheduled_at es) order setting quoted
