-- ===== src/Draft/Observation.antt =====
-- `normalize_observation` of src/draft_shadow.py. A field that is only compared is a text. Of the
-- payload only what the module computes or reads back is kept.
use lol_predictor.Prelude.{
  ℕ, suc, String, Bool, true, false, ◌&&◌, ◌||◌, not, Option, none, some, List, [], ◌∷◌, map,
  length, Result, ok, fail, ◌>>=◌, ◌>>◌, require, Stamp, instant, Float, flt, fle, fzero, fone, eqb,
  ltb, leb, present, if◌then◌else◌,
}
use lol_predictor.Approval.{is_text}
use lol_predictor.H4.Signals.{Numeric, number, not_number, given}
use lol_predictor.H4.Cohort.{same_key, distinct}
use lol_predictor.Draft.Raw.{
  DraftError, Point, Player, not_player, player, Roster, not_roster, players, Action, not_action,
  action, Draft, actions, Raw, Observation, pre_draft, post_draft, closing, no_actions,
  malformed_actions, bad_time, bad_point, bad_player, known_late, bad_roster, duplicate_player,
  no_draft, bad_sequence, not_before_draft, future_draft, book_before_draft, bad_number, bad_price,
  no_map, no_contract, bad_market, same_teams, bad_selection, book_order,
}

-- `_time`
abbrev pub time : Option Stamp → Result DraftError ℕ
time none = fail bad_time
time (some s) = elim (instant s) [ none ↦ fail bad_time | some t ↦ ok t ]

-- a roster field that is not None, "", [] or {}
abbrev pub given_roster : Option Roster → Bool
given_roster none = false
given_roster (some not_roster) = true
given_roster (some (players [])) = false
given_roster (some (players (_ ∷ _))) = true

abbrev pub point_of : Option String → Result DraftError Point
point_of text =
    if is_text "PRE_DRAFT" text
    then ok pre_draft
    else if is_text "POST_DRAFT" text
    then ok post_draft
    else if is_text "CLOSING" text
    then ok closing
    else fail bad_point

-- the body of the loop over one roster
unfoldable pub check_player : ℕ → Player → Result DraftError (Unit {0})
check_player observed not_player = fail bad_player
check_player observed (player id role known_at) = do
  require (present id && present role) bad_player
  known ← time known_at
  require (leb known observed) known_late

unfoldable pub check_players : ℕ → List Player → Result DraftError (Unit {0})
unfolding check_player
check_players observed [] = ok tt
check_players observed (p ∷ ps) =
    let rest = check_players observed ps in check_player observed p >> rest

abbrev pub player_key : Player → Option String
player_key not_player = none
player_key (player id _ _) = id

-- one turn of the loop over the two sides
unfoldable pub check_roster : ℕ → Option Roster → Result DraftError (Unit {0})
unfolding check_players
check_roster observed none = fail bad_roster
check_roster observed (some not_roster) = fail bad_roster
check_roster observed (some (players ps)) = do
  require (eqb (length ps) 5) bad_roster
  check_players observed ps
  require (eqb (length (distinct (map player_key ps))) 5) duplicate_player

-- `[a.get("sequence") for a in xs if isinstance(a, dict)]`
abbrev pub sequences : List Action → List (Option ℕ)
sequences [] = []
sequences (not_action ∷ xs) = sequences xs
sequences (action n ∷ xs) = n ∷ sequences xs

-- the list is n, n + 1, ... with as many items as `xs` has
unfoldable pub counts_from : ℕ → List Action → List (Option ℕ) → Bool
counts_from n [] [] = true
counts_from n (_ ∷ xs) (some m ∷ ms) = eqb m n && counts_from (suc n) xs ms
counts_from _ _ _ = false

unfoldable pub check_complete : Draft → Result DraftError (Unit {0})
unfolding counts_from
check_complete no_actions = fail no_draft
check_complete malformed_actions = fail no_draft
check_complete (actions []) = fail no_draft
check_complete (actions (x ∷ xs)) =
    require (counts_from 1 (x ∷ xs) (sequences (x ∷ xs))) bad_sequence

abbrev pub is_blank : Draft → Bool
is_blank no_actions = true
is_blank (actions []) = true
is_blank _ = false

-- what each decision point asks of the draft
unfoldable pub check_draft :
    Point → (observed published started : ℕ) → Option Stamp → Draft → Result DraftError (Unit {0})
unfolding check_complete
check_draft pre_draft observed published started completed_at draft = do
  require (ltb observed started) not_before_draft
  require (is_blank draft) future_draft
check_draft _ observed published started completed_at draft = do
  completed ← time completed_at
  require (leb completed published) book_before_draft
  check_complete draft

module _ {N : Type 0} where
  unfoldable pub has_contract : Raw N → Bool
  has_contract r =
      (present r.canonical_event_id
        && present r.source_event_id
        && present r.competition_id
        && present r.competition_name
        && present r.market
        && present r.market_id
        && present r.condition_id
        && present r.selection
        && present r.decision_point)
      && (given r.observed_at
          && given r.published_at
          && given r.scheduled_at
          && given r.market_cutoff_at
          && present r.team_a_id
          && present r.team_b_id
          && given_roster r.roster_a
          && given_roster r.roster_b)
      && (present r.patch
          && given r.best_bid
          && given r.best_ask
          && given r.best_bid_size
          && given r.best_ask_size
          && given r.model_probability
          && present r.settlement_policy
          && present r.source)

  unfoldable pub observation_of :
      Raw N
      → Point
      → (published observed cutoff scheduled : ℕ)
      → (bid ask bid_size ask_size spread odds probability : N) → Observation N
  observation_of r point published observed cutoff scheduled bid ask bid_size ask_size spread odds
        probability =
      record {
        canonical_event_id = r.canonical_event_id;
        market = r.market;
        market_id = r.market_id;
        condition_id = r.condition_id;
        selection = r.selection;
        settlement_policy = r.settlement_policy;
        decision_point = point;
        published_at = published;
        observed_at = observed;
        market_cutoff_at = cutoff;
        scheduled_at = scheduled;
        best_bid = bid;
        best_ask = ask;
        best_bid_size = bid_size;
        best_ask_size = ask_size;
        spread = spread;
        executable_decimal_odds = odds;
        model_probability = probability;
      }

module _ {N : Type 0} ⦃f : Float N⦄ where
  -- `_number`
  unfoldable pub finite_number : Bool → Option (Numeric N) → Result DraftError N
  finite_number positive none = fail bad_number
  finite_number positive (some not_number) = fail bad_number
  finite_number positive (some (number x)) =
      if f.finite x && not (positive && fle x fzero) then ok x else fail bad_number

  -- the prices, behind the draft
  unfoldable pub with_prices :
      Raw N → Point → (published observed cutoff scheduled : ℕ) → Result DraftError (Observation N)
  unfolding finite_number observation_of
  with_prices r point published observed cutoff scheduled = do
    bid ← finite_number false r.best_bid
    ask ← finite_number false r.best_ask
    bid_size ← finite_number true r.best_bid_size
    ask_size ← finite_number true r.best_ask_size
    probability ← finite_number false r.model_probability
    require
        (flt fzero bid
          && fle bid ask
          && flt ask fone
          && (flt fzero probability && flt probability fone))
        bad_price
    ok (
        observation_of r point published observed cutoff scheduled bid ask bid_size ask_size
          (f.sub ask bid) (f.div fone ask) probability)

  -- the rosters, the draft and the map number, behind the times
  unfoldable pub with_times :
      Raw N → Point → (published observed cutoff scheduled : ℕ) → Result DraftError (Observation N)
  unfolding check_roster check_draft with_prices
  with_times r point published observed cutoff scheduled = do
    check_roster observed r.roster_a
    check_roster observed r.roster_b
    started ← time r.draft_started_at
    check_draft point observed published started r.draft_completed_at r.draft_actions
    require (not (is_text "MAP_WINNER" r.market) || r.has_map_number) no_map
    with_prices r point published observed cutoff scheduled

  unfoldable pub normalize_observation : Raw N → Result DraftError (Observation N)
  unfolding has_contract with_times
  normalize_observation r = do
    require (has_contract r) no_contract
    require (is_text "SERIES_WINNER" r.market || is_text "MAP_WINNER" r.market) bad_market
    point ← point_of r.decision_point
    require (not (same_key r.team_a_id r.team_b_id)) same_teams
    require (is_text "team_a" r.selection || is_text "team_b" r.selection) bad_selection
    published ← time r.published_at
    observed ← time r.observed_at
    cutoff ← time r.market_cutoff_at
    scheduled ← time r.scheduled_at
    require (leb published observed && ltb observed cutoff && leb cutoff scheduled) book_order
    with_times r point published observed cutoff scheduled
