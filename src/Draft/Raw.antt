-- ===== src/Draft/Raw.antt =====
-- The raw fields and the result of `normalize_observation` in src/draft_shadow.py.
use lol_predictor.Prelude.{ℕ, String, Bool, Option, List, Stamp}
use lol_predictor.H4.Signals.{Numeric}

pub data DraftError : Type 0 where
  no_contract bad_market bad_point same_teams bad_selection bad_time book_order : DraftError
  bad_roster bad_player known_late duplicate_player not_before_draft book_before_draft : DraftError
  no_draft bad_sequence future_draft no_map bad_number bad_price : DraftError
  incomplete_chain mixed_chain chain_order : DraftError

pub data Point : Type 0 where
  pre_draft post_draft closing : Point

pub data Player : Type 0 where
  not_player : Player
  player : (player_id role : Option String) (known_at : Option Stamp) → Player

-- A truthy roster field: a list, or something else.
pub data Roster : Type 0 where
  not_roster : Roster
  players : List Player → Roster

-- An entry of `draft_actions`, with its `sequence`.
pub data Action : Type 0 where
  not_action : Action
  action : Option ℕ → Action

-- The field `draft_actions`: missing or falsy, a truthy value that is no list, or a list.
pub data Draft : Type 0 where
  no_actions malformed_actions : Draft
  actions : List Action → Draft

pub record Raw (N : Type 0) : Type 0 where
  pub canonical_event_id : Option String
  pub source_event_id : Option String
  pub competition_id : Option String
  pub competition_name : Option String
  pub market : Option String
  pub market_id : Option String
  pub condition_id : Option String
  pub selection : Option String
  pub decision_point : Option String
  pub observed_at : Option Stamp
  pub published_at : Option Stamp
  pub scheduled_at : Option Stamp
  pub market_cutoff_at : Option Stamp
  pub team_a_id : Option String
  pub team_b_id : Option String
  pub roster_a : Option Roster
  pub roster_b : Option Roster
  pub patch : Option String
  pub best_bid : Option (Numeric N)
  pub best_ask : Option (Numeric N)
  pub best_bid_size : Option (Numeric N)
  pub best_ask_size : Option (Numeric N)
  pub model_probability : Option (Numeric N)
  pub settlement_policy : Option String
  pub source : Option String
  pub draft_started_at : Option Stamp
  pub draft_completed_at : Option Stamp
  pub draft_actions : Draft
  pub has_map_number : Bool

pub record Observation (N : Type 0) : Type 0 where
  pub canonical_event_id : Option String
  pub market : Option String
  pub market_id : Option String
  pub condition_id : Option String
  pub selection : Option String
  pub settlement_policy : Option String
  pub decision_point : Point
  pub published_at : ℕ
  pub observed_at : ℕ
  pub market_cutoff_at : ℕ
  pub scheduled_at : ℕ
  pub best_bid : N
  pub best_ask : N
  pub best_bid_size : N
  pub best_ask_size : N
  pub spread : N
  pub executable_decimal_odds : N
  pub model_probability : N
