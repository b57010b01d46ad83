-- ===== src/Draft/Tests.antt =====
-- `normalize_observation` of src/draft_shadow.py on a concrete book, with prices in hundredths.
use lol_predictor.Prelude.{ℕ, String, ◌≡◌, refl, true, some, List, [], ◌∷◌, ok, aware, cents}
use lol_predictor.H4.Signals.{number}
use lol_predictor.Draft.Observation.{normalize_observation, observation_of}
use lol_predictor.Draft.Raw.{
  no_actions, pre_draft, post_draft, closing, Player, player, players, Draft, actions, action, Raw,
  Observation,
}
use lol_predictor.Draft.Normalized.{Normalized, normalize_observation-Normalized}
use lol_predictor.Draft.Chain.{Seals, Chain, validate_chain}
use lol_predictor.Draft.Ordered.{Comparable, validate_chain-Comparable}

abbrev starter : String → Player
starter id = player (some id) (some "role") (some (aware 1))

abbrev lineup : List Player
lineup = starter "1" ∷ starter "2" ∷ starter "3" ∷ starter "4" ∷ starter "5" ∷ []

abbrev whole_draft : Draft
whole_draft = actions (action (some 1) ∷ action (some 2) ∷ [])

abbrev book : String → (published observed : ℕ) → Draft → Raw ℕ
book point published observed draft = record {
  canonical_event_id = some "e";
  source_event_id = some "s";
  competition_id = some "lck";
  competition_name = some "LCK";
  market = some "SERIES_WINNER";
  market_id = some "m";
  condition_id = some "c";
  selection = some "team_a";
  decision_point = some point;
  observed_at = some (aware observed);
  published_at = some (aware published);
  scheduled_at = some (aware 9);
  market_cutoff_at = some (aware 8);
  team_a_id = some "T1";
  team_b_id = some "Gen.G";
  roster_a = some (players lineup);
  roster_b = some (players lineup);
  patch = some "14.1";
  best_bid = some (number 48);
  best_ask = some (number 50);
  best_bid_size = some (number 1000);
  best_ask_size = some (number 1000);
  model_probability = some (number 55);
  settlement_policy = some "official";
  source = some "polymarket";
  draft_started_at = some (aware 4);
  draft_completed_at = some (aware 5);
  draft_actions = draft;
  has_map_number = true;
}

abbrev seen : Observation ℕ
unfolding observation_of
seen =
    observation_of (book "POST_DRAFT" 6 7 whole_draft) post_draft 6 7 8 9 48 50 1000 1000 2 200 55

normalizes : normalize_observation (book "POST_DRAFT" 6 7 whole_draft) ≡ ok seen
unfolding normalize_observation observation_of
normalizes = refl

normalize_observation-Normalized_example : Normalized (book "POST_DRAFT" 6 7 whole_draft) seen
normalize_observation-Normalized_example =
    normalize_observation-Normalized (book "POST_DRAFT" 6 7 whole_draft) normalizes

abbrev plain : Seals ℕ
plain = record {
  of_identity =
      λ o. elim o.decision_point [ pre_draft ↦ "pre" | post_draft ↦ "post" | closing ↦ "last" ];
  of_content = λ _ _. "c";
  of_list = λ _. "chain";
}

abbrev books : List (Raw ℕ)
books =
    book "POST_DRAFT" 5 6 whole_draft
    ∷ book "CLOSING" 6 7 whole_draft
    ∷ book "PRE_DRAFT" 2 3 no_actions
    ∷ []

abbrev chain : Chain
chain = record {
  canonical_event_id = some "e";
  observation_ids = "pre" ∷ "post" ∷ "last" ∷ [];
  chain_sha256 = "chain";
}

chains : validate_chain plain books ≡ ok chain
unfolding validate_chain
chains = refl

validate_chain-Comparable_example : Comparable plain books chain
validate_chain-Comparable_example = validate_chain-Comparable plain books chains
