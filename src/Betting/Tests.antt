-- ===== src/Betting/Tests.antt =====
-- Paper bets of src/betting.py in hundredths.
use lol_predictor.Prelude.{
  ℕ, ◌≡◌, refl, Bool, true, false, none, some, [], ◌∷◌, ok, fail, cents, ◌++◌,
}
use lol_predictor.Approval.{unreadable}
use lol_predictor.Betting.{absent}
use lol_predictor.Betting.Paper.{
  BetRequest, Fields, text, number, truth, null, PlacedBet, field, settlement_of, row_for,
  record_bet, settle_bet, kelly_stake, gate_blocked, bad_arguments,
}
use lol_predictor.Betting.Settled.{
  start, recorded, settled, IsPaperLog, Logged-IsPaperLog, settle_bet-again,
}

abbrev request : Bool → BetRequest ℕ
request real = record {
  selection = "T1";
  prob_model = 60;
  decimal_odds = 200;
  bankroll = 100000;
  real = real;
  event_id = none;
  metadata = ("source", text "desk") ∷ [];
}

-- a fifth of the bankroll by Kelly, a quarter of it, and at most two percent
stakes : kelly_stake {N = ℕ} 60 200 100000 ≡ ok 2000
unfolding kelly_stake
stakes = refl

refuses : kelly_stake {N = ℕ} 60 100 100000 ≡ fail bad_arguments
unfolding kelly_stake
refuses = refl

abbrev row : Fields ℕ
row =
    ("source", text "desk")
    ∷ ("id", text "b1")
    ∷ ("event", text "bet")
    ∷ ("domain", text "lol")
    ∷ ("event_id", null)
    ∷ ("market", text "moneyline")
    ∷ ("selection", text "T1")
    ∷ ("prob_model", number 60)
    ∷ ("decimal_odds", number 200)
    ∷ ("edge", number 20)
    ∷ ("bankroll", number 100000)
    ∷ ("stake", number 2000)
    ∷ ("real", truth false)
    ∷ []

abbrev placed : PlacedBet ℕ
placed = record { id = "b1"; decimal_odds = 200; stake = 2000 }

records : record_bet absent unreadable (λ _. "d") 0 "b1" (request false) [] ≡ (ok row, row ∷ [])
unfolding record_bet
records = refl

blocks : record_bet absent unreadable (λ _. "d") 0 "b1" (request true) [] ≡ (fail gate_blocked, [])
unfolding record_bet
blocks = refl

wins : field "pnl" (settle_bet placed true (row ∷ [])).0 ≡ some (number 2000)
unfolding settle_bet
wins = refl

no_keyword :
    (field "real" (request false).metadata ≡ none) × (field "event" (request false).metadata ≡ none)
unfolding field
no_keyword = (refl, refl)

Logged-IsPaperLog_example :
    IsPaperLog
      (settle_bet placed true
        (record_bet absent unreadable (λ _. "d") 0 "b1" (request false) []).1).1
Logged-IsPaperLog_example = Logged-IsPaperLog (
    settled placed true (
      recorded absent unreadable (λ _. "d") 0 "b1" (request false) no_keyword.0 no_keyword.1 start))

-- with a keyword `event` a bet is read as its own settlement
abbrev posed : BetRequest ℕ
posed = record (request false) { metadata = ("event", text "settlement") ∷ [] }

poses :
    settlement_of "b1" (record_bet absent unreadable (λ _. "d") 0 "b1" posed []).1
    ≡ some (row_for "b1" posed 2000 posed.metadata)
unfolding record_bet settlement_of
poses = refl

settle_bet-again_example :
    settle_bet placed false ((settle_bet placed true (row ∷ [])).1 ++ [])
    ≡ ((settle_bet placed true (row ∷ [])).0, (settle_bet placed true (row ∷ [])).1 ++ [])
settle_bet-again_example = settle_bet-again placed true false (row ∷ []) []
