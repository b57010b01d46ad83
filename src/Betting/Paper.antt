-- ===== src/Betting/Paper.antt =====
-- Paper bets of src/betting.py: `kelly_stake`, `record_bet` and `settle_bet` on the log, the list of
-- its rows, oldest first. A row is the dict that the code writes, without the times of writing.
use lol_predictor.Prelude.{
  ℕ, String, Bool, ◌&&◌, ◌||◌, not, Option, none, some, List, [], ◌∷◌, ◌++◌, Result, ok, fail,
  ◌>>=◌, ◌>>◌, Float, flt, fle, fzero, fone, fround, fmin, fmax, ◌==◌, if◌then◌else◌, false,
}
use lol_predictor.Approval.{
  ApprovalFile, BetPayload, Grant, Denied, Approved, granted, denied, bet_fingerprint,
  require_manual_approval,
}
use lol_predictor.Betting.{GateFile, GateReport, gate_failed, decided, go, no_go, go_gate}

pub data BetError : Type 0 where
  gate_blocked gate_unreadable bad_arguments : BetError
  not_approved : Denied → BetError

-- A value in a row; `other` is the JSON text of any other one.
pub data Value (N : Type 0) : Type 0 where
  null : Value N
  text : String → Value N
  number : N → Value N
  truth : Bool → Value N
  approval : Grant → Value N
  other : String → Value N

-- A dict: of two entries for one key the first counts.
abbrev pub Fields : Type 0 → Type 0
Fields N = List (String × Value N)

pub record BetRequest (N : Type 0) : Type 0 where
  pub selection : String
  pub prob_model : N
  pub decimal_odds : N
  pub bankroll : N
  pub real : Bool
  pub event_id : Option String
  -- `**metadata`: keyword arguments that name none of the parameters
  pub metadata : Fields N

-- What `settle_bet` reads of the bet that it is given.
pub record PlacedBet (N : Type 0) : Type 0 where
  pub id : String
  pub decimal_odds : N
  pub stake : N

-- `go_gate(gate_path)["decision"] != "GO"`
abbrev pub require_go : GateReport → Result BetError (Unit {0})
require_go gate_failed = fail gate_unreadable
require_go (decided go _) = ok tt
require_go (decided no_go _) = fail gate_blocked

abbrev pub grant_or_raise : Approved Grant → Result BetError Grant
grant_or_raise (granted g) = ok g
grant_or_raise (denied d) = fail (not_approved d)

module _ {N : Type 0} where
  -- `row.get(key)`
  unfoldable pub field : String → Fields N → Option (Value N)
  field key [] = none
  field key ((k, v) ∷ row) = let rest = field key row in if k == key then some v else rest

  abbrev pub is_text_value : String → Option (Value N) → Bool
  is_text_value t (some (text s)) = s == t
  is_text_value t _ = false

  unfoldable pub settles_id : String → Fields N → Bool
  unfolding field
  settles_id id row =
      is_text_value "settlement" (field "event" row) && is_text_value id (field "id" row)

  -- the loop of `settle_bet` over the log
  unfoldable pub settlement_of : String → List (Fields N) → Option (Fields N)
  unfolding settles_id
  settlement_of id [] = none
  settlement_of id (row ∷ rows) =
      let rest = settlement_of id rows in if settles_id id row then some row else rest

  abbrev pub optional_text : Option String → Value N
  optional_text none = null
  optional_text (some s) = text s

module _ {N : Type 0} ⦃f : Float N⦄ where
  -- `KELLY_SHRINK` and `KELLY_CAP`
  abbrev pub kelly_shrink : N
  kelly_shrink = f.decimal 25 2

  abbrev pub kelly_cap : N
  kelly_cap = f.decimal 2 2

  unfoldable pub kelly_stake : N → N → N → Result BetError N
  kelly_stake prob odds bankroll =
      if not (flt fzero prob && flt prob fone) || fle odds fone || fle bankroll fzero
      then fail bad_arguments
      else ok (
          fround
            (f.mul bankroll (
              fmin
                (f.mul (fmax fzero (f.div (f.sub (f.mul prob odds) fone) (f.sub odds fone)))
                  kelly_shrink)
                kelly_cap))
            2)

  -- the metadata to be logged: a real bet needs an approval, which goes over the one given
  unfoldable pub metadata_for :
      GateFile N
      → ApprovalFile
      → (BetPayload N → String)
      → ℕ
      → BetRequest N
      → Result BetError (Fields N)
  unfolding go_gate require_manual_approval bet_fingerprint
  metadata_for gate file digest now r =
      if r.real
      then (require_go (go_gate gate)
          >> (grant_or_raise (
                require_manual_approval file
                  (bet_fingerprint digest (record {
                    market = "moneyline";
                    selection = r.selection;
                    prob_model = r.prob_model;
                    decimal_odds = r.decimal_odds;
                    bankroll = r.bankroll;
                  }))
                  now)
              >>= λ g. ok (("manual_approval", approval g) ∷ r.metadata)))
      else ok r.metadata

  -- `**metadata` comes last in the dict, so its entries go over the others
  unfoldable pub row_for : String → BetRequest N → N → Fields N → Fields N
  row_for id r stake metadata =
      metadata
      ++ ("id", text id)
        ∷ ("event", text "bet")
        ∷ ("domain", text "lol")
        ∷ ("event_id", optional_text r.event_id)
        ∷ ("market", text "moneyline")
        ∷ ("selection", text r.selection)
        ∷ ("prob_model", number r.prob_model)
        ∷ ("decimal_odds", number r.decimal_odds)
        ∷ ("edge", number (fround (f.sub (f.mul r.prob_model r.decimal_odds) fone) 6))
        ∷ ("bankroll", number r.bankroll)
        ∷ ("stake", number stake)
        ∷ ("real", truth r.real)
        ∷ []

  unfoldable pub new_bet :
      GateFile N
      → ApprovalFile
      → (BetPayload N → String)
      → ℕ
      → String
      → BetRequest N
      → Result BetError (Fields N)
  unfolding metadata_for kelly_stake row_for
  new_bet gate file digest now id r = do
    metadata ← metadata_for gate file digest now r
    stake ← kelly_stake r.prob_model r.decimal_odds r.bankroll
    ok (row_for id r stake metadata)

  abbrev pub logged :
      Result BetError (Fields N) → List (Fields N) → Result BetError (Fields N) × List (Fields N)
  logged (fail e) log = (fail e, log)
  logged (ok row) log = (ok row, log ++ row ∷ [])

  unfoldable pub record_bet :
      GateFile N
      → ApprovalFile
      → (BetPayload N → String)
      → ℕ
      → String
      → BetRequest N
      → List (Fields N)
      → Result BetError (Fields N) × List (Fields N)
  unfolding new_bet
  record_bet gate file digest now id r log = logged (new_bet gate file digest now id r) log

  abbrev pub pnl_of : PlacedBet N → Bool → N
  pnl_of b won = fround (if won then f.mul b.stake (f.sub b.decimal_odds fone) else f.neg b.stake) 2

  abbrev pub settlement_row : PlacedBet N → Bool → Fields N
  settlement_row b won =
      ("id", text b.id)
      ∷ ("event", text "settlement")
      ∷ ("won", truth won)
      ∷ ("pnl", number (pnl_of b won))
      ∷ []

  unfoldable pub settle_bet : PlacedBet N → Bool → List (Fields N) → Fields N × List (Fields N)
  unfolding settlement_of
  settle_bet b won log = elim (settlement_of b.id log) [
    | some row ↦ (row, log)
    | none ↦ (settlement_row b won, log ++ settlement_row b won ∷ [])
  ]
