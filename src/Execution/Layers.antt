-- ===== src/Execution/Layers.antt =====
-- The layers that `submit_order` of src/execution_polymarket.py passes before it takes the lock.
use lol_predictor.Prelude.{
  ℕ, String, Bool, true, false, ◌&&◌, ◌||◌, not, Option, present, text_eq, codes, Float, flt, fle,
  fzero, fone, fround, ◌==◌,
}
use lol_predictor.Approval.{
  ApprovalFile, no_path, unreadable, reads, Approved, granted, denied, Grant, BetPayload, is_text,
  invalid_file, not_bound, bet_fingerprint, require_manual_approval,
}
use lol_predictor.Betting.{Decision, go, no_go, GateReport, gate_failed, decided}
use lol_predictor.Execution.Outcome.{
  Outcome, returned, raised, ◌>>=◌, ◌>>◌, ensure, bad_side, bad_price, bad_size, gate_unreadable,
  gate_closed, not_real, no_approval, not_confirmed, permission,
}
use lol_predictor.Execution.Responses.{raw_status}

-- What `submit_order` is asked to transmit.
pub record Order (N : Type 0) : Type 0 where
  pub token_id : String
  pub side : String
  pub price : N
  pub size : N

-- A bet of `record_bet`. `approval_id` is none unless `manual_approval` is a dict that has it.
pub record Bet (N : Type 0) : Type 0 where
  pub id : String
  pub real : Bool
  pub approval_id : Option String
  pub payload : BetPayload N

-- SHA-256 over the canonical JSON text of each payload.
pub record Digests (N : Type 0) : Type 0 where
  pub of_bet : BetPayload N → String
  pub of_order : Order N → String

-- What the layers read from outside: the approval file, twice, the clock and the environment.
pub record Surroundings : Type 0 where
  pub approval : ApprovalFile
  pub approval_again : ApprovalFile
  pub now : ℕ
  pub confirmation : String

module _ {N : Type 0} ⦃f : Float N⦄ where
  unfoldable pub order_fingerprint : Digests N → Order N → String
  order_fingerprint d o = d.of_order (record {
    token_id = o.token_id;
    side = o.side;
    price = fround o.price 8;
    size = fround o.size 8;
  })

  unfoldable pub well_formed : Order N → Outcome (Unit {0})
  well_formed o = do
    ensure (o.side == "BUY" || o.side == "SELL") bad_side
    ensure (flt fzero o.price && flt o.price fone) bad_price
    ensure (not (fle o.size fzero)) bad_size

abbrev pub gate_outcome : GateReport → Outcome Decision
gate_outcome gate_failed = raised gate_unreadable
gate_outcome (decided d _) = returned d

abbrev pub is_go : Decision → Bool
is_go go = true
is_go no_go = false

unfoldable pub approval_outcome : Approved Grant → Outcome (Unit {0})
approval_outcome (granted _) = returned tt
approval_outcome (denied d) = raised (permission d)

-- A path that is `None` makes `Path(None)` raise `TypeError`, which is reported as invalid.
unfoldable pub require_order_fingerprint : ApprovalFile → String → Outcome (Unit {0})
require_order_fingerprint no_path expected = raised (permission invalid_file)
require_order_fingerprint unreadable expected = raised (permission invalid_file)
require_order_fingerprint (reads a) expected =
    ensure (is_text expected a.order_fingerprint) (permission not_bound)

unfoldable pub confirms : String → Bool
unfolding raw_status text_eq
confirms text = text_eq (raw_status text) (codes "true")

module _ {N : Type 0} ⦃f : Float N⦄ where
  -- Every layer behind the gate, under whatever decision the gate has reached.
  unfoldable pub authorise :
      Digests N → Surroundings → Outcome Decision → Bet N → Order N → Outcome (Unit {0})
  unfolding well_formed approval_outcome require_order_fingerprint
  authorise d w gate bet o = do
    well_formed o
    decision ← gate
    ensure (is_go decision) gate_closed
    ensure bet.real not_real
    ensure (present bet.approval_id) no_approval
    approval_outcome
        (require_manual_approval w.approval (bet_fingerprint d.of_bet bet.payload) w.now)
    require_order_fingerprint w.approval_again (order_fingerprint d o)
    ensure (confirms w.confirmation) not_confirmed
