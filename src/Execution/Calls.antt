-- ===== src/Execution/Calls.antt =====
-- `submit_order`, `reconcile_order` and `cancel_order` of src/execution_polymarket.py, on the
-- ledger and on the list of transmissions. What the world answers comes as arguments.
use lol_predictor.Prelude.{
  String, Bool, Option, none, some, List, ◌∷◌, present, Float, ftruthy, fzero, if◌then◌else◌,
}
use lol_predictor.Betting.{GateFile, Decision, go_gate}
use lol_predictor.Execution.Outcome.{
  Outcome, returned, raised, asserted, client_failed, call_failed, transmission_unknown,
  unknown_order, no_exchange_id,
}
use lol_predictor.Execution.Orders.{
  OrderState, created, submitted, filled, cancelled, rejected, unknown, reconciled, is_created,
  is_terminal, Event, order_created, order_submitted, order_result, order_reconciled,
  order_cancelled, Row, View, order_view, existing_order_for_bet,
}
use lol_predictor.Execution.Responses.{interpret_post_order_response, interpret_order_status}
use lol_predictor.Execution.Answers.{Response}
use lol_predictor.Execution.Layers.{Order, Bet, Digests, Surroundings, gate_outcome, authorise}

-- One call of `transmit`.
pub record Sent (N : Type 0) : Type 0 where
  pub bet_id : String
  pub local_order_id : String
  pub order : Order N

-- The ledger file and the transmissions made so far, the newest first in both.
pub record Desk (N : Type 0) : Type 0 where
  pub orders : List (Row N)
  pub sent : List (Sent N)

-- What a callable that was passed in does: raise, or return an answer.
pub data Reply (N : Type 0) : Type 0 where
  fails : Reply N
  answers : Response N → Reply N

-- What one `submit_order` draws from outside: `uuid4`, the clock, the client and the exchange.
pub record Draw (N : Type 0) : Type 0 where
  pub new_id : String
  pub opened_at : String
  pub submitted_at : String
  pub resulted_at : String
  pub client : Bool
  pub reply : Reply N

abbrev pub Call : Type 0 → Type 0
Call N = Outcome (View N) × Desk N

-- RECONCILED if the exchange says that the order is over
abbrev pub settled_state : OrderState → OrderState
settled_state filled = reconciled
settled_state cancelled = reconciled
settled_state rejected = reconciled
settled_state state = state

module _ {N : Type 0} where
  abbrev pub audit : Row N → Desk N → Desk N
  audit r s = record s { orders = r ∷ s.orders }

  -- `_row(local_order_id, event, state)` with no further field
  abbrev pub blank_row : String → Event → OrderState → String → String → Row N
  blank_row id event state bet at = record {
    event = event;
    state = state;
    local_order_id = id;
    bet_id = bet;
    created_at = at;
    token_id = none;
    side = none;
    price = none;
    size = none;
    exchange_order_id = none;
    size_matched = none;
    clob_response = none;
  }

  abbrev pub opening : String → String → Order N → String → Row N
  opening id bet o at = record (blank_row id order_created created bet at) {
    token_id = some o.token_id;
    side = some o.side;
    price = some o.price;
    size = some o.size;
  }

  abbrev pub result_row :
      Event
      → String
      → String
      → String
      → OrderState
      → Option String
      → Option N
      → Option (Response N)
      → Row N
  result_row event id bet at state exchange size response =
      record (blank_row id event state bet at) {
        exchange_order_id = exchange;
        size_matched = size;
        clob_response = response;
      }

  -- the final `order_view` and its assertion
  abbrev pub viewed : String → Desk N → Call N
  viewed id s = (asserted (order_view id s.orders), s)

module _ {N : Type 0} ⦃f : Float N⦄ where
  -- after `transmit`: the result row, and the view or the exception
  unfoldable pub record_result : String → Bet N → Order N → Draw N → Reply N → Desk N → Call N
  record_result id bet o w fails s = (
    raised transmission_unknown,
    audit (result_row order_result id bet.id w.resulted_at unknown none none none) s,
  )
  record_result id bet o w (answers r) s =
      let (state, exchange, size) = interpret_post_order_response r o.size in
      viewed id
        (audit (result_row order_result id bet.id w.resulted_at state exchange size (some r)) s)

  -- from the client on, for an order that is in CREATED
  unfoldable pub transmit_order : String → Bet N → Order N → Draw N → Desk N → Call N
  unfolding record_result
  transmit_order id bet o w s =
      if w.client
      then record_result id bet o w w.reply (record s {
        orders = blank_row id order_submitted submitted bet.id w.submitted_at ∷ s.orders;
        sent = record { bet_id = bet.id; local_order_id = id; order = o } ∷ s.sent;
      })
      else (raised client_failed, s)

  unfoldable pub claim : Option (View N) → Bet N → Order N → Draw N → Desk N → Call N
  unfolding transmit_order
  claim none bet o w s =
      transmit_order w.new_id bet o w (audit (opening w.new_id bet.id o w.opened_at) s)
  claim (some v) bet o w s =
      if is_created v.state then transmit_order v.local_order_id bet o w s else (returned v, s)

  -- the part of `submit_order` under `_ORDERS_LOCK` and `_file_lock`
  unfoldable pub submit_locked : Bet N → Order N → Draw N → Desk N → Call N
  unfolding claim
  submit_locked bet o w s = claim (existing_order_for_bet bet.id s.orders) bet o w s

  unfoldable pub after_layers : Outcome (Unit {0}) → Bet N → Order N → Draw N → Desk N → Call N
  unfolding submit_locked
  after_layers (raised e) bet o w s = (raised e, s)
  after_layers (returned _) bet o w s = submit_locked bet o w s

  -- `submit_order`, given what the gate has decided
  unfoldable pub submit_under :
      Outcome Decision → Digests N → Surroundings → Bet N → Order N → Draw N → Desk N → Call N
  unfolding after_layers
  submit_under gate d e bet o w s = after_layers (authorise d e gate bet o) bet o w s

  unfoldable pub submit_order :
      GateFile N → Digests N → Surroundings → Bet N → Order N → Draw N → Desk N → Call N
  unfolding submit_under
  submit_order file = submit_under (gate_outcome (go_gate file))

  -- `view.get("size") or 0.0`
  abbrev pub requested_size : Option N → N
  requested_size none = fzero
  requested_size (some x) = if ftruthy x then x else fzero

  unfoldable pub reconcile_reply : String → View N → String → Reply N → Desk N → Call N
  reconcile_reply id v at fails s = (raised call_failed, s)
  reconcile_reply id v at (answers r) s =
      let (state, size) = interpret_order_status r (requested_size v.size) in
      viewed id (
        audit
          (result_row order_reconciled id v.bet_id at (settled_state state) v.exchange_order_id size
            (some r))
          s)

  -- the guards that reconciling and cancelling share: a known, open order with an exchange id
  abbrev pub on_open_order : Option (View N) → Bool → (View N → Desk N → Call N) → Desk N → Call N
  on_open_order none client act s = (raised unknown_order, s)
  on_open_order (some v) client act s =
      if is_terminal v.state
      then (returned v, s)
      else if present v.exchange_order_id
      then (if client then act v s else (raised client_failed, s))
      else (raised no_exchange_id, s)

  unfoldable pub reconcile_order : String → String → Bool → Reply N → Desk N → Call N
  unfolding reconcile_reply
  reconcile_order id at client reply s =
      on_open_order (order_view id s.orders) client (λ v. reconcile_reply id v at reply) s

  unfoldable pub cancel_reply : String → View N → String → Reply N → Desk N → Call N
  cancel_reply id v at fails s = (raised call_failed, s)
  cancel_reply id v at (answers r) s = viewed id (
      audit (result_row order_cancelled id v.bet_id at cancelled v.exchange_order_id none (some r))
        s)

  unfoldable pub cancel_order : String → String → Bool → Reply N → Desk N → Call N
  unfolding cancel_reply
  cancel_order id at client reply s =
      on_open_order (order_view id s.orders) client (λ v. cancel_reply id v at reply) s
