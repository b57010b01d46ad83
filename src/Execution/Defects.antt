-- ===== src/Execution/Defects.antt =====
-- Where src/execution_polymarket.py records less than it did: an order that is resumed with other
-- terms, and a cancellation that ends the order whatever was answered.
use lol_predictor.Prelude.{
  String, ◌≡◌, refl, Bool, true, false, some, [], ◌∷◌, Float, eq_refl, arith, none,
}
use lol_predictor.Execution.Orders.{
  View, order_view, view_from, order_submitted, submitted, existing_order_for_bet, cancelled,
}
use lol_predictor.Execution.Layers.{Order, Bet}
use lol_predictor.Execution.Answers.{Response}
use lol_predictor.Execution.Calls.{
  Desk, Sent, Draw, answers, submit_locked, transmit_order, opening, blank_row, claim, Call, Reply,
  reconcile_order,
}
use lol_predictor.Execution.Interleave.{start, answered_row}
use lol_predictor.Execution.Outcome.{returned}

module _ {N : Type 0} ⦃f : Float N⦄ where
  -- the desk after a first attempt that failed before it reached the exchange
  abbrev pub after_failure : Bet N → Order N → Draw N → Desk N
  after_failure bet o w = (submit_locked bet o w start.desk).1

  -- What the second attempt left: what was transmitted, and what the ledger says of it.
  pub record Resumed (id : String) (first second : Order N) (d : Desk N) : Type 0 where
    pub view : View N
    pub seen : order_view id d.orders ≡ some view
    pub transmitted : (t : Sent N) × (d.sent ≡ t ∷ []) × (t.order ≡ second)
    pub token_id : view.token_id ≡ some first.token_id
    pub side : view.side ≡ some first.side
    pub price : view.price ≡ some first.price
    pub size : view.size ≡ some first.size

  abbrev resumed_desk : Bet N → Order N → Order N → Draw N → Draw N → Response N → Desk N
  resumed_desk bet first second w w' r = record {
    orders =
        answered_row w.new_id bet second w'.resulted_at r
        ∷ blank_row w.new_id order_submitted submitted bet.id w'.submitted_at
        ∷ opening w.new_id bet.id first w.opened_at
        ∷ [];
    sent = record { bet_id = bet.id; local_order_id = w.new_id; order = second } ∷ [];
  }

  after_failure-desk :
      (bet : Bet N) (o : Order N) (w : Draw N)
      → w.client ≡ false
      → after_failure bet o w
        ≡ record { orders = opening w.new_id bet.id o w.opened_at ∷ []; sent = [] }
  unfolding submit_locked existing_order_for_bet
  after_failure-desk bet o w e = ground arith

  existing-opening :
      (bet : Bet N) (o : Order N) (id at : String)
      → existing_order_for_bet bet.id (opening id bet.id o at ∷ [])
        ≡ some (view_from id (opening id bet.id o at) [])
  unfolding existing_order_for_bet
  existing-opening bet o id at = simp eq_refl

  resume-desk :
      (bet : Bet N) (first second : Order N) (w w' : Draw N) (r : Response N)
      → w.client ≡ false
      → w'.client ≡ true
      → w'.reply ≡ answers r
      → (submit_locked bet second w' (after_failure bet first w)).1
        ≡ resumed_desk bet first second w w' r
  resume-desk bet first second w w' r e e' a = rw (after_failure-desk bet first w e) (
      unfold submit_locked in
      rw (existing-opening bet first w.new_id w.opened_at, claim)
        (unfold view_from transmit_order in simp (e', a)))

  -- On a ledger and a list of transmissions that are empty, a first call of the part of `submit_order`
  -- under the lock fails to build the client; a second one for the same bet asks for another order,
  -- builds the client and gets an answer. The second order is transmitted, and the view of the ledger,
  -- from which `reconcile_order` takes the requested size, shows the terms of the first.
  pub resume_keeps_old_terms :
      (bet : Bet N) (first second : Order N) (w w' : Draw N) (r : Response N)
      → w.client ≡ false
      → w'.client ≡ true
      → w'.reply ≡ answers r
      → Resumed w.new_id first second (submit_locked bet second w' (after_failure bet first w)).1
  unfolding submit_locked
  resume_keeps_old_terms bet first second w w' r e e' a =
      rw (resume-desk bet first second w w' r e e' a) (record {
        view = view_from w.new_id (answered_row w.new_id bet second w'.resulted_at r) (
            blank_row w.new_id order_submitted submitted bet.id w'.submitted_at
            ∷ opening w.new_id bet.id first w.opened_at
            ∷ []);
        seen = unfold order_view in simp eq_refl;
        transmitted = (_, refl, refl);
        token_id = unfold view_from in refl;
        side = unfold view_from in refl;
        price = unfold view_from in refl;
        size = unfold view_from in refl;
      })

  -- What a cancellation of the order leaves: a CANCELLED view, which reconciling only returns.
  pub record Closed (id : String) (x : Call N) : Type 0 where
    pub view : View N
    pub returns : x.0 ≡ returned view
    pub is_closed : view.state ≡ cancelled
    pub unfilled : view.size_matched ≡ none
    pub for_good :
        (at : String) (client : Bool) (reply : Reply N)
        → reconcile_order id at client reply x.1 ≡ (returned view, x.1)
