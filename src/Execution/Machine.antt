-- ===== src/Execution/Machine.antt =====
-- The state machine of an order in src/execution_polymarket.py, as the calls really run it: which
-- state may follow which in the rows of one order.
use lol_predictor.Prelude.{
  String, ◌≡◌, refl, ap, ◌∙◌, ◌≢◌, Bool, true, false, Option, none, some, arith, Float, Bool-cases,
  inl, inr, present, eq_refl,
}
use lol_predictor.Execution.Orders.{
  OrderState, created, submitted, unknown, cancelled, is_created, is_terminal, View, rows_of,
  order_view, order_result, order_submitted, order_reconciled, order_cancelled,
  existing_order_for_bet,
}
use lol_predictor.Execution.Ledger.{uses_id}
use lol_predictor.Execution.Views.{existing-some, order_view-id}
use lol_predictor.Execution.Serial.{Served, nothing, submits, reconciles, cancels}
use lol_predictor.Execution.Calls.{
  Desk, Draw, Reply, Call, fails, answers, record_result, transmit_order, claim, submit_under,
  after_layers, on_open_order, reconcile_order, reconcile_reply, cancel_order, cancel_reply,
  result_row, blank_row, opening, settled_state, requested_size,
}
use lol_predictor.Execution.Responses.{
  interpret_post_order_response, interpret_order_status, live_state,
}
use lol_predictor.Execution.Answers.{Response, not_dict, dict}
use lol_predictor.Execution.Layers.{Order, Bet, Digests, Surroundings, authorise}
use lol_predictor.Execution.Outcome.{Outcome, returned, raised}
use lol_predictor.Betting.{Decision}
use lol_predictor.Execution.Interleave.{answered_row}
use lol_predictor.Execution.Lawful.{
  is_live_state, may_follow, latest, IsLawful, IsLawful-cons, latest-mine, latest-view,
  latest-unused, IsChain-sent,
}

is_created-eq : (s : OrderState) → is_created s ≡ true → s ≡ created
is_created-eq s h = ground arith

live_by_cases :
    (s : OrderState) → is_terminal s ≡ false → s ≢ created → s ≢ submitted → is_live_state s ≡ true
live_by_cases s t c u = ground arith

may_follow-cancelled : (s : OrderState) → is_live_state s ≡ true → may_follow s cancelled ≡ true
may_follow-cancelled s h = ground arith

module _ {N : Type 0} ⦃f : Float N⦄ where
  post-may_follow :
      (r : Response N) (x : N) → may_follow submitted (interpret_post_order_response r x).0 ≡ true
  unfolding interpret_post_order_response
  post-may_follow not_dict x = refl
  post-may_follow (dict a) x = ground arith

  post-submitted : (r : Response N) (x : N) → (interpret_post_order_response r x).0 ≢ submitted
  unfolding interpret_post_order_response
  post-submitted not_dict x h = cc
  post-submitted (dict a) x h = ground arith

  status-may_follow :
      (r : Response N) (x : N) (from : OrderState)
      → is_live_state from ≡ true
      → may_follow from (settled_state (interpret_order_status r x).0) ≡ true
  unfolding interpret_order_status live_state
  status-may_follow not_dict x from h = ground arith
  status-may_follow (dict a) x from h = ground arith

  status-submitted :
      (r : Response N) (x : N) → settled_state (interpret_order_status r x).0 ≢ submitted
  unfolding interpret_order_status live_state
  status-submitted not_dict x h = cc
  status-submitted (dict a) x h = ground arith

  record_result-IsLawful :
      (id : String) (bet : Bet N) (o : Order N) (w : Draw N) (reply : Reply N) (d : Desk N)
      → IsLawful d.orders
      → latest (rows_of id d.orders) ≡ some submitted
      → IsLawful (record_result id bet o w reply d).1.orders
  unfolding record_result
  record_result-IsLawful id bet o w fails d h l =
      IsLawful-cons (result_row order_result id bet.id w.resulted_at unknown none none none)
        d.orders h (rw l (refl, λ e. refl))
  record_result-IsLawful id bet o w (answers r) d h l =
      IsLawful-cons (answered_row id bet o w.resulted_at r) d.orders h
        (rw l (post-may_follow r o.size, λ e. absurd (post-submitted r o.size e)))

  transmit_order-IsLawful :
      (id : String) (bet : Bet N) (o : Order N) (w : Draw N) (d : Desk N)
      → IsLawful d.orders
      → latest (rows_of id d.orders) ≡ some created
      → IsLawful (transmit_order id bet o w d).1.orders
  unfolding transmit_order
  transmit_order-IsLawful id bet o w d h l = elim (Bool-cases w.client) [
    | inr failed ↦ rw failed h
    | inl built ↦
        let row = blank_row id order_submitted submitted bet.id w.submitted_at in
        rw built (
          record_result-IsLawful id bet o w w.reply _
            (IsLawful-cons row d.orders h (rw l (refl, λ e. refl)))
            (latest-mine id row d.orders (eq_refl id)))
  ]

  claim-IsLawful :
      (found : Option (View N)) (bet : Bet N) (o : Order N) (w : Draw N) (d : Desk N)
      → existing_order_for_bet bet.id d.orders ≡ found
      → uses_id w.new_id d.orders ≡ false
      → IsLawful d.orders
      → IsLawful (claim found bet o w d).1.orders
  unfolding claim
  claim-IsLawful none bet o w d e u h =
      let row = opening w.new_id bet.id o w.opened_at in
      transmit_order-IsLawful w.new_id bet o w _
        (IsLawful-cons row d.orders h (rw (latest-unused w.new_id d.orders u) (refl, refl)))
        (latest-mine w.new_id row d.orders (eq_refl w.new_id))
  claim-IsLawful (some v) bet o w d e u h = elim (Bool-cases (is_created v.state)) [
    | inr past ↦ rw past h
    | inl stuck ↦
        let (q, eq, ev) = existing-some bet.id d.orders e in
        let named : v.local_order_id ≡ q.local_order_id =
          order_view-id q.local_order_id d.orders ev in
        rw stuck (
          transmit_order-IsLawful v.local_order_id bet o w d h (
            rw named (
              (latest-view q.local_order_id d.orders ev).0
              ∙ ap some (is_created-eq v.state stuck))))
  ]

  pub submit_under-IsLawful :
      (gate : Outcome Decision) (dg : Digests N) (e : Surroundings) (bet : Bet N) (o : Order N)
      (w : Draw N) (d : Desk N)
      → uses_id w.new_id d.orders ≡ false
      → IsLawful d.orders
      → IsLawful (submit_under gate dg e bet o w d).1.orders
  unfolding submit_under
  submit_under-IsLawful gate dg e bet o w d u h = go (authorise dg e gate bet o)
    where
      go : (m : Outcome (Unit {0})) → IsLawful (after_layers m bet o w d).1.orders
      go (raised x) = h
      go (returned x) = claim-IsLawful (existing_order_for_bet bet.id d.orders) bet o w d refl u h

  -- A view on which an unlocked call acts is in a state that the exchange may still change.
  acted-live :
      (id : String) (d : Desk N) {v : View N}
      → IsLawful d.orders
      → order_view id d.orders ≡ some v
      → is_terminal v.state ≡ false
      → present v.exchange_order_id ≡ true
      → is_live_state v.state ≡ true
  acted-live id d {v} h e t p =
      let (l, x) = latest-view id d.orders e in
      let (not_created, not_submitted) = IsChain-sent (rows_of id d.orders) (h id) (rw x p) in
      live_by_cases v.state t (λ c. not_created (l ∙ ap some c))
        (λ c. not_submitted (l ∙ ap some c))

  on_open_order-IsLawful :
      (found : Option (View N)) (client : Bool) (act : View N → Desk N → Call N) (id : String)
      (d : Desk N)
      → order_view id d.orders ≡ found
      → IsLawful d.orders
      → ((v : View N)
          → latest (rows_of id d.orders) ≡ some v.state
          → is_live_state v.state ≡ true
          → IsLawful (act v d).1.orders)
      → IsLawful (on_open_order found client act d).1.orders
  on_open_order-IsLawful none client act id d e h k = h
  on_open_order-IsLawful (some v) client act id d e h k = elim (Bool-cases (is_terminal v.state)) [
    | inl over ↦ rw over h
    | inr is_open ↦ rw is_open (elim (Bool-cases (present v.exchange_order_id)) [
      | inr unknown_id ↦ rw unknown_id h
      | inl known ↦ rw known (elim (Bool-cases client) [
        | inr failed ↦ rw failed h
        | inl built ↦
            rw built (k v (latest-view id d.orders e).0 (acted-live id d h e is_open known))
      ])
    ])
  ]

  reconcile_reply-IsLawful :
      (id at : String) (v : View N) (reply : Reply N) (d : Desk N)
      → IsLawful d.orders
      → latest (rows_of id d.orders) ≡ some v.state
      → is_live_state v.state ≡ true
      → IsLawful (reconcile_reply id v at reply d).1.orders
  unfolding reconcile_reply
  reconcile_reply-IsLawful id at v fails d h l live = h
  reconcile_reply-IsLawful id at v (answers r) d h l live =
      let (state, size) = interpret_order_status r (requested_size v.size) in
      IsLawful-cons
        (result_row order_reconciled id v.bet_id at (settled_state state) v.exchange_order_id size
          (some r))
        d.orders h
        (rw l (
          status-may_follow r (requested_size v.size) v.state live,
          λ e. absurd (status-submitted r (requested_size v.size) e),
        ))

  cancel_reply-IsLawful :
      (id at : String) (v : View N) (reply : Reply N) (d : Desk N)
      → IsLawful d.orders
      → latest (rows_of id d.orders) ≡ some v.state
      → is_live_state v.state ≡ true
      → IsLawful (cancel_reply id v at reply d).1.orders
  unfolding cancel_reply
  cancel_reply-IsLawful id at v fails d h l live = h
  cancel_reply-IsLawful id at v (answers r) d h l live =
      IsLawful-cons
        (result_row order_cancelled id v.bet_id at cancelled v.exchange_order_id none (some r))
        d.orders h (rw l (may_follow-cancelled v.state live, λ e. cc))

  -- In the ledger of any sequence of whole calls the rows of each order start in CREATED, and each
  -- later row follows by a step of `may_follow`: CREATED to SUBMITTED; SUBMITTED to ACCEPTED, FILLED,
  -- REJECTED or UNKNOWN; ACCEPTED, PARTIALLY_FILLED or UNKNOWN to one of these three, to RECONCILED or
  -- to CANCELLED. So a terminal state has no later row, and no SUBMITTED row has an exchange id.
  pub Served-IsLawful : {d : Desk N} → Served d → IsLawful d.orders
  unfolding rows_of reconcile_order cancel_order
  Served-IsLawful (nothing e) = rw e (λ id. tt)
  Served-IsLawful (submits {d} gate dg e bet o w h u) =
      submit_under-IsLawful gate dg e bet o w d u (Served-IsLawful h)
  Served-IsLawful (reconciles {d} id at client reply h) =
      on_open_order-IsLawful (order_view id d.orders) client (λ v. reconcile_reply id v at reply) id
        d refl (Served-IsLawful h)
        (λ v l live. reconcile_reply-IsLawful id at v reply d (Served-IsLawful h) l live)
  Served-IsLawful (cancels {d} id at client reply h) =
      on_open_order-IsLawful (order_view id d.orders) client (λ v. cancel_reply id v at reply) id d
        refl (Served-IsLawful h)
        (λ v l live. cancel_reply-IsLawful id at v reply d (Served-IsLawful h) l live)
