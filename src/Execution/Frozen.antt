-- ===== src/Execution/Frozen.antt =====
-- After an order was announced, `submit_order` of src/execution_polymarket.py only reports it; and
-- the assertion that ends each call never fails.
use lol_predictor.Prelude.{
  ◌≡◌, ap, false, Option, some, List, ◌∷◌, arith, Float, Bool-cases, Option-cases, inl, inr, ◌<◌,
  eq_refl, String, Bool, ◌≢◌, none,
}
use lol_predictor.Execution.Outcome.{returned, assertion, raised}
use lol_predictor.Execution.Orders.{
  Row, View, is_created, order_view, existing_order_for_bet, view_from, view_of, rows_of,
  order_reconciled, order_cancelled, cancelled,
}
use lol_predictor.Execution.Layers.{Order, Bet}
use lol_predictor.Execution.Calls.{
  Desk, Draw, claim, submit_locked, result_row, settled_state, requested_size, Reply, Call, fails,
  answers, reconcile_order, cancel_order, on_open_order, reconcile_reply, cancel_reply,
  record_result, transmit_order,
}
use lol_predictor.Execution.Ledger.{announcements, IsLedger, announcements-unopened}
use lol_predictor.Execution.Views.{created-unannounced, existing-some, existing-none, rows_of-mine}
use lol_predictor.Execution.Interleave.{answered_row}
use lol_predictor.Execution.Responses.{interpret_order_status}

module _ {N : Type 0} where
  -- The order whose row was just appended has a view.
  order_view-appended :
      (r : Row N) (rs : List (Row N))
      → (v : View N) × (order_view r.local_order_id (r ∷ rs) ≡ some v)
  unfolding order_view view_of
  order_view-appended r rs = (
    view_from r.local_order_id r (rows_of r.local_order_id rs),
    ap (view_of r.local_order_id) (rows_of-mine r.local_order_id r rs (eq_refl r.local_order_id)),
  )

module _ {N : Type 0} ⦃f : Float N⦄ where
  claim-past :
      (found : Option (View N)) (bet : Bet N) (o : Order N) (w : Draw N) (d : Desk N) (v : View N)
      → found ≡ some v
      → is_created v.state ≡ false
      → claim found bet o w d ≡ (returned v, d)
  unfolding claim
  claim-past found bet o w d v e c = rw (e, claim) (rw c)

  -- Once an order of the bet was announced, every later submission of the bet, whatever order it
  -- asks for and whatever the world would answer, returns the order's view and does nothing.
  pub submit_locked-frozen :
      (bet : Bet N) (o : Order N) (w : Draw N) (d : Desk N)
      → IsLedger d.orders
      → 0 < announcements bet.id d.orders
      → (v : View N) × (existing_order_for_bet bet.id d.orders ≡ some v)
        × (submit_locked bet o w d ≡ (returned v, d))
  unfolding submit_locked
  submit_locked-frozen bet o w d l h =
      elim (Option-cases (existing_order_for_bet bet.id d.orders)) [
        | inl fresh ↦ absurd (
            omega (
              arith,
              announcements-unopened bet.id d.orders l (existing-none bet.id d.orders fresh),
            ))
        | inr (v, e) ↦ elim (Bool-cases (is_created v.state)) [
          | inl stuck ↦
              let (q, eq, ev) = existing-some bet.id d.orders e in
              absurd (omega (arith, created-unannounced bet.id d.orders l eq ev stuck))
          | inr past ↦
              (v, e, claim-past (existing_order_for_bet bet.id d.orders) bet o w d v e past)
        ]
      ]

  record_result-asserted :
      (id : String) (bet : Bet N) (o : Order N) (w : Draw N) (reply : Reply N) (d : Desk N)
      → (record_result id bet o w reply d).0 ≢ raised assertion
  unfolding record_result
  record_result-asserted id bet o w fails d h = cc
  record_result-asserted id bet o w (answers r) d h =
      let (v, e) = order_view-appended (answered_row id bet o w.resulted_at r) d.orders in
      cc (rw e at h)

  transmit_order-asserted :
      (id : String) (bet : Bet N) (o : Order N) (w : Draw N) (d : Desk N)
      → (transmit_order id bet o w d).0 ≢ raised assertion
  unfolding transmit_order
  transmit_order-asserted id bet o w d h = elim (Bool-cases w.client) [
    | inl built ↦ record_result-asserted id bet o w w.reply _ (rw built at h)
    | inr failed ↦ cc (rw failed at h)
  ]

  claim-asserted :
      (found : Option (View N)) (bet : Bet N) (o : Order N) (w : Draw N) (d : Desk N)
      → (claim found bet o w d).0 ≢ raised assertion
  unfolding claim
  claim-asserted none bet o w d h = transmit_order-asserted w.new_id bet o w _ h
  claim-asserted (some v) bet o w d h = elim (Bool-cases (is_created v.state)) [
    | inl stuck ↦ transmit_order-asserted v.local_order_id bet o w d (rw stuck at h)
    | inr past ↦ cc (rw past at h)
  ]

  on_open_order-asserted :
      (found : Option (View N)) (client : Bool) (act : View N → Desk N → Call N) (d : Desk N)
      → ((v : View N) → (act v d).0 ≢ raised assertion)
      → (on_open_order found client act d).0 ≢ raised assertion
  on_open_order-asserted none client act d k h = cc
  on_open_order-asserted (some v) client act d k h = ground (arith, k v)

  reconcile_reply-asserted :
      (id at : String) (v : View N) (reply : Reply N) (d : Desk N)
      → (reconcile_reply id v at reply d).0 ≢ raised assertion
  unfolding reconcile_reply
  reconcile_reply-asserted id at v fails d h = cc
  reconcile_reply-asserted id at v (answers r) d h =
      let (state, size) = interpret_order_status r (requested_size v.size) in
      let (u, e) =
        order_view-appended
          (result_row order_reconciled id v.bet_id at (settled_state state) v.exchange_order_id size
            (some r))
          d.orders in
      cc (rw e at h)

  cancel_reply-asserted :
      (id at : String) (v : View N) (reply : Reply N) (d : Desk N)
      → (cancel_reply id v at reply d).0 ≢ raised assertion
  unfolding cancel_reply
  cancel_reply-asserted id at v fails d h = cc
  cancel_reply-asserted id at v (answers r) d h =
      let (u, e) =
        order_view-appended
          (result_row order_cancelled id v.bet_id at cancelled v.exchange_order_id none (some r))
          d.orders in
      cc (rw e at h)

  -- The assertion that ends each of the three calls never fails, on any ledger.
  pub assertions_hold :
      (bet : Bet N) (o : Order N) (w : Draw N) (id at : String) (client : Bool) (reply : Reply N)
      (d : Desk N)
      → ((submit_locked bet o w d).0 ≢ raised assertion)
        × ((reconcile_order id at client reply d).0 ≢ raised assertion)
        × ((cancel_order id at client reply d).0 ≢ raised assertion)
  unfolding submit_locked reconcile_order cancel_order
  assertions_hold bet o w id at client reply d = (
    claim-asserted (existing_order_for_bet bet.id d.orders) bet o w d,
    on_open_order-asserted (order_view id d.orders) client (λ v. reconcile_reply id v at reply) d
        (λ v. reconcile_reply-asserted id at v reply d),
    on_open_order-asserted (order_view id d.orders) client (λ v. cancel_reply id v at reply) d
        (λ v. cancel_reply-asserted id at v reply d),
  )
