-- ===== src/Execution/Serial.antt =====
-- Whole calls of src/execution_polymarket.py, one after another, as paths of small steps.
use lol_predictor.Prelude.{
  String, ◌≡◌, refl, Bool, true, false, Option, none, some, List, [], ◌∷◌, arith, present, Float,
  Bool-cases, inl, inr, ◌≤◌, ◌<◌,
}
use lol_predictor.Betting.{Decision}
use lol_predictor.Execution.Outcome.{Outcome, returned, raised}
use lol_predictor.Execution.Orders.{
  View, is_created, is_terminal, order_view, existing_order_for_bet,
}
use lol_predictor.Execution.Layers.{Order, Bet, Digests, Surroundings, authorise}
use lol_predictor.Execution.Calls.{
  Desk, Draw, Reply, fails, answers, Call, record_result, transmit_order, claim, after_layers,
  submit_under, reconcile_reply, reconcile_order, cancel_reply, cancel_order, on_open_order,
  submit_locked,
}
use lol_predictor.Execution.Ledger.{uses_id}
use lol_predictor.Execution.Views.{order_view-id}
use lol_predictor.Execution.Interleave.{
  System, idle, claimed, start, Steps, more, open_new, resume, announce, transmit, conclude,
  conclude_unknown, release, look, reconcile, cancel, In,
}
use lol_predictor.Execution.Once.{transmissions, at_most_once, Steps-Inv}
use lol_predictor.Execution.Frozen.{submit_locked-frozen}

module _ {N : Type 0} where
  -- no submission holds the lock
  abbrev pub at_rest : Desk N → List (View N) → System N
  at_rest d vs = record { desk = d; phase = idle; views = vs }

  abbrev with_claim : String → Bet N → Order N → Desk N → List (View N) → System N
  with_claim id bet o d vs = record { desk = d; phase = claimed id bet o; views = vs }

module _ {N : Type 0} ⦃f : Float N⦄ {s : System N} where
  transmit_order-Steps :
      (id : String) (bet : Bet N) (o : Order N) (w : Draw N) (reply : Reply N) (client : Bool)
      (d : Desk N) (vs : List (View N))
      → w.reply ≡ reply
      → w.client ≡ client
      → Steps s (with_claim id bet o d vs)
      → Steps s (at_rest (transmit_order id bet o w d).1 vs)
  unfolding transmit_order record_result
  transmit_order-Steps id bet o w reply false d vs r c p =
      rw c (more p (release (with_claim id bet o d vs)))
  transmit_order-Steps id bet o w fails true d vs r c p =
      rw (c, r, record_result)
        (more (more (more p (announce _ id bet o w.submitted_at refl)) (transmit _ id bet o refl))
          (conclude_unknown _ id bet o w.resulted_at refl))
  transmit_order-Steps id bet o w (answers a) true d vs r c p =
      rw (c, r, record_result)
        (more (more (more p (announce _ id bet o w.submitted_at refl)) (transmit _ id bet o refl))
          (conclude _ id bet o w.resulted_at a refl))

  claim-Steps :
      (found : Option (View N)) (bet : Bet N) (o : Order N) (w : Draw N) (d : Desk N)
      (vs : List (View N))
      → existing_order_for_bet bet.id d.orders ≡ found
      → uses_id w.new_id d.orders ≡ false
      → Steps s (at_rest d vs)
      → Steps s (at_rest (claim found bet o w d).1 vs)
  unfolding claim
  claim-Steps none bet o w d vs e u p =
      transmit_order-Steps w.new_id bet o w w.reply w.client _ vs refl refl
        (more p (open_new _ bet o w.new_id w.opened_at refl e u))
  claim-Steps (some v) bet o w d vs e u p = elim (Bool-cases (is_created v.state)) [
    | inl stuck ↦ rw stuck (
        transmit_order-Steps v.local_order_id bet o w w.reply w.client d vs refl refl
          (more p (resume _ bet o v refl e stuck)))
    | inr past ↦ rw past p
  ]

  -- `submit_order`, under any decision of the gate, is a path of small steps.
  pub submit_under-Steps :
      (gate : Outcome Decision) (dg : Digests N) (e : Surroundings) (bet : Bet N) (o : Order N)
      (w : Draw N) (d : Desk N) (vs : List (View N))
      → uses_id w.new_id d.orders ≡ false
      → Steps s (at_rest d vs)
      → Steps s (at_rest (submit_under gate dg e bet o w d).1 vs)
  unfolding submit_under
  submit_under-Steps gate dg e bet o w d vs u p = go (authorise dg e gate bet o)
    where
      go : (m : Outcome (Unit {0})) → Steps s (at_rest (after_layers m bet o w d).1 vs)
      go (raised x) = p
      go (returned x) = claim-Steps (existing_order_for_bet bet.id d.orders) bet o w d vs refl u p

module _ {N : Type 0} ⦃f : Float N⦄ where
  abbrev Reached : Desk N → Type 0
  Reached d = (vs : List (View N)) × Steps start (at_rest d vs)

  -- What an unlocked call has established when it acts on a view.
  record Acts (v : View N) (id : String) (d : Desk N) : Type 0 where
    read : List (View N)
    seen : In v read
    named : v.local_order_id ≡ id
    is_open : is_terminal v.state ≡ false
    known : present v.exchange_order_id ≡ true
    path : Steps start (at_rest d read)

  on_open_order-Reached :
      (found : Option (View N)) (client : Bool) (act : View N → Desk N → Call N) (id : String)
      (d : Desk N)
      → order_view id d.orders ≡ found
      → ((v : View N) → Acts v id d → Reached (act v d).1)
      → Reached d
      → Reached (on_open_order found client act d).1
  on_open_order-Reached none client act id d e k p = p
  on_open_order-Reached (some v) client act id d e k (vs, p) =
      elim (Bool-cases (is_terminal v.state)) [
        | inl over ↦ rw over (vs, p)
        | inr is_open ↦ rw is_open (elim (Bool-cases (present v.exchange_order_id)) [
          | inr unknown_id ↦ rw unknown_id (vs, p)
          | inl known ↦ rw known (elim (Bool-cases client) [
            | inr failed ↦ rw failed (vs, p)
            | inl built ↦ rw built (
                k v (record {
                  read = v ∷ vs;
                  seen = In.here;
                  named = order_view-id id d.orders e;
                  is_open = is_open;
                  known = known;
                  path = more p (look _ id v e);
                }))
          ])
        ])
      ]

  pub reconcile_order-Reached :
      (id at : String) (client : Bool) (reply : Reply N) (d : Desk N)
      → Reached d
      → Reached (reconcile_order id at client reply d).1
  unfolding reconcile_order
  reconcile_order-Reached id at client reply d =
      on_open_order-Reached (order_view id d.orders) client (λ v. reconcile_reply id v at reply) id
        d refl (λ v a. acts v a reply)
    where
      acts :
          (v : View N)
          → Acts v id d
          → (reply : Reply N) → Reached (reconcile_reply id v at reply d).1
      acts v a fails = (a.read, a.path)
      acts v a (answers r) =
          rw (← a.named) (a.read, more a.path (reconcile _ v at r a.seen a.is_open a.known))

  pub cancel_order-Reached :
      (id at : String) (client : Bool) (reply : Reply N) (d : Desk N)
      → Reached d
      → Reached (cancel_order id at client reply d).1
  unfolding cancel_order
  cancel_order-Reached id at client reply d =
      on_open_order-Reached (order_view id d.orders) client (λ v. cancel_reply id v at reply) id d
        refl (λ v a. acts v a reply)
    where
      acts :
          (v : View N) → Acts v id d → (reply : Reply N) → Reached (cancel_reply id v at reply d).1
      acts v a fails = (a.read, a.path)
      acts v a (answers r) =
          rw (← a.named) (a.read, more a.path (cancel _ v at r a.seen a.is_open a.known))

  -- The desks that whole calls produce, from an empty ledger on. The gate may decide anything.
  pub data Served : Desk N → Type 0 where
    nothing : {d : Desk N} → d ≡ start.desk → Served d
    submits :
        {d : Desk N} (gate : Outcome Decision) (dg : Digests N) (e : Surroundings) (bet : Bet N)
        (o : Order N) (w : Draw N)
        → Served d
        → uses_id w.new_id d.orders ≡ false
        → Served (submit_under gate dg e bet o w d).1
    reconciles :
        {d : Desk N} (id at : String) (client : Bool) (reply : Reply N)
        → Served d
        → Served (reconcile_order id at client reply d).1
    cancels :
        {d : Desk N} (id at : String) (client : Bool) (reply : Reply N)
        → Served d
        → Served (cancel_order id at client reply d).1

  pub Served-Reached : {d : Desk N} → Served d → Reached d
  Served-Reached (nothing e) = rw e ([], Steps.here)
  Served-Reached (submits {d} gate dg e bet o w h u) =
      let (vs, p) = Served-Reached h in (vs, submit_under-Steps gate dg e bet o w d vs u p)
  Served-Reached (reconciles {d} id at client reply h) =
      reconcile_order-Reached id at client reply d (Served-Reached h)
  Served-Reached (cancels {d} id at client reply h) =
      cancel_order-Reached id at client reply d (Served-Reached h)

  -- Whole calls in any order, with any answers, transmit each bet at most once.
  pub Served-at_most_once : {d : Desk N} → Served d → (bet : String) → transmissions bet d.sent ≤ 1
  Served-at_most_once h bet =
      let (vs, p) = Served-Reached h in
      omega (arith, (at_most_once p bet).0, (at_most_once p bet).1)

  -- After a bet was transmitted, `submit_order` for the bet returns the order's view, whatever order
  -- it is asked for, and changes nothing: an order whose fate is unknown is never sent again.
  pub Served-frozen :
      {d : Desk N}
      → Served d
      → (bet : Bet N) (o : Order N) (w : Draw N) → 0 < transmissions bet.id d.sent
      → (v : View N) × (existing_order_for_bet bet.id d.orders ≡ some v)
        × (submit_locked bet o w d ≡ (returned v, d))
  Served-frozen {d} h bet o w sent =
      let (vs, p) = Served-Reached h in
      submit_locked-frozen bet o w d (Steps-Inv p).ledger (omega (arith, (at_most_once p bet.id).0))
