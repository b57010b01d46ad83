-- ===== src/Execution/Lawful.antt =====
-- Lawful ledgers of src/execution_polymarket.py: the rows of each order form a chain of allowed states.
use lol_predictor.Prelude.{
  String, ◌≡◌, refl, ap, sym, ◌≢◌, Bool, true, false, Option, none, some, List, [], ◌∷◌, arith,
  Bool-cases, inl, inr, ◌==◌, eq_iff, present, subst, ◌&&◌, some-eq,
}
use lol_predictor.Execution.Orders.{
  OrderState, created, submitted, accepted, partially_filled, filled, rejected, unknown, cancelled,
  reconciled, Row, View, latest_exchange_id, rows_of, view_of, view_from, order_view,
}
use lol_predictor.Execution.Ledger.{uses_id}
use lol_predictor.Execution.Views.{rows_of-mine, rows_of-other}

-- the states in which the exchange may still act on the order
abbrev pub is_live_state : OrderState → Bool
is_live_state accepted = true
is_live_state partially_filled = true
is_live_state unknown = true
is_live_state _ = false

-- Which state may follow which in the rows of one order, as the calls write them. This is no
-- translation of the table in the module's docstring, which differs: there FILLED, CANCELLED and
-- REJECTED lead to RECONCILED and ACCEPTED to FILLED, while the calls leave an order in these final
-- states alone and write RECONCILED over ACCEPTED, PARTIALLY_FILLED or UNKNOWN; and there nothing
-- leads from UNKNOWN, while an order with an exchange id can be reconciled or cancelled from it.
abbrev pub may_follow : OrderState → OrderState → Bool
may_follow created submitted = true
may_follow submitted accepted = true
may_follow submitted filled = true
may_follow submitted rejected = true
may_follow submitted unknown = true
may_follow from reconciled = is_live_state from
may_follow from cancelled = is_live_state from
may_follow from to = is_live_state from && is_live_state to

may_follow-created : (s : OrderState) → may_follow s created ≡ false
may_follow-created s = ground arith

may_follow-submitted : (s : OrderState) → may_follow s submitted ≡ true → s ≡ created
may_follow-submitted s h = ground arith

module _ {N : Type 0} where
  abbrev pub latest : List (Row N) → Option OrderState
  latest [] = none
  latest (r ∷ rs) = some r.state

  -- A row after rows whose latest state is given. Until a result is in, no id is recorded.
  abbrev pub Link : Row N → Option OrderState → Type 0
  Link r none = (r.state ≡ created) × (r.exchange_order_id ≡ none)
  Link r (some from) =
      (may_follow from r.state ≡ true) × (r.state ≡ submitted → r.exchange_order_id ≡ none)

  -- the rows of one order, newest first
  abbrev pub IsChain : List (Row N) → Type 0
  IsChain [] = Unit
  IsChain (r ∷ rs) = Link r (latest rs) × IsChain rs

  abbrev pub IsLawful : List (Row N) → Type 0
  IsLawful rows = (id : String) → IsChain (rows_of id rows)

  pub IsLawful-cons :
      (r : Row N) (rows : List (Row N))
      → IsLawful rows
      → Link r (latest (rows_of r.local_order_id rows))
      → IsLawful (r ∷ rows)
  IsLawful-cons r rows h k id = elim (Bool-cases (r.local_order_id == id)) [
    | inl mine ↦
        let same : r.local_order_id ≡ id = (eq_iff r.local_order_id id).0 mine in
        subst IsChain (sym (rows_of-mine id r rows mine))
          (subst (λ i. Link r (latest (rows_of i rows))) same k, h id)
    | inr other ↦ subst IsChain (sym (rows_of-other id r rows other)) (h id)
  ]

  pub latest-mine :
      (id : String) (r : Row N) (rows : List (Row N))
      → (r.local_order_id == id) ≡ true
      → latest (rows_of id (r ∷ rows)) ≡ some r.state
  latest-mine id r rows m = ap latest (rows_of-mine id r rows m)

  pub latest-view :
      (id : String) (rows : List (Row N)) {v : View N}
      → order_view id rows ≡ some v
      → (latest (rows_of id rows) ≡ some v.state)
        × (latest_exchange_id (rows_of id rows) ≡ v.exchange_order_id)
  unfolding order_view view_of view_from
  latest-view id rows {v} e = go (rows_of id rows) e
    where
      go :
          (xs : List (Row N))
          → view_of id xs ≡ some v
          → (latest xs ≡ some v.state) × (latest_exchange_id xs ≡ v.exchange_order_id)
      go [] h = cc
      go (x ∷ xs) h = (cc h, cc h)

  pub latest-unused :
      (id : String) (rows : List (Row N))
      → uses_id id rows ≡ false
      → latest (rows_of id rows) ≡ none
  unfolding uses_id rows_of
  latest-unused id [] u = refl
  latest-unused id (r ∷ rs) u = ground (arith, latest-unused id rs)

  no_id-created :
      (r : Row N) (rs : List (Row N))
      → Link r (latest rs)
      → r.state ≡ created
      → latest_exchange_id (r ∷ rs) ≡ none
  unfolding latest_exchange_id
  no_id-created r [] k e = ground arith
  no_id-created r (q ∷ rs) k e = cc (may_follow-created q.state, ap (may_follow q.state) e)

  no_id-submitted :
      (r : Row N) (rs : List (Row N))
      → IsChain (r ∷ rs)
      → r.state ≡ submitted
      → latest_exchange_id (r ∷ rs) ≡ none
  unfolding latest_exchange_id
  no_id-submitted r [] c e = cc
  no_id-submitted r (q ∷ rs) c e =
      let from : q.state ≡ created = may_follow-submitted q.state (rw e at c.0.0) in
      rw (c.0.1 e) (no_id-created q rs c.1.0 from)

  -- An order with an exchange id has got a result.
  pub IsChain-sent :
      (xs : List (Row N))
      → IsChain xs
      → present (latest_exchange_id xs) ≡ true
      → (latest xs ≢ some created) × (latest xs ≢ some submitted)
  unfolding latest_exchange_id
  IsChain-sent [] c p = ((λ h. cc), (λ h. cc))
  IsChain-sent (r ∷ rs) c p = (
    (λ h. cc (ap present (no_id-created r rs c.0 (some-eq h)))),
    (λ h. cc (ap present (no_id-submitted r rs c (some-eq h)))),
  )
