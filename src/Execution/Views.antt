-- ===== src/Execution/Views.antt =====
-- How the views of src/execution_polymarket.py read a well-formed ledger.
use lol_predictor.Prelude.{
  String, ◌≡◌, refl, sym, ap, ◌∙◌, ◌≢◌, true, false, ◌&&◌, none, some, List, [], ◌∷◌, arith, inl,
  inr, Bool-cases, Option-cases, ◌==◌, eq_iff, some-eq, eq_refl, subst,
}
use lol_predictor.Execution.Orders.{
  is_created, opens, Row, View, oldest, rows_of, view_of, order_view, opening_row, view_from,
  existing_order_for_bet, view_of_opening,
}
use lol_predictor.Execution.Ledger.{
  announces, one_if-zero, uncounted, uses_id, announcements, Opened, Fits, IsLedger,
  opening_row-old, opening_row-new, Opened-cons, Opened-uses, Fits-Follows, Fits-Opens,
  counted-Opened, announcements-unopened,
}

module _ {N : Type 0} where
  pub rows_of-mine :
      (id : String) (r : Row N) (rs : List (Row N))
      → (r.local_order_id == id) ≡ true
      → rows_of id (r ∷ rs) ≡ r ∷ rows_of id rs
  unfolding rows_of
  rows_of-mine id r rs e = rw e

  pub rows_of-other :
      (id : String) (r : Row N) (rs : List (Row N))
      → (r.local_order_id == id) ≡ false
      → rows_of id (r ∷ rs) ≡ rows_of id rs
  unfolding rows_of
  rows_of-other id r rs e = rw e

  -- The view's state is that of the newest row of the order.
  pub view-state-mine :
      (id : String) (r : Row N) (rs : List (Row N)) {v : View N}
      → (r.local_order_id == id) ≡ true
      → order_view id (r ∷ rs) ≡ some v
      → v.state ≡ r.state
  unfolding order_view view_of
  view-state-mine id r rs {v} m e = cc (sym (ap (view_of id) (rows_of-mine id r rs m)) ∙ e)

  pub order_view-other :
      (id : String) (r : Row N) (rs : List (Row N))
      → (r.local_order_id == id) ≡ false
      → order_view id (r ∷ rs) ≡ order_view id rs
  unfolding order_view
  order_view-other id r rs e = ap (view_of id) (rows_of-other id r rs e)

  opening-id :
      (bet : String) (r : Row N) (rs : List (Row N)) {q p : Row N}
      → opening_row bet (r ∷ rs) ≡ some q
      → opening_row bet rs ≡ some p
      → p.local_order_id ≡ q.local_order_id
  opening-id bet r rs {q} {p} eq ep =
      ap (λ (t : Row N). t.local_order_id) (some-eq (sym (opening_row-old bet r p rs ep) ∙ eq))

  -- A newest row in CREATED is the row that opened the order.
  created-mine :
      (bet : String) (r : Row N) (rs : List (Row N)) {q : Row N}
      → IsLedger (r ∷ rs)
      → opening_row bet (r ∷ rs) ≡ some q
      → (r.local_order_id == q.local_order_id) ≡ true
      → is_created r.state ≡ true
      → announcements bet (r ∷ rs) ≡ 0
  unfolding announcements
  created-mine bet r rs {q} l eq mine c = elim (Bool-cases (opens r.event)) [
    | inr later ↦ cc (Fits-Follows (opens r.event) r rs l.0 later).0
    | inl first ↦
        let (fresh_id, fresh_bet) = Fits-Opens (opens r.event) r rs l.0 first in
        elim (Option-cases (opening_row bet rs)) [
          | inl fresh ↦ omega (
            arith,
            uncounted r.event (r.bet_id == bet) first,
            announcements-unopened bet rs l.1 fresh,
          )
          | inr (p, ep) ↦
              let used : uses_id q.local_order_id rs ≡ true =
                Opened-uses bet q.local_order_id rs (p, ep, opening-id bet r rs eq ep) in
              let same : r.local_order_id ≡ q.local_order_id =
                (eq_iff r.local_order_id q.local_order_id).0 mine in
              cc (ap (λ i. uses_id i rs) same)
        ]
  ]

  -- The row that opens an order has the order's id.
  opening-other :
      (bet : String) (r : Row N) (rs : List (Row N)) {q : Row N}
      → opening_row bet (r ∷ rs) ≡ some q
      → (r.local_order_id == q.local_order_id) ≡ false
      → opening_row bet rs ≢ none
  opening-other bet r rs {q} eq other fresh =
      ground (arith, opening_row-new bet r rs fresh, eq_iff r.local_order_id q.local_order_id)

  counted-other :
      (bet : String) (r : Row N) (rs : List (Row N)) {q : Row N}
      → Fits (opens r.event) r rs
      → (r.local_order_id == q.local_order_id) ≡ false
      → opening_row bet rs ≡ some q
      → (announces r.event && (r.bet_id == bet)) ≢ true
  counted-other bet r rs {q} h other eq k =
      let (p, ep, i) = counted-Opened bet r rs h k in
      let same : r.local_order_id ≡ q.local_order_id =
        sym i ∙ ap (λ (t : Row N). t.local_order_id) (some-eq (sym ep ∙ eq)) in
      cc ((eq_iff r.local_order_id q.local_order_id).1 same)

  -- The first announcement takes an order out of CREATED, for good.
  pub created-unannounced :
      (bet : String) (rs : List (Row N)) {q : Row N} {v : View N}
      → IsLedger rs
      → opening_row bet rs ≡ some q
      → order_view q.local_order_id rs ≡ some v
      → is_created v.state ≡ true
      → announcements bet rs ≡ 0
  unfolding announcements
  created-unannounced bet [] l eq ev c = refl
  created-unannounced bet (r ∷ rs) {q} {v} l eq ev c =
      elim (Bool-cases (r.local_order_id == q.local_order_id)) [
        | inl mine ↦
            created-mine bet r rs l eq mine (rw (← view-state-mine q.local_order_id r rs mine ev) c)
        | inr other ↦ elim (Option-cases (opening_row bet rs)) [
          | inl fresh ↦ absurd (opening-other bet r rs eq other fresh)
          | inr (p, ep) ↦
              let same : p ≡ q = some-eq (sym (opening_row-old bet r p rs ep) ∙ eq) in
              omega (
                arith,
                one_if-zero (announces r.event && (r.bet_id == bet))
                    (λ k. counted-other bet r rs l.0 other (ep ∙ ap some same) k),
                created-unannounced bet rs l.1 (ep ∙ ap some same)
                    (sym (order_view-other q.local_order_id r rs other) ∙ ev) c,
              )
        ]
      ]

  -- An order that was opened has a view, and the view names the bet.
  pub uses-view :
      (id : String) (rs : List (Row N))
      → uses_id id rs ≡ true
      → (v : View N) × (order_view id rs ≡ some v) × (v.local_order_id ≡ id)
  unfolding uses_id order_view view_of
  uses-view id [] u = cc
  uses-view id (r ∷ rs) u = elim (Bool-cases (r.local_order_id == id)) [
    | inl mine ↦ (view_from id r (rows_of id rs), ap (view_of id) (rows_of-mine id r rs mine), refl)
    | inr other ↦
        let (v, e, i) = uses-view id rs (ground arith) in (v, order_view-other id r rs other ∙ e, i)
  ]

  view_of-bet :
      (id : String) (r : Row N) (rs : List (Row N)) {v : View N}
      → view_of id (r ∷ rs) ≡ some v
      → v.bet_id ≡ (oldest r rs).bet_id
  unfolding view_of
  view_of-bet id r rs e = cc e

  oldest-Opened :
      (id : String) (r : Row N) (rs xs : List (Row N))
      → rows_of id rs ≡ xs
      → IsLedger (r ∷ rs)
      → (r.local_order_id == id) ≡ true
      → ((v : View N) → order_view id rs ≡ some v → Opened v.bet_id id rs)
      → Opened (oldest r xs).bet_id id (r ∷ rs)
  unfolding oldest order_view view_of
  oldest-Opened id r rs (y ∷ ys) e l mine ih =
      Opened-cons (oldest y ys).bet_id id r rs (ih (view_from id y ys) (ap (view_of id) e))
  oldest-Opened id r rs [] e l mine ih = elim (Bool-cases (opens r.event)) [
    | inl first ↦ (
      r,
      opening_row-new r.bet_id r rs (Fits-Opens (opens r.event) r rs l.0 first).1
          ∙ rw (first, eq_refl),
      (eq_iff r.local_order_id id).0 mine,
    )
    | inr later ↦ Opened-cons r.bet_id id r rs (
        rw ((eq_iff r.local_order_id id).0 mine) at (Fits-Follows (opens r.event) r rs l.0 later).1)
  ]

  -- A view names the bet for which its order was opened.
  pub view-Opened :
      (id : String) (rs : List (Row N)) {v : View N}
      → IsLedger rs
      → order_view id rs ≡ some v
      → Opened v.bet_id id rs
  unfolding order_view view_of rows_of oldest
  view-Opened id [] l e = cc (sym e)
  view-Opened id (r ∷ rs) {v} l e = elim (Bool-cases (r.local_order_id == id)) [
    | inl mine ↦
        subst (λ b. Opened b id (r ∷ rs))
          (sym (
            view_of-bet id r (rows_of id rs)
              (sym (ap (view_of id) (rows_of-mine id r rs mine)) ∙ e)))
          (oldest-Opened id r rs (rows_of id rs) refl l mine (λ w. view-Opened id rs {v = w} l.1))
    | inr other ↦
        Opened-cons v.bet_id id r rs
          (view-Opened id rs l.1 (sym (order_view-other id r rs other) ∙ e))
  ]

  pub order_view-id :
      (id : String) (rs : List (Row N)) {v : View N}
      → order_view id rs ≡ some v
      → v.local_order_id ≡ id
  unfolding order_view view_of view_from
  order_view-id id rs e = go (rows_of id rs) e
    where
      go : (xs : List (Row N)) {v : View N} → view_of id xs ≡ some v → v.local_order_id ≡ id
      go [] h = cc
      go (x ∷ xs) h = cc h

  pub existing-some :
      (bet : String) (rs : List (Row N)) {v : View N}
      → existing_order_for_bet bet rs ≡ some v
      → (q : Row N) × (opening_row bet rs ≡ some q) × (order_view q.local_order_id rs ≡ some v)
  unfolding existing_order_for_bet view_of_opening
  existing-some bet rs e = elim (Option-cases (opening_row bet rs)) [
    | inl fresh ↦ cc (rw (fresh, existing_order_for_bet, view_of_opening) at e)
    | inr (q, eq) ↦ (q, eq, rw (eq, existing_order_for_bet, view_of_opening) at e)
  ]

  pub existing-none :
      (bet : String) (rs : List (Row N))
      → existing_order_for_bet bet rs ≡ none
      → opening_row bet rs ≡ none
  unfolding existing_order_for_bet view_of_opening
  existing-none bet rs e = elim (Option-cases (opening_row bet rs)) [
    | inl fresh ↦ fresh
    | inr (q, eq) ↦
        let (v, ev, i) =
          uses-view q.local_order_id rs (Opened-uses bet q.local_order_id rs (q, eq, refl)) in
        cc (rw (eq, existing_order_for_bet, view_of_opening) at e)
  ]
