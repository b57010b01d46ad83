-- ===== src/Execution/Ledger.antt =====
-- The shape of every ledger that src/execution_polymarket.py writes: an order's first row opens it,
-- no two orders share an id or a bet, and every later row names an order that was opened.
use lol_predictor.Prelude.{
  ℕ, ◌+◌, String, ◌≡◌, refl, sym, ap, ◌∙◌, Bool, true, false, ◌&&◌, ◌||◌, Option, none, some, List,
  [], ◌∷◌, arith, inl, inr, Option-cases, if◌then◌else◌, ◌==◌, eq_iff,
}
use lol_predictor.Execution.Orders.{
  is_created, Event, order_created, order_submitted, order_result, order_reconciled,
  order_cancelled, opens, Row, opening_row,
}

abbrev pub announces : Event → Bool
announces order_submitted = true
announces _ = false

abbrev pub one_if : Bool → ℕ
one_if true = 1
one_if false = 0

announces-opens : (e : Event) → announces e ≡ true → opens e ≡ false
announces-opens order_submitted h = refl
announces-opens order_created h = cc
announces-opens _ h = cc

pub one_if-zero : (b : Bool) → ¬ (b ≡ true) → one_if b ≡ 0
one_if-zero true h = absurd (h refl)
one_if-zero false h = refl

pub uncounted : (e : Event) (b : Bool) → opens e ≡ true → one_if (announces e && b) ≡ 0
uncounted order_created b h = refl
uncounted order_submitted b h = cc
uncounted order_result b h = cc
uncounted order_reconciled b h = cc
uncounted order_cancelled b h = cc

module _ {N : Type 0} where
  unfoldable pub uses_id : String → List (Row N) → Bool
  uses_id id [] = false
  uses_id id (r ∷ rs) = (r.local_order_id == id) || uses_id id rs

  -- how often the ledger says that an order of the bet was about to be transmitted
  unfoldable pub announcements : String → List (Row N) → ℕ
  announcements bet [] = 0
  announcements bet (r ∷ rs) =
      one_if (announces r.event && (r.bet_id == bet)) + announcements bet rs

  -- the order `id` was opened for the bet
  abbrev pub Opened : String → String → List (Row N) → Type 0
  Opened bet id rows = (q : Row N) × (opening_row bet rows ≡ some q) × (q.local_order_id ≡ id)

  abbrev pub Follows : Row N → List (Row N) → Type 0
  Follows r rs = (is_created r.state ≡ false) × Opened r.bet_id r.local_order_id rs

  abbrev pub Opens : Row N → List (Row N) → Type 0
  Opens r rs = (uses_id r.local_order_id rs ≡ false) × (opening_row r.bet_id rs ≡ none)

  abbrev pub Fits : Bool → Row N → List (Row N) → Type 0
  Fits true = Opens
  Fits false = Follows

  abbrev pub IsLedger : List (Row N) → Type 0
  IsLedger [] = Unit
  IsLedger (r ∷ rs) = Fits (opens r.event) r rs × IsLedger rs

  pub opening_row-old :
      (bet : String) (r p : Row N) (rs : List (Row N))
      → opening_row bet rs ≡ some p
      → opening_row bet (r ∷ rs) ≡ some p
  unfolding opening_row
  opening_row-old bet r p rs e = rw (e, opening_row)

  pub opening_row-new :
      (bet : String) (r : Row N) (rs : List (Row N))
      → opening_row bet rs ≡ none
      → opening_row bet (r ∷ rs) ≡ (if opens r.event && (r.bet_id == bet) then some r else none)
  unfolding opening_row
  opening_row-new bet r rs e = rw (e, opening_row)

  -- An order once opened stays the bet's order.
  pub Opened-cons :
      (bet id : String) (r : Row N) (rs : List (Row N)) → Opened bet id rs → Opened bet id (r ∷ rs)
  Opened-cons bet id r rs (q, e, i) = (q, opening_row-old bet r q rs e, i)

  pub Opened-uses : (bet id : String) (rs : List (Row N)) → Opened bet id rs → uses_id id rs ≡ true
  unfolding uses_id opening_row
  Opened-uses bet id [] (q, e, i) = cc
  Opened-uses bet id (r ∷ rs) (q, e, i) = elim (Option-cases (opening_row bet rs)) [
    | inl fresh ↦ ground (
      arith,
      eq_iff r.local_order_id id,
      opening_row-new bet r rs fresh,
      eq_iff q.local_order_id id,
    )
    | inr (p, ep) ↦
        let older : Opened bet id rs = (
          p,
          ep,
          ap (λ (o : Option (Row N)). elim o [ none ↦ id | some t ↦ t.local_order_id ])
                (sym (opening_row-old bet r p rs ep) ∙ e)
              ∙ i,
        ) in
        ground (arith, Opened-uses bet id rs older)
  ]

  pub Fits-Follows :
      (b : Bool) (r : Row N) (rs : List (Row N)) → Fits b r rs → b ≡ false → Follows r rs
  Fits-Follows false r rs h e = h
  Fits-Follows true r rs h e = cc

  pub Fits-Opens : (b : Bool) (r : Row N) (rs : List (Row N)) → Fits b r rs → b ≡ true → Opens r rs
  Fits-Opens true r rs h e = h
  Fits-Opens false r rs h e = cc

  -- What a row that counts as an announcement for the bet has below it.
  pub counted-Opened :
      (bet : String) (r : Row N) (rs : List (Row N))
      → Fits (opens r.event) r rs
      → (announces r.event && (r.bet_id == bet)) ≡ true
      → Opened bet r.local_order_id rs
  counted-Opened bet r rs h c =
      let both : (announces r.event ≡ true) × ((r.bet_id == bet) ≡ true) = ground arith in
      let same : r.bet_id ≡ bet = (eq_iff r.bet_id bet).0 both.1 in
      rw (← same) (Fits-Follows (opens r.event) r rs h (announces-opens r.event both.0)).1

  -- A bet with no order has no announcement.
  pub announcements-unopened :
      (bet : String) (rs : List (Row N))
      → IsLedger rs
      → opening_row bet rs ≡ none
      → announcements bet rs ≡ 0
  unfolding announcements
  announcements-unopened bet [] l e = refl
  announcements-unopened bet (r ∷ rs) l e = elim (Option-cases (opening_row bet rs)) [
    | inr (p, ep) ↦ cc (opening_row-old bet r p rs ep)
    | inl fresh ↦ omega (
      arith,
      announcements-unopened bet rs l.1 fresh,
      one_if-zero (announces r.event && (r.bet_id == bet))
          (λ c. let (q, eq, i) = counted-Opened bet r rs l.0 c in cc),
    )
  ]
