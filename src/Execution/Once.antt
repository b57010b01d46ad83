-- ===== src/Execution/Once.antt =====
-- The invariant of the interleaved calls: an order is announced on the ledger at most once for
-- each bet, and each transmission was announced before.
use lol_predictor.Prelude.{
  eq_refl, sym, ◌∙◌, ℕ, ◌+◌, ◌≤◌, String, ◌≡◌, false, List, [], ◌∷◌, arith, All, ◌==◌, refl, none,
  some, true, Bool-cases, subst, inl, inr, Float, eq_iff, ap,
}
use lol_predictor.Execution.Orders.{
  order_submitted, submitted, Row, View, opening_row, existing_order_for_bet, is_created,
  order_result, order_cancelled, unknown, cancelled,
}
use lol_predictor.Execution.Calls.{
  opening, blank_row, Sent, result_row, settled_state, requested_size,
}
use lol_predictor.Execution.Ledger.{
  opening_row-new, announcements-unopened, announces, one_if, announcements, Opened, IsLedger,
  Opened-cons, uses_id,
}
use lol_predictor.Execution.Views.{
  created-unannounced, existing-none, existing-some, order_view-id, view-Opened,
}
use lol_predictor.Execution.Interleave.{
  Phase, idle, claimed, announced, transmitted, System, append, enter, In, here, there, send,
  open_new, resume, announce, transmit, conclude, conclude_unknown, release, look, reconcile,
  cancel, more, answered_row, reconciled_row, start, Step, Steps,
}
use lol_predictor.Execution.Layers.{Bet, Order}
use lol_predictor.Execution.Responses.{
  live_state, interpret_order_status, interpret_post_order_response,
}
use lol_predictor.Execution.Answers.{not_dict, dict, Response}

module _ {N : Type 0} where
  -- how often an order of the bet was transmitted
  unfoldable pub transmissions : String → List (Sent N) → ℕ
  transmissions bet [] = 0
  transmissions bet (t ∷ ts) = one_if (t.bet_id == bet) + transmissions bet ts

  -- announced, and about to be transmitted
  abbrev pub pending : String → Phase N → ℕ
  pending bet (announced id b o) = one_if (b.id == bet)
  pending bet _ = 0

  abbrev pub Holds : Phase N → List (Row N) → Type 0
  Holds idle rows = Unit
  Holds (claimed id b o) rows = Opened b.id id rows × (announcements b.id rows ≡ 0)
  Holds (announced id b o) rows = Opened b.id id rows
  Holds (transmitted id b o) rows = Opened b.id id rows

  abbrev pub Known : List (Row N) → View N → Type 0
  Known rows v = Opened v.bet_id v.local_order_id rows

  pub record Inv (s : System N) : Type 0 where
    pub ledger : IsLedger s.desk.orders
    pub once : (b : String) → announcements b s.desk.orders ≤ 1
    pub covered :
        (b : String)
        → transmissions b s.desk.sent + pending b s.phase ≤ announcements b s.desk.orders
    pub holder : Holds s.phase s.desk.orders
    pub views : All (Known s.desk.orders) s.views

  Holds-cons :
      (p : Phase N) (r : Row N) (rows : List (Row N))
      → announces r.event ≡ false
      → Holds p rows
      → Holds p (r ∷ rows)
  unfolding announcements
  Holds-cons idle r rows q h = tt
  Holds-cons (claimed id b o) r rows q h = (Opened-cons b.id id r rows h.0, rw (q, h.1))
  Holds-cons (announced id b o) r rows q h = Opened-cons b.id id r rows h
  Holds-cons (transmitted id b o) r rows q h = Opened-cons b.id id r rows h

  Known-cons :
      (r : Row N) (rows : List (Row N)) (vs : List (View N))
      → All (Known rows) vs
      → All (Known (r ∷ rows)) vs
  Known-cons r rows [] h = tt
  Known-cons r rows (v ∷ vs) h =
      (Opened-cons v.bet_id v.local_order_id r rows h.0, Known-cons r rows vs h.1)

  -- A row that neither opens nor announces keeps the invariant, whatever phase the lock is in.
  pub Inv-append :
      {s : System N} (r : Row N)
      → Inv s
      → announces r.event ≡ false
      → IsLedger (r ∷ s.desk.orders)
      → Inv (append r s)
  unfolding announcements
  Inv-append {s} r i quiet l = record {
    ledger = l;
    once = λ b. rw quiet (omega (arith, i.once b));
    covered = λ b. rw quiet (omega (arith, i.covered b));
    holder = Holds-cons s.phase r s.desk.orders quiet i.holder;
    views = Known-cons r s.desk.orders s.views i.views;
  }

  pub Inv-idle : {s : System N} → Inv s → Inv (enter idle s)
  Inv-idle {s} i = record {
    ledger = i.ledger;
    once = i.once;
    covered = λ b. omega (arith, i.covered b);
    holder = tt;
    views = i.views;
  }

  Known-In :
      (rows : List (Row N)) (v : View N) (vs : List (View N))
      → In v vs
      → All (Known rows) vs
      → Known rows v
  Known-In rows v [] m h = elim m [ ]
  Known-In rows v (w ∷ vs) here h = h.0
  Known-In rows v (w ∷ vs) (there m) h = Known-In rows v vs m h.1

  -- Opening a new order.
  Inv-open :
      {s : System N} (bet : Bet N) (o : Order N) (id at : String)
      → Inv s
      → s.phase ≡ idle
      → existing_order_for_bet bet.id s.desk.orders ≡ none
      → uses_id id s.desk.orders ≡ false
      → Inv (enter (claimed id bet o) (append (opening id bet.id o at) s))
  unfolding announcements opening_row
  Inv-open {s} bet o id at i p e u =
      let rows = s.desk.orders in
      let unopened : opening_row bet.id rows ≡ none = existing-none bet.id rows e in
      let row = opening id bet.id o at in
      record {
        ledger = ((u, unopened), i.ledger);
        once = λ b. omega (arith, i.once b);
        covered = λ b. omega (arith, i.covered b);
        holder = (
          (row, opening_row-new bet.id row rows unopened ∙ rw eq_refl, refl),
          omega (arith, announcements-unopened bet.id rows i.ledger unopened),
        );
        views = Known-cons row rows s.views i.views;
      }

  Inv-resume :
      {s : System N} (bet : Bet N) (o : Order N) (v : View N)
      → Inv s
      → s.phase ≡ idle
      → existing_order_for_bet bet.id s.desk.orders ≡ some v
      → is_created v.state ≡ true
      → Inv (enter (claimed v.local_order_id bet o) s)
  Inv-resume {s} bet o v i p e c =
      let (q, eq, ev) = existing-some bet.id s.desk.orders e in
      record {
        ledger = i.ledger;
        once = i.once;
        covered = λ b. omega (arith, i.covered b);
        holder = (
          (q, eq, sym (order_view-id q.local_order_id s.desk.orders ev)),
          created-unannounced bet.id s.desk.orders i.ledger eq ev c,
        );
        views = i.views;
      }

  once-announce :
      (a b : String) (rows : List (Row N))
      → announcements a rows ≡ 0
      → announcements b rows ≤ 1
      → one_if (a == b) + announcements b rows ≤ 1
  once-announce a b rows z h = elim (Bool-cases (a == b)) [
    | inl same ↦
        let e : announcements b rows ≡ 0 = rw (← (eq_iff a b).0 same) z in
        rw same (omega (arith, e))
    | inr other ↦ rw other (omega (arith, h))
  ]

  Inv-announce :
      {s : System N} (id : String) (bet : Bet N) (o : Order N) (at : String)
      → Inv s
      → s.phase ≡ claimed id bet o
      → Inv
          (enter (announced id bet o) (append (blank_row id order_submitted submitted bet.id at) s))
  unfolding announcements
  Inv-announce {s} id bet o at i p =
      let held : Holds (claimed id bet o) s.desk.orders = rw p at i.holder in
      let row = blank_row id order_submitted submitted bet.id at in
      record {
        ledger = ((refl, held.0), i.ledger);
        once = λ b. once-announce bet.id b s.desk.orders held.1 (i.once b);
        covered = λ b. omega (arith, i.covered b);
        holder = Opened-cons bet.id id row s.desk.orders held.0;
        views = Known-cons row s.desk.orders s.views i.views;
      }

  Inv-transmit :
      {s : System N} (id : String) (bet : Bet N) (o : Order N)
      → Inv s
      → s.phase ≡ announced id bet o
      → Inv (enter (transmitted id bet o) (send id bet o s))
  unfolding transmissions
  Inv-transmit {s} id bet o i p = record {
    ledger = i.ledger;
    once = i.once;
    covered = λ b. omega (arith, i.covered b, ap (pending b) p);
    holder = rw p at i.holder;
    views = i.views;
  }

module _ {N : Type 0} ⦃f : Float N⦄ where
  post-created : (r : Response N) (x : N) → is_created (interpret_post_order_response r x).0 ≡ false
  unfolding interpret_post_order_response
  post-created not_dict x = refl
  post-created (dict a) x = ground arith

  settled-created :
      (r : Response N) (x : N) → is_created (settled_state (interpret_order_status r x).0) ≡ false
  unfolding interpret_order_status live_state
  settled-created not_dict x = refl
  settled-created (dict a) x = ground arith

  -- Every step keeps the invariant.
  pub Step-Inv : {s t : System N} → Step s t → Inv s → Inv t
  Step-Inv (open_new s bet o id at p e u) i = Inv-open bet o id at i p e u
  Step-Inv (resume s bet o v p e c) i = Inv-resume bet o v i p e c
  Step-Inv (announce s id bet o at p) i = Inv-announce id bet o at i p
  Step-Inv (transmit s id bet o p) i = Inv-transmit id bet o i p
  Step-Inv (conclude s id bet o at r p) i =
      let row = answered_row id bet o at r in
      Inv-idle (Inv-append row i refl ((post-created r o.size, rw p at i.holder), i.ledger))
  Step-Inv (conclude_unknown s id bet o at p) i =
      let row = result_row order_result id bet.id at unknown none none none in
      Inv-idle (Inv-append row i refl ((refl, rw p at i.holder), i.ledger))
  Step-Inv (release s) i = Inv-idle i
  Step-Inv (look s id v e) i = record {
    ledger = i.ledger;
    once = i.once;
    covered = i.covered;
    holder = i.holder;
    views = (
      subst (λ (k : String). Opened v.bet_id k s.desk.orders)
          (sym (order_view-id id s.desk.orders e)) (view-Opened id s.desk.orders i.ledger e),
      i.views,
    );
  }
  Step-Inv (reconcile s v at r m n x) i = Inv-append (reconciled_row v at r) i refl (
    (settled-created r (requested_size v.size), Known-In s.desk.orders v s.views m i.views),
    i.ledger,
  )
  Step-Inv (cancel s v at r m n x) i =
      Inv-append
        (result_row order_cancelled v.local_order_id v.bet_id at cancelled v.exchange_order_id none
          (some r))
        i refl ((refl, Known-In s.desk.orders v s.views m i.views), i.ledger)

  start-Inv : Inv (start {N = N})
  unfolding announcements transmissions
  start-Inv = record {
    ledger = tt;
    once = λ b. omega arith;
    covered = λ b. omega arith;
    holder = tt;
    views = tt;
  }

  pub Steps-Inv : {t : System N} → Steps start t → Inv t
  Steps-Inv Steps.here = start-Inv
  Steps-Inv (more p st) = Step-Inv st (Steps-Inv p)

  -- Whatever calls overlap, in whatever order, and wherever they die: no bet is transmitted twice,
  -- and a transmission is on the ledger before it is made.
  pub at_most_once :
      {t : System N}
      → Steps start t
      → (bet : String)
      → (transmissions bet t.desk.sent ≤ announcements bet t.desk.orders)
        × (announcements bet t.desk.orders ≤ 1)
  at_most_once p bet = let i = Steps-Inv p in (omega (arith, i.covered bet), i.once bet)
