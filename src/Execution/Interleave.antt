-- ===== src/Execution/Interleave.antt =====
-- The calls of src/execution_polymarket.py in small steps, so that they can overlap and die halfway.
-- A submission holds `_ORDERS_LOCK` and the file lock from `claimed` on, so there is one at a time;
-- `reconcile_order` and `cancel_order` take no lock, and act on a view that they read earlier.
use lol_predictor.Prelude.{String, ◌≡◌, true, false, none, some, List, [], ◌∷◌, present, Float}
use lol_predictor.Execution.Orders.{
  Row, View, submitted, cancelled, unknown, is_created, is_terminal, order_submitted, order_result,
  order_reconciled, order_cancelled, order_view, existing_order_for_bet,
}
use lol_predictor.Execution.Responses.{interpret_post_order_response, interpret_order_status}
use lol_predictor.Execution.Answers.{Response}
use lol_predictor.Execution.Layers.{Order, Bet}
use lol_predictor.Execution.Calls.{
  Desk, audit, blank_row, opening, result_row, settled_state, requested_size,
}
use lol_predictor.Execution.Ledger.{uses_id}

-- Where the submission that holds the lock stands.
pub data Phase (N : Type 0) : Type 0 where
  idle : Phase N
  claimed announced transmitted : String → Bet N → Order N → Phase N

pub record System (N : Type 0) : Type 0 where
  pub desk : Desk N
  pub phase : Phase N
  -- what the unlocked calls have read, at any time so far
  pub views : List (View N)

pub data In {N : Type 0} (v : View N) : List (View N) → Type 0 where
  here : {vs : List (View N)} → In v (v ∷ vs)
  there : {w : View N} {vs : List (View N)} → In v vs → In v (w ∷ vs)

module _ {N : Type 0} where
  abbrev pub append : Row N → System N → System N
  append r s = record s { desk = audit r s.desk }

  abbrev pub enter : Phase N → System N → System N
  enter p s = record s { phase = p }

  abbrev pub send : String → Bet N → Order N → System N → System N
  send id bet o s = record s {
    desk = record s.desk {
      sent = record { bet_id = bet.id; local_order_id = id; order = o } ∷ s.desk.sent;
    };
  }

  abbrev pub start : System N
  start = record { desk = record { orders = []; sent = [] }; phase = idle; views = [] }

module _ {N : Type 0} ⦃f : Float N⦄ where
  abbrev pub reconciled_row : View N → String → Response N → Row N
  reconciled_row v at r =
      let (state, size) = interpret_order_status r (requested_size v.size) in
      result_row order_reconciled v.local_order_id v.bet_id at (settled_state state)
        v.exchange_order_id size (some r)

  abbrev pub answered_row : String → Bet N → Order N → String → Response N → Row N
  answered_row id bet o at r =
      let (state, exchange, size) = interpret_post_order_response r o.size in
      result_row order_result id bet.id at state exchange size (some r)

  pub data Step : System N → System N → Type 0 where
    -- no order of the bet is on the ledger; `uuid4` has drawn an id that none uses
    open_new :
        (s : System N) (bet : Bet N) (o : Order N) (id at : String)
        → s.phase ≡ idle
        → existing_order_for_bet bet.id s.desk.orders ≡ none
        → uses_id id s.desk.orders ≡ false
        → Step s (enter (claimed id bet o) (append (opening id bet.id o at) s))
    -- an order of the bet is stuck in CREATED
    resume :
        (s : System N) (bet : Bet N) (o : Order N) (v : View N)
        → s.phase ≡ idle
        → existing_order_for_bet bet.id s.desk.orders ≡ some v
        → is_created v.state ≡ true
        → Step s (enter (claimed v.local_order_id bet o) s)
    announce :
        (s : System N) (id : String) (bet : Bet N) (o : Order N) (at : String)
        → s.phase ≡ claimed id bet o
        → Step s (
            enter
              (announced id bet o)
              (append (blank_row id order_submitted submitted bet.id at) s))
    transmit :
        (s : System N) (id : String) (bet : Bet N) (o : Order N)
        → s.phase ≡ announced id bet o
        → Step s (enter (transmitted id bet o) (send id bet o s))
    conclude :
        (s : System N) (id : String) (bet : Bet N) (o : Order N) (at : String) (r : Response N)
        → s.phase ≡ transmitted id bet o
        → Step s (enter idle (append (answered_row id bet o at r) s))
    conclude_unknown :
        (s : System N) (id : String) (bet : Bet N) (o : Order N) (at : String)
        → s.phase ≡ transmitted id bet o
        → Step s
            (enter idle (append (result_row order_result id bet.id at unknown none none none) s))
    -- an exception, or the death of the process: the lock is free, what was written stays
    release : (s : System N) → Step s (enter idle s)
    -- an unlocked call reads a view
    look :
        (s : System N) (id : String) (v : View N)
        → order_view id s.desk.orders ≡ some v
        → Step s (record s { views = v ∷ s.views })
    reconcile :
        (s : System N) (v : View N) (at : String) (r : Response N)
        → In v s.views
        → is_terminal v.state ≡ false
        → present v.exchange_order_id ≡ true
        → Step s (append (reconciled_row v at r) s)
    cancel :
        (s : System N) (v : View N) (at : String) (r : Response N)
        → In v s.views
        → is_terminal v.state ≡ false
        → present v.exchange_order_id ≡ true
        → Step s (
            append
              (result_row order_cancelled v.local_order_id v.bet_id at cancelled v.exchange_order_id
                none
                (some r))
              s)

  pub data Steps (s : System N) : System N → Type 0 where
    here : Steps s s
    more : {t u : System N} → Steps s t → Step t u → Steps s u
