-- ===== src/Execution/Orders.antt =====
-- The append-only ledger `data/orders.jsonl` of src/execution_polymarket.py, and the view of one
-- order that is rebuilt from it. The list holds the newest row first: the file's last line is the
-- head, and an append is a cons. Of a row what some
-- function reads back is kept, and the exchange's answer; its uuid, the approval, `resolved_as` and
-- `error` are left out.
use lol_predictor.Prelude.{
  String, Bool, true, false, ◌&&◌, Option, none, some, List, [], ◌∷◌, map, reverse, keep, present,
  if◌then◌else◌, ◌==◌,
}
use lol_predictor.Execution.Answers.{Response}

pub data OrderState : Type 0 where
  created submitted accepted partially_filled filled cancelled rejected unknown : OrderState
  reconciled : OrderState

pub data Event : Type 0 where
  order_created order_submitted order_result order_reconciled order_cancelled : Event

abbrev pub is_created : OrderState → Bool
is_created created = true
is_created _ = false

-- `state in TERMINAL_STATES`
abbrev pub is_terminal : OrderState → Bool
is_terminal filled = true
is_terminal cancelled = true
is_terminal rejected = true
is_terminal reconciled = true
is_terminal _ = false

abbrev pub opens : Event → Bool
opens order_created = true
opens _ = false

-- One line of the ledger; a field that the line lacks, or that is null, is `none`.
pub record Row (N : Type 0) : Type 0 where
  pub event : Event
  pub state : OrderState
  pub local_order_id : String
  pub bet_id : String
  pub created_at : String
  pub token_id : Option String
  pub side : Option String
  pub price : Option N
  pub size : Option N
  pub exchange_order_id : Option String
  pub size_matched : Option N
  pub clob_response : Option (Response N)

pub record Entry : Type 0 where
  pub event : Event
  pub state : OrderState
  pub created_at : String

-- What `order_view` returns.
pub record View (N : Type 0) : Type 0 where
  pub local_order_id : String
  pub bet_id : String
  pub token_id : Option String
  pub side : Option String
  pub price : Option N
  pub size : Option N
  pub state : OrderState
  pub exchange_order_id : Option String
  pub size_matched : Option N
  pub events : List Entry

module _ {N : Type 0} where
  abbrev entry : Row N → Entry
  entry r = record { event = r.event; state = r.state; created_at = r.created_at }

  -- `rows[0]` of the file, when `r` is its last line and `rs` the lines before, latest first
  unfoldable pub oldest : Row N → List (Row N) → Row N
  oldest r [] = r
  oldest r (q ∷ rs) = oldest q rs

  -- the `next(...)` over `reversed(rows)`: the latest truthy id
  unfoldable pub latest_exchange_id : List (Row N) → Option String
  latest_exchange_id [] = none
  latest_exchange_id (r ∷ rs) =
      if present r.exchange_order_id then r.exchange_order_id else latest_exchange_id rs

  unfoldable pub rows_of : String → List (Row N) → List (Row N)
  rows_of id = keep (λ r. r.local_order_id == id)

  -- the view of an order with the latest line `r` and the lines `rs` before it
  unfoldable pub view_from : String → Row N → List (Row N) → View N
  unfolding oldest latest_exchange_id
  view_from id r rs =
      let first = oldest r rs in
      record {
        local_order_id = id;
        bet_id = first.bet_id;
        token_id = first.token_id;
        side = first.side;
        price = first.price;
        size = first.size;
        state = r.state;
        exchange_order_id = latest_exchange_id (r ∷ rs);
        size_matched = r.size_matched;
        events = reverse (map entry (r ∷ rs));
      }

  unfoldable pub view_of : String → List (Row N) → Option (View N)
  unfolding view_from
  view_of id [] = none
  view_of id (r ∷ rs) = some (view_from id r rs)

  unfoldable pub order_view : String → List (Row N) → Option (View N)
  unfolding view_of rows_of
  order_view id rows = view_of id (rows_of id rows)

  -- the row that opened the bet's first order, in file order
  unfoldable pub opening_row : String → List (Row N) → Option (Row N)
  opening_row bet [] = none
  opening_row bet (r ∷ rs) = elim (opening_row bet rs) [
    | some q ↦ some q
    | none ↦ if opens r.event && (r.bet_id == bet) then some r else none
  ]

  unfoldable pub view_of_opening : Option (Row N) → List (Row N) → Option (View N)
  unfolding order_view
  view_of_opening none rows = none
  view_of_opening (some r) rows = order_view r.local_order_id rows

  unfoldable pub existing_order_for_bet : String → List (Row N) → Option (View N)
  unfolding opening_row view_of_opening
  existing_order_for_bet bet rows = view_of_opening (opening_row bet rows) rows
