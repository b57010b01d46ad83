-- ===== src/Execution/Responses.antt =====
-- How src/execution_polymarket.py reads the exchange's answers.
use lol_predictor.Prelude.{
  ℕ, String, Bool, true, false, ◌&&◌, ◌||◌, not, Option, none, some, List, present, codes, strip,
  lower, text_eq, Float, flt, fle, ftruthy, fzero, if◌then◌else◌,
}
use lol_predictor.Execution.Answers.{
  SizeField, missing, unreadable, number, Answer, Response, not_dict, dict,
}
use lol_predictor.Execution.Orders.{
  OrderState, accepted, partially_filled, filled, cancelled, rejected, unknown,
}

abbrev pub is_flag : Bool → Option Bool → Bool
is_flag want none = false
is_flag true (some b) = b
is_flag false (some b) = not b

-- `str(response.get("status", "")).strip().lower()`
unfoldable pub raw_status : String → List ℕ
unfolding strip lower
raw_status s = lower (strip (codes s))

unfoldable pub says : String → List ℕ → Bool
unfolding text_eq
says word status = text_eq status (codes word)

unfoldable pub is_live : List ℕ → Bool
unfolding says
is_live status = says "live" status || says "delayed" status

unfoldable pub is_cancelled : List ℕ → Bool
unfolding says
is_cancelled status = says "cancelled" status || says "canceled" status

module _ {N : Type 0} where
  -- `response.get("orderID") or response.get("order_id")`
  unfoldable pub exchange_id : Answer N → Option String
  exchange_id a = if present a.order_id_camel then a.order_id_camel else a.order_id_snake

  -- `float(response["size_matched"])`, or `None` where that fails
  unfoldable pub matched_size : SizeField N → Option N
  matched_size missing = none
  matched_size unreadable = none
  matched_size (number x) = some x

module _ {N : Type 0} ⦃f : Float N⦄ where
  unfoldable pub interpret_post_order_response :
      Response N → N → OrderState × Option String × Option N
  unfolding exchange_id raw_status is_live
  interpret_post_order_response not_dict requested = (unknown, none, none)
  interpret_post_order_response (dict a) requested =
      let id = exchange_id a in
      let status = raw_status a.status in
      if is_flag false a.success
      then (rejected, id, none)
      else if says "matched" status
      then (filled, id, some requested)
      else if is_live status
      then (accepted, id, some fzero)
      else if says "unmatched" status
      then (rejected, id, none)
      else if is_flag true a.success && present id
      then (accepted, id, none)
      else (unknown, id, none)

  -- the branch for a live order, by how much of it is filled
  unfoldable pub live_state : Option N → N → OrderState
  live_state none requested = accepted
  live_state (some x) requested =
      if ftruthy requested && fle requested x
      then filled
      else if ftruthy x && ftruthy requested && flt fzero x && flt x requested
      then partially_filled
      else accepted

  abbrev or_requested : Option N → N → Option N
  or_requested none requested = some requested
  or_requested (some x) requested = some x

  unfoldable pub interpret_order_status : Response N → N → OrderState × Option N
  unfolding matched_size raw_status is_cancelled is_live live_state
  interpret_order_status not_dict requested = (unknown, none)
  interpret_order_status (dict a) requested =
      let status = raw_status a.status in
      let size = matched_size a.size_matched in
      if is_cancelled status
      then (cancelled, size)
      else if says "matched" status
      then (filled, or_requested size requested)
      else if is_live status
      then (live_state size requested, size)
      else if says "unmatched" status
      then (rejected, size)
      else (unknown, size)
