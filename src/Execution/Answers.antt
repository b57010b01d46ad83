-- ===== src/Execution/Answers.antt =====
-- What the exchange answers to a call of src/execution_polymarket.py, as far as that code reads it.
use lol_predictor.Prelude.{String, Bool, Option}

-- `size_matched` in an answer: missing or null, refused by `float`, or a number.
pub data SizeField (N : Type 0) : Type 0 where
  missing unreadable : SizeField N
  number : N → SizeField N

-- An answer of the exchange. `status` is the text that `str` makes of the field, empty if it is
-- missing; `success` is none unless the field is `True` or `False`.
pub record Answer (N : Type 0) : Type 0 where
  pub order_id_camel : Option String
  pub order_id_snake : Option String
  pub success : Option Bool
  pub status : String
  pub size_matched : SizeField N

-- `isinstance(response, dict)`
pub data Response (N : Type 0) : Type 0 where
  not_dict : Response N
  dict : Answer N → Response N
