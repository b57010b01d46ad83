-- ===== src/Execution/Outcome.antt =====
-- What a call of src/execution_polymarket.py ends with: a value, or an exception.
use lol_predictor.Prelude.{Bool, true, false, Option, none, some}
use lol_predictor.Approval.{Denied}

pub data Error : Type 0 where
  -- ValueError
  bad_side bad_price bad_size unknown_order : Error
  -- an exception of `go_gate` itself
  gate_unreadable : Error
  -- ExecutionBlockedError
  gate_closed not_real no_approval not_confirmed : Error
  -- PermissionError of the approval
  permission : Denied → Error
  -- whatever `client_factory`, `get_order` or `cancel` raises
  client_failed call_failed : Error
  -- OrderStateUnknownError
  transmission_unknown no_exchange_id : Error
  -- the `assert` that ends each call
  assertion : Error

pub data Outcome {ℓ} (A : Type ℓ) : Type ℓ where
  returned : A → Outcome A
  raised : Error → Outcome A

infixl 5 ◌>>=◌ ◌>>◌
abbrev pub ◌>>=◌ {ℓ κ} : {A : Type ℓ} {B : Type κ} → Outcome A → (A → Outcome B) → Outcome B
returned a >>= k = k a
raised e >>= k = raised e

abbrev pub ◌>>◌ {ℓ} : {B : Type ℓ} → Outcome (Unit {0}) → Outcome B → Outcome B
m >> k = m >>= λ _. k

abbrev pub ensure : Bool → Error → Outcome (Unit {0})
ensure true e = returned tt
ensure false e = raised e

-- `assert view is not None`
abbrev pub asserted {ℓ} : {A : Type ℓ} → Option A → Outcome A
asserted none = raised assertion
asserted (some a) = returned a
