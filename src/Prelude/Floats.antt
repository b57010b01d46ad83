-- ===== src/Prelude/Floats.antt =====
-- Python's `float`, as a type with the comparisons and the rounding that the program uses.
-- Nothing is assumed of the operations here: a theorem that needs a law names it.
use Prim.Native.Nat.{ℕ, ◌*◌, ◌+◌, ◌-◌, ◌/◌, ◌^◌}
use mathlib.Core.Bool.{Bool, true, not}
use lol_predictor.Prelude.Tests.{ltb, leb, eqb, if◌then◌else◌}

pub record Float (N : Type 0) : Type 0 where
  -- the float nearest to an integer
  pub of_nat : ℕ → N
  pub lt : N → N → Bool
  pub le : N → N → Bool
  pub eq : N → N → Bool
  pub round : N → ℕ → N
  -- `math.isfinite`
  pub finite : N → Bool
  pub add : N → N → N
  pub sub : N → N → N
  pub mul : N → N → N
  pub div : N → N → N
  pub abs : N → N
  pub neg : N → N
  -- the literal m · 10⁻ᵉ
  pub decimal : ℕ → ℕ → N

module _ {N : Type 0} ⦃f : Float N⦄ where
  abbrev pub flt : N → N → Bool
  flt = f.lt

  abbrev pub fle : N → N → Bool
  fle = f.le

  -- `if x`: a float is truthy unless it equals zero
  abbrev pub ftruthy : N → Bool
  ftruthy x = not (f.eq x (f.of_nat 0))

  abbrev pub fzero : N
  fzero = f.of_nat 0

  abbrev pub fone : N
  fone = f.of_nat 1

  abbrev pub fround : N → ℕ → N
  fround = f.round

  -- Python's `min` and `max` of two floats
  abbrev pub fmin : N → N → N
  fmin x y = if flt y x then y else x

  abbrev pub fmax : N → N → N
  fmax x y = if flt x y then y else x

-- Hundredths of a unit, for tests: the float 1 is 100. `sub` stops at zero, and so does `neg`.
instance abbrev pub cents : Float ℕ
cents = record {
  of_nat = λ n. n * 100;
  lt = ltb;
  le = leb;
  eq = eqb;
  round = λ x _. x;
  finite = λ _. true;
  add = λ a b. a + b;
  sub = λ a b. a - b;
  mul = λ a b. a * b / 100;
  div = λ a b. a * 100 / b;
  abs = λ x. x;
  neg = λ _. 0;
  decimal = λ m e. m * 100 / 10 ^ e;
}
