-- ===== src/Prelude/Results.antt =====
-- A value, or the exception that was raised instead.
use mathlib.Core.Path.{◌≡◌, refl}
use mathlib.Core.Bool.{Bool, true, false}

pub data Result {ℓ} (E : Type 0) (A : Type ℓ) : Type ℓ where
  ok : A → Result E A
  fail : E → Result E A

module _ {ℓ κ} {E : Type 0} {A : Type ℓ} {B : Type κ} where
  infixl 5 ◌>>=◌
  abbrev pub ◌>>=◌ : Result E A → (A → Result E B) → Result E B
  ok a >>= k = k a
  fail e >>= k = fail e

  -- Inversion of a chain that ended well.
  pub >>=-ok :
      (m : Result E A) (k : A → Result E B) {b : B}
      → (m >>= k) ≡ ok b
      → (a : A) × (m ≡ ok a) × (k a ≡ ok b)
  >>=-ok (ok a) k h = (a, refl, h)
  >>=-ok (fail e) k h = cc

module _ {ℓ} {E : Type 0} {B : Type ℓ} where
  infixl 5 ◌>>◌
  abbrev pub ◌>>◌ : Result E (Unit {0}) → Result E B → Result E B
  ok _ >> k = k
  fail e >> k = fail e

module _ {E : Type 0} where
  -- `if not b: raise e`
  abbrev pub require : Bool → E → Result E (Unit {0})
  require true e = ok tt
  require false e = fail e

  pub require-then {ℓ} :
      {B : Type ℓ} (b : Bool) (e : E) (k : Result E B) {x : B}
      → (require b e >> k) ≡ ok x
      → (b ≡ true) × (k ≡ ok x)
  require-then true e k h = (refl, h)
  require-then false e k h = cc

  pub require-ok : (b : Bool) (e : E) → require b e ≡ ok tt → b ≡ true
  require-ok true e h = refl
  require-ok false e h = cc

-- Inversion of a step that only may raise.
pub >>-ok {ℓ} :
    {E : Type 0} {B : Type ℓ} (m : Result E (Unit {0})) (k : Result E B) {b : B}
    → (m >> k) ≡ ok b
    → (m ≡ ok tt) × (k ≡ ok b)
>>-ok (ok _) k h = (refl, h)
>>-ok (fail e) k h = cc

pub ok-eq {ℓ} : {E : Type 0} {A : Type ℓ} {m : Result E A} {a b : A} → m ≡ ok a → m ≡ ok b → a ≡ b
ok-eq h k = cc
