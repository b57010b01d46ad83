-- ===== src/Prelude/Lists.antt =====
-- List functions over the native numbers, and a predicate on every item.
use Prim.Native.Nat.{ℕ, suc, ◌+◌}
use mathlib.Core.Path.{◌≡◌, refl, sym, subst}
use mathlib.Core.Logic.{◌⊎◌, inl, inr}
use mathlib.Core.Bool.{Bool, true}
use mathlib.Core.List.{List, [], ◌∷◌, ◌++◌}
use native.Mathlib.Omega.{arith}
use lol_predictor.Prelude.Tests.{if◌then◌else◌, Bool-cases}

module _ {ℓ} {A : Type ℓ} where
  abbrev pub length : List A → ℕ
  length [] = 0
  length (x ∷ xs) = suc (length xs)

  -- `[x for x in xs if p(x)]`
  abbrev pub keep : (A → Bool) → List A → List A
  keep p [] = []
  keep p (x ∷ xs) = let rest = keep p xs in if p x then x ∷ rest else rest

  pub length-append : (xs ys : List A) → length (xs ++ ys) ≡ length xs + length ys
  length-append [] ys = omega arith
  length-append (x ∷ xs) ys = omega (arith, length-append xs ys)

abbrev pub All {ℓ κ} : {A : Type ℓ} → (A → Type κ) → List A → Type κ
All P [] = Unit
All P (x ∷ xs) = P x × All P xs

abbrev pub In : {A : Type 0} → A → List A → Type 0
In a [] = ⊥
In a (x ∷ xs) = (a ≡ x) ⊎ In a xs

pub In-All {κ} : {A : Type 0} (P : A → Type κ) (xs : List A) {a : A} → All P xs → In a xs → P a
In-All P [] ps h = absurd h
In-All P (x ∷ xs) ps (inl same) = subst P (sym same) ps.0
In-All P (x ∷ xs) ps (inr later) = In-All P xs ps.1 later

pub All-In {κ} : {A : Type 0} (P : A → Type κ) (xs : List A) → ((a : A) → In a xs → P a) → All P xs
All-In P [] h = tt
All-In P (x ∷ xs) h = (h x (inl refl), All-In P xs (λ a i. h a (inr i)))

pub All-map {ℓ κ μ} :
    {A : Type ℓ} {P : A → Type κ} {Q : A → Type μ} (xs : List A)
    → ((a : A) → P a → Q a)
    → All P xs
    → All Q xs
All-map [] h ps = tt
All-map (x ∷ xs) h ps = (h x ps.0, All-map xs h ps.1)

pub All-append {ℓ κ} :
    {A : Type ℓ} (P : A → Type κ) (xs ys : List A) → All P xs → All P ys → All P (xs ++ ys)
All-append P [] ys ps qs = qs
All-append P (x ∷ xs) ys ps qs = (ps.0, All-append P xs ys ps.1 qs)

module _ {A : Type 0} (p : A → Bool) where
  pub keep-In : (xs : List A) {a : A} → In a (keep p xs) → In a xs × (p a ≡ true)
  keep-In [] h = absurd h
  keep-In (x ∷ xs) {a = a} h = elim (Bool-cases (p x)) [
    | inl kept ↦ elim (rw kept at h) [
      | inl same ↦ (inl same, rw same kept)
      | inr later ↦ (inr (keep-In xs later).0, (keep-In xs later).1)
    ]
    | inr dropped ↦ let later = keep-In xs (rw dropped at h) in (inr later.0, later.1)
  ]

  pub In-keep : (xs : List A) {a : A} → In a xs → p a ≡ true → In a (keep p xs)
  In-keep [] h passes = absurd h
  In-keep (x ∷ xs) (inl same) passes = rw (← same, passes) (inl refl)
  In-keep (x ∷ xs) {a = a} (inr later) passes = elim (Bool-cases (p x)) [
    | inl kept ↦ rw kept (inr (In-keep xs later passes))
    | inr dropped ↦ rw dropped (In-keep xs later passes)
  ]

pub In-append_left : {A : Type 0} (a : A) (xs ys : List A) → In a xs → In a (xs ++ ys)
In-append_left a [] ys h = absurd h
In-append_left a (x ∷ xs) ys (inl same) = inl same
In-append_left a (x ∷ xs) ys (inr later) = inr (In-append_left a xs ys later)

pub In-append_right : {A : Type 0} (a : A) (xs ys : List A) → In a ys → In a (xs ++ ys)
In-append_right a [] ys h = h
In-append_right a (x ∷ xs) ys h = inr (In-append_right a xs ys h)
