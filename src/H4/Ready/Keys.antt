-- ===== src/H4/Ready/Keys.antt =====
-- Sets of keys, filters and empty lists of issues, as `cohort_status` of src/h4_gate.py uses them.
use lol_predictor.Prelude.{
  String, ◌≡◌, ◌≤◌, refl, sym, ap, subst, Bool, true, false, Option, none, some, List, [], ◌∷◌,
  ◌++◌, length, keep, All, ltb, arith, Bool-cases, inl, inr, eq_iff,
}
use lol_predictor.H4.Cohort.{
  Problem, same_key, occurrences, member, distinct, any_repeated, when, has_none,
}

pub same_key-eq : (a b : Option String) → same_key a b ≡ true → a ≡ b
same_key-eq none none h = refl
same_key-eq none (some t) h = cc
same_key-eq (some s) none h = cc
same_key-eq (some s) (some t) h = ap some ((eq_iff s t).0 h)

pub member-All :
    (P : Option String → Type 0) (key : Option String) (keys : List (Option String))
    → member key keys ≡ true
    → All P keys
    → P key
member-All P key [] h ps = cc
member-All P key (k ∷ ks) h (p, ps) = elim (Bool-cases (same_key key k)) [
  | inl same ↦ subst P (sym (same_key-eq key k same)) p
  | inr other ↦ member-All P key ks (rw other at h) ps
]

pub distinct-All :
    (P : Option String → Type 0) (keys : List (Option String)) → All P (distinct keys) → All P keys
distinct-All P [] ps = tt
distinct-All P (k ∷ ks) ps = elim (Bool-cases (member k (distinct ks))) [
  | inl old ↦
      let rest = rw old at ps in (member-All P k (distinct ks) old rest, distinct-All P ks rest)
  | inr new ↦ let split = rw new at ps in (split.0, distinct-All P ks split.1)
]

pub single :
    (ks : List (Option String))
    → ltb 1 (length ks) ≡ false
    → (key : Option String) × All (λ k. k ≡ key) ks
single [] h = (none, tt)
single (k ∷ []) h = (k, (refl, tt))
single (k ∷ l ∷ ks) h = ground arith

-- the keys that a `set` of at most one element was made of are all equal
pub one_distinct :
    (keys : List (Option String))
    → ltb 1 (length (distinct keys)) ≡ false
    → (key : Option String) × All (λ k. k ≡ key) keys
one_distinct keys h =
    let (key, all) = single (distinct keys) h in (key, distinct-All (λ k. k ≡ key) keys all)

pub any_repeated-All :
    (ks keys : List (Option String))
    → any_repeated ks keys ≡ false
    → All (λ k. occurrences k keys ≤ 1) ks
any_repeated-All [] keys h = tt
any_repeated-All (k ∷ ks) keys h = elim (Bool-cases (ltb 1 (occurrences k keys))) [
  | inl more ↦ cc (rw more at h)
  | inr once ↦ (ground arith, any_repeated-All ks keys (rw once at h))
]

pub has_none-append :
    (xs ys : List Problem)
    → has_none (xs ++ ys) ≡ true
    → (has_none xs ≡ true) × (has_none ys ≡ true)
has_none-append [] ys h = (refl, h)
has_none-append (x ∷ xs) ys h = cc

pub has_none-eq : (xs : List Problem) → has_none xs ≡ true → xs ≡ []
has_none-eq [] h = refl
has_none-eq (x ∷ xs) h = cc

pub has_none-when : (b : Bool) (p : Problem) → has_none (when b p) ≡ true → b ≡ false
has_none-when true p h = cc
has_none-when false p h = refl

pub keep-whole {ℓ} :
    {A : Type ℓ} (p : A → Bool) (xs : List A)
    → (length (keep p xs) ≤ length xs) × (length (keep p xs) ≡ length xs → All (λ x. p x ≡ true) xs)
keep-whole p [] = (omega arith, λ _. tt)
keep-whole p (x ∷ xs) =
    let (le, whole) = keep-whole p xs in
    elim (Bool-cases (p x)) [
      | inl in_it ↦ rw in_it (omega (arith, le), λ h. (refl, whole (omega (arith, h))))
      | inr not_it ↦ rw not_it (omega (arith, le), λ h. absurd (omega (arith, le, h)))
    ]

pub keep-All {ℓ} :
    {A : Type ℓ} (p : A → Bool) (xs : List A) → All (λ x. p x ≡ true) xs → keep p xs ≡ xs
keep-All p [] _ = refl
keep-All p (x ∷ xs) (yes_x, later) = rw yes_x (ap (x ∷◌) (keep-All p xs later))
