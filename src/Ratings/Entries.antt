-- ===== src/Ratings/Entries.antt =====
-- Entries of the rating dicts of src/model.py, in memory and in the file.
use lol_predictor.Prelude.{
  String, ◌≡◌, ◌≢◌, refl, subst, sym, ◌∙◌, inl, inr, Bool, true, false, Option, none, some, List,
  [], ◌∷◌, ok, Bool-cases, Option-cases, Float, ◌||◌, ◌==◌, eq_iff, eq_refl, is_in, if◌then◌else◌,
  arith,
}
use lol_predictor.H4.Signals.{Numeric, number, not_number}
use lol_predictor.Ratings.{
  Elo, rating_of, set_rating, add_name, take_rating, persisted, as_numbers, absorb,
}

pub different : (a b : String) → a ≢ b → (a == b) ≡ false
different a b h = elim (Bool-cases (a == b)) [
  | inl same ↦ absurd (h ((eq_iff a b).0 same))
  | inr other ↦ other
]

pub or_true : (b : Bool) → (b || true) ≡ true
or_true true = refl
or_true false = refl

pub is_in-add_name :
    (n name : String) (ns : List String) → is_in n ns ≡ true → is_in n (add_name name ns) ≡ true
is_in-add_name n name ns h = elim (Bool-cases (is_in name ns)) [
  | inl old ↦ rw old h
  | inr new ↦ rw (new, h) (or_true (name == n))
]

pub is_in-add_name_self : (name : String) (ns : List String) → is_in name (add_name name ns) ≡ true
is_in-add_name_self name ns = elim (Bool-cases (is_in name ns)) [
  | inl old ↦ rw old old
  | inr new ↦ rw (new, eq_refl name) refl
]

module _ {N : Type 0} where
  -- what the file says of a name; of two entries the later one counts
  abbrev pub entry_of : String → List (String × Numeric N) → Option N
  entry_of name [] = none
  entry_of name ((n, not_number) ∷ rs) = entry_of name rs
  entry_of name ((n, number x) ∷ rs) = elim (entry_of name rs) [
    | some y ↦ some y
    | none ↦ if n == name then some x else none
  ]

  abbrev pub or_else : Option N → Option N → Option N
  or_else (some x) d = some x
  or_else none d = d

  pub rating_of-set :
      (n name : String) (x : N) (rs : List (String × N))
      → rating_of n (set_rating name x rs) ≡ (if name == n then some x else rating_of n rs)
  unfolding rating_of set_rating
  rating_of-set n name x [] = refl
  rating_of-set n name x ((k, y) ∷ rs) =
      ground (arith, eq_iff k name, eq_iff k n, eq_iff name n, rating_of-set n name x rs)

  either_none : (b : Bool) (r : Option N) → r ≡ none → (if b then r else none) ≡ none
  either_none true r h = h
  either_none false r h = refl

  either_some :
      (b c : Bool) (y : N)
      → c ≡ true
      → (elim (if b then some y else none) [ some z ↦ some z | none ↦ if c then some y else none ])
        ≡ some y
  either_some true c y h = refl
  either_some false c y h = rw h refl

  first_some : (c b : Bool) (y : N) → c ≡ true → some y ≡ (if c || b then some y else none)
  first_some c b y h = rw h refl

  kept :
      (e : Option N) (c : Bool) (y : N)
      → c ≡ false
      → (elim e [ some z ↦ some z | none ↦ if c then some y else none ]) ≡ e
  kept (some z) c y h = refl
  kept none c y h = rw h refl

  first_entry :
      (n k : String) (x : N) (e : Option N) {y : N}
      → e ≡ none
      → (elim e [ some z ↦ some z | none ↦ if k == n then some x else none ]) ≡ some y
      → k ≡ n
  first_entry n k x (some z) h found = cc
  first_entry n k x none h found = elim (Bool-cases (k == n)) [
    | inl same ↦ (eq_iff k n).0 same
    | inr other ↦ cc (rw other at found)
  ]

  later_or :
      (e : Option N) (b : Bool) (x : N) (r : Option N) {o : Option N}
      → o ≡ (if b then some x else r)
      → or_else e o ≡ or_else (elim e [ some y ↦ some y | none ↦ if b then some x else none ]) r
  later_or (some y) b x r h = refl
  later_or none true x r h = h
  later_or none false x r h = h

  skipped :
      (n k : String) (b : Bool) (rs : List (String × N)) {e : Option N}
      → rating_of k rs ≡ none
      → e ≡ (if b then rating_of n rs else none)
      → e ≡ (if k == n || b then rating_of n rs else none)
  skipped n k b rs missing h = elim (Bool-cases (k == n)) [
    | inr other ↦ rw other h
    | inl same ↦
        let gone : rating_of n rs ≡ none =
          subst (λ x. rating_of x rs ≡ none) ((eq_iff k n).0 same) missing in
        rw same (h ∙ (either_none b (rating_of n rs) gone ∙ sym gone))
  ]

  listed :
      (n k : String) (b : Bool) (y : N) (rs : List (String × N)) {e : Option N}
      → rating_of k rs ≡ some y
      → e ≡ (if b then rating_of n rs else none)
      → (elim e [ some z ↦ some z | none ↦ if k == n then some y else none ])
        ≡ (if k == n || b then rating_of n rs else none)
  listed n k b y rs found h = elim (Bool-cases (k == n)) [
    | inr other ↦ rw h (kept (if b then rating_of n rs else none) (k == n) y other ∙ rw other refl)
    | inl same ↦
        let it : rating_of n rs ≡ some y =
          subst (λ x. rating_of x rs ≡ some y) ((eq_iff k n).0 same) found in
        rw (h, it) (either_some b (k == n) y same ∙ first_some (k == n) b y same)
  ]

  -- what is written of a name is its rating, if the name persists
  pub entry_of-persisted :
      (n : String) (ns : List String) (rs : List (String × N))
      → entry_of n (as_numbers (persisted ns rs)) ≡ (if is_in n ns then rating_of n rs else none)
  unfolding persisted
  entry_of-persisted n [] rs = refl
  entry_of-persisted n (k ∷ ns) rs =
      let rest = entry_of-persisted n ns rs in
      elim (Option-cases (rating_of k rs)) [
        | inl missing ↦ rw (missing, persisted) (skipped n k (is_in n ns) rs missing rest)
        | inr (y, found) ↦ rw (found, persisted) (listed n k (is_in n ns) y rs found rest)
      ]

module _ {N : Type 0} ⦃f : Float N⦄ where
  -- the ratings after the entries of the file were taken over
  pub absorb-rating_of :
      (n : String) (rs : List (String × Numeric N)) (m : Elo N)
      → (absorb rs m).0 ≡ ok tt
      → rating_of n (absorb rs m).1.ratings ≡ or_else (entry_of n rs) (rating_of n m.ratings)
  unfolding absorb take_rating
  absorb-rating_of n [] m h = refl
  absorb-rating_of n ((k, not_number) ∷ rs) m h = cc
  absorb-rating_of n ((k, number x) ∷ rs) m h = elim (Bool-cases (f.finite x)) [
    | inr bad ↦ cc (rw bad at h)
    | inl fine ↦
        let rest = absorb-rating_of n rs (take_rating k x m) (rw fine at h) in
        rw fine (
          rest
          ∙ later_or (entry_of n rs) (k == n) x (rating_of n m.ratings)
              (rating_of-set n k x m.ratings))
  ]

  pub absorb-is_in_old :
      (n : String) (rs : List (String × Numeric N)) (m : Elo N)
      → is_in n m.persistable ≡ true
      → is_in n (absorb rs m).1.persistable ≡ true
  unfolding absorb take_rating
  absorb-is_in_old n [] m h = h
  absorb-is_in_old n ((k, not_number) ∷ rs) m h = h
  absorb-is_in_old n ((k, number x) ∷ rs) m h = elim (Bool-cases (f.finite x)) [
    | inr bad ↦ rw bad h
    | inl fine ↦
        rw fine (absorb-is_in_old n rs (take_rating k x m) (is_in-add_name n k m.persistable h))
  ]

  pub absorb-is_in_new :
      (n : String) (rs : List (String × Numeric N)) (m : Elo N) {y : N}
      → (absorb rs m).0 ≡ ok tt
      → entry_of n rs ≡ some y
      → is_in n (absorb rs m).1.persistable ≡ true
  unfolding absorb take_rating
  absorb-is_in_new n [] m h e = cc
  absorb-is_in_new n ((k, not_number) ∷ rs) m h e = cc
  absorb-is_in_new n ((k, number x) ∷ rs) m h e = elim (Bool-cases (f.finite x)) [
    | inr bad ↦ cc (rw bad at h)
    | inl fine ↦
        let m' = take_rating k x m in
        elim (Option-cases (entry_of n rs)) [
          | inr (z, later) ↦ rw fine (absorb-is_in_new n rs m' (rw fine at h) later)
          | inl first ↦
              let here = first_entry n k x (entry_of n rs) first e in
              rw fine (
                absorb-is_in_old n rs m' (
                  subst (λ j. is_in j m'.persistable ≡ true) here
                    (is_in-add_name_self k m.persistable)))
        ]
  ]
