-- ===== src/Draft/Ordered.antt =====
-- What a chain that `validate_chain` of src/draft_shadow.py returns is known to hold.
use lol_predictor.Prelude.{
  ℕ, String, ◌≡◌, ◌≤◌, ◌≢◌, refl, sym, ap, subst, true, false, ◌&&◌, Option, none, some, List, [],
  ◌∷◌, map, length, All, ok, >>=-ok, require-then, ok-eq, both, Float, eqb, leb, arith, Bool-cases,
  inl, inr, eq_refl, ◌∙◌, In, In-All,
}
use lol_predictor.H4.Cohort.{same_key}
use lol_predictor.Draft.Observation.{normalize_observation}
use lol_predictor.Draft.Raw.{pre_draft, post_draft, closing, Point, Raw, Observation}
use lol_predictor.Draft.Normalized.{Normalized, normalize_observation-Normalized}
use lol_predictor.Draft.Chain.{
  Seals, Payload, Chain, is_point, observed, at_point, has_point, same_terms, all_same, insert,
  by_time, in_sequence, consistent, hashed, hashed_all, validate_chain, event_of,
}
use lol_predictor.H4.Ready.Keys.{same_key-eq}
use mathlib.Core.List.{Perm}
use mathlib.Core.List.Perm

is_point-eq : (a b : Point) → is_point a b ≡ true → a ≡ b
is_point-eq pre_draft pre_draft h = refl
is_point-eq post_draft post_draft h = refl
is_point-eq closing closing h = refl
is_point-eq _ _ h = cc

leb-total : (a b : ℕ) → leb a b ≡ false → b ≤ a
leb-total a b h = ground arith

leb-le : (a b : ℕ) → leb a b ≡ true → a ≤ b
leb-le a b h = ground arith

same_key_self : (k : Option String) → same_key k k ≡ true
same_key_self none = refl
same_key_self (some s) = eq_refl s

module _ {N : Type 0} where
  abbrev pub After : ℕ → List (Payload N) → Type 0
  After t [] = Unit {0}
  After t (p ∷ ps) = t ≤ observed p

  abbrev pub Sorted : List (Payload N) → Type 0
  Sorted [] = Unit {0}
  Sorted (p ∷ ps) = After (observed p) ps × Sorted ps

  insert-After :
      (t : ℕ) (p : Payload N) (qs : List (Payload N))
      → t ≤ observed p
      → After t qs
      → After t (insert p qs)
  unfolding insert
  insert-After t p [] early _ = early
  insert-After t p (q ∷ qs) early late = elim (Bool-cases (leb (observed p) (observed q))) [
    | inl first ↦ rw first early
    | inr second ↦ rw second late
  ]

  insert-Sorted : (p : Payload N) (qs : List (Payload N)) → Sorted qs → Sorted (insert p qs)
  unfolding insert
  insert-Sorted p [] _ = (tt, tt)
  insert-Sorted p (q ∷ qs) (late, rest) = elim (Bool-cases (leb (observed p) (observed q))) [
    | inl first ↦ rw first (leb-le (observed p) (observed q) first, (late, rest))
    | inr second ↦ rw second (
      insert-After (observed q) p qs (leb-total (observed p) (observed q) second) late,
      insert-Sorted p qs rest,
    )
  ]

  by_time-Sorted : (ps : List (Payload N)) → Sorted (by_time ps)
  unfolding by_time
  by_time-Sorted [] = tt
  by_time-Sorted (p ∷ ps) = insert-Sorted p (by_time ps) (by_time-Sorted ps)

  insert-perm : (p : Payload N) (qs : List (Payload N)) → Perm (insert p qs) (p ∷ qs)
  unfolding insert
  insert-perm p [] = Perm.rfl
  insert-perm p (q ∷ qs) = elim (Bool-cases (leb (observed p) (observed q))) [
    | inl first ↦ rw first Perm.rfl
    | inr second ↦ rw second (Perm.trans (Perm.cons q (insert-perm p qs)) (Perm.swap p q qs))
  ]

  by_time-perm : (ps : List (Payload N)) → Perm (by_time ps) ps
  unfolding by_time
  by_time-perm [] = Perm.rfl
  by_time-perm (p ∷ ps) = Perm.trans (insert-perm p (by_time ps)) (Perm.cons p (by_time-perm ps))

  all_same-All :
      (first : Payload N) (ps : List (Payload N))
      → all_same first ps ≡ true
      → All (λ p. same_terms first p ≡ true) ps
  unfolding all_same
  all_same-All first [] h = tt
  all_same-All first (p ∷ ps) h =
      let (here, later) = both {a = same_terms first p} h in (here, all_same-All first ps later)

  same_terms_self : (p : Payload N) → same_terms p p ≡ true
  unfolding same_terms
  same_terms_self p =
      let a = p.observation in
      rw
        (
          same_key_self a.canonical_event_id,
          same_key_self a.market,
          same_key_self a.market_id,
          same_key_self a.condition_id,
          same_key_self a.selection,
          same_key_self a.settlement_policy,
        )
        refl

  consistent-All :
      (ps : List (Payload N))
      → consistent ps ≡ true
      → ps ≢ []
      → (first : Payload N) × All (λ p. same_terms first p ≡ true) ps
  consistent-All [] h filled = absurd (filled refl)
  consistent-All (p ∷ ps) h filled = (p, (same_terms_self p, all_same-All p ps h))

  -- Three payloads, one of each decision point, in this order.
  pub record Three (ps : List (Payload N)) : Type 0 where
    pub pre : Payload N
    pub post : Payload N
    pub last : Payload N
    pub items : ps ≡ pre ∷ post ∷ last ∷ []
    pub pre_point : pre.observation.decision_point ≡ pre_draft
    pub post_point : post.observation.decision_point ≡ post_draft
    pub last_point : last.observation.decision_point ≡ closing

  in_sequence-Three : (ps : List (Payload N)) → in_sequence ps ≡ true → Three ps
  unfolding in_sequence
  in_sequence-Three [] h = cc
  in_sequence-Three (a ∷ []) h = cc
  in_sequence-Three (a ∷ b ∷ []) h = cc
  in_sequence-Three (a ∷ b ∷ c ∷ d ∷ ps) h = cc
  in_sequence-Three (a ∷ b ∷ c ∷ []) h =
      let (two, third) = both {a = at_point pre_draft a && at_point post_draft b} h in
      let (first, second) = both {a = at_point pre_draft a} two in
      record {
        pre = a;
        post = b;
        last = c;
        items = refl;
        pre_point = is_point-eq _ _ first;
        post_point = is_point-eq _ _ second;
        last_point = is_point-eq _ _ third;
      }

module _ {N : Type 0} ⦃f : Float N⦄ where
  -- A payload whose observation was normalized from some raw one.
  abbrev pub Checked : Payload N → Type 0
  Checked p = (r : Raw N) × Normalized r p.observation

  hashed-Checked : (d : Seals N) (r : Raw N) {p : Payload N} → hashed d r ≡ ok p → Checked p
  unfolding hashed
  hashed-Checked d r h =
      let (o, made, h1) = >>=-ok (normalize_observation r) _ h in
      subst Checked (ok-eq refl h1) (r, normalize_observation-Normalized r made)

  hashed_all-All :
      (d : Seals N) (rs : List (Raw N)) {ps : List (Payload N)}
      → hashed_all d rs ≡ ok ps
      → All Checked ps
  unfolding hashed_all
  hashed_all-All d [] h = subst (All Checked) (ok-eq refl h) tt
  hashed_all-All d (r ∷ rs) h =
      let (p, first, h1) = >>=-ok (hashed d r) _ h in
      let (ps, later, h2) = >>=-ok (hashed_all d rs) _ h1 in
      subst (All Checked) (ok-eq refl h2) (hashed-Checked d r first, hashed_all-All d rs later)

  -- The rows are the normalized raw observations, in the same order, with the hashes of each.
  abbrev pub Payloads : Seals N → List (Raw N) → List (Payload N) → Type 0
  Payloads d [] [] = Unit {0}
  Payloads d (r ∷ rs) (p ∷ ps) =
      (normalize_observation r ≡ ok p.observation)
      × (p.observation_id ≡ d.of_identity p.observation)
      × (p.content_sha256 ≡ d.of_content r p.observation)
      × Payloads d rs ps
  Payloads d _ _ = ⊥

  -- The two observations are of the same contract.
  pub record SameTerms (a b : Observation N) : Type 0 where
    pub canonical_event_id : a.canonical_event_id ≡ b.canonical_event_id
    pub market : a.market ≡ b.market
    pub market_id : a.market_id ≡ b.market_id
    pub condition_id : a.condition_id ≡ b.condition_id
    pub selection : a.selection ≡ b.selection
    pub settlement_policy : a.settlement_policy ≡ b.settlement_policy

  same_terms-SameTerms :
      (p q : Payload N) → same_terms p q ≡ true → SameTerms p.observation q.observation
  unfolding same_terms
  same_terms-SameTerms p q h =
      let a = p.observation in
      let b = q.observation in
      let (h5, policy) =
        both
          {a = same_key a.canonical_event_id b.canonical_event_id
            && same_key a.market b.market
            && same_key a.market_id b.market_id
            && same_key a.condition_id b.condition_id
            && same_key a.selection b.selection}
          h in
      let (h4, selection) =
        both
          {a = same_key a.canonical_event_id b.canonical_event_id
            && same_key a.market b.market
            && same_key a.market_id b.market_id
            && same_key a.condition_id b.condition_id}
          h5 in
      let (h3, condition) =
        both
          {a = same_key a.canonical_event_id b.canonical_event_id
            && same_key a.market b.market
            && same_key a.market_id b.market_id}
          h4 in
      let (h2, market_id) =
        both {a = same_key a.canonical_event_id b.canonical_event_id && same_key a.market b.market}
          h3 in
      let (event, market) = both {a = same_key a.canonical_event_id b.canonical_event_id} h2 in
      record {
        canonical_event_id = same_key-eq _ _ event;
        market = same_key-eq _ _ market;
        market_id = same_key-eq _ _ market_id;
        condition_id = same_key-eq _ _ condition;
        selection = same_key-eq _ _ selection;
        settlement_policy = same_key-eq _ _ policy;
      }

  hashed_all-Payloads :
      (d : Seals N) (rs : List (Raw N)) {ps : List (Payload N)}
      → hashed_all d rs ≡ ok ps
      → Payloads d rs ps
  unfolding hashed_all hashed
  hashed_all-Payloads d [] h = subst (Payloads d []) (ok-eq refl h) tt
  hashed_all-Payloads d (r ∷ rs) h =
      let (p, first, h1) = >>=-ok (hashed d r) _ h in
      let (ps, later, h2) = >>=-ok (hashed_all d rs) _ h1 in
      let (o, made, h3) = >>=-ok (normalize_observation r) _ first in
      let rest = hashed_all-Payloads d rs later in
      subst (Payloads d (r ∷ rs)) (ok-eq refl h2)
        (subst (λ q. Payloads d (r ∷ rs) (q ∷ ps)) (ok-eq refl h3) (made, refl, refl, rest))

  -- What the chain says of the raw observations that it was made of.
  pub record Comparable (d : Seals N) (raws : List (Raw N)) (chain : Chain) : Type 0 where
    pub rows : List (Payload N)
    pub payloads : Payloads d raws rows
    pub checked : All Checked rows
    -- any two of them
    pub terms : (p q : Payload N) → In p rows → In q rows → SameTerms p.observation q.observation
    pub ordered : List (Payload N)
    pub same_rows : Perm ordered rows
    pub three : Three ordered
    pub sorted : Sorted ordered
    pub event : chain.canonical_event_id ≡ three.pre.observation.canonical_event_id
    pub ids : chain.observation_ids ≡ map (λ p. p.observation_id) ordered
    pub digest : chain.chain_sha256 ≡ d.of_list (map (λ p. p.content_sha256) ordered)

  -- all alike, if each is like the first
  pairwise :
      (first : Payload N) (rows : List (Payload N))
      → All (λ p. same_terms first p ≡ true) rows
      → (p q : Payload N) → In p rows
      → In q rows
      → SameTerms p.observation q.observation
  pairwise first rows all p q hp hq =
      let a = same_terms-SameTerms first p (In-All (λ p. same_terms first p ≡ true) rows all hp) in
      let b = same_terms-SameTerms first q (In-All (λ p. same_terms first p ≡ true) rows all hq) in
      record {
        canonical_event_id = sym a.canonical_event_id ∙ b.canonical_event_id;
        market = sym a.market ∙ b.market;
        market_id = sym a.market_id ∙ b.market_id;
        condition_id = sym a.condition_id ∙ b.condition_id;
        selection = sym a.selection ∙ b.selection;
        settlement_policy = sym a.settlement_policy ∙ b.settlement_policy;
      }

  not_empty : (ps : List (Payload N)) → eqb (length ps) 3 ≡ true → ps ≢ []
  not_empty [] h e = cc
  not_empty (p ∷ ps) h e = cc

  -- A chain that `validate_chain` returns for raw observations: each of them was normalized, any two
  -- are of the same event, market, market id, condition, selection and settlement policy, and their
  -- rows, put in order of their times of observation, are one PRE_DRAFT, one POST_DRAFT and one
  -- CLOSING. The chain has the event, the ids and the hash of the content hashes of these rows.
  pub validate_chain-Comparable :
      (d : Seals N) (raws : List (Raw N)) {chain : Chain}
      → validate_chain d raws ≡ ok chain
      → Comparable d raws chain
  unfolding validate_chain
  validate_chain-Comparable d raws h =
      let (rows, made, h1) = >>=-ok (hashed_all d raws) _ h in
      let (full, h2) =
        require-then
          (eqb (length rows) 3
            && has_point pre_draft rows
            && has_point post_draft rows
            && has_point closing rows)
          _ _ h1 in
      let (same, h3) = require-then (consistent rows) _ _ h2 in
      let (sequence, h4) = require-then (in_sequence (by_time rows)) _ _ h3 in
      let (two, _) =
        both {a = eqb (length rows) 3 && has_point pre_draft rows && has_point post_draft rows}
          full in
      let (one, _) = both {a = eqb (length rows) 3 && has_point pre_draft rows} two in
      let (count, _) = both {a = eqb (length rows) 3} one in
      let (first, terms) = consistent-All rows same (not_empty rows count) in
      let three = in_sequence-Three (by_time rows) sequence in
      record {
        rows = rows;
        payloads = hashed_all-Payloads d raws made;
        checked = hashed_all-All d raws made;
        terms = pairwise first rows terms;
        ordered = by_time rows;
        same_rows = by_time-perm rows;
        three = three;
        sorted = by_time-Sorted rows;
        event = sym (ap (λ c. c.canonical_event_id) (ok-eq refl h4)) ∙ ap event_of three.items;
        ids = sym (ap (λ c. c.observation_ids) (ok-eq refl h4));
        digest = sym (ap (λ c. c.chain_sha256) (ok-eq refl h4));
      }
