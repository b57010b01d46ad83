-- ===== src/Draft/Chain.antt =====
-- `validate_chain` of src/draft_shadow.py, and what a chain that it returns is known to hold.
use lol_predictor.Prelude.{
  ℕ, String, Bool, true, false, ◌&&◌, Option, none, List, [], ◌∷◌, map, length, Result, ok, ◌>>=◌,
  ◌>>◌, require, Float, eqb, leb, if◌then◌else◌,
}
use lol_predictor.H4.Cohort.{same_key}
use lol_predictor.Draft.Observation.{normalize_observation}
use lol_predictor.Draft.Raw.{
  incomplete_chain, mixed_chain, chain_order, pre_draft, post_draft, closing, DraftError, Point,
  Raw, Observation,
}

-- SHA-256 of the canonical JSON text of an observation's identity, of a payload, of a list of texts
pub record Seals (N : Type 0) : Type 0 where
  pub of_identity : Observation N → String
  pub of_content : Raw N → Observation N → String
  pub of_list : List String → String

-- An observation with its `observation_id` and `content_sha256`.
pub record Payload (N : Type 0) : Type 0 where
  pub observation : Observation N
  pub observation_id : String
  pub content_sha256 : String

pub record Chain : Type 0 where
  pub canonical_event_id : Option String
  pub observation_ids : List String
  pub chain_sha256 : String

abbrev pub is_point : Point → Point → Bool
is_point pre_draft pre_draft = true
is_point post_draft post_draft = true
is_point closing closing = true
is_point _ _ = false

module _ {N : Type 0} where
  abbrev pub observed : Payload N → ℕ
  observed p = p.observation.observed_at

  abbrev pub at_point : Point → Payload N → Bool
  at_point point p = is_point p.observation.decision_point point

  unfoldable pub has_point : Point → List (Payload N) → Bool
  has_point point [] = false
  has_point point (p ∷ ps) = if at_point point p then true else has_point point ps

  -- equal in every field of `invariant`
  unfoldable pub same_terms : Payload N → Payload N → Bool
  same_terms p q =
      let a = p.observation in
      let b = q.observation in
      same_key a.canonical_event_id b.canonical_event_id
      && same_key a.market b.market
      && same_key a.market_id b.market_id
      && same_key a.condition_id b.condition_id
      && same_key a.selection b.selection
      && same_key a.settlement_policy b.settlement_policy

  unfoldable pub all_same : Payload N → List (Payload N) → Bool
  unfolding same_terms
  all_same first [] = true
  all_same first (p ∷ ps) = same_terms first p && all_same first ps

  -- `sorted(..., key=observed_at)`, which is stable
  unfoldable pub insert : Payload N → List (Payload N) → List (Payload N)
  insert p [] = p ∷ []
  insert p (q ∷ qs) =
      let rest = insert p qs in if leb (observed p) (observed q) then p ∷ q ∷ qs else q ∷ rest

  unfoldable pub by_time : List (Payload N) → List (Payload N)
  unfolding insert
  by_time [] = []
  by_time (p ∷ ps) = insert p (by_time ps)

  unfoldable pub in_sequence : List (Payload N) → Bool
  in_sequence (a ∷ b ∷ c ∷ []) = at_point pre_draft a && at_point post_draft b && at_point closing c
  in_sequence _ = false

  abbrev pub event_of : List (Payload N) → Option String
  event_of [] = none
  event_of (p ∷ _) = p.observation.canonical_event_id

  abbrev pub consistent : List (Payload N) → Bool
  consistent [] = true
  consistent (p ∷ ps) = all_same p ps

module _ {N : Type 0} ⦃f : Float N⦄ where
  -- `normalize_observation` to its end, with the two hashes
  unfoldable pub hashed : Seals N → Raw N → Result DraftError (Payload N)
  unfolding normalize_observation
  hashed d r = do
    o ← normalize_observation r
    ok (record {
      observation = o;
      observation_id = d.of_identity o;
      content_sha256 = d.of_content r o;
    })

  unfoldable pub hashed_all : Seals N → List (Raw N) → Result DraftError (List (Payload N))
  unfolding hashed
  hashed_all d [] = ok []
  hashed_all d (r ∷ rs) = let rest = hashed_all d rs in do p ← hashed d r; ps ← rest; ok (p ∷ ps)

  unfoldable pub validate_chain : Seals N → List (Raw N) → Result DraftError Chain
  unfolding hashed_all has_point all_same by_time in_sequence
  validate_chain d raws = do
    rows ← hashed_all d raws
    require
        (eqb (length rows) 3
          && has_point pre_draft rows
          && has_point post_draft rows
          && has_point closing rows)
        incomplete_chain
    require (consistent rows) mixed_chain
    require (in_sequence (by_time rows)) chain_order
    ok (record {
      canonical_event_id = event_of (by_time rows);
      observation_ids = map (λ p. p.observation_id) (by_time rows);
      chain_sha256 = d.of_list (map (λ p. p.content_sha256) (by_time rows));
    })
