-- ===== src/Collection/Contract.antt =====
-- What `collect` of src/collection_only.py publishes.
use lol_predictor.Prelude.{
  ℕ, suc, String, ◌≡◌, ◌≢◌, ◌≤◌, refl, ap, subst, inl, inr, Bool, true, false, ◌||◌, not, Option,
  none, some, List, [], ◌∷◌, map, length, In, Result, ok, fail, >>=-ok, require-then, ok-eq,
  Bool-cases, arith, eqb_iff, ◌==◌, eq_iff, Unicode, append_text,
}
use lol_predictor.Approval.{is_text}
use lol_predictor.H4.Cohort.{same_key, member, distinct}
use lol_predictor.Teams.{SeedTeam}
use lol_predictor.Collection.{
  CollectionError, RawEvent, CollectedEvent, Run, Rejected, CollectionSnapshot, has_contract_keys,
  official_name, event_time, rows_of_maps, normalize_maps, all_distinct, text_of, lifecycle_of,
  normalize_event, sorted_event, sort_events, upstream_status, new_snapshot, published, collect,
  no_contract, same_teams, bad_format, duplicate_maps, bad_run, duplicate_events,
}

-- No text stands in the list twice.
abbrev pub NoRepeat : List String → Type 0
NoRepeat [] = Unit
NoRepeat (x ∷ xs) = (In x xs → ⊥) × NoRepeat xs

or_true : (b : Bool) → (b || true) ≡ true
or_true true = refl
or_true false = refl

In-member :
    (x : String) (xs : List String) → In x xs → member (some x) (distinct (map some xs)) ≡ true
In-member x [] h = absurd h
In-member x (y ∷ ys) h = elim (Bool-cases (member (some y) (distinct (map some ys)))) [
  | inl old ↦ elim h [ inl same ↦ rw (old, same) old | inr later ↦ rw old (In-member x ys later) ]
  | inr new ↦ elim h [
    | inl same ↦ rw (new, (eq_iff x y).1 same) refl
    | inr later ↦ rw (new, In-member x ys later) (or_true (same_key (some x) (some y)))
  ]
]

length-distinct : (xs : List (Option String)) → length (distinct xs) ≤ length xs
length-distinct [] = omega arith
length-distinct (x ∷ xs) = elim (Bool-cases (member x (distinct xs))) [
  | inl old ↦ rw old (omega (arith, length-distinct xs))
  | inr new ↦ rw new (omega (arith, length-distinct xs))
]

length-map-some : (xs : List String) → length (map some xs) ≡ length xs
length-map-some [] = refl
length-map-some (x ∷ xs) = ap suc (length-map-some xs)

distinct-NoRepeat : (xs : List String) → length (distinct (map some xs)) ≡ length xs → NoRepeat xs
distinct-NoRepeat [] h = tt
distinct-NoRepeat (x ∷ xs) h = elim (Bool-cases (member (some x) (distinct (map some xs)))) [
  | inl old ↦
      let le = length-distinct (map some xs) in
      let same = length-map-some xs in
      let e : length (distinct (map some xs)) ≡ suc (length xs) = rw old at h in
      absurd (omega (arith, le, same, e))
  | inr new ↦
      let e : suc (length (distinct (map some xs))) ≡ suc (length xs) = rw new at h in
      (λ i. cc (In-member x xs i, new), distinct-NoRepeat xs (omega (arith, e)))
]

pub all_distinct-NoRepeat : (xs : List String) → all_distinct xs ≡ true → NoRepeat xs
all_distinct-NoRepeat xs h = distinct-NoRepeat xs ((eqb_iff _ _).0 h)

-- What the event that comes out of `normalize_event` holds.
pub record IsContracted (raw : RawEvent) (e : CollectedEvent) : Type 0 where
  pub keys : has_contract_keys raw ≡ true
  pub source : String
  pub event : String
  pub has_source : raw.source ≡ some source
  pub has_event : raw.source_event_id ≡ some event
  pub names_event : e.canonical_event_id ≡ append_text source (append_text ":" event)
  pub two_teams : e.team_a ≢ e.team_b
  pub time : event_time raw.scheduled_at ≡ ok e.scheduled_at
  pub format : raw.format ≡ some e.format
  pub best_of :
      (is_text "bo1" raw.format || is_text "bo3" raw.format || is_text "bo5" raw.format) ≡ true
  pub maps_differ : NoRepeat (map (λ g. g.source_map_id) e.maps)
  pub lifecycle : e.lifecycle_status ≡ lifecycle_of raw.result

not_same : (a b : String) → not (a == b) ≡ true → a ≢ b
not_same a b h same = cc ((eq_iff a b).1 same, h)

text_of-ok : (o : Option String) {s : String} → text_of o ≡ ok s → o ≡ some s
text_of-ok none h = cc
text_of-ok (some t) h = ap some (ok-eq refl h)

module _ (u : Unicode) (teams : List SeedTeam) (names : List String) where
  normalize_event-IsContracted :
      (raw : RawEvent) {e : CollectedEvent}
      → normalize_event u teams names raw ≡ ok e
      → IsContracted raw e
  unfolding normalize_event
  normalize_event-IsContracted raw h =
      let (keys, h1) = require-then (has_contract_keys raw) no_contract _ h in
      let (a, e1, h2) = >>=-ok (official_name u teams names raw.team_a) _ h1 in
      let (b, e2, h3) = >>=-ok (official_name u teams names raw.team_b) _ h2 in
      let (differ, h4) = require-then (not (a == b)) same_teams _ h3 in
      let (t, e3, h5) = >>=-ok (event_time raw.scheduled_at) _ h4 in
      let best = is_text "bo1" raw.format || is_text "bo3" raw.format || is_text "bo5" raw.format in
      let (best_of, h6) = require-then best bad_format _ h5 in
      let (rows, e4, h7) = >>=-ok (rows_of_maps raw.maps) _ h6 in
      let (games, e5, h8) = >>=-ok (normalize_maps rows) _ h7 in
      let (distinct_maps, h9) =
        require-then (all_distinct (map (λ g. g.source_map_id) games)) duplicate_maps _ h8 in
      let (source, e6, h10) = >>=-ok (text_of raw.source) _ h9 in
      let (event, e7, h11) = >>=-ok (text_of raw.source_event_id) _ h10 in
      let (competition, e8, h12) = >>=-ok (text_of raw.competition_id) _ h11 in
      let (format, e9, h13) = >>=-ok (text_of raw.format) _ h12 in
      subst (IsContracted raw) (ok-eq refl h13) (record {
        keys = keys;
        source = source;
        event = event;
        has_source = text_of-ok raw.source e6;
        has_event = text_of-ok raw.source_event_id e7;
        names_event = refl;
        two_teams = not_same a b differ;
        time = e3;
        format = text_of-ok raw.format e9;
        best_of = best_of;
        maps_differ = all_distinct-NoRepeat _ distinct_maps;
        lifecycle = refl;
      })

  -- Every incoming event is in one of the two lists, in order.
  pub data Sorted : List RawEvent → List CollectedEvent → List Rejected → Type 0 where
    none_left : Sorted [] [] []
    taken :
        {raws : List RawEvent} {es : List CollectedEvent} {rs : List Rejected} (raw : RawEvent)
        (e : CollectedEvent)
        → normalize_event u teams names raw ≡ ok e
        → IsContracted raw e
        → Sorted raws es rs
        → Sorted (raw ∷ raws) (e ∷ es) rs
    put_aside :
        {raws : List RawEvent} {es : List CollectedEvent} {rs : List Rejected} (raw : RawEvent)
        (why : CollectionError)
        → normalize_event u teams names raw ≡ fail why
        → Sorted raws es rs
        → Sorted
            (raw ∷ raws)
            es
            (record { source_event_id = raw.source_event_id; reason = why } ∷ rs)

  either_list :
      (raw : RawEvent) (raws : List RawEvent) (x : Result CollectionError CollectedEvent)
      (rest : List CollectedEvent × List Rejected)
      → normalize_event u teams names raw ≡ x
      → Sorted raws rest.0 rest.1
      → Sorted
          (raw ∷ raws)
          (sorted_event u teams names raw x rest).0
          (sorted_event u teams names raw x rest).1
  either_list raw raws (ok e) (es, rs) made rest =
      taken raw e made (normalize_event-IsContracted raw made) rest
  either_list raw raws (fail why) (es, rs) made rest = put_aside raw why made rest

  sort_events-Sorted :
      (raws : List RawEvent)
      → Sorted raws (sort_events u teams names raws).0 (sort_events u teams names raws).1
  unfolding sort_events
  sort_events-Sorted [] = none_left
  sort_events-Sorted (raw ∷ raws) =
      either_list raw raws (normalize_event u teams names raw) (sort_events u teams names raws) refl
        (sort_events-Sorted raws)

  pub record IsComplete (run : Run) (incoming : List RawEvent) (now : ℕ) (s : CollectionSnapshot)
      : Type 0 where
    pub mode : is_text "COLLECTION_ONLY" run.mode ≡ true
    pub run_id : run.collection_run_id ≡ some s.collection_run_id
    pub at_time : s.collected_at ≡ now
    pub status : s.status ≡ upstream_status u teams names incoming
    pub sorted : Sorted incoming s.events s.rejected
    pub events_differ : NoRepeat (map (λ e. e.canonical_event_id) s.events)

  given_id-ok :
      (o : Option String) {i : String}
      → (elim o [ none ↦ fail bad_run | some j ↦ ok j ]) ≡ ok i
      → o ≡ some i
  given_id-ok none h = cc
  given_id-ok (some j) h = ap some (ok-eq refl h)

  new_snapshot-IsComplete :
      (run : Run) (incoming : List RawEvent) (now : ℕ) {s : CollectionSnapshot}
      → new_snapshot u teams names run incoming now ≡ ok s
      → IsComplete run incoming now s
  unfolding new_snapshot
  new_snapshot-IsComplete run incoming now h =
      let (mode, h1) = require-then (is_text "COLLECTION_ONLY" run.mode) bad_run _ h in
      let (id, e1, h2) =
        >>=-ok (elim run.collection_run_id [ none ↦ fail bad_run | some i ↦ ok i ]) _ h1 in
      let sorted = sort_events u teams names incoming in
      let (differ, h3) =
        require-then (all_distinct (map (λ e. e.canonical_event_id) sorted.0)) duplicate_events _
          h2 in
      subst (IsComplete run incoming now) (ok-eq refl h3) (record {
        mode = mode;
        run_id = given_id-ok run.collection_run_id e1;
        at_time = refl;
        status = refl;
        sorted = sort_events-Sorted incoming;
        events_differ = all_distinct-NoRepeat _ differ;
      })

  -- The two ways in which `collect` ends.
  pub data Collecting (run : Run) (incoming : List RawEvent) (now : ℕ)
      (current : Option CollectionSnapshot)
      : Result CollectionError CollectionSnapshot × Option CollectionSnapshot → Type 0 where
    refused : (e : CollectionError) → Collecting run incoming now current (fail e, current)
    replaced :
        (s : CollectionSnapshot)
        → IsComplete run incoming now s
        → Collecting run incoming now current (ok s, some s)

  published-Collecting :
      (writes : Bool) (run : Run) (incoming : List RawEvent) (now : ℕ)
      (current : Option CollectionSnapshot) (x : Result CollectionError CollectionSnapshot)
      → new_snapshot u teams names run incoming now ≡ x
      → Collecting run incoming now current (published u teams names writes x current)
  published-Collecting writes run incoming now current (fail e) made = refused e
  published-Collecting false run incoming now current (ok s) made = refused _
  published-Collecting true run incoming now current (ok s) made =
      replaced s (new_snapshot-IsComplete run incoming now made)

  -- Whatever comes in, `collect` either raises and leaves the current snapshot as it was, or replaces
  -- it by one of this run and time in which every incoming event is either rejected with its reason or
  -- accepted with two different teams, a time with a zone, a known format, maps that all differ and the
  -- status of its result, and no two accepted events have the same canonical id.
  pub collect-Collecting :
      (writes : Bool) (run : Run) (incoming : List RawEvent) (now : ℕ)
      (current : Option CollectionSnapshot)
      → Collecting run incoming now current (collect u teams names writes run incoming now current)
  unfolding collect
  collect-Collecting writes run incoming now current =
      published-Collecting writes run incoming now current _ refl
