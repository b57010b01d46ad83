-- ===== src/Collection/Health.antt =====
-- `health` of src/collection_only.py after a collection.
use lol_predictor.Prelude.{
  ℕ, String, ◌+◌, ◌*◌, ◌≡◌, refl, Bool, true, false, ◌&&◌, Option, some, List, map, keep, Result,
  ok, hour, ltb, arith, Unicode, ok-eq, subst, Bool-cases, ◌<◌, In, ◌≢◌, ◌↔◌, keep-In, inl, In-keep,
  ap, sym, both, inr,
}
use lol_predictor.Teams.{SeedTeam}
use lol_predictor.Collection.{
  CollectionError, RawEvent, Run, CollectionSnapshot, collect, CollectionHealth, collection_health,
  past_event_result_pending, healthy, is_past_pending, is_some_item, is_future, CollectedEvent,
  stale_expected_event, older_than_48h, result_pending, [], ◌∷◌,
}
use lol_predictor.Collection.Contract.{Collecting, refused, replaced, collect-Collecting}

-- The event has begun by now, and no official result is known.
abbrev pub Overdue : ℕ → CollectedEvent → Type 0
Overdue now e = (e.scheduled_at < now) × (e.lifecycle_status ≡ result_pending)

-- An event of the snapshot is still to come, and the snapshot, of this time, is older than 48 hours.
abbrev pub Stale : ℕ → List CollectedEvent → ℕ → Type 0
Stale at es now = ((e : CollectedEvent) × In e es × (now < e.scheduled_at)) × (at + 48 * hour < now)

-- What is reported at a time of a snapshot that was collected at an earlier one.
pub data Reports (s : CollectionSnapshot) (at now : ℕ) : CollectionHealth → Type 0 where
  stale : Stale at s.events now → Reports s at now stale_expected_event
  -- the ids of exactly the overdue events, of which there is one
  overdue :
      (ids : List String)
      → ¬ Stale at s.events now
      → ids ≢ []
      → ((id : String)
          → In id ids
            ↔ ((e : CollectedEvent) × In e s.events × Overdue now e × (e.canonical_event_id ≡ id)))
      → Reports s at now (past_event_result_pending ids)
  settled :
      ¬ Stale at s.events now
      → ((e : CollectedEvent) → In e s.events → ¬ Overdue now e)
      → Reports s at now (healthy s.status)

is_past_pending-Overdue :
    (now : ℕ) (e : CollectedEvent) → is_past_pending now e ≡ true → Overdue now e
is_past_pending-Overdue now e h = ground arith

Overdue-is_past_pending :
    (now : ℕ) (e : CollectedEvent) → Overdue now e → is_past_pending now e ≡ true
Overdue-is_past_pending now e h = ground arith

In-ids :
    (es : List CollectedEvent) (e : CollectedEvent)
    → In e es
    → In e.canonical_event_id (map (λ x. x.canonical_event_id) es)
In-ids [] e h = absurd h
In-ids (x ∷ es) e (inl same) = inl (ap (λ z. z.canonical_event_id) same)
In-ids (x ∷ es) e (inr later) = inr (In-ids es e later)

ids-In :
    (es : List CollectedEvent) {id : String}
    → In id (map (λ x. x.canonical_event_id) es)
    → (e : CollectedEvent) × In e es × (e.canonical_event_id ≡ id)
ids-In [] h = absurd h
ids-In (x ∷ es) (inl same) = (x, inl refl, sym same)
ids-In (x ∷ es) (inr later) = let (e, i, same) = ids-In es later in (e, inr i, same)

pending-Overdue :
    (now : ℕ) (es : List CollectedEvent) (id : String)
    → In id (map (λ x. x.canonical_event_id) (keep (is_past_pending now) es))
      ↔ ((e : CollectedEvent) × In e es × Overdue now e × (e.canonical_event_id ≡ id))
pending-Overdue now es id = (
  λ h.
      let (e, i, same) = ids-In (keep (is_past_pending now) es) h in
      let (i', p) = keep-In (is_past_pending now) es i in
      (e, i', is_past_pending-Overdue now e p, same),
  λ h.
      let (e, i, late, same) = h in
      subst (λ k. In k (map (λ x. x.canonical_event_id) (keep (is_past_pending now) es))) same
        (In-ids _ e (In-keep (is_past_pending now) es i (Overdue-is_past_pending now e late))),
)

some_item-In :
    (p : CollectedEvent → Bool) (es : List CollectedEvent)
    → is_some_item (keep p es) ≡ true
    → (e : CollectedEvent) × In e es × (p e ≡ true)
some_item-In p es h = go (keep p es) (λ e i. keep-In p es i) h
  where
    go :
        (ks : List CollectedEvent)
        → ((e : CollectedEvent) → In e ks → In e es × (p e ≡ true))
        → is_some_item ks ≡ true
        → (e : CollectedEvent) × In e es × (p e ≡ true)
    go [] from h = cc
    go (k ∷ ks) from h = let (i, t) = from k (inl refl) in (k, i, t)

no_item-In :
    (p : CollectedEvent → Bool) (es : List CollectedEvent)
    → is_some_item (keep p es) ≡ false
    → (e : CollectedEvent) → In e es
    → p e ≡ true
    → ⊥
no_item-In p es h e i t = go (keep p es) (In-keep p es i t) h
  where
    go : (ks : List CollectedEvent) → In e ks → is_some_item ks ≡ false → ⊥
    go [] i h = i
    go (k ∷ ks) i h = cc

filled :
    (es : List CollectedEvent) → is_some_item es ≡ true → map (λ e. e.canonical_event_id) es ≢ []
filled [] h e = cc
filled (x ∷ es) h e = cc

is_future-lt : (now : ℕ) (e : CollectedEvent) → is_future now e ≡ true → now < e.scheduled_at
is_future-lt now e h = ground arith

lt-is_future : (now : ℕ) (e : CollectedEvent) → now < e.scheduled_at → is_future now e ≡ true
lt-is_future now e h = ground arith

ltb-lt : (a b : ℕ) → ltb a b ≡ true → a < b
ltb-lt a b h = ground arith

lt-ltb : (a b : ℕ) → a < b → ltb a b ≡ true
lt-ltb a b h = ground arith

young-Stale :
    (s : CollectionSnapshot) (now : ℕ)
    → (is_some_item (keep (is_future now) s.events) && older_than_48h now s) ≡ false
    → ¬ Stale s.collected_at s.events now
young-Stale s now h ((e, i, later), old) =
    elim (Bool-cases (is_some_item (keep (is_future now) s.events))) [
      | inl coming ↦ cc (rw (coming, lt-ltb _ _ old) at h)
      | inr none_coming ↦
          no_item-In (is_future now) s.events none_coming e i (lt-is_future now e later)
    ]

collection_health-Reports :
    (s : CollectionSnapshot) (now : ℕ)
    → Reports s s.collected_at now (collection_health (some s) now)
unfolding collection_health
collection_health-Reports s now =
    elim (Bool-cases (is_some_item (keep (is_future now) s.events) && older_than_48h now s)) [
      | inl old ↦
          let (coming, age) = both {a = is_some_item (keep (is_future now) s.events)} old in
          let (e, i, later) = some_item-In (is_future now) s.events coming in
          rw old (stale ((e, i, is_future-lt now e later), ltb-lt _ _ age))
      | inr young ↦ elim (Bool-cases (is_some_item (keep (is_past_pending now) s.events))) [
        | inl late ↦
            rw (young, late)
              (overdue _ (young-Stale s now young) (filled _ late) (pending-Overdue now s.events))
        | inr on_time ↦
            rw (young, on_time)
              (settled (young-Stale s now young) (λ e i o.
                no_item-In (is_past_pending now) s.events on_time e i
                  (Overdue-is_past_pending now e o)))
      ]
    ]

module _ (u : Unicode) (teams : List SeedTeam) (names : List String) where
  health_of :
      (run : Run) (incoming : List RawEvent) (now later : ℕ) (current : Option CollectionSnapshot)
      {x : Result CollectionError CollectionSnapshot × Option CollectionSnapshot}
      {s : CollectionSnapshot}
      → Collecting u teams names run incoming now current x
      → x.0 ≡ ok s
      → Reports s now later (collection_health x.1 later)
  health_of run incoming now later current (refused e) h = cc
  health_of run incoming now later current (replaced r c) h =
      subst (λ s. Reports s now later (collection_health (some r) later)) (ok-eq refl h)
        (subst (λ at. Reports r at later (collection_health (some r) later)) c.at_time
          (collection_health-Reports r later))

  -- After a `collect` that returned a snapshot, `health` at any time says that it is stale exactly if
  -- it is older than 48 hours and holds an event to come; otherwise it lists the ids of exactly the
  -- accepted events that have begun and have no official result, and where there is none it reports
  -- the snapshot's status.
  pub collect-health :
      (writes : Bool) (run : Run) (incoming : List RawEvent) (now later : ℕ)
      (current : Option CollectionSnapshot) {s : CollectionSnapshot}
      → (collect u teams names writes run incoming now current).0 ≡ ok s
      → Reports s now later
          (collection_health (collect u teams names writes run incoming now current).1 later)
  collect-health writes run incoming now later current h =
      health_of run incoming now later current
        (collect-Collecting u teams names writes run incoming now current) h
