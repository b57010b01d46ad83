-- ===== src/Ingestion/Attempts.antt =====
-- What the attempts of `fetch` in src/data/ingestion.py keep, whatever the world answers.
use lol_predictor.Prelude.{
  ℕ, String, ◌≡◌, ◌≤◌, ◌⊎◌, inl, inr, refl, sym, Bool, true, false, ◌&&◌, Option, none, some,
  Result, ok, fail, Bool-cases, subst, eqb, arith,
}
use lol_predictor.Approval.{is_text}
use lol_predictor.Ingestion.Csv.{Rejection, Blob, Summary, validate_oracle_csv}
use lol_predictor.Ingestion.Store.{
  Metadata, Store, Moment, Naming, current_snapshot, current_metadata, current_payload, metadata_of,
  range_end, is_before, new_metadata, publish,
}
use lol_predictor.Ingestion.Fetch.{
  Cache, OpenerReply, http_error, connection_error, overlong, body, Attempt, Fetched, Client,
  concluded, after_publish, on_candidate, after_validation, on_reply, has_payload,
}
use lol_predictor.Ingestion.Sound.{Sound, Refused, Accepted, publish-cases}
use lol_predictor.Ingestion.Served.{publish-Sound}

-- The second range of days exists and ends no earlier than the first, if there is a first.
abbrev pub NotEarlier : Option ℕ → Option ℕ → Type 0
NotEarlier none _ = Unit {0}
NotEarlier (some d) none = ⊥
NotEarlier (some d) (some e) = d ≤ e

NotEarlier-refl : (o : Option ℕ) → NotEarlier o o
NotEarlier-refl none = tt
NotEarlier-refl (some d) = omega arith

NotEarlier-trans : (a b c : Option ℕ) → NotEarlier a b → NotEarlier b c → NotEarlier a c
NotEarlier-trans none b c h k = tt
NotEarlier-trans (some d) none c h k = absurd h
NotEarlier-trans (some d) (some e) none h k = absurd k
NotEarlier-trans (some d) (some e) (some g) h k = omega arith

is_before-NotEarlier : (d : ℕ) (o : Option ℕ) → is_before d o ≡ false → NotEarlier o (some d)
is_before-NotEarlier d none h = tt
is_before-NotEarlier d (some e) h = ground arith

module _ (n : Naming) where
  -- The store stays sound, and the range of its current snapshot does not end earlier than before.
  pub record Kept (s t : Store) : Type 0 where
    pub sound : Sound n t
    pub range : NotEarlier (range_end (current_metadata s)) (range_end (current_metadata t))

  pub Kept-refl : (s : Store) → Sound n s → Kept s s
  Kept-refl s sound = record {
    sound = sound;
    range = NotEarlier-refl (range_end (current_metadata s));
  }

  pub Kept-trans : {s t u : Store} → Kept s t → Kept t u → Kept s u
  Kept-trans {s} {t} {u} a b = record {
    sound = b.sound;
    range =
        NotEarlier-trans (range_end (current_metadata s)) (range_end (current_metadata t))
          (range_end (current_metadata u)) a.range b.range;
  }

  range-cases :
      (s : Store) (now : ℕ) (b : Blob) (r : Result Rejection Metadata × Store)
      → Refused n s r ⊎ Accepted n s now b r
      → NotEarlier (range_end (current_metadata s)) (range_end (current_metadata r.1))
  unfolding current_metadata new_metadata
  range-cases s now b r (inl f) =
      subst
        (λ x. NotEarlier (range_end (metadata_of (current_snapshot s))) (range_end (metadata_of x)))
        (sym f.same_snapshot) (NotEarlier-refl (range_end (metadata_of (current_snapshot s))))
  range-cases s now b r (inr a) =
      rw a.snapshot
        (is_before-NotEarlier a.summary.last_day (range_end (current_metadata s)) a.not_earlier)

  pub publish-Kept : (w : Moment) (b : Blob) (s : Store) → Sound n s → Kept s (publish n w b s).1
  publish-Kept w b s sound = record {
    sound = publish-Sound n w b s sound;
    range = range-cases s w.now b (publish n w b s) (publish-cases n w b s sound);
  }

module _ (n : Naming) {N : Type 0} where
  -- What one attempt does to the client: the store is kept, and nothing is requested or slept.
  pub record Tried (c d : Client N) : Type 0 where
    pub store : Kept n c.store d.store
    pub requests : d.requests ≡ c.requests
    pub slept : d.slept ≡ c.slept

  Tried-refl : (c : Client N) → Sound n c.store → Tried c c
  Tried-refl c sound = record { store = Kept-refl n c.store sound; requests = refl; slept = refl }

  concluded-Tried :
      (fails : Bool) (k : Cache) (r : Fetched) (c d : Client N)
      → Tried c d
      → Tried c (concluded fails k r d).1
  concluded-Tried true k r c d t = t
  concluded-Tried false k r c d t = record {
    store = t.store;
    requests = t.requests;
    slept = t.slept;
  }

  after_publish-Tried :
      (fails : Bool) (k : Cache) (c : Client N) (r : Result Rejection Metadata × Store)
      → Kept n c.store r.1
      → Tried c (after_publish fails k c r).1
  after_publish-Tried fails k c (fail e, s) kept = record {
    store = kept;
    requests = refl;
    slept = refl;
  }
  after_publish-Tried fails k c (ok m, s) kept =
      concluded-Tried fails k _ c (record c { store = s })
        (record { store = kept; requests = refl; slept = refl })

  on_candidate-Tried :
      (o : Option Metadata) (w : Moment) (fails : Bool) (k : Cache) (b : Blob) (c : Client N)
      → Sound n c.store
      → Tried c (on_candidate o n w fails k b c).1
  on_candidate-Tried none w fails k b c sound =
      after_publish-Tried fails k c (publish n w b c.store) (publish-Kept n w b c.store sound)
  on_candidate-Tried (some m) w fails k b c sound =
      elim (Bool-cases (is_text (n.sha256_of b) m.sha256)) [
        | inl same ↦ rw same (concluded-Tried fails k _ c c (Tried-refl c sound))
        | inr new ↦ rw new (
            after_publish-Tried fails k c (publish n w b c.store)
              (publish-Kept n w b c.store sound))
      ]

  after_validation-Tried :
      (v : Result Rejection Summary) (w : Moment) (fails : Bool) (k : Cache) (b : Blob)
      (c : Client N)
      → Sound n c.store
      → Tried c (after_validation v n w fails k b c).1
  after_validation-Tried (fail e) w fails k b c sound = Tried-refl c sound
  after_validation-Tried (ok _) w fails k b c sound =
      on_candidate-Tried (current_metadata c.store) w fails k b c sound

  pub on_reply-Tried :
      (url : String) (a : Attempt N) (r : OpenerReply N) (c : Client N)
      → Sound n c.store
      → Tried c (on_reply n url a r c).1
  unfolding on_reply
  on_reply-Tried url a (http_error code retry) c sound =
      elim (Bool-cases (eqb code 304 && has_payload (current_payload c.store))) [
        | inl same ↦ rw same (Tried-refl c sound)
        | inr other ↦ rw other (Tried-refl c sound)
      ]
  on_reply-Tried url a connection_error c sound = Tried-refl c sound
  on_reply-Tried url a overlong c sound = Tried-refl c sound
  on_reply-Tried url a (body b etag modified) c sound =
      after_validation-Tried (validate_oracle_csv 2 b) a.moment a.cache_fails _ b c sound
