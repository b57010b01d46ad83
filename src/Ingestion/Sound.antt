-- ===== src/Ingestion/Sound.antt =====
-- What every publication of src/data/ingestion.py keeps: the snapshot that `current.json` names is
-- whole, valid and described by its metadata.
use lol_predictor.Prelude.{
  ℕ, String, ◌≡◌, ◌⊎◌, inl, inr, refl, ap, Bool, true, false, not, none, some, List, Result, ok,
  fail, >>=-ok, require-then, ok-eq, Bool-cases, eq_iff, eq_refl, ◌==◌, arith,
}
use lol_predictor.Approval.{is_text}
use lol_predictor.Ingestion.Csv.{Rejection, Blob, Summary, validate_oracle_csv}
use lol_predictor.Ingestion.Store.{
  Metadata, Snapshot, Store, Fault, no_fault, at_folder, at_payload, at_metadata, at_pointer,
  Moment, Naming, find, current_snapshot, current_metadata, range_end, digest_of, is_before,
  new_metadata, is_taken, with_folder, write_snapshot, check_candidate, written, publish,
}

abbrev pub whole_snapshot : Naming → String → Blob → ℕ → Summary → Snapshot
whole_snapshot n name b now summary = record {
  name = name;
  payload = some b;
  metadata = some (new_metadata now (n.sha256_of b) summary);
}

-- No current snapshot, or one with a payload that validates and the metadata made of it.
pub data Sound (n : Naming) (s : Store) : Type 0 where
  nothing : s.current ≡ none → Sound n s
  holds :
      (name : String) (b : Blob) (now : ℕ) (summary : Summary)
      → s.current ≡ some name
      → current_snapshot s ≡ some (whole_snapshot n name b now summary)
      → validate_oracle_csv 2 b ≡ ok summary
      → Sound n s

find-fresh :
    (new cur : String) (ss : List Snapshot) {x : Snapshot}
    → is_taken (find new ss) ≡ false
    → find cur ss ≡ some x
    → (new == cur) ≡ false
find-fresh new cur ss fresh found = elim (Bool-cases (new == cur)) [
  | inr other ↦ other
  | inl same ↦ let taken = rw ((eq_iff new cur).0 same) at fresh in cc (ap is_taken found, taken)
]

module _ (n : Naming) where
  with_folder-current :
      (s : Store) (folder : Snapshot)
      → Sound n s
      → is_taken (find folder.name s.snapshots) ≡ false
      → current_snapshot (with_folder folder s) ≡ current_snapshot s
  unfolding current_snapshot
  with_folder-current s folder (nothing e) fresh = rw e refl
  with_folder-current s folder (holds name b now summary e found valid) fresh =
      let at_name : find name s.snapshots ≡ some (whole_snapshot n name b now summary) =
        rw e at found in
      rw (e, find-fresh folder.name name s.snapshots fresh at_name) refl

  -- A publication that raised: the current snapshot is the one from before.
  pub record Refused (s : Store) (r : Result Rejection Metadata × Store) : Type 0 where
    pub reason : Rejection
    pub raises : r.0 ≡ fail reason
    pub same_pointer : r.1.current ≡ s.current
    pub same_snapshot : current_snapshot r.1 ≡ current_snapshot s

  -- A publication that ended: the payload is current, and its range does not end earlier.
  pub record Accepted (s : Store) (now : ℕ) (b : Blob) (r : Result Rejection Metadata × Store)
      : Type 0 where
    pub name : String
    pub summary : Summary
    pub valid : validate_oracle_csv 2 b ≡ ok summary
    pub not_earlier : is_before summary.last_day (range_end (current_metadata s)) ≡ false
    pub new_content : is_text (n.sha256_of b) (digest_of (current_metadata s)) ≡ false
    pub returns : r.0 ≡ ok (new_metadata now (n.sha256_of b) summary)
    pub pointer : r.1.current ≡ some name
    pub snapshot : current_snapshot r.1 ≡ some (whole_snapshot n name b now summary)

  not-true : (b : Bool) → not b ≡ true → b ≡ false
  not-true b h = ground arith

  check_candidate-ok :
      (now : ℕ) (b : Blob) (s : Store) {summary : Summary}
      → check_candidate n now b s ≡ ok summary
      → (validate_oracle_csv 2 b ≡ ok summary)
        × (is_before summary.last_day (range_end (current_metadata s)) ≡ false)
        × (is_text (n.sha256_of b) (digest_of (current_metadata s)) ≡ false)
        × (is_taken (find (n.name_of now (n.sha256_of b)) s.snapshots) ≡ false)
  unfolding check_candidate
  check_candidate-ok now b s h =
      let (summary, valid, h1) = >>=-ok (validate_oracle_csv 2 b) _ h in
      let late = not (is_before summary.last_day (range_end (current_metadata s))) in
      let new = not (is_text (n.sha256_of b) (digest_of (current_metadata s))) in
      let free = not (is_taken (find (n.name_of now (n.sha256_of b)) s.snapshots)) in
      let (a, h2) = require-then late _ _ h1 in
      let (c, h3) = require-then new _ _ h2 in
      let (d, h4) = require-then free _ _ h3 in
      let same = ok-eq refl h4 in
      (rw (← same) valid, rw (← same) (not-true _ a), not-true _ c, not-true _ d)

  write_snapshot-cases :
      (fault : Fault) (name : String) (now : ℕ) (b : Blob) (summary : Summary) (s : Store)
      → Sound n s
      → is_taken (find name s.snapshots) ≡ false
      → validate_oracle_csv 2 b ≡ ok summary
      → is_before summary.last_day (range_end (current_metadata s)) ≡ false
      → is_text (n.sha256_of b) (digest_of (current_metadata s)) ≡ false
      → Refused s (write_snapshot fault name b (new_metadata now (n.sha256_of b) summary) s)
        ⊎ Accepted s now b
            (write_snapshot fault name b (new_metadata now (n.sha256_of b) summary) s)
  unfolding write_snapshot current_snapshot
  write_snapshot-cases at_folder name now b summary s sound fresh valid late new =
      inl (record { reason = _; raises = refl; same_pointer = refl; same_snapshot = refl })
  write_snapshot-cases at_payload name now b summary s sound fresh valid late new =
      let folder : Snapshot = record { name = name; payload = none; metadata = none } in
      inl (record {
        reason = _;
        raises = refl;
        same_pointer = refl;
        same_snapshot = with_folder-current s folder sound fresh;
      })
  write_snapshot-cases at_metadata name now b summary s sound fresh valid late new =
      let folder : Snapshot = record { name = name; payload = some b; metadata = none } in
      inl (record {
        reason = _;
        raises = refl;
        same_pointer = refl;
        same_snapshot = with_folder-current s folder sound fresh;
      })
  write_snapshot-cases at_pointer name now b summary s sound fresh valid late new =
      let folder = whole_snapshot n name b now summary in
      inl (record {
        reason = _;
        raises = refl;
        same_pointer = refl;
        same_snapshot = with_folder-current s folder sound fresh;
      })
  write_snapshot-cases no_fault name now b summary s sound fresh valid late new = inr (record {
    name = name;
    summary = summary;
    valid = valid;
    not_earlier = late;
    new_content = new;
    returns = refl;
    pointer = refl;
    snapshot = rw (eq_refl name) refl;
  })

  written-cases :
      (c : Result Rejection Summary) (w : Moment) (b : Blob) (s : Store)
      → check_candidate n w.now b s ≡ c
      → Sound n s
      → Refused s (written c n w b s) ⊎ Accepted s w.now b (written c n w b s)
  written-cases (fail e) w b s h sound =
      inl (record { reason = e; raises = refl; same_pointer = refl; same_snapshot = refl })
  written-cases (ok summary) w b s h sound =
      let (valid, late, new, fresh) = check_candidate-ok w.now b s h in
      write_snapshot-cases w.fault (n.name_of w.now (n.sha256_of b)) w.now b summary s sound fresh
        valid late new

  pub publish-cases :
      (w : Moment) (b : Blob) (s : Store)
      → Sound n s
      → Refused s (publish n w b s) ⊎ Accepted s w.now b (publish n w b s)
  unfolding publish
  publish-cases w b s sound = written-cases (check_candidate n w.now b s) w b s refl sound
