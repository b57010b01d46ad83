-- ===== src/Ingestion/Store.antt =====
-- `SnapshotStore` of src/data/ingestion.py: immutable snapshot folders and a pointer file.
-- `_publication_lock` makes one publication at a time. SHA-256 and the text of a snapshot's name are
-- arguments. Times are in microseconds; `_iso` keeps whole seconds.
use lol_predictor.Prelude.{
  ℕ, String, ◌+◌, ◌*◌, ◌/◌, Bool, true, false, not, Option, none, some, List, [], ◌∷◌, Result, ok,
  fail, ◌>>=◌, ◌>>◌, require, Stamp, aware, day, ◌==◌, ltb, if◌then◌else◌,
}
use lol_predictor.Approval.{is_text}
use lol_predictor.Ingestion.Csv.{
  Rejection, time_regression, same_content, same_id, disk, Blob, Summary, validate_oracle_csv,
}

-- `metadata.json`: `none` is a missing key; a value that is no text, or no time, is read as a text or a
-- stamp that is none. Of the summary only what is read back is kept.
pub record Metadata : Type 0 where
  pub has_source : Bool
  pub has_schema_version : Bool
  pub has_row_count : Bool
  pub retrieved_at : Option Stamp
  pub observed_at : Option Stamp
  pub available_at : Option Stamp
  pub sha256 : Option String
  pub hash : Option String
  pub source_status : Option String
  pub temporal_range_end : Option ℕ

-- A folder under `snapshots`: the payload, if it is there, and the metadata, if it reads as an object.
pub record Snapshot : Type 0 where
  pub name : String
  pub payload : Option Blob
  pub metadata : Option Metadata

-- `current` is the snapshot that `current.json` names, if it reads as an object that names one.
pub record Store : Type 0 where
  pub snapshots : List Snapshot
  pub current : Option String

-- Where the disk fails during a publication.
pub data Fault : Type 0 where
  no_fault at_folder at_payload at_metadata at_pointer : Fault

-- What one publication draws from outside.
pub record Moment : Type 0 where
  pub now : ℕ
  pub fault : Fault

pub record Naming : Type 0 where
  -- `_sha256`
  pub sha256_of : Blob → String
  -- the name made of the time and the first characters of the digest
  pub name_of : ℕ → String → String

abbrev pub find : String → List Snapshot → Option Snapshot
find name [] = none
find name (s ∷ ss) = if s.name == name then some s else find name ss

abbrev pub payload_of : Option Snapshot → Option Blob
payload_of none = none
payload_of (some s) = s.payload

abbrev pub metadata_of : Option Snapshot → Option Metadata
metadata_of none = none
metadata_of (some s) = s.metadata

unfoldable pub current_snapshot : Store → Option Snapshot
current_snapshot s = elim s.current [ none ↦ none | some name ↦ find name s.snapshots ]

unfoldable pub current_payload : Store → Option Blob
unfolding current_snapshot
current_payload s = payload_of (current_snapshot s)

unfoldable pub current_metadata : Store → Option Metadata
unfolding current_snapshot
current_metadata s = metadata_of (current_snapshot s)

abbrev pub range_end : Option Metadata → Option ℕ
range_end none = none
range_end (some m) = m.temporal_range_end

abbrev pub digest_of : Option Metadata → Option String
digest_of none = none
digest_of (some m) = m.sha256

abbrev pub is_before : ℕ → Option ℕ → Bool
is_before d none = false
is_before d (some e) = ltb d e

abbrev pub seconds : ℕ → ℕ
seconds t = t / 1000000 * 1000000

-- 23:59:59 of a day
abbrev pub end_of_day : ℕ → ℕ
end_of_day d = d * day + 86399 * 1000000

unfoldable pub new_metadata : ℕ → String → Summary → Metadata
new_metadata now digest summary = record {
  has_source = true;
  has_schema_version = true;
  has_row_count = true;
  retrieved_at = some (aware (seconds now));
  observed_at = some (aware (end_of_day summary.last_day));
  available_at = some (aware (seconds now));
  sha256 = some digest;
  hash = some digest;
  source_status = some "PUBLISHED";
  temporal_range_end = some summary.last_day;
}

abbrev pub is_taken : Option Snapshot → Bool
is_taken none = false
is_taken (some _) = true

abbrev pub with_folder : Snapshot → Store → Store
with_folder folder s = record s { snapshots = folder ∷ s.snapshots }

-- the part of `_publish_unlocked` that writes
unfoldable pub write_snapshot :
    Fault → String → Blob → Metadata → Store → Result Rejection Metadata × Store
write_snapshot at_folder name b m s = (fail disk, s)
write_snapshot at_payload name b m s =
    (fail disk, with_folder (record { name = name; payload = none; metadata = none }) s)
write_snapshot at_metadata name b m s =
    (fail disk, with_folder (record { name = name; payload = some b; metadata = none }) s)
write_snapshot at_pointer name b m s =
    (fail disk, with_folder (record { name = name; payload = some b; metadata = some m }) s)
write_snapshot no_fault name b m s = (
  ok m,
  record (with_folder (record { name = name; payload = some b; metadata = some m }) s) {
    current = some name;
  },
)

-- the checks of `_publish_unlocked`, in order
unfoldable pub check_candidate : Naming → ℕ → Blob → Store → Result Rejection Summary
unfolding current_metadata validate_oracle_csv
check_candidate n now b s = do
  summary ← validate_oracle_csv 2 b
  require (not (is_before summary.last_day (range_end (current_metadata s)))) time_regression
  require (not (is_text (n.sha256_of b) (digest_of (current_metadata s)))) same_content
  require (not (is_taken (find (n.name_of now (n.sha256_of b)) s.snapshots))) same_id
  ok summary

abbrev pub written :
    Result Rejection Summary → Naming → Moment → Blob → Store → Result Rejection Metadata × Store
written (fail e) n w b s = (fail e, s)
written (ok summary) n w b s =
    let digest = n.sha256_of b in
    write_snapshot w.fault (n.name_of w.now digest) b (new_metadata w.now digest summary) s

unfoldable pub publish : Naming → Moment → Blob → Store → Result Rejection Metadata × Store
unfolding check_candidate write_snapshot new_metadata
publish n w b s = written (check_candidate n w.now b s) n w b s
