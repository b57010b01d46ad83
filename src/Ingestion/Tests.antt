-- ===== src/Ingestion/Tests.antt =====
-- Snapshots and downloads of src/data/ingestion.py on a small file, with seconds in hundredths.
use lol_predictor.Prelude.{
  ℕ, String, ◌≡◌, refl, true, false, none, some, [], ◌∷◌, ok, fail, cents, day, codes, text_eq,
  lower, strip, ◌*◌, if◌then◌else◌, eqb,
}
use lol_predictor.Ingestion.Csv.{CsvRow, Blob, Summary, validate_oracle_csv, regressive}
use lol_predictor.Ingestion.Store.{
  Store, Naming, Moment, no_fault, publish, current_snapshot, new_metadata,
}
use lol_predictor.Ingestion.Fresh.{assert_fresh_snapshot}
use lol_predictor.Ingestion.Fetch.{
  Policy, Attempt, Client, http_error, no_retry, body, fetch, published,
}
use lol_predictor.Ingestion.Sound.{whole_snapshot}
use lol_predictor.Ingestion.Served.{assert_fresh_snapshot_lem}

abbrev row : ℕ → CsvRow
row d = record {
  gameid = some "g1";
  league = some "LCK";
  teamname = some "T1";
  result = some " 1";
  date = some "2026-01-01";
  day = some d;
}

abbrev blob : Blob
blob = record {
  size = 90;
  opens = true;
  sample = codes "gameid,league";
  columns = "gameid" ∷ " League" ∷ "teamname" ∷ "date" ∷ "result" ∷ [];
  rows = row 3 ∷ row 2 ∷ [];
  breaks = false;
}

abbrev summary : Summary
summary = record { row_count = 2; first_day = 2; last_day = 3 }

validates : validate_oracle_csv 2 blob ≡ ok summary
unfolding validate_oracle_csv text_eq lower strip
validates = refl

abbrev naming : Naming
naming = record { sha256_of = λ b. "digest"; name_of = λ _ d. d }

abbrev empty_store : Store
empty_store = record { snapshots = []; current = none }

abbrev later : Moment
later = record { now = 5 * day; fault = no_fault }

publishes : (publish naming later blob empty_store).0 ≡ ok (new_metadata (5 * day) "digest" summary)
unfolding publish new_metadata text_eq lower strip
publishes = refl

abbrev first : String
first = "digest"

abbrev served : Store
served = record {
  snapshots = whole_snapshot naming first blob (3 * day) summary ∷ [];
  current = some first;
}

serves : current_snapshot served ≡ some (whole_snapshot naming first blob (3 * day) summary)
unfolding current_snapshot
serves = refl

-- published on its last day, the snapshot is refused a day later
assert_fresh_snapshot_lem_example :
    assert_fresh_snapshot naming 48 (4 * day) served ≡ fail regressive
assert_fresh_snapshot_lem_example =
    assert_fresh_snapshot_lem naming 48 (4 * day) served first blob (3 * day) summary serves

abbrev policy : Policy ℕ
policy = record { max_attempts = 3; max_execution_seconds = 9000; base_backoff_seconds = 25 }

abbrev client : Client ℕ
client = record {
  store = empty_store;
  cache = none;
  requests = [];
  slept = [];
  last_failure = none;
}

-- a busy server first, then the file
abbrev world : ℕ → Attempt ℕ
world k = record {
  reply = if eqb k 1 then http_error 503 no_retry else body blob none none;
  moment = later;
  cache_fails = false;
  clock_after = 100;
  clock_before_sleep = 100;
  random = 10;
}

fetches :
    (fetch policy naming (λ _. true) 0 world "u" client).0
    ≡ published (new_metadata (5 * day) "digest" summary)
unfolding fetch new_metadata text_eq lower strip
fetches = refl
