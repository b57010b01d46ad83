-- ===== src/Ingestion/Fresh.antt =====
-- `assert_fresh_snapshot` of src/data/ingestion.py.
use lol_predictor.Prelude.{
  ℕ, String, ◌+◌, ◌*◌, Bool, true, false, ◌&&◌, ◌||◌, not, Option, none, some, Result, ok, fail,
  ◌>>=◌, ◌>>◌, require, Stamp, instant, hour, ◌==◌, ltb,
}
use lol_predictor.Approval.{is_text}
use lol_predictor.Ingestion.Csv.{
  Rejection, no_snapshot, incomplete_metadata, hash_mismatch, bad_time, regressive, stale, Blob,
}
use lol_predictor.Ingestion.Store.{Metadata, Store, Naming, current_payload, current_metadata}

abbrev pub is_given {ℓ} : {A : Type ℓ} → Option A → Bool
is_given none = false
is_given (some _) = true

-- `_parse_time(str(value))`
abbrev pub parse_time : Option Stamp → Result Rejection ℕ
parse_time none = fail bad_time
parse_time (some s) = elim (instant s) [ none ↦ fail bad_time | some t ↦ ok t ]

abbrev pub has_keys : Metadata → Bool
has_keys m =
    m.has_source
    && is_given m.retrieved_at
    && is_given m.observed_at
    && is_given m.available_at
    && is_given m.sha256
    && is_given m.hash
    && m.has_schema_version
    && m.has_row_count
    && is_given m.source_status

abbrev pub same_text : Option String → Option String → Bool
same_text (some s) (some t) = s == t
same_text _ _ = false

-- `age < -5 minutes or age > max_age_hours`, with `age = now - retrieved`
abbrev pub is_stale : ℕ → ℕ → ℕ → Bool
is_stale max_age_hours now retrieved =
    ltb (now + 5 * 60 * 1000000) retrieved || ltb (retrieved + max_age_hours * hour) now

unfoldable pub check_metadata : Naming → ℕ → ℕ → Metadata → Blob → Result Rejection Metadata
check_metadata n max_age_hours now m b = do
  require (has_keys m && is_text "PUBLISHED" m.source_status) incomplete_metadata
  require (same_text m.sha256 m.hash && is_text (n.sha256_of b) m.hash) hash_mismatch
  observed ← parse_time m.observed_at
  available ← parse_time m.available_at
  require (not (ltb available observed)) regressive
  retrieved ← parse_time m.retrieved_at
  require (not (is_stale max_age_hours now retrieved)) stale
  ok m

abbrev pub checked : Naming → ℕ → ℕ → Option Metadata → Option Blob → Result Rejection Metadata
checked n max_age_hours now (some m) (some b) = check_metadata n max_age_hours now m b
checked n max_age_hours now _ _ = fail no_snapshot

unfoldable pub assert_fresh_snapshot : Naming → ℕ → ℕ → Store → Result Rejection Metadata
unfolding current_metadata current_payload check_metadata
assert_fresh_snapshot n max_age_hours now s =
    checked n max_age_hours now (current_metadata s) (current_payload s)
