-- ===== src/Ingestion/Csv.antt =====
-- `validate_oracle_csv` of src/data/ingestion.py. Decoding, csv and `fromisoformat` are libraries:
-- a file is given as what they make of it. A day is its number; `date().isoformat()` orders texts
-- as days. Case folding is that of ASCII.
use lol_predictor.Prelude.{
  starts_with, occurs_in, ℕ, suc, String, ◌*◌, Bool, false, ◌&&◌, ◌||◌, not, Option, none, some,
  List, [], ◌∷◌, Result, ok, fail, ◌>>=◌, ◌>>◌, require, codes, strip, lower, text_eq, is_empty,
  eqb, ltb, if◌then◌else◌,
}

-- The reasons of an `IngestionError`; `crash` is an exception of another class.
pub data Rejection : Type 0 where
  no_file too_large html missing_column no_identity bad_result no_timestamp bad_timestamp :
      Rejection
  few_rows unreadable_csv crash : Rejection
  time_regression same_content same_id : Rejection
  too_long disk : Rejection
  no_snapshot incomplete_metadata hash_mismatch bad_time regressive stale : Rejection

pub record CsvRow : Type 0 where
  pub gameid : Option String
  pub league : Option String
  pub teamname : Option String
  pub result : Option String
  pub date : Option String
  -- what `fromisoformat` makes of the stripped date
  pub day : Option ℕ

-- A file: its first 512 characters, the header and the rows up to the first csv or decoding error.
pub record Blob : Type 0 where
  pub size : ℕ
  pub opens : Bool
  pub sample : List ℕ
  pub columns : List String
  pub rows : List CsvRow
  pub breaks : Bool

pub record Summary : Type 0 where
  pub row_count : ℕ
  pub first_day : ℕ
  pub last_day : ℕ

abbrev max_bytes : ℕ
max_bytes = 150 * 1024 * 1024

-- `(row.get(key) or "").strip()`
abbrev pub cell : Option String → List ℕ
cell none = []
cell (some s) = strip (codes s)

abbrev drop_spaces : List ℕ → List ℕ
drop_spaces [] = []
drop_spaces (c ∷ s) = let rest = drop_spaces s in if is_empty (strip (c ∷ [])) then rest else c ∷ s

unfoldable pub is_html : List ℕ → Bool
unfolding lower
is_html sample =
    let s = lower (drop_spaces sample) in
    starts_with (codes "<html") s
    || occurs_in (codes "quota exceeded") s
    || occurs_in (codes "access denied") s

abbrev has_column : List ℕ → List String → Bool
has_column name [] = false
has_column name (c ∷ cs) = text_eq (lower (strip (codes c))) name || has_column name cs

unfoldable pub has_columns : List String → Bool
has_columns cs =
    has_column (codes "gameid") cs
    && has_column (codes "league") cs
    && has_column (codes "teamname") cs
    && has_column (codes "date") cs
    && has_column (codes "result") cs

-- the body of the loop: the day of one row
unfoldable pub check_row : CsvRow → Result Rejection ℕ
unfolding text_eq
check_row r = do
  require
      (not (is_empty (cell r.gameid))
        && not (is_empty (cell r.league))
        && not (is_empty (cell r.teamname)))
      no_identity
  require (text_eq (cell r.result) (codes "0") || text_eq (cell r.result) (codes "1")) bad_result
  require (not (is_empty (cell r.date))) no_timestamp
  elim r.day [ none ↦ fail bad_timestamp | some d ↦ ok d ]

unfoldable pub days_of : List CsvRow → Result Rejection (List ℕ)
unfolding check_row
days_of [] = ok []
days_of (r ∷ rs) = let rest = days_of rs in do d ← check_row r; ds ← rest; ok (d ∷ ds)

abbrev min_of : ℕ → List ℕ → ℕ
min_of m [] = m
min_of m (d ∷ ds) = min_of (if ltb d m then d else m) ds

abbrev max_of : ℕ → List ℕ → ℕ
max_of m [] = m
max_of m (d ∷ ds) = max_of (if ltb m d then d else m) ds

abbrev count : List ℕ → ℕ
count [] = 0
count (_ ∷ ds) = suc (count ds)

-- `min(dates)` of no dates raises
abbrev summary : List ℕ → Result Rejection Summary
summary [] = fail crash
summary (d ∷ ds) =
    ok (record { row_count = count (d ∷ ds); first_day = min_of d ds; last_day = max_of d ds })

unfoldable pub validate_oracle_csv : ℕ → Blob → Result Rejection Summary
unfolding is_html has_columns days_of
validate_oracle_csv min_rows b = do
  require (not (eqb b.size 0)) no_file
  require (not (ltb max_bytes b.size)) too_large
  require b.opens unreadable_csv
  require (not (is_html b.sample)) html
  require (has_columns b.columns) missing_column
  days ← days_of b.rows
  require (not b.breaks) unreadable_csv
  require (not (ltb (count days) min_rows)) few_rows
  summary days
