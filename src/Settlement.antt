-- ===== src/Settlement.antt =====
-- `settle` of scripts/settle_h4_signals.py: official results are put on the rows of the H4 cohort.
-- Of a row only what some function reads back is kept.
pub mod Idempotent
pub mod Kept
pub mod Official
mod Tests
use lol_predictor.Prelude.{
  ℕ, suc, String, Bool, true, false, ◌&&◌, ◌||◌, not, Option, none, some, List, [], ◌∷◌, Result, ok,
  fail, ◌>>=◌, ◌>>◌, require, Stamp, garbled, naive, aware, eqb, ltb, if◌then◌else◌,
}
use lol_predictor.Approval.{is_text}
use lol_predictor.H4.Signals.{Signal}
use lol_predictor.H4.Cohort.{
  SignalsFile, no_signals, unreadable_signals, lines, same_key, is_result,
}

-- `unhandled` is an exception that is no `H4Error`.
pub data SettleError : Type 0 where
  bad_result no_zone too_early changed_result unhandled : SettleError

pub record OfficialResult : Type 0 where
  pub canonical_event_id : Option String
  pub result : Option ℕ
  pub source : Option String
  pub result_available_at : Option Stamp

-- `results.json`, parsed.
pub data ResultsFile : Type 0 where
  unreadable_results : ResultsFile
  supplied : List OfficialResult → ResultsFile

-- `by_id.get(key)`: of two results for one event the later one counts
unfoldable pub by_id : Option String → List OfficialResult → Option OfficialResult
by_id key [] = none
by_id key (o ∷ os) = elim (by_id key os) [
  | some p ↦ some p
  | none ↦ if same_key key o.canonical_event_id then some o else none
]

-- `_dt`; a missing key is a text that is no time
abbrev pub zoned : Option Stamp → Result SettleError ℕ
zoned none = fail unhandled
zoned (some garbled) = fail unhandled
zoned (some (naive _)) = fail no_zone
zoned (some (aware t)) = ok t

abbrev pub same_result : Option ℕ → Option ℕ → Bool
same_result (some a) (some b) = eqb a b
same_result none none = true
same_result _ _ = false

abbrev pub counting : Bool → ℕ → ℕ
counting b n = if b then suc n else n

module _ {N : Type 0} where
  abbrev pub is_official : Signal N → Bool
  is_official r = is_text "OFFICIAL" r.settlement_status

  abbrev pub with_result : OfficialResult → Signal N → Signal N
  with_result o r = record r { result = o.result; settlement_status = some "OFFICIAL" }

  -- the row as the loop leaves it, and whether it was changed
  abbrev pub apply_result : OfficialResult → Signal N → Result SettleError (Signal N × Bool)
  apply_result o r =
      if is_official r
      then (if same_result r.result o.result then ok (r, false) else fail changed_result)
      else ok (with_result o r, true)

  unfoldable pub settle_with : OfficialResult → Signal N → Result SettleError (Signal N × Bool)
  settle_with o r = do
    require
        (is_result o.result
          && (is_text "oracle-elixir" o.source || is_text "riot-esports" o.source))
        bad_result
    available ← zoned o.result_available_at
    start ← zoned r.event_start_at
    require (not (ltb available start)) too_early
    apply_result o r

  abbrev pub settle_row : Option OfficialResult → Signal N → Result SettleError (Signal N × Bool)
  settle_row none r = ok (r, false)
  settle_row (some o) r = settle_with o r

  unfoldable pub settle_rows :
      List OfficialResult → List (Signal N) → Result SettleError (List (Signal N) × ℕ)
  unfolding by_id settle_with
  settle_rows os [] = ok ([], 0)
  settle_rows os (r ∷ rs) =
      let rest = settle_rows os rs in
      do
        first ← settle_row (by_id r.canonical_event_id os) r
        others ← rest
        ok (first.0 ∷ others.0, counting first.1 others.1)

  -- the replacement of the file, which the disk may refuse
  abbrev pub replaced :
      Bool
      → SignalsFile N
      → Result SettleError (List (Signal N) × ℕ)
      → Result SettleError ℕ × SignalsFile N
  replaced writes file (fail e) = (fail e, file)
  replaced writes file (ok (rows, n)) =
      if writes then (ok n, lines rows) else (fail unhandled, file)

  abbrev pub settle_lines :
      Bool → ResultsFile → List (Signal N) → Result SettleError ℕ × SignalsFile N
  settle_lines writes unreadable_results rows = (fail unhandled, lines rows)
  settle_lines writes (supplied os) rows = replaced writes (lines rows) (settle_rows os rows)

  -- `settle`: what it returns, and the cohort file that it leaves
  unfoldable pub settle : Bool → SignalsFile N → ResultsFile → Result SettleError ℕ × SignalsFile N
  unfolding settle_rows
  settle writes no_signals results = (ok 0, no_signals)
  settle writes unreadable_signals results = (fail unhandled, unreadable_signals)
  settle writes (lines rows) results = settle_lines writes results rows
