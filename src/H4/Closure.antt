-- ===== src/H4/Closure.antt =====
-- `closure_status` and `assert_h4_open` of src/h4_gate.py: a closed cohort stays closed unless a
-- complete record of a human decision reopens it.
use lol_predictor.Prelude.{
  String, ◌≡◌, refl, Bool, true, false, ◌&&◌, ◌||◌, Option, none, some, Result, ok, fail,
  Bool-cases, inl, inr, if◌then◌else◌,
}
use lol_predictor.Approval.{is_text}

pub data H4Error : Type 0 where
  closure_missing closure_unreadable closure_invalid unaudited_reopening cohort_closed : H4Error

-- The parsed closure file. A key counts as present whatever its value is.
pub record ClosureRecord : Type 0 where
  pub schema_version : Option String
  pub trial : Option String
  pub scientific_status : Option String
  pub operational_status : Option String
  pub has_reopened_at : Bool
  pub has_reopening_decision : Bool
  pub has_supersedes_commit : Bool

-- `absent canonical`: no file at the path, which is or is not the default path.
pub data ClosureFile : Type 0 where
  absent : Bool → ClosureFile
  unreadable : ClosureFile
  closure : ClosureRecord → ClosureFile

unfoldable pub is_closed : ClosureRecord → Bool
is_closed c = is_text "CLOSED_BY_HUMAN_DECISION" c.scientific_status

unfoldable pub is_reopened : ClosureRecord → Bool
is_reopened c = is_text "REOPENED_BY_HUMAN_DECISION" c.scientific_status

unfoldable pub is_closure_record : ClosureRecord → Bool
unfolding is_closed is_reopened
is_closure_record c =
    is_text "lol-h4-closure/1.0" c.schema_version
    && is_text "h4-lol-market-shadow-prospectivo-v2" c.trial
    && (is_closed c || is_reopened c)
    && is_text "NO_GO" c.operational_status

abbrev pub is_audited : ClosureRecord → Bool
is_audited c = c.has_reopened_at && c.has_reopening_decision && c.has_supersedes_commit

-- `none` is an open cohort
unfoldable pub closure_status : ClosureFile → Result H4Error (Option ClosureRecord)
unfolding is_closure_record
closure_status (absent canonical) = if canonical then fail closure_missing else ok none
closure_status unreadable = fail closure_unreadable
closure_status (closure c) =
    if is_closure_record c
    then (if is_reopened c
        then (if is_audited c then ok none else fail unaudited_reopening)
        else ok (some c))
    else fail closure_invalid

abbrev open_or_raise : Result H4Error (Option ClosureRecord) → Result H4Error (Unit {0})
open_or_raise (fail e) = fail e
open_or_raise (ok none) = ok tt
open_or_raise (ok (some c)) = fail cohort_closed

unfoldable pub assert_h4_open : ClosureFile → Result H4Error (Unit {0})
unfolding closure_status
assert_h4_open file = open_or_raise (closure_status file)

-- What an open cohort shows: no file off the default path, or an audited reopening.
pub data ShowsOpen : ClosureFile → Type 0 where
  fixture : {file : ClosureFile} → file ≡ absent false → ShowsOpen file
  reopened :
      {file : ClosureFile} (c : ClosureRecord)
      → file ≡ closure c
      → is_closure_record c ≡ true
      → is_reopened c ≡ true
      → is_audited c ≡ true
      → ShowsOpen file

-- `assert_h4_open` passes only where the path is not the default one and no file is there, or where
-- a well-formed record declares a reopening with all three audit fields.
pub assert_h4_open-ShowsOpen : (file : ClosureFile) → assert_h4_open file ≡ ok tt → ShowsOpen file
unfolding assert_h4_open
assert_h4_open-ShowsOpen (absent false) h = fixture refl
assert_h4_open-ShowsOpen (absent true) h = cc
assert_h4_open-ShowsOpen unreadable h = cc
assert_h4_open-ShowsOpen (closure c) h = elim (Bool-cases (is_closure_record c)) [
  | inr bad ↦ cc (rw bad at h)
  | inl good ↦ elim (Bool-cases (is_reopened c)) [
    | inr closed ↦ cc (rw (good, closed) at h)
    | inl again ↦ elim (Bool-cases (is_audited c)) [
      | inr silent ↦ cc (rw (good, again, silent) at h)
      | inl audited ↦ reopened c refl good again audited
    ]
  ]
]
