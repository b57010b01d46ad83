-- ===== src/Freeze/Publish.antt =====
-- `publish_freeze` of src/freeze.py, with `_verify_backtest_manifest` and `_immutable_copy`. A dict of
-- texts is the list of its items in the order of their keys.
use lol_predictor.Prelude.{
  String, Bool, true, false, ◌&&◌, Option, none, some, List, [], ◌∷◌, Result, ok, fail, ◌>>=◌, ◌>>◌,
  require, ◌==◌, if◌then◌else◌,
}
use lol_predictor.Approval.{is_text}
use lol_predictor.H4.Cohort.{same_key}
use lol_predictor.Freeze.{
  FreezeError, FileEntry, Pointer, Manifest, Tools, given_or, sha256_file, check_file, os_error,
  bad_backtest_seal, bad_provenance, derived_mismatch, already_differs, escapes,
}

pub record SnapshotEntries : Type 0 where
  pub payload : FileEntry
  pub metadata : FileEntry

-- `backtest_manifest.json` without `manifest_hash`
pub record BacktestUnsigned : Type 0 where
  pub schema_version : Option String
  pub snapshot : SnapshotEntries
  pub artifacts : List (String × FileEntry)
  pub processing : List (String × String)

pub record Backtest : Type 0 where
  pub unsigned : BacktestUnsigned
  pub manifest_hash : Option String

-- The call's arguments and what it uses of other code: where the files lie, the writers of JSON, the
-- commit, and the core's `DatasetFreeze(...).seal()`, which may raise.
pub record Publisher (C D : Type 0) : Type 0 where
  pub tools : Tools C D
  pub read_backtest : C → Option Backtest
  pub seal_backtest : BacktestUnsigned → String
  -- `canonical_hash` of the parsed content
  pub content_hash : C → Option String
  pub encode_manifest : Manifest D → C
  pub encode_pointer : Pointer → C
  -- `data_root / name`
  pub at_data : String → String
  pub config_path : String
  -- `project_root / name`
  pub project : String → String
  -- `freeze_root / name` of a freeze id
  pub frozen : String → String → String
  -- `path.name`, and `_relative`
  pub name_of : String → String
  pub relative : String → Option String
  pub commit : String
  pub make_core : String → BacktestUnsigned → List (String × String) → Option D

abbrev pub Disk : Type 0 → Type 0
Disk C = String → Option C

abbrev pub put_file : {C : Type 0} → String → C → Disk C → Disk C
put_file path c disk p = if p == path then some c else disk p

abbrev pub same_items : List (String × String) → List (String × String) → Bool
same_items [] [] = true
same_items (x ∷ xs) (y ∷ ys) = x.0 == y.0 && x.1 == y.1 && same_items xs ys
same_items _ _ = false

module _ {C D : Type 0} (w : Publisher C D) where
  -- `_verify_backtest_manifest`
  unfoldable pub check_derived : Disk C → List (String × FileEntry) → Result FreezeError (Unit {0})
  unfolding check_file
  check_derived disk [] = ok tt
  check_derived disk ((label, e) ∷ es) =
      let rest = check_derived disk es in do path ← check_file w.tools disk e derived_mismatch; rest

  -- both paths are resolved before the first digest is computed
  unfoldable pub verify_backtest_manifest : Disk C → Backtest → Result FreezeError (Unit {0})
  unfolding check_derived
  verify_backtest_manifest disk b = do
    require
        (is_text "lol-backtest-manifest/1.0" b.unsigned.schema_version
          && same_key b.manifest_hash (some (w.seal_backtest b.unsigned)))
        bad_backtest_seal
    payload ← given_or (w.tools.resolve b.unsigned.snapshot.payload.path) escapes
    metadata ← given_or (w.tools.resolve b.unsigned.snapshot.metadata.path) escapes
    digest ← sha256_file w.tools disk payload
    require (digest == b.unsigned.snapshot.payload.sha256) bad_provenance
    other ← sha256_file w.tools disk metadata
    require (other == b.unsigned.snapshot.metadata.sha256) bad_provenance
    check_derived disk b.unsigned.artifacts

  abbrev pub same_digest : Disk C → String → String → Result FreezeError (Unit {0})
  same_digest disk source target = do
    a ← sha256_file w.tools disk source
    b ← sha256_file w.tools disk target
    require (a == b) already_differs

  -- what a copy does to the disk; the temporary file that it replaces the target with is gone after it
  unfoldable pub immutable_copy : String → String → Disk C → Result FreezeError (Unit {0}) × Disk C
  immutable_copy source target disk = elim (disk target) [
    | none ↦ elim (disk source) [
      | none ↦ (fail os_error, disk)
      | some c ↦ (ok tt, put_file target c disk)
    ]
    | some _ ↦ (same_digest disk source target, disk)
  ]

  -- a step on the disk, and what follows unless it raised
  abbrev pub then_on :
      {A B : Type 0}
      → Result FreezeError A × Disk C
      → (A → Disk C → Result FreezeError B × Disk C)
      → Result FreezeError B × Disk C
  then_on (ok a, disk) k = k a disk
  then_on (fail e, disk) k = (fail e, disk)

  unfoldable pub copy_all : List (String × String) → Disk C → Result FreezeError (Unit {0}) × Disk C
  unfolding immutable_copy
  copy_all [] disk = (ok tt, disk)
  copy_all ((source, target) ∷ files) disk =
      then_on (immutable_copy source target disk) (λ _ d. copy_all files d)

  unfoldable pub expected_processing : Disk C → Result FreezeError (List (String × String))
  expected_processing disk = do
    config ← sha256_file w.tools disk w.config_path
    model ← sha256_file w.tools disk (w.project "src/model.py")
    code ← sha256_file w.tools disk (w.project "scripts/backtest_walkforward.py")
    teams ← sha256_file w.tools disk (w.at_data "canonical_teams.json")
    archive ← sha256_file w.tools disk (w.at_data "collection_archive/events.jsonl")
    content ← given_or (disk (w.at_data "collection_archive/latest_run.json")) os_error
    run ← given_or (w.content_hash content) os_error
    ok (
        ("backtest_code_sha256", code)
        ∷ ("canonical_teams_sha256", teams)
        ∷ ("collection_archive_sha256", archive)
        ∷ ("collection_run_sha256", run)
        ∷ ("config_sha256", config)
        ∷ ("model_code_sha256", model)
        ∷ [])

  abbrev pub is_there : Disk C → String → Bool
  is_there disk path = elim (disk path) [ none ↦ false | some _ ↦ true ]

  unfoldable pub inputs_there : Disk C → Bool
  inputs_there disk =
      is_there disk (w.at_data "trials.json")
      && is_there disk (w.at_data "data_acquisition_charter.json")
      && is_there disk (w.at_data "teams_lol.json")
      && is_there disk (w.at_data "polymarket_aliases.json")
      && is_there disk (w.at_data "canonical_teams.json")
      && is_there disk w.config_path
