-- ===== src/Freeze.antt =====
-- Sealed freezes of the data set: `load_current_freeze` of src/freeze.py over a disk that maps paths
-- to contents. Hashes, the JSON reader, path resolution, the seal of predictor-core and the installed
-- versions are a record `Tools`. A manifest that is read has every key that the code reads.
pub mod Loaded
pub mod Complete
pub mod Publish
pub mod Issue
pub mod Kept
mod Tests
mod IssueTests
use lol_predictor.Prelude.{
  ℕ, String, Bool, true, false, ◌&&◌, Option, none, some, List, [], ◌∷◌, ◌++◌, map, Result, ok,
  fail, ◌>>=◌, ◌>>◌, require, ◌==◌, if◌then◌else◌, append_text,
}
use lol_predictor.Approval.{is_text}
use lol_predictor.H4.Cohort.{same_key}

-- `key_error` and `os_error` are exceptions that are no `FreezeError`.
pub data FreezeError : Type 0 where
  unavailable bad_seal bad_core escapes cannot_hash artifact_mismatch : FreezeError
  snapshot_mismatch metadata_mismatch backtest_mismatch archive_mismatch run_mismatch : FreezeError
  identity_mismatch active_identity_differs combined_mismatch config_mismatch : FreezeError
  active_config_differs needs_project governance_mismatch code_differs : FreezeError
  versions_differ : FreezeError
  no_backtest bad_backtest_seal bad_provenance derived_mismatch other_processing : FreezeError
  missing_inputs already_differs : FreezeError
  key_error os_error : FreezeError

-- A relative path and the digest of what stands there.
pub record FileEntry : Type 0 where
  pub path : String
  pub sha256 : String

pub record IdentityEntry : Type 0 where
  pub frozen : FileEntry
  pub active_path : String

-- `current_freeze.json`
pub record Pointer : Type 0 where
  pub schema_version : Option String
  pub freeze_id : Option String
  pub path : String
  pub manifest_hash : Option String

-- The manifest without `manifest_hash`. `D` is the dict of the core's `DatasetFreeze`.
pub record Unsigned (D : Type 0) : Type 0 where
  pub schema_version : Option String
  pub freeze_id : Option String
  pub dataset_freeze : D
  pub artifacts : List (String × FileEntry)
  pub snapshot_payload : FileEntry
  pub snapshot_metadata : FileEntry
  pub backtest_manifest : FileEntry
  pub collection_archive : FileEntry
  pub collection_run : FileEntry
  pub identities : List (String × IdentityEntry)
  pub combined_sha256 : String
  pub configuration : FileEntry
  pub active_config : String
  pub governance : List (String × FileEntry)
  pub source_sha256 : String
  pub lol_predictor_version : String
  pub predictor_core_version : String

pub record Manifest (D : Type 0) : Type 0 where
  pub unsigned : Unsigned D
  pub manifest_hash : Option String

-- `project_root`: where its relative paths lie, and the six source files in the order of their names
pub record Project : Type 0 where
  pub within : String → String
  pub source_files : List (String × String)

-- predictor-core's `DatasetFreeze`: what `verify()` says, and its id
pub record CoreFreeze : Type 0 where
  pub verifies : Bool
  pub freeze_id : String

pub record Tools (C D : Type 0) : Type 0 where
  pub sha256 : C → String
  pub read_pointer : C → Option Pointer
  pub read_manifest : C → Option (Manifest D)
  -- `canonical_hash` of the manifest without its hash, and of a dict of digests, given as its items
  -- in the order of their keys
  pub seal : Unsigned D → String
  pub hash_of : List (String × String) → String
  -- `_dataset_freeze_from_dict`, which may raise
  pub core : D → Option CoreFreeze
  pub resolve : String → Option String
  pub is_absolute : String → Bool
  pub pointer_path : String
  pub lol_predictor_version : String
  pub predictor_core_version : String

-- The paths that a call returns, by label.
abbrev pub Labelled : Type 0
Labelled = List (String × String)

abbrev pub given_or {ℓ} : {A : Type ℓ} → Option A → FreezeError → Result FreezeError A
given_or none e = fail e
given_or (some a) e = ok a

-- `manifest["identities"][label]["sha256"]`
unfoldable pub digest_under : String → List (String × IdentityEntry) → Option String
digest_under label [] = none
digest_under label ((l, e) ∷ es) =
    let rest = digest_under label es in if l == label then some e.frozen.sha256 else rest

module _ {C D : Type 0} (t : Tools C D) (disk : String → Option C) where
  abbrev pub sha256_file : String → Result FreezeError String
  sha256_file path = given_or (disk path) cannot_hash >>= λ c. ok (t.sha256 c)

  -- `_resolve` of the path, and the comparison with the digest; returns the resolved path
  unfoldable pub check_file : FileEntry → FreezeError → Result FreezeError String
  check_file e error = do
    path ← given_or (t.resolve e.path) escapes
    digest ← sha256_file path
    require (digest == e.sha256) error
    ok path

  unfoldable pub check_all :
      String → FreezeError → List (String × FileEntry) → Result FreezeError Labelled
  unfolding check_file
  check_all prefix error [] = ok []
  check_all prefix error ((label, e) ∷ es) =
      let rest = check_all prefix error es in
      do path ← check_file e error; others ← rest; ok ((append_text prefix label, path) ∷ others)

  -- one identity map: the frozen copy, and the file in use
  unfoldable pub check_identity : IdentityEntry → Result FreezeError String
  unfolding check_file
  check_identity e = do
    path ← check_file e.frozen identity_mismatch
    active ←
        check_file (record { path = e.active_path; sha256 = e.frozen.sha256 })
          active_identity_differs
    ok path

  unfoldable pub check_identities : List (String × IdentityEntry) → Result FreezeError Labelled
  unfolding check_identity
  check_identities [] = ok []
  check_identities ((label, e) ∷ es) =
      let rest = check_identities es in
      do path ← check_identity e; others ← rest; ok ((append_text "identity_" label, path) ∷ others)

  -- `combined`, from the digests that the manifest names; a label that is missing is a KeyError
  unfoldable pub combined_of : List (String × IdentityEntry) → Result FreezeError String
  unfolding digest_under
  combined_of es = do
    teams ← given_or (digest_under "teams" es) key_error
    aliases ← given_or (digest_under "aliases" es) key_error
    canonical ← given_or (digest_under "canonical_teams" es) key_error
    ok (t.hash_of (("aliases", aliases) ∷ ("canonical_teams", canonical) ∷ ("teams", teams) ∷ []))

  abbrev pub active_path : Option Project → String → Result FreezeError String
  active_path project path =
      if t.is_absolute path
      then ok path
      else (given_or project needs_project >>= λ p. ok (p.within path))

  unfoldable pub check_config : Option Project → FileEntry → String → Result FreezeError String
  unfolding check_file
  check_config project e active = do
    frozen ← check_file e config_mismatch
    path ← active_path project active
    digest ← sha256_file path
    require (digest == e.sha256) active_config_differs
    ok frozen

  unfoldable pub digests_of : List (String × String) → Result FreezeError (List (String × String))
  digests_of [] = ok []
  digests_of ((name, path) ∷ files) =
      let rest = digests_of files in
      do digest ← sha256_file path; others ← rest; ok ((name, digest) ∷ others)

  unfoldable pub check_code : Option Project → String → Result FreezeError (Unit {0})
  unfolding digests_of
  check_code none digest = ok tt
  check_code (some p) digest = do
    digests ← digests_of p.source_files
    require (t.hash_of digests == digest) code_differs
    ok tt

  unfoldable pub sealed : Pointer → Manifest D → Bool
  sealed p m =
      is_text "lol-current-freeze/1.0" p.schema_version
      && is_text "lol-dataset-freeze/1.1" m.unsigned.schema_version
      && same_key m.unsigned.freeze_id p.freeze_id
      && same_key m.manifest_hash p.manifest_hash
      && same_key m.manifest_hash (some (t.seal m.unsigned))

  unfoldable pub read_current : Result FreezeError (Pointer × Manifest D)
  read_current = do
    content ← given_or (disk t.pointer_path) unavailable
    pointer ← given_or (t.read_pointer content) unavailable
    target ← given_or (t.resolve pointer.path) escapes
    body ← given_or (disk target) unavailable
    manifest ← given_or (t.read_manifest body) unavailable
    ok (pointer, manifest)

  unfoldable pub check_core : Unsigned D → Result FreezeError (Unit {0})
  check_core u = do
    core ← given_or (t.core u.dataset_freeze) key_error
    require (core.verifies && same_key (some core.freeze_id) u.freeze_id) bad_core

  -- both paths are resolved before the first digest is computed
  unfoldable pub check_archive : FileEntry → FileEntry → Result FreezeError (String × String)
  check_archive archive run = do
    archive_path ← given_or (t.resolve archive.path) escapes
    run_path ← given_or (t.resolve run.path) escapes
    digest ← sha256_file archive_path
    require (digest == archive.sha256) archive_mismatch
    run_digest ← sha256_file run_path
    require (run_digest == run.sha256) run_mismatch
    ok (archive_path, run_path)

  unfoldable pub check_files : Option Project → Unsigned D → Result FreezeError Labelled
  unfolding check_all check_file check_archive check_identities combined_of check_config
  check_files project u = do
    artifacts ← check_all "" artifact_mismatch u.artifacts
    payload ← check_file u.snapshot_payload snapshot_mismatch
    metadata ← check_file u.snapshot_metadata metadata_mismatch
    backtest ← check_file u.backtest_manifest backtest_mismatch
    collection ← check_archive u.collection_archive u.collection_run
    identities ← check_identities u.identities
    combined ← combined_of u.identities
    require (combined == u.combined_sha256) combined_mismatch
    config ← check_config project u.configuration u.active_config
    governance ← check_all "governance_" governance_mismatch u.governance
    ok (
        artifacts
        ++ ("snapshot", payload)
          ∷ ("snapshot_metadata", metadata)
          ∷ ("backtest_manifest", backtest)
          ∷ ("collection_archive", collection.0)
          ∷ ("collection_run", collection.1)
          ∷ (identities ++ ("configuration", config) ∷ governance))

  unfoldable pub load_current_freeze : Option Project → Result FreezeError (Manifest D × Labelled)
  unfolding read_current sealed check_core check_files check_code
  load_current_freeze project = do
    current ← read_current
    require (sealed current.0 current.1) bad_seal
    check_core current.1.unsigned
    artifacts ← check_files project current.1.unsigned
    check_code project current.1.unsigned.source_sha256
    require
        (t.lol_predictor_version == current.1.unsigned.lol_predictor_version
          && t.predictor_core_version == current.1.unsigned.predictor_core_version)
        versions_differ
    ok (current.1, artifacts)
