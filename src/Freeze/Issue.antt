-- ===== src/Freeze/Issue.antt =====
-- The second half of `publish_freeze` of src/freeze.py: the copies, the manifest and the pointer.
use lol_predictor.Prelude.{
  String, none, some, List, [], ◌∷◌, Result, ok, fail, ◌>>=◌, ◌>>◌, require, append_text,
}
use lol_predictor.Freeze.{
  FreezeError, FileEntry, IdentityEntry, Unsigned, Manifest, given_or, sha256_file, digests_of,
  os_error, key_error, no_backtest, other_processing, missing_inputs, escapes, Option,
}
use lol_predictor.Freeze.Publish.{
  Backtest, Publisher, Disk, put_file, same_items, verify_backtest_manifest, immutable_copy,
  then_on, copy_all, expected_processing, inputs_there,
}

-- the names of the call's local variables
pub record Prepared : Type 0 where
  pub backtest : Backtest
  pub config_hash : String
  pub teams_hash : String
  pub aliases_hash : String
  pub canonical_hash : String
  pub identity_hash : String
  pub source_hash : String
  pub trials_hash : String
  pub freeze_id : String

-- in the order of the dict's keys
abbrev source_names : List String
source_names =
    "collection_shadow.py" ∷ "freeze.py" ∷ "identity.py" ∷ "model.py" ∷ "operations.py"
    ∷ "services.py" ∷ []

module _ {C D : Type 0} (w : Publisher C D) where
  abbrev source_files : List String → List (String × String)
  source_files [] = []
  source_files (n ∷ ns) = (n, w.project (append_text "src/" n)) ∷ source_files ns

  abbrev pub identity_of_freeze : Backtest → String → String → String → String → String
  identity_of_freeze b config identity source trials = w.tools.hash_of (
      ("backtest_manifest_hash", w.seal_backtest b.unsigned)
      ∷ ("config_hash", config)
      ∷ ("git_commit", w.commit)
      ∷ ("hypothesis_registry_hash", trials)
      ∷ ("identity_hash", identity)
      ∷ ("lol_predictor_version", w.tools.lol_predictor_version)
      ∷ ("predictor_core_version", w.tools.predictor_core_version)
      ∷ ("source_hash", source)
      ∷ [])

  -- everything above the first copy
  unfoldable pub prepare : Disk C → Result FreezeError Prepared
  unfolding verify_backtest_manifest expected_processing inputs_there digests_of
  prepare disk = do
    content ← given_or (disk (w.at_data "backtest_manifest.json")) no_backtest
    backtest ← given_or (w.read_backtest content) no_backtest
    verify_backtest_manifest w disk backtest
    expected ← expected_processing w disk
    require (same_items backtest.unsigned.processing expected) other_processing
    require (inputs_there w disk) missing_inputs
    config ← sha256_file w.tools disk w.config_path
    teams ← sha256_file w.tools disk (w.at_data "teams_lol.json")
    aliases ← sha256_file w.tools disk (w.at_data "polymarket_aliases.json")
    canonical ← sha256_file w.tools disk (w.at_data "canonical_teams.json")
    sources ← digests_of w.tools disk (source_files source_names)
    trials ← sha256_file w.tools disk (w.at_data "trials.json")
    let identity =
        w.tools.hash_of
          (("aliases", aliases) ∷ ("canonical_teams", canonical) ∷ ("teams", teams) ∷ [])
    let source = w.tools.hash_of sources
    ok (record {
      backtest = backtest;
      config_hash = config;
      teams_hash = teams;
      aliases_hash = aliases;
      canonical_hash = canonical;
      identity_hash = identity;
      source_hash = source;
      trials_hash = trials;
      freeze_id = identity_of_freeze backtest config identity source trials;
    })

  abbrev pub target_of : String → String → String
  target_of id source = w.frozen id (append_text "artifacts/" (w.name_of source))

  -- `frozen_artifacts[label] = ...`
  abbrev pub with_entry :
      String
      → String
      → Option String
      → Result FreezeError (List (String × FileEntry)) × Disk C
      → Disk C
      → Result FreezeError (List (String × FileEntry)) × Disk C
  with_entry label sha none rest disk = (fail escapes, disk)
  with_entry label sha (some path) (fail e, disk') disk = (fail e, disk')
  with_entry label sha (some path) (ok others, disk') disk =
      (ok ((label, record { path = path; sha256 = sha }) ∷ others), disk')

  -- the loop over `backtest["artifacts"]`
  unfoldable pub copy_artifacts :
      String
      → List (String × FileEntry)
      → Disk C
      → Result FreezeError (List (String × FileEntry)) × Disk C
  unfolding immutable_copy
  copy_artifacts id [] disk = (ok [], disk)
  copy_artifacts id ((label, e) ∷ es) disk = elim (w.tools.resolve e.path) [
    | none ↦ (fail escapes, disk)
    | some source ↦ then_on w (immutable_copy w source (target_of id source) disk) (λ _ d.
        with_entry label e.sha256 (w.relative (target_of id source)) (copy_artifacts id es d) d)
  ]

  -- sources and targets of the nine other copies
  abbrev pub copies : String → List (String × String)
  copies id =
      (w.at_data "backtest_manifest.json", w.frozen id "backtest_manifest.json")
      ∷ (w.config_path, w.frozen id "config.yaml")
      ∷ (w.at_data "teams_lol.json", w.frozen id "identities/teams_lol.json")
      ∷ (w.at_data "polymarket_aliases.json", w.frozen id "identities/polymarket_aliases.json")
      ∷ (w.at_data "canonical_teams.json", w.frozen id "identities/canonical_teams.json")
      ∷ (w.at_data "trials.json", w.frozen id "governance/trials.json")
      ∷ (
        w.at_data "data_acquisition_charter.json",
        w.frozen id "governance/data_acquisition_charter.json",
      )
      ∷ (w.at_data "collection_archive/events.jsonl", w.frozen id "collection/events.jsonl")
      ∷ (w.at_data "collection_archive/latest_run.json", w.frozen id "collection/latest_run.json")
      ∷ []

  -- a frozen copy by its relative path, with the digest of a file
  abbrev pub entry_for : Disk C → String → String → Result FreezeError FileEntry
  entry_for disk target hashed = do
    path ← given_or (w.relative target) escapes
    digest ← sha256_file w.tools disk hashed
    ok (record { path = path; sha256 = digest })

  abbrev identity_entry : Disk C → String → String → Result FreezeError IdentityEntry
  identity_entry disk target active = do
    frozen ← entry_for disk target active
    path ← given_or (w.relative active) escapes
    ok (record { frozen = frozen; active_path = path })

  -- `unsigned`
  unfoldable pub assemble :
      Prepared → List (String × FileEntry) → Disk C → Result FreezeError (Unsigned D)
  assemble p artifacts disk = do
    charter ← sha256_file w.tools disk (w.at_data "data_acquisition_charter.json")
    registry ← sha256_file w.tools disk (w.at_data "trials.json")
    core ←
        given_or
          (w.make_core p.freeze_id p.backtest.unsigned (
            ("charter", charter)
            ∷ ("config_hash", p.config_hash)
            ∷ ("identity_map_hash", p.identity_hash)
            ∷ ("source_hash", p.source_hash)
            ∷ ("trials", registry)
            ∷ []))
          key_error
    let at = w.frozen p.freeze_id
    backtest ← entry_for disk (at "backtest_manifest.json") (at "backtest_manifest.json")
    archive ← entry_for disk (at "collection/events.jsonl") (at "collection/events.jsonl")
    run ← entry_for disk (at "collection/latest_run.json") (at "collection/latest_run.json")
    config ← given_or (w.relative (at "config.yaml")) escapes
    teams ← identity_entry disk (at "identities/teams_lol.json") (w.at_data "teams_lol.json")
    aliases ←
        identity_entry disk (at "identities/polymarket_aliases.json")
          (w.at_data "polymarket_aliases.json")
    canonical ←
        identity_entry disk (at "identities/canonical_teams.json")
          (w.at_data "canonical_teams.json")
    trials ← entry_for disk (at "governance/trials.json") (w.at_data "trials.json")
    charters ←
        entry_for disk (at "governance/data_acquisition_charter.json")
          (w.at_data "data_acquisition_charter.json")
    ok (record {
      schema_version = some "lol-dataset-freeze/1.1";
      freeze_id = some p.freeze_id;
      dataset_freeze = core;
      artifacts = artifacts;
      snapshot_payload = p.backtest.unsigned.snapshot.payload;
      snapshot_metadata = p.backtest.unsigned.snapshot.metadata;
      backtest_manifest = backtest;
      collection_archive = archive;
      collection_run = run;
      identities = ("teams", teams) ∷ ("aliases", aliases) ∷ ("canonical_teams", canonical) ∷ [];
      combined_sha256 = p.identity_hash;
      configuration = record { path = config; sha256 = p.config_hash };
      active_config = w.config_path;
      governance = ("trials", trials) ∷ ("charter", charters) ∷ [];
      source_sha256 = p.source_hash;
      lol_predictor_version = w.tools.lol_predictor_version;
      predictor_core_version = w.tools.predictor_core_version;
    })

  -- the existing manifest of this id, or the new one
  unfoldable pub keep_or_write :
      String → Manifest D → Disk C → Result FreezeError (Manifest D) × Disk C
  keep_or_write target m disk = elim (disk target) [
    | none ↦ (ok m, put_file target (w.encode_manifest m) disk)
    | some c ↦ (given_or (w.tools.read_manifest c) os_error, disk)
  ]

  unfoldable pub point_at :
      Prepared → String → Manifest D → Disk C → Result FreezeError (Manifest D) × Disk C
  point_at p target m disk = elim (w.relative target) [
    | none ↦ (fail escapes, disk)
    | some path ↦ (
      ok m,
      put_file w.tools.pointer_path
          (w.encode_pointer (record {
            schema_version = some "lol-current-freeze/1.0";
            freeze_id = some p.freeze_id;
            path = path;
            manifest_hash = m.manifest_hash;
          }))
          disk,
    )
  ]

  unfoldable pub issue :
      Prepared → List (String × FileEntry) → Disk C → Result FreezeError (Manifest D) × Disk C
  unfolding assemble keep_or_write point_at
  issue p artifacts disk = elim (assemble p artifacts disk) [
    | fail e ↦ (fail e, disk)
    | ok u ↦
        let target = w.frozen p.freeze_id "manifest.json" in
        then_on w
          (keep_or_write target (record { unsigned = u; manifest_hash = some (w.tools.seal u) })
            disk)
          (λ m d. point_at p target m d)
  ]

  unfoldable pub publish_freeze : Disk C → Result FreezeError (Manifest D) × Disk C
  unfolding prepare copy_artifacts copy_all issue
  publish_freeze disk = elim (prepare disk) [
    | fail e ↦ (fail e, disk)
    | ok p ↦
        then_on w (copy_artifacts p.freeze_id p.backtest.unsigned.artifacts disk) (λ artifacts d.
          then_on w (copy_all w (copies p.freeze_id) d) (λ _ d'. issue p artifacts d'))
  ]
