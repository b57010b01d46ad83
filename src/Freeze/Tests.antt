-- ===== src/Freeze/Tests.antt =====
-- `load_current_freeze` of src/freeze.py on a disk of seven files, where a content is its own digest.
use lol_predictor.Prelude.{
  String, ◌≡◌, refl, true, Option, some, [], ◌∷◌, ok, fail, ◌==◌, if◌then◌else◌,
}
use lol_predictor.Freeze.{
  FileEntry, Manifest, Project, Tools, Labelled, load_current_freeze, artifact_mismatch,
}

abbrev file_entry : String → FileEntry
file_entry name = record { path = name; sha256 = name }

abbrev manifest : Manifest String
manifest = record {
  unsigned = record {
    schema_version = some "lol-dataset-freeze/1.1";
    freeze_id = some "f1";
    dataset_freeze = "f1";
    artifacts = ("ratings", file_entry "ratings.json") ∷ [];
    snapshot_payload = file_entry "payload.csv";
    snapshot_metadata = file_entry "metadata.json";
    backtest_manifest = file_entry "backtest.json";
    collection_archive = file_entry "events.jsonl";
    collection_run = file_entry "run.json";
    identities =
        ("teams", record { frozen = file_entry "teams"; active_path = "teams" })
        ∷ ("aliases", record { frozen = file_entry "aliases"; active_path = "aliases" })
        ∷ ("canonical_teams", record { frozen = file_entry "canonical"; active_path = "canonical" })
        ∷ [];
    combined_sha256 = "all";
    configuration = file_entry "config.yaml";
    active_config = "config.yaml";
    governance = ("trials", file_entry "trials.json") ∷ [];
    source_sha256 = "all";
    lol_predictor_version = "1";
    predictor_core_version = "2";
  };
  manifest_hash = some "sealed";
}

abbrev tools : Tools String String
tools = record {
  sha256 = λ c. c;
  read_pointer = λ _. some (record {
    schema_version = some "lol-current-freeze/1.0";
    freeze_id = some "f1";
    path = "manifest.json";
    manifest_hash = some "sealed";
  });
  read_manifest = λ _. some manifest;
  seal = λ _. "sealed";
  hash_of = λ _. "all";
  core = λ d. some (record { verifies = true; freeze_id = d });
  resolve = λ p. some p;
  is_absolute = λ _. true;
  pointer_path = "current_freeze.json";
  lol_predictor_version = "1";
  predictor_core_version = "2";
}

-- every file holds its name
abbrev disk : String → Option String
disk path = some path

abbrev altered : String → Option String
altered path = if path == "ratings.json" then some "other" else some path

abbrev project : Option Project
project = some (record { within = λ p. p; source_files = ("model.py", "model.py") ∷ [] })

abbrev labels : Labelled
labels =
    ("ratings", "ratings.json")
    ∷ ("snapshot", "payload.csv")
    ∷ ("snapshot_metadata", "metadata.json")
    ∷ ("backtest_manifest", "backtest.json")
    ∷ ("collection_archive", "events.jsonl")
    ∷ ("collection_run", "run.json")
    ∷ ("identity_teams", "teams")
    ∷ ("identity_aliases", "aliases")
    ∷ ("identity_canonical_teams", "canonical")
    ∷ ("configuration", "config.yaml")
    ∷ ("governance_trials", "trials.json")
    ∷ []

loads : load_current_freeze tools disk project ≡ ok (manifest, labels)
unfolding load_current_freeze
loads = refl

refuses : load_current_freeze tools altered project ≡ fail artifact_mismatch
unfolding load_current_freeze
refuses = refl
