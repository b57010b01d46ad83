-- ===== src/Freeze/IssueTests.antt =====
-- `publish_freeze` of src/freeze.py on a disk where a text file holds its name and is its own digest.
use lol_predictor.Prelude.{
  sym, String, ◌≡◌, refl, true, Option, none, some, List, [], ◌∷◌, ok, fail, Result, is_in,
  if◌then◌else◌, append_text, some-eq, ap,
}
use lol_predictor.Freeze.{
  load_current_freeze, FileEntry, Pointer, Manifest, Tools, read_current, FreezeError,
  already_differs, no_backtest,
}
use lol_predictor.Freeze.Publish.{Backtest, Publisher, Disk, put_file}
use lol_predictor.Freeze.Issue.{publish_freeze}
use lol_predictor.Freeze.Kept.{
  Published, publish_freeze-Published, Readable, publish_freeze-read_current,
}

data Content : Type 0 where
  text : String → Content
  manifest_file : Manifest String → Content
  pointer_file : Pointer → Content

abbrev digest : Content → String
digest (text s) = s
digest (manifest_file _) = "m"
digest (pointer_file _) = "p"

abbrev file_entry : String → FileEntry
file_entry name = record { path = name; sha256 = name }

abbrev backtest : Backtest
backtest = record {
  unsigned = record {
    schema_version = some "lol-backtest-manifest/1.0";
    snapshot = record { payload = file_entry "payload.csv"; metadata = file_entry "metadata.json" };
    artifacts = ("ratings", file_entry "ratings.json") ∷ [];
    processing =
        ("backtest_code_sha256", "scripts/backtest_walkforward.py")
        ∷ ("canonical_teams_sha256", "canonical_teams.json")
        ∷ ("collection_archive_sha256", "collection_archive/events.jsonl")
        ∷ ("collection_run_sha256", "run")
        ∷ ("config_sha256", "config.yaml")
        ∷ ("model_code_sha256", "src/model.py")
        ∷ [];
  };
  manifest_hash = some "b";
}

abbrev read_manifest : Content → Option (Manifest String)
read_manifest (manifest_file m) = some m
read_manifest _ = none

abbrev read_pointer : Content → Option Pointer
read_pointer (pointer_file p) = some p
read_pointer _ = none

abbrev tools : Tools Content String
tools = record {
  sha256 = digest;
  read_pointer = read_pointer;
  read_manifest = read_manifest;
  seal = λ _. "sealed";
  hash_of = λ _. "all";
  core = λ d. some (record { verifies = true; freeze_id = d });
  resolve = λ p. some p;
  is_absolute = λ _. true;
  pointer_path = "current_freeze.json";
  lol_predictor_version = "1";
  predictor_core_version = "2";
}

abbrev publisher : Publisher Content String
publisher = record {
  tools = tools;
  read_backtest = λ _. some backtest;
  seal_backtest = λ _. "b";
  content_hash = λ _. some "run";
  encode_manifest = manifest_file;
  encode_pointer = pointer_file;
  at_data = λ n. n;
  config_path = "config.yaml";
  project = λ n. n;
  frozen = λ id n. append_text "freezes/" n;
  name_of = λ n. n;
  relative = λ p. some p;
  commit = "c";
  make_core = λ id _ _. some id;
}

abbrev files : List String
files =
    "backtest_manifest.json" ∷ "payload.csv" ∷ "metadata.json" ∷ "ratings.json" ∷ "config.yaml"
    ∷ "src/model.py" ∷ "src/services.py" ∷ "src/operations.py" ∷ "src/freeze.py" ∷ "src/identity.py"
    ∷ "src/collection_shadow.py" ∷ "scripts/backtest_walkforward.py" ∷ "canonical_teams.json"
    ∷ "teams_lol.json" ∷ "polymarket_aliases.json" ∷ "trials.json" ∷ "data_acquisition_charter.json"
    ∷ "collection_archive/events.jsonl" ∷ "collection_archive/latest_run.json" ∷ []

abbrev disk : Disk Content
disk path = if is_in path files then some (text path) else none

-- a frozen charter of other content stands under the id
abbrev other_charter : Disk Content
other_charter = put_file "freezes/governance/data_acquisition_charter.json" (text "old") disk

abbrev failure : {A : Type 0} → Result FreezeError A → Option FreezeError
failure (ok m) = none
failure (fail e) = some e

refuses_empty : failure (publish_freeze publisher (λ _. none)).0 ≡ some no_backtest
unfolding publish_freeze
refuses_empty = refl

refuses_other : failure (publish_freeze publisher other_charter).0 ≡ some already_differs
unfolding publish_freeze
refuses_other = refl

publish_freeze-Published_example : Published publisher disk (publish_freeze publisher disk)
publish_freeze-Published_example = publish_freeze-Published publisher disk

readable : Readable publisher
readable = record {
  pointers = λ p. refl;
  manifests = λ m. refl;
  paths = λ path r h. ap some (sym (some-eq h));
  apart = λ id. refl;
}

abbrev copy_of : String → String → FileEntry
copy_of at name = record { path = append_text "freezes/" at; sha256 = name }

abbrev issued : Manifest String
issued = record {
  unsigned = record {
    schema_version = some "lol-dataset-freeze/1.1";
    freeze_id = some "all";
    dataset_freeze = "all";
    artifacts = ("ratings", copy_of "artifacts/ratings.json" "ratings.json") ∷ [];
    snapshot_payload = file_entry "payload.csv";
    snapshot_metadata = file_entry "metadata.json";
    backtest_manifest = copy_of "backtest_manifest.json" "backtest_manifest.json";
    collection_archive = copy_of "collection/events.jsonl" "collection_archive/events.jsonl";
    collection_run = copy_of "collection/latest_run.json" "collection_archive/latest_run.json";
    identities =
        (
          "teams",
          record {
            frozen = copy_of "identities/teams_lol.json" "teams_lol.json";
            active_path = "teams_lol.json";
          },
        )
        ∷ (
          "aliases",
          record {
            frozen = copy_of "identities/polymarket_aliases.json" "polymarket_aliases.json";
            active_path = "polymarket_aliases.json";
          },
        )
        ∷ (
          "canonical_teams",
          record {
            frozen = copy_of "identities/canonical_teams.json" "canonical_teams.json";
            active_path = "canonical_teams.json";
          },
        )
        ∷ [];
    combined_sha256 = "all";
    configuration = copy_of "config.yaml" "config.yaml";
    active_config = "config.yaml";
    governance =
        ("trials", copy_of "governance/trials.json" "trials.json")
        ∷ (
          "charter",
          copy_of "governance/data_acquisition_charter.json" "data_acquisition_charter.json",
        )
        ∷ [];
    source_sha256 = "all";
    lol_predictor_version = "1";
    predictor_core_version = "2";
  };
  manifest_hash = some "sealed";
}

issues : (publish_freeze publisher disk).0 ≡ ok issued
unfolding publish_freeze
issues = refl

publish_freeze-read_current_example :
    (p : Pointer) × (read_current tools (publish_freeze publisher disk).1 ≡ ok (p, issued))
    × (p.manifest_hash ≡ some "sealed")
publish_freeze-read_current_example = publish_freeze-read_current publisher readable disk issues

loads_after :
    failure (
      load_current_freeze tools
        (publish_freeze publisher disk).1
        (some (record { within = λ p. p; source_files = [] })))
    ≡ none
unfolding publish_freeze load_current_freeze
loads_after = refl
