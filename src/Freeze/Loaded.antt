-- ===== src/Freeze/Loaded.antt =====
-- What holds of the disk when `load_current_freeze` of src/freeze.py returns.
use lol_predictor.Prelude.{
  ◌&&◌, String, ◌≡◌, refl, ap, subst, sym, true, Option, none, some, List, [], ◌∷◌, All, ok, >>=-ok,
  require-then, require-ok, >>-ok, ok-eq, ◌==◌, eq_iff, both,
}
use lol_predictor.H4.Cohort.{same_key}
use lol_predictor.Freeze.{
  code_differs, versions_differ, bad_seal, bad_core, key_error, artifact_mismatch,
  governance_mismatch, snapshot_mismatch, metadata_mismatch, backtest_mismatch, FreezeError,
  FileEntry, IdentityEntry, Unsigned, Project, Tools, Labelled, given_or, sha256_file, check_file,
  check_all, check_identity, check_identities, combined_of, active_path, check_config,
  check_archive, check_files, digests_of, check_code, Manifest, load_current_freeze, Pointer,
  check_core, read_current, sealed, CoreFreeze,
}

pub given_or-ok {ℓ} :
    {A : Type ℓ} (o : Option A) (e : FreezeError) {a : A} → given_or o e ≡ ok a → o ≡ some a
given_or-ok none e h = cc
given_or-ok (some b) e h = ap some (ok-eq refl h)

-- the file in use that has to be like the frozen copy
abbrev pub in_use : IdentityEntry → FileEntry
in_use e = record { path = e.active_path; sha256 = e.frozen.sha256 }

module _ {C D : Type 0} (t : Tools C D) (disk : String → Option C) where
  -- A file stands at the path, and has the digest.
  pub record Stands (path sha : String) : Type 0 where
    pub content : C
    pub stored : disk path ≡ some content
    pub digest : t.sha256 content ≡ sha

  -- The entry's path lies below the data root, and the file there has the entry's digest.
  pub record Matches (e : FileEntry) : Type 0 where
    pub target : String
    pub resolved : t.resolve e.path ≡ some target
    pub stands : Stands target e.sha256

  pub record IdentityMatches (e : IdentityEntry) : Type 0 where
    pub frozen : Matches e.frozen
    pub active : Matches (in_use e)

  sha256_file-Stands :
      (path sha : String) {digest : String}
      → sha256_file t disk path ≡ ok digest
      → (digest == sha) ≡ true
      → Stands path sha
  sha256_file-Stands path sha {digest = digest} h same =
      let (c, e, h1) = >>=-ok (given_or (disk path) _) _ h in
      record {
        content = c;
        stored = given_or-ok (disk path) _ e;
        digest = subst (λ x. x ≡ sha) (sym (ok-eq refl h1)) ((eq_iff digest sha).0 same);
      }

  check_file-Matches :
      (e : FileEntry) (error : FreezeError) {path : String}
      → check_file t disk e error ≡ ok path
      → Matches e
  unfolding check_file
  check_file-Matches e error h =
      let (path, e1, h1) = >>=-ok (given_or (t.resolve e.path) _) _ h in
      let (digest, e2, h2) = >>=-ok (sha256_file t disk path) _ h1 in
      let (same, h3) = require-then (digest == e.sha256) error _ h2 in
      record {
        target = path;
        resolved = given_or-ok (t.resolve e.path) _ e1;
        stands = sha256_file-Stands path e.sha256 e2 same;
      }

  check_all-Matches :
      (prefix : String) (error : FreezeError) (es : List (String × FileEntry)) {found : Labelled}
      → check_all t disk prefix error es ≡ ok found
      → All (λ x. Matches x.1) es
  unfolding check_all
  check_all-Matches prefix error [] h = tt
  check_all-Matches prefix error ((label, e) ∷ es) h =
      let (path, e1, h1) = >>=-ok (check_file t disk e error) _ h in
      let (others, e2, h2) = >>=-ok (check_all t disk prefix error es) _ h1 in
      (check_file-Matches e error e1, check_all-Matches prefix error es e2)

  check_identities-Matches :
      (es : List (String × IdentityEntry)) {found : Labelled}
      → check_identities t disk es ≡ ok found
      → All (λ x. IdentityMatches x.1) es
  unfolding check_identities check_identity
  check_identities-Matches [] h = tt
  check_identities-Matches ((label, e) ∷ es) h =
      let (path, e1, h1) = >>=-ok (check_identity t disk e) _ h in
      let (frozen, e2, h2) = >>=-ok (check_file t disk e.frozen _) _ e1 in
      let (active, e3, h3) = >>=-ok (check_file t disk (in_use e) _) _ h2 in
      let (others, e4, h4) = >>=-ok (check_identities t disk es) _ h1 in
      (
        record {
          frozen = check_file-Matches e.frozen _ e2;
          active = check_file-Matches (in_use e) _ e3;
        },
        check_identities-Matches es e4,
      )

  check_archive-Matches :
      (archive run : FileEntry) {paths : String × String}
      → check_archive t disk archive run ≡ ok paths
      → Matches archive × Matches run
  unfolding check_archive
  check_archive-Matches archive run h =
      let (a, e1, h1) = >>=-ok (given_or (t.resolve archive.path) _) _ h in
      let (r, e2, h2) = >>=-ok (given_or (t.resolve run.path) _) _ h1 in
      let (da, e3, h3) = >>=-ok (sha256_file t disk a) _ h2 in
      let (same, h4) = require-then (da == archive.sha256) _ _ h3 in
      let (dr, e4, h5) = >>=-ok (sha256_file t disk r) _ h4 in
      let (same', h6) = require-then (dr == run.sha256) _ _ h5 in
      (
        record {
          target = a;
          resolved = given_or-ok (t.resolve archive.path) _ e1;
          stands = sha256_file-Stands a archive.sha256 e3 same;
        },
        record {
          target = r;
          resolved = given_or-ok (t.resolve run.path) _ e2;
          stands = sha256_file-Stands r run.sha256 e4 same';
        },
      )

  -- The active configuration has the digest of the frozen one.
  pub record ConfigMatches (project : Option Project) (e : FileEntry) (active : String)
      : Type 0 where
    pub frozen : Matches e
    pub used : String
    pub is_used : active_path t disk project active ≡ ok used
    pub stands : Stands used e.sha256

  check_config-Matches :
      (project : Option Project) (e : FileEntry) (active : String) {path : String}
      → check_config t disk project e active ≡ ok path
      → ConfigMatches project e active
  unfolding check_config
  check_config-Matches project e active h =
      let (frozen, e1, h1) = >>=-ok (check_file t disk e _) _ h in
      let (used, e2, h2) = >>=-ok (active_path t disk project active) _ h1 in
      let (digest, e3, h3) = >>=-ok (sha256_file t disk used) _ h2 in
      let (same, h4) = require-then (digest == e.sha256) _ _ h3 in
      record {
        frozen = check_file-Matches e _ e1;
        used = used;
        is_used = e2;
        stands = sha256_file-Stands used e.sha256 e3 same;
      }

  -- Every file that the manifest names stands on the disk with its digest.
  pub record FilesMatch (project : Option Project) (u : Unsigned D) : Type 0 where
    pub artifacts : All (λ x. Matches x.1) u.artifacts
    pub payload : Matches u.snapshot_payload
    pub metadata : Matches u.snapshot_metadata
    pub backtest : Matches u.backtest_manifest
    pub archive : Matches u.collection_archive
    pub run : Matches u.collection_run
    pub identities : All (λ x. IdentityMatches x.1) u.identities
    pub combined : combined_of t disk u.identities ≡ ok u.combined_sha256
    pub configuration : ConfigMatches project u.configuration u.active_config
    pub governance : All (λ x. Matches x.1) u.governance

  check_files-FilesMatch :
      (project : Option Project) (u : Unsigned D) {found : Labelled}
      → check_files t disk project u ≡ ok found
      → FilesMatch project u
  unfolding check_files
  check_files-FilesMatch project u h =
      let (artifacts, e1, h1) = >>=-ok (check_all t disk "" artifact_mismatch u.artifacts) _ h in
      let (payload, e2, h2) =
        >>=-ok (check_file t disk u.snapshot_payload snapshot_mismatch) _ h1 in
      let (metadata, e3, h3) =
        >>=-ok (check_file t disk u.snapshot_metadata metadata_mismatch) _ h2 in
      let (backtest, e4, h4) =
        >>=-ok (check_file t disk u.backtest_manifest backtest_mismatch) _ h3 in
      let (both_paths, e5, h5) =
        >>=-ok (check_archive t disk u.collection_archive u.collection_run) _ h4 in
      let (identities, e6, h6) = >>=-ok (check_identities t disk u.identities) _ h5 in
      let (combined, e7, h7) = >>=-ok (combined_of t disk u.identities) _ h6 in
      let (same, h8) = require-then (combined == u.combined_sha256) _ _ h7 in
      let (config, e8, h9) =
        >>=-ok (check_config t disk project u.configuration u.active_config) _ h8 in
      let (governance, e9, h10) =
        >>=-ok (check_all t disk "governance_" governance_mismatch u.governance) _ h9 in
      let (archive, run) = check_archive-Matches u.collection_archive u.collection_run e5 in
      record {
        artifacts = check_all-Matches "" artifact_mismatch u.artifacts e1;
        payload = check_file-Matches u.snapshot_payload snapshot_mismatch e2;
        metadata = check_file-Matches u.snapshot_metadata metadata_mismatch e3;
        backtest = check_file-Matches u.backtest_manifest backtest_mismatch e4;
        archive = archive;
        run = run;
        identities = check_identities-Matches u.identities e6;
        combined = subst (λ x. combined_of t disk u.identities ≡ ok x) ((eq_iff _ _).0 same) e7;
        configuration = check_config-Matches project u.configuration u.active_config e8;
        governance = check_all-Matches "governance_" governance_mismatch u.governance e9;
      }

  -- The source files of the project have the digest that the manifest names.
  abbrev pub CodeMatches : Option Project → String → Type 0
  CodeMatches none digest = Unit
  CodeMatches (some p) digest =
      (digests : List (String × String)) × (digests_of t disk p.source_files ≡ ok digests)
      × (t.hash_of digests ≡ digest)

  check_code-CodeMatches :
      (project : Option Project) (digest : String)
      → check_code t disk project digest ≡ ok tt
      → CodeMatches project digest
  unfolding check_code
  check_code-CodeMatches none digest h = tt
  check_code-CodeMatches (some p) digest h =
      let (digests, e, h1) = >>=-ok (digests_of t disk p.source_files) _ h in
      let (same, h2) = require-then (t.hash_of digests == digest) code_differs _ h1 in
      (digests, e, (eq_iff _ _).0 same)

  -- What `load_current_freeze` has checked of the manifest that it returns.
  pub record Verified (project : Option Project) (m : Manifest D) : Type 0 where
    pub pointer : Pointer
    pub read : read_current t disk ≡ ok (pointer, m)
    pub is_sealed : sealed t disk pointer m ≡ true
    pub core : CoreFreeze
    pub is_core : t.core m.unsigned.dataset_freeze ≡ some core
    pub core_verifies : core.verifies ≡ true
    pub core_id : same_key (some core.freeze_id) m.unsigned.freeze_id ≡ true
    pub files : FilesMatch project m.unsigned
    pub code : CodeMatches project m.unsigned.source_sha256
    pub lol_version : t.lol_predictor_version ≡ m.unsigned.lol_predictor_version
    pub core_version : t.predictor_core_version ≡ m.unsigned.predictor_core_version

  -- If `load_current_freeze` returns, the pointer and the manifest agree, the manifest and the core's
  -- freeze are sealed and have the same id, every file that the manifest names stands on the disk
  -- with the digest that the manifest gives, the identity maps and the configuration in use are the
  -- frozen ones, and the source code and the installed versions are those of the freeze.
  pub load_current_freeze-Verified :
      (project : Option Project) {m : Manifest D} {found : Labelled}
      → load_current_freeze t disk project ≡ ok (m, found)
      → Verified project m
  unfolding load_current_freeze check_core
  load_current_freeze-Verified project {m = m} h =
      let (current, e1, h1) = >>=-ok (read_current t disk) _ h in
      let (is_sealed, h2) = require-then (sealed t disk current.0 current.1) bad_seal _ h1 in
      let (e3, h3) = >>-ok (check_core t disk current.1.unsigned) _ h2 in
      let (core, e4, h4) =
        >>=-ok (given_or (t.core current.1.unsigned.dataset_freeze) key_error) _ e3 in
      let good =
        require-ok (core.verifies && same_key (some core.freeze_id) current.1.unsigned.freeze_id)
          bad_core h4 in
      let (files, e5, h5) = >>=-ok (check_files t disk project current.1.unsigned) _ h3 in
      let (e6, h6) = >>-ok (check_code t disk project current.1.unsigned.source_sha256) _ h5 in
      let versions =
        t.lol_predictor_version == current.1.unsigned.lol_predictor_version
        && t.predictor_core_version == current.1.unsigned.predictor_core_version in
      let (same, h7) = require-then versions versions_differ _ h6 in
      let same_m : current.1 ≡ m = ap (λ x. x.0) (ok-eq refl h7) in
      subst (Verified project) same_m (record {
        pointer = current.0;
        read = e1;
        is_sealed = is_sealed;
        core = core;
        is_core = given_or-ok _ key_error e4;
        core_verifies = (both {a = core.verifies} good).0;
        core_id = (both {a = core.verifies} good).1;
        files = check_files-FilesMatch project current.1.unsigned e5;
        code = check_code-CodeMatches project current.1.unsigned.source_sha256 e6;
        lol_version =
            (eq_iff _ _).0
              (both {a = t.lol_predictor_version == current.1.unsigned.lol_predictor_version}
                same).0;
        core_version =
            (eq_iff _ _).0
              (both {a = t.lol_predictor_version == current.1.unsigned.lol_predictor_version}
                same).1;
      })
