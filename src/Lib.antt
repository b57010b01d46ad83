-- ===== src/Lib.antt =====
-- lol-predictor: the money-facing and evidence-facing core of the program.
--
-- The program predicts League of Legends series, keeps prospective evidence of its predictions, and
-- has a gated path to a real exchange. This library models, by the files of the repository:
--
--   Approval.antt      src/manual_approval.py, the human approval of one order
--   Betting.antt       src/betting.py: the financial gate, and Paper (record_bet, settle_bet); Settled
--                      (proofs)
--   Execution/         src/execution_polymarket.py: Orders (the append-only ledger and its views),
--                      Answers and Responses (the exchange's answers), Layers (the checks before the
--                      lock), Calls
--                      (submit_order, reconcile_order, cancel_order), Interleave (the same calls in
--                      small steps that overlap and die), and the modules of proofs
--   H4/                src/h4_gate.py, the prospective cohort: Closure (the record of a human closure
--                      or reopening), Signals (one row and its validation), Build
--                      (build_signal), Cohort (cohort_status and the rows evaluate takes),
--                      Roundtrip, Accepted, Ready and Gate (proofs)
--   Draft/             src/draft_shadow.py: Raw (the fields), Observation
--                      (normalize_observation), Chain
--                      (validate_chain), Contract, Normalized and Ordered (proofs)
--   Ingestion/         src/data/ingestion.py: Csv (validate_oracle_csv), Store (publish), Fresh
--                      (assert_fresh_snapshot), Fetch (the bounded download), and Sound, Served,
--                      Attempts and Bounded (proofs)
--   Ratings.antt       src/model.py, update_ratings: Entries, Updated and Finite (proofs)
--   Teams.antt         src/config.py, resolve_team: Sole (proofs)
--   Collection.antt    src/collection_only.py, the archival collection: Contract and Health (proofs)
--   Freeze.antt        src/freeze.py: load_current_freeze, and Publish and Issue (publish_freeze);
--                      Loaded, Complete and Kept (proofs)
--   Identity.antt      src/identity.py, the registry of teams: Entries, Built, Candidates and Resolved
--                      (proofs)
--   Settlement.antt    scripts/settle_h4_signals.py, official results onto cohort rows: Official,
--                      Kept and Idempotent (proofs)
--
-- A function of the model has the name of the Python function that it translates, without a leading
-- underscore. A call that writes takes the state and returns the new one; an exception is a value
-- beside the state that had been written when it was raised.
--
-- Text is a native String where it is only compared, and a list of code points where it is stripped
-- and lowered. A float is a type with the operations of Prelude/Floats.antt, and nothing is assumed
-- of them. SHA-256 of a canonical JSON text, uuid4, the clock, the client of the exchange and its
-- answers are arguments. A ledger file is the list of its rows, newest first.
--
-- Not modelled: network adapters, file locking and atomic replacement by the operating system, and
-- command lines, which only pass values on.
pub mod Prelude
pub mod Approval
pub mod Betting
pub mod Execution
pub mod H4
pub mod Draft
pub mod Ingestion
pub mod Settlement
pub mod Identity
pub mod Freeze
pub mod Teams
pub mod Collection
pub mod Ratings
