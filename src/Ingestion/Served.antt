-- ===== src/Ingestion/Served.antt =====
-- What a server sees of the snapshots of src/data/ingestion.py: freshness, and ranges over time.
use lol_predictor.Prelude.{
  ℕ, String, ◌≡◌, ◌⊎◌, inl, inr, refl, ◌∙◌, some, Result, ok, fail, Bool-cases, eq_refl, ltb,
  if◌then◌else◌,
}
use lol_predictor.Ingestion.Csv.{Rejection, regressive, stale, Blob, Summary}
use lol_predictor.Ingestion.Store.{
  Metadata, Store, Moment, Naming, current_snapshot, new_metadata, seconds, end_of_day, publish,
}
use lol_predictor.Ingestion.Fresh.{is_stale, assert_fresh_snapshot}
use lol_predictor.Ingestion.Sound.{
  Sound, nothing, holds, whole_snapshot, Refused, Accepted, publish-cases,
}

module _ (n : Naming) where
  -- For a published current snapshot, `assert_fresh_snapshot` raises for the order of its times
  -- exactly if the last day of the data was not over when the snapshot was published, whatever the
  -- time of the call, then for its age exactly if it is outside the window, and else returns the
  -- metadata.
  pub assert_fresh_snapshot_lem :
      (max_age_hours now : ℕ) (s : Store) (name : String) (b : Blob) (at : ℕ) (summary : Summary)
      → current_snapshot s ≡ some (whole_snapshot n name b at summary)
      → assert_fresh_snapshot n max_age_hours now s ≡ (
          if ltb (seconds at) (end_of_day summary.last_day)
          then fail regressive
          else if is_stale max_age_hours now (seconds at)
          then fail stale
          else ok (new_metadata at (n.sha256_of b) summary))
  unfolding assert_fresh_snapshot new_metadata
  assert_fresh_snapshot_lem max_age_hours now s name b at summary h =
      rw (h, eq_refl (n.sha256_of b))
        (elim (Bool-cases (ltb (seconds at) (end_of_day summary.last_day))) [
          | inl early ↦ rw early refl
          | inr later ↦ rw later (elim (Bool-cases (is_stale max_age_hours now (seconds at))) [
            | inl old ↦ rw old refl
            | inr fresh ↦ rw fresh refl
          ])
        ])

  publish-Sound_of :
      (s : Store) (now : ℕ) (b : Blob) (r : Result Rejection Metadata × Store)
      → Sound n s
      → Refused n s r ⊎ Accepted n s now b r
      → Sound n r.1
  publish-Sound_of s now b r (nothing e) (inl f) = nothing (f.same_pointer ∙ e)
  publish-Sound_of s now b r (holds name b' t summary e found valid) (inl f) =
      holds name b' t summary (f.same_pointer ∙ e) (f.same_snapshot ∙ found) valid
  publish-Sound_of s now b r sound (inr a) =
      holds a.name b now a.summary a.pointer a.snapshot a.valid

  pub publish-Sound : (w : Moment) (b : Blob) (s : Store) → Sound n s → Sound n (publish n w b s).1
  publish-Sound w b s sound =
      publish-Sound_of s w.now b (publish n w b s) sound (publish-cases n w b s sound)
