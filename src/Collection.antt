-- ===== src/Collection.antt =====
-- The archival collection of src/collection_only.py. Of an event the fields that are checked or read
-- back are kept; the file `current.json` is the last snapshot. Hashes are left out.
pub mod Contract
pub mod Health
mod Tests
use lol_predictor.Prelude.{
  ℕ, suc, String, ◌+◌, ◌-◌, ◌*◌, Bool, true, false, ◌&&◌, ◌||◌, not, Option, none, some, List, [],
  ◌∷◌, map, length, keep, Result, ok, fail, ◌>>=◌, ◌>>◌, require, Stamp, instant, hour, eqb, ltb,
  present, ◌==◌, if◌then◌else◌, Unicode, append_text,
}
use lol_predictor.Approval.{is_text}
use lol_predictor.H4.Signals.{given}
use lol_predictor.H4.Cohort.{distinct}
use lol_predictor.Teams.{SeedTeam, TeamError, TeamRecord, team_name, resolve_team}

-- `unhandled` is an exception that is no `CollectionError`.
pub data CollectionError : Type 0 where
  no_contract bad_identity same_teams bad_time bad_format bad_maps bad_map : CollectionError
  bad_map_result duplicate_maps bad_run duplicate_events no_promotion unhandled : CollectionError

pub data MapRow : Type 0 where
  not_map : MapRow
  map_row : Option String → Option String → MapRow

pub data MapsField : Type 0 where
  not_list : MapsField
  maps : List MapRow → MapsField

pub record RawEvent : Type 0 where
  pub source : Option String
  pub source_event_id : Option String
  pub competition_id : Option String
  pub competition_name : Option String
  pub format : Option String
  pub scheduled_at : Option Stamp
  pub team_a : Option String
  pub team_b : Option String
  pub maps : Option MapsField
  pub result : Option String

pub record GameMap : Type 0 where
  pub source_map_id : String
  pub result : Option String

pub data Lifecycle : Type 0 where
  result_official result_pending : Lifecycle

pub record CollectedEvent : Type 0 where
  pub canonical_event_id : String
  pub source_event_id : String
  pub competition_id : String
  pub format : String
  pub team_a : String
  pub team_b : String
  pub scheduled_at : ℕ
  pub maps : List GameMap
  pub result : Option String
  pub lifecycle_status : Lifecycle

pub record Run : Type 0 where
  pub mode : Option String
  pub collection_run_id : Option String

pub data CollectionStatus : Type 0 where
  no_upstream_events collected : CollectionStatus

pub record Rejected : Type 0 where
  pub source_event_id : Option String
  pub reason : CollectionError

pub record CollectionSnapshot : Type 0 where
  pub collection_run_id : String
  pub collected_at : ℕ
  pub status : CollectionStatus
  pub events : List CollectedEvent
  pub rejected : List Rejected

-- `_time`
abbrev pub event_time : Option Stamp → Result CollectionError ℕ
event_time none = fail bad_time
event_time (some s) = elim (instant s) [ none ↦ fail bad_time | some t ↦ ok t ]

-- `in (None, "a", "b")`, and `in ("a", "b")`
abbrev pub is_side : Option String → Bool
is_side r = is_text "a" r || is_text "b" r

-- the text of a key that is there
abbrev pub text_of : Option String → Result CollectionError String
text_of none = fail no_contract
text_of (some s) = ok s

unfoldable pub normalize_map : MapRow → Result CollectionError GameMap
normalize_map not_map = fail bad_map
normalize_map (map_row id result) = do
  require (present id) bad_map
  name ← text_of id
  require (not (given result) || is_side result) bad_map_result
  ok (record { source_map_id = name; result = result })

unfoldable pub normalize_maps : List MapRow → Result CollectionError (List GameMap)
unfolding normalize_map
normalize_maps [] = ok []
normalize_maps (r ∷ rs) =
    let rest = normalize_maps rs in do first ← normalize_map r; others ← rest; ok (first ∷ others)

abbrev pub rows_of_maps : Option MapsField → Result CollectionError (List MapRow)
rows_of_maps none = fail no_contract
rows_of_maps (some not_list) = fail bad_maps
rows_of_maps (some (maps rs)) = ok rs

-- none of the required keys is missing, null or empty
unfoldable pub has_contract_keys : RawEvent → Bool
has_contract_keys raw =
    (present raw.source
      && present raw.source_event_id
      && present raw.competition_id
      && present raw.competition_name
      && present raw.format)
    && (given raw.scheduled_at && present raw.team_a && present raw.team_b && given raw.maps)

-- `len({x for x in texts}) == len(texts)`
abbrev pub all_distinct : List String → Bool
all_distinct texts = eqb (length (distinct (map some texts))) (length texts)

abbrev pub lifecycle_of : Option String → Lifecycle
lifecycle_of result = if is_side result then result_official else result_pending

module _ (u : Unicode) (teams : List SeedTeam) (names : List String) where
  -- `resolve_team(raw[key])["name"]`
  unfoldable pub official_name : Option String → Result CollectionError String
  unfolding resolve_team
  official_name none = fail no_contract
  official_name (some n) = elim (resolve_team u teams names n) [
    | ok r ↦ ok (team_name r)
    | fail _ ↦ fail bad_identity
  ]

  unfoldable pub normalize_event : RawEvent → Result CollectionError CollectedEvent
  unfolding has_contract_keys official_name normalize_maps
  normalize_event raw = do
    require (has_contract_keys raw) no_contract
    team_a ← official_name raw.team_a
    team_b ← official_name raw.team_b
    require (not (team_a == team_b)) same_teams
    scheduled ← event_time raw.scheduled_at
    require (is_text "bo1" raw.format || is_text "bo3" raw.format || is_text "bo5" raw.format)
        bad_format
    rows ← rows_of_maps raw.maps
    games ← normalize_maps rows
    require (all_distinct (map (λ g. g.source_map_id) games)) duplicate_maps
    source ← text_of raw.source
    event ← text_of raw.source_event_id
    competition ← text_of raw.competition_id
    format ← text_of raw.format
    ok (record {
      canonical_event_id = append_text source (append_text ":" event);
      source_event_id = event;
      competition_id = competition;
      format = format;
      team_a = team_a;
      team_b = team_b;
      scheduled_at = scheduled;
      maps = games;
      result = raw.result;
      lifecycle_status = lifecycle_of raw.result;
    })

  abbrev pub sorted_event :
      RawEvent
      → Result CollectionError CollectedEvent
      → List CollectedEvent × List Rejected
      → List CollectedEvent × List Rejected
  sorted_event raw (ok e) (accepted, rejected) = (e ∷ accepted, rejected)
  sorted_event raw (fail why) (accepted, rejected) =
      (accepted, record { source_event_id = raw.source_event_id; reason = why } ∷ rejected)

  -- the loop of `collect`
  unfoldable pub sort_events : List RawEvent → List CollectedEvent × List Rejected
  unfolding normalize_event
  sort_events [] = ([], [])
  sort_events (raw ∷ rest) = sorted_event raw (normalize_event raw) (sort_events rest)

  abbrev pub upstream_status : List RawEvent → CollectionStatus
  upstream_status [] = no_upstream_events
  upstream_status (_ ∷ _) = collected

  -- the snapshot, before it is written
  unfoldable pub new_snapshot : Run → List RawEvent → ℕ → Result CollectionError CollectionSnapshot
  unfolding sort_events
  new_snapshot run incoming now = do
    require (is_text "COLLECTION_ONLY" run.mode) bad_run
    id ← elim run.collection_run_id [ none ↦ fail bad_run | some i ↦ ok i ]
    let sorted = sort_events incoming
    require (all_distinct (map (λ e. e.canonical_event_id) sorted.0)) duplicate_events
    ok (record {
      collection_run_id = id;
      collected_at = now;
      status = upstream_status incoming;
      events = sorted.0;
      rejected = sorted.1;
    })

  -- the replacement of `current.json`, which the disk may refuse
  abbrev pub published :
      Bool
      → Result CollectionError CollectionSnapshot
      → Option CollectionSnapshot
      → Result CollectionError CollectionSnapshot × Option CollectionSnapshot
  published writes (fail e) current = (fail e, current)
  published writes (ok s) current = if writes then (ok s, some s) else (fail unhandled, current)

  unfoldable pub collect :
      Bool
      → Run
      → List RawEvent
      → ℕ
      → Option CollectionSnapshot
      → Result CollectionError CollectionSnapshot × Option CollectionSnapshot
  unfolding new_snapshot
  collect writes run incoming now current = published writes (new_snapshot run incoming now) current

pub data CollectionHealth : Type 0 where
  no_collection_snapshot : CollectionHealth
  stale_expected_event : CollectionHealth
  past_event_result_pending : List String → CollectionHealth
  healthy : CollectionStatus → CollectionHealth

abbrev pub is_result_official : Lifecycle → Bool
is_result_official result_official = true
is_result_official result_pending = false

abbrev pub is_future : ℕ → CollectedEvent → Bool
is_future now e = ltb now e.scheduled_at

abbrev pub is_past_pending : ℕ → CollectedEvent → Bool
is_past_pending now e = ltb e.scheduled_at now && not (is_result_official e.lifecycle_status)

abbrev pub is_some_item : List CollectedEvent → Bool
is_some_item [] = false
is_some_item (_ ∷ _) = true

-- `age > timedelta(hours=48)`; an age below zero is not above it
abbrev pub older_than_48h : ℕ → CollectionSnapshot → Bool
older_than_48h now s = ltb (s.collected_at + 48 * hour) now

-- `health`
unfoldable pub collection_health : Option CollectionSnapshot → ℕ → CollectionHealth
collection_health none now = no_collection_snapshot
collection_health (some s) now =
    let pending = keep (is_past_pending now) s.events in
    if is_some_item (keep (is_future now) s.events) && older_than_48h now s
    then stale_expected_event
    else if is_some_item pending
    then past_event_result_pending (map (λ e. e.canonical_event_id) pending)
    else healthy s.status

-- `promote_to_trial`
unfoldable pub promote_to_trial : CollectedEvent → Result CollectionError (Unit {0})
promote_to_trial _ = fail no_promotion
