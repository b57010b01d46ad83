-- ===== src/Collection/Tests.antt =====
-- `collect` and `health` of src/collection_only.py on two events.
use lol_predictor.Prelude.{
  String, ◌≡◌, refl, true, none, some, List, [], ◌∷◌, ok, aware, ascii, strip, lower, text_eq,
}
use lol_predictor.Teams.{SeedTeam}
use lol_predictor.Collection.{
  RawEvent, maps, map_row, Run, CollectionSnapshot, collected, result_pending, CollectedEvent,
  collect, collection_health, past_event_result_pending, same_teams,
}
use lol_predictor.Collection.Contract.{Collecting, collect-Collecting}
use lol_predictor.Collection.Health.{Reports, collect-health}

abbrev team : String → SeedTeam
team n = record { name = n; region = none }

abbrev teams : List SeedTeam
teams = team "T1" ∷ team "Gen.G" ∷ []

abbrev raw : String → String → String → RawEvent
raw id a b = record {
  source = some "oracle";
  source_event_id = some id;
  competition_id = some "lck";
  competition_name = some "LCK";
  format = some "bo3";
  scheduled_at = some (aware 20);
  team_a = some a;
  team_b = some b;
  maps = some (maps (map_row (some "m1") none ∷ []));
  result = none;
}

abbrev incoming : List RawEvent
incoming = raw "1" "t1" "gen" ∷ raw "2" "t1" "T1" ∷ []

abbrev run : Run
run = record { mode = some "COLLECTION_ONLY"; collection_run_id = some "r1" }

abbrev event : CollectedEvent
event = record {
  canonical_event_id = "oracle:1";
  source_event_id = "1";
  competition_id = "lck";
  format = "bo3";
  team_a = "T1";
  team_b = "Gen.G";
  scheduled_at = 20;
  maps = record { source_map_id = "m1"; result = none } ∷ [];
  result = none;
  lifecycle_status = result_pending;
}

abbrev snapshot : CollectionSnapshot
snapshot = record {
  collection_run_id = "r1";
  collected_at = 10;
  status = collected;
  events = event ∷ [];
  rejected = record { source_event_id = some "2"; reason = same_teams } ∷ [];
}

collects : (collect ascii teams [] true run incoming 10 none).0 ≡ ok snapshot
unfolding collect strip lower text_eq
collects = refl

other_mode :
    (collect ascii teams [] true
      (record { mode = some "H4"; collection_run_id = some "r1" })
      incoming
      10
      (some snapshot)).1
    ≡ some snapshot
unfolding collect strip lower text_eq
other_mode = refl

pending : collection_health (some snapshot) 30 ≡ past_event_result_pending ("oracle:1" ∷ [])
unfolding collection_health
pending = refl

collect-Collecting_example :
    Collecting ascii teams [] run incoming 10 none
      (collect ascii teams [] true run incoming 10 none)
collect-Collecting_example = collect-Collecting ascii teams [] true run incoming 10 none

collect-health_example :
    Reports snapshot 10 30
      (collection_health (collect ascii teams [] true run incoming 10 none).1 30)
collect-health_example = collect-health ascii teams [] true run incoming 10 30 none collects
