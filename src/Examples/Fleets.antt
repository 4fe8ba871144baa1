-- ===== src/Examples/Fleets.antt =====
-- Batches of records in the analytics tables.
use safe2go.Base.{ℕ, true, false, none, List, [], ◌∷◌, ◌≡◌, refl, Bool, map, ◌++◌, arith, some}
use mathlib.Core.List.Memᴰ.{head, tail, not-nil}
use safe2go.Stream.{telemetry, incident}
use safe2go.Fleet.{
  TickData, tick_data, event_data, Envelope, FleetDb, minute, tick_row, gap_row, event_row,
  sort_record, sort_records, last_of_each, stores, insert_new, bucket_rows, sum_of, most, least,
  rollup, find_rollup, write_rollup, recompute_rollups, apply_records, store_batches,
}
use safe2go.Handlers.Rows.{put}
use safe2go.Fleet.Rollups.{IsRolled, store_batches-IsRolled}
use safe2go.Fleet.Redelivery.{store_batches-again}
use safe2go.Fleet.Consumer.{
  Turn, World, new_consumer, backoff, ensure_started, poll_batch, poll_once, recover, wait_for,
  wait_turn, read_turn, turn, go_on, turns, close,
}
use safe2go.Fleet.Kept.{IsKept, turns-IsKept}
use safe2go.Fleet.Outage.{outage, outages, turns-outages, turns-recovers}

abbrev empty_db : FleetDb
empty_db = record { archive = []; gaps = []; events = []; rollups = [] }

abbrev working : TickData
working = record {
  shift_id = 1;
  operator_id = 2;
  task_id = none;
  engine_running = true;
  engine_rpm = 1500;
  hydraulic_active = true;
  machine_speed = 0;
  fuel_used = 100;
  load_cycles = 1;
  payload_pct = 50;
}

abbrev idling : TickData
idling = record working {
  hydraulic_active = false;
  engine_rpm = 900;
  fuel_used = 130;
  load_cycles = 0;
}

abbrev tick : ℕ → ℕ → TickData → Envelope
tick i time d = record {
  event_id = i;
  kind = telemetry;
  edge_seq = i;
  machine_id = 7;
  event_time = time;
  contents = tick_data d;
}

-- A record of an incident without a type.
abbrev untyped : Envelope
untyped = record (tick 9 60000000 working) {
  kind = incident;
  contents = event_data (record { incident_type = none; peak_severity = none; event_type = none });
}

abbrev first_batch : List Envelope
first_batch = tick 1 60000000 working ∷ tick 2 61000000 idling ∷ untyped ∷ []

abbrev second_batch : List Envelope
second_batch = tick 2 61000000 idling ∷ tick 3 62000000 idling ∷ []

abbrev batches : List (ℕ × List Envelope)
batches = (900, second_batch) ∷ (800, first_batch) ∷ []

counted :
    (apply_records 900 second_batch (store_batches ((800, first_batch) ∷ []) empty_db)).0
    ≡ record { stored = 1; duplicates = 1; malformed = 0 }
unfolding apply_records sort_records sort_record tick_row gap_row event_row last_of_each put
    insert_new stores store_batches
counted = refl

spoiled_counted :
    (apply_records 800 first_batch empty_db).0
    ≡ record { stored = 2; duplicates = 0; malformed = 1 }
unfolding apply_records sort_records sort_record tick_row gap_row event_row last_of_each put
    insert_new stores store_batches
spoiled_counted = refl

one_rollup :
    (store_batches batches empty_db).rollups
    ≡ record {
      machine_id = 7;
      bucket_start = 60000000;
      ticks = 3;
      engine_on_ticks = 3;
      working_ticks = 1;
      idle_ticks = 2;
      rpm_sum = 3300;
      fuel_used = 30;
      load_cycles = 1;
      updated_at = 900;
    }
      ∷ []
unfolding apply_records sort_records sort_record tick_row gap_row event_row last_of_each put
    insert_new stores store_batches recompute_rollups rollup write_rollup bucket_rows sum_of most
    least minute
one_rollup = refl

empty-IsRolled : IsRolled [] []
unfolding find_rollup bucket_rows rollup
empty-IsRolled machine_id bucket = refl

store_batches-IsRolled_example :
    IsRolled (store_batches batches empty_db).archive (store_batches batches empty_db).rollups
store_batches-IsRolled_example = store_batches-IsRolled batches empty_db empty-IsRolled

store_batches-again_example :
    ((apply_records 1000 first_batch (store_batches batches empty_db)).0.stored ≡ 0)
    × (store_batches ((1000, first_batch) ∷ batches) empty_db ≡ store_batches batches empty_db)
store_batches-again_example =
    store_batches-again 1000 (800, first_batch) batches empty_db (tail (head refl))

abbrev reads : List Envelope → Bool → Bool → Turn
reads es database_fails commit_fails = record {
  reachable = true;
  records = some (none ∷ map some es);
  database_fails = database_fails;
  commit_fails = commit_fails;
  now = 900;
}

abbrev beginning : World
beginning = record { consumer = new_consumer; db = empty_db; committed = [] }

-- An outage, a failed transaction, a failed commit of offsets, the same batch again, the next batch.
abbrev troubles : List Turn
troubles =
    outage 1
    ∷ reads first_batch true false
    ∷ reads first_batch false true
    ∷ reads first_batch false false
    ∷ reads second_batch false false
    ∷ []

troubled :
    ((turns 30_000_000 troubles beginning).0 ≡ true)
    × ((turns 30_000_000 troubles beginning).1.committed ≡ second_batch ∷ first_batch ∷ [])
    × ((turns 30_000_000 troubles beginning).1.consumer.stats.received_total ≡ 7)
    × ((turns 30_000_000 troubles beginning).1.consumer.stats.stored_total ≡ 1)
    × ((turns 30_000_000 troubles beginning).1.consumer.stats.duplicates_total ≡ 3)
    × ((turns 30_000_000 troubles beginning).1.consumer.stats.malformed_total ≡ 3)
unfolding apply_records sort_records sort_record tick_row gap_row event_row last_of_each put
    insert_new stores turns turn go_on read_turn wait_turn wait_for recover poll_once poll_batch
    ensure_started backoff close
troubled = (refl, refl, refl, refl, refl, refl)

turns-IsKept_example : IsKept (turns 30_000_000 troubles beginning).1
turns-IsKept_example =
    turns-IsKept 30_000_000 troubles beginning
      ((λ later es has. absurd (not-nil has)), λ on. ground arith)

turns-outages_example : (turns 30_000_000 (outages 1 1025) beginning).0 ≡ false
turns-outages_example = turns-outages 30_000_000 1 1025 beginning refl (omega arith)

turns-recovers_example :
    let w = (turns 30_000_000 (outages 1 1000 ++ reads first_batch false false ∷ []) beginning).1 in
    (w.db ≡ (apply_records 900 first_batch empty_db).1)
    × (w.committed ≡ first_batch ∷ [])
    × (w.consumer.attempts ≡ 0)
turns-recovers_example =
    turns-recovers 30_000_000 1 1000 (reads first_batch false false) none (map some first_batch)
      beginning refl (omega arith) refl refl refl refl
