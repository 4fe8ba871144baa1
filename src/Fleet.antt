-- ===== src/Fleet.antt =====
-- backend/app/cloud/stream/analytics.py: the storage of records from the broker, and the rollup of
-- each machine's minutes. An envelope (backend/app/stream/codec.py) has decoded data. Times are
-- microseconds, speeds, rpm and loads scaled integers. The average rpm is kept as its sum, since the
-- number of ticks stands beside it. The payload of an event is not kept.
pub mod Consumer
pub mod Kept
pub mod Outage
pub mod Redelivery
pub mod Rollups
use safe2go.Base.{
  ℕ, zero, suc, ◌+◌, ◌-◌, ◌*◌, ◌/◌, min, max, Bool, true, false, not, ◌&&◌, ◌||◌, Option, none,
  some, List, [], ◌∷◌, ◌++◌, ◌==◌, if◌then◌else◌, length,
}
use safe2go.Stream.{StreamKind, telemetry, incident, behavior_event, gap}
use safe2go.Handlers.Rows.{put}

pub record TickData : Type 0 where
  pub shift_id : ℕ
  pub operator_id : ℕ
  pub task_id : Option ℕ
  pub engine_running : Bool
  pub engine_rpm : ℕ
  pub hydraulic_active : Bool
  pub machine_speed : ℕ
  pub fuel_used : ℕ
  pub load_cycles : ℕ
  pub payload_pct : ℕ

pub record GapData : Type 0 where
  pub from_ts : ℕ
  pub to_ts : ℕ
  pub dropped_count : ℕ
  pub dropped_at : ℕ

-- The keys that an event's row reads of its data; an absent or empty type is none.
pub record EventData : Type 0 where
  pub incident_type : Option ℕ
  pub peak_severity : Option ℕ
  pub event_type : Option ℕ

-- Data with the fields of a tick or of a gap, or that of an event.
pub data Data : Type 0 where
  tick_data : TickData → Data
  gap_data : GapData → Data
  event_data : EventData → Data

pub record Envelope : Type 0 where
  pub event_id : ℕ
  pub kind : StreamKind
  pub edge_seq : ℕ
  pub machine_id : ℕ
  pub event_time : ℕ
  pub contents : Data

pub record TelemetryArchive : Type 0 where
  pub event_id : ℕ
  pub edge_seq : ℕ
  pub machine_id : ℕ
  pub ts : ℕ
  pub tick : TickData
  pub received_at : ℕ

pub record TelemetryGap : Type 0 where
  pub event_id : ℕ
  pub machine_id : ℕ
  pub dropped : GapData
  pub received_at : ℕ

pub record StreamEvent : Type 0 where
  pub event_id : ℕ
  pub machine_id : ℕ
  pub kind : StreamKind
  pub event_type : ℕ
  pub severity : Option ℕ
  pub ts : ℕ
  pub received_at : ℕ

pub record FleetMinuteRollup : Type 0 where
  pub machine_id : ℕ
  pub bucket_start : ℕ
  pub ticks : ℕ
  pub engine_on_ticks : ℕ
  pub working_ticks : ℕ
  pub idle_ticks : ℕ
  pub rpm_sum : ℕ
  pub fuel_used : ℕ
  pub load_cycles : ℕ
  pub updated_at : ℕ

pub record FleetDb : Type 0 where
  pub archive : List TelemetryArchive
  pub gaps : List TelemetryGap
  pub events : List StreamEvent
  pub rollups : List FleetMinuteRollup

pub record ApplyResult : Type 0 where
  pub stored : ℕ
  pub duplicates : ℕ
  pub malformed : ℕ

-- `_minute`, and `date_trunc('minute', ts)`
unfoldable pub minute : ℕ → ℕ
minute ts = ts / 60000000 * 60000000

-- The rows, and none for `MalformedRecord`.
unfoldable pub tick_row : Envelope → ℕ → Option TelemetryArchive
tick_row e received_at = elim e.contents [
  | tick_data t ↦ some (record {
    event_id = e.event_id;
    edge_seq = e.edge_seq;
    machine_id = e.machine_id;
    ts = e.event_time;
    tick = t;
    received_at = received_at;
  })
  | gap_data g ↦ none
  | event_data d ↦ none
]

unfoldable pub gap_row : Envelope → ℕ → Option TelemetryGap
gap_row e received_at = elim e.contents [
  | tick_data t ↦ none
  | gap_data g ↦ some (record {
    event_id = e.event_id;
    machine_id = e.machine_id;
    dropped = g;
    received_at = received_at;
  })
  | event_data d ↦ none
]

abbrev pub event_of : Envelope → ℕ → Option ℕ → Option ℕ → Option StreamEvent
event_of e received_at none severity = none
event_of e received_at (some type) severity = some (record {
  event_id = e.event_id;
  machine_id = e.machine_id;
  kind = e.kind;
  event_type = type;
  severity = severity;
  ts = e.event_time;
  received_at = received_at;
})

abbrev pub is_incident : StreamKind → Bool
is_incident incident = true
is_incident _ = false

unfoldable pub event_row : Envelope → ℕ → Option StreamEvent
event_row e received_at = elim e.contents [
  | tick_data t ↦ none
  | gap_data g ↦ none
  | event_data d ↦
      if is_incident e.kind
      then event_of e received_at d.incident_type d.peak_severity
      else event_of e received_at d.event_type none
]

-- A batch sorted by kind, and the number of malformed records.
pub record Batch : Type 0 where
  pub ticks : List TelemetryArchive
  pub gap_rows : List TelemetryGap
  pub event_rows : List StreamEvent
  pub malformed : ℕ

abbrev pub spoiled : Batch → Batch
spoiled b = record b { malformed = suc b.malformed }

unfoldable pub sort_record : ℕ → Envelope → Batch → Batch
sort_record received_at e b = elim e.kind [
  | telemetry ↦ elim (tick_row e received_at) [
    | none ↦ spoiled b
    | some r ↦ record b { ticks = r ∷ b.ticks }
  ]
  | gap ↦ elim (gap_row e received_at) [
    | none ↦ spoiled b
    | some r ↦ record b { gap_rows = r ∷ b.gap_rows }
  ]
  | incident ↦ elim (event_row e received_at) [
    | none ↦ spoiled b
    | some r ↦ record b { event_rows = r ∷ b.event_rows }
  ]
  | behavior_event ↦ elim (event_row e received_at) [
    | none ↦ spoiled b
    | some r ↦ record b { event_rows = r ∷ b.event_rows }
  ]
]

unfoldable pub sort_records : ℕ → List Envelope → Batch
sort_records received_at [] = record { ticks = []; gap_rows = []; event_rows = []; malformed = 0 }
sort_records received_at (e ∷ es) = sort_record received_at e (sort_records received_at es)

abbrev pub archive_id : TelemetryArchive → ℕ
archive_id r = r.event_id

abbrev pub gap_id : TelemetryGap → ℕ
gap_id r = r.event_id

abbrev pub event_id_of : StreamEvent → ℕ
event_id_of r = r.event_id

module _ {R : Type 0} (id : R → ℕ) where
  -- `{r["event_id"]: r for r in rows}`
  unfoldable pub last_of_each : List R → List R → List R
  last_of_each [] seen = seen
  last_of_each (r ∷ rs) seen = last_of_each rs (put id r seen)

  unfoldable pub stores : ℕ → List R → Bool
  stores i [] = false
  stores i (r ∷ rs) = (id r == i) || stores i rs

  -- `_insert_new`: the rows whose event is new; they are then added to the table.
  unfoldable pub insert_new : List R → List R → List R
  insert_new [] table = []
  insert_new (r ∷ rs) table =
      let rest = insert_new rs table in if stores (id r) table then rest else r ∷ rest

-- One group of `_ROLLUP_SQL`.
abbrev pub in_bucket : ℕ → ℕ → TelemetryArchive → Bool
in_bucket machine_id bucket r = (r.machine_id == machine_id) && (minute r.ts == bucket)

unfoldable pub bucket_rows : ℕ → ℕ → List TelemetryArchive → List TelemetryArchive
bucket_rows machine_id bucket [] = []
bucket_rows machine_id bucket (r ∷ rs) =
    let rest = bucket_rows machine_id bucket rs in
    if in_bucket machine_id bucket r then r ∷ rest else rest

unfoldable pub sum_of : (TelemetryArchive → ℕ) → List TelemetryArchive → ℕ
sum_of f [] = 0
sum_of f (r ∷ rs) = f r + sum_of f rs

abbrev pub one_if : Bool → ℕ
one_if b = if b then 1 else 0

unfoldable pub most : List TelemetryArchive → ℕ
most [] = 0
most (r ∷ rs) = max r.tick.fuel_used (most rs)

unfoldable pub least : TelemetryArchive → List TelemetryArchive → ℕ
least r [] = r.tick.fuel_used
least r (s ∷ ss) = min r.tick.fuel_used (least s ss)

unfoldable pub rollup : ℕ → ℕ → ℕ → List TelemetryArchive → Option FleetMinuteRollup
rollup now machine_id bucket [] = none
rollup now machine_id bucket (r ∷ rs) = some (record {
  machine_id = machine_id;
  bucket_start = bucket;
  ticks = length (r ∷ rs);
  engine_on_ticks = sum_of (λ x. one_if x.tick.engine_running) (r ∷ rs);
  working_ticks = sum_of (λ x. one_if (x.tick.engine_running && x.tick.hydraulic_active)) (r ∷ rs);
  idle_ticks =
      sum_of
        (λ x.
          one_if
            (x.tick.engine_running && (not x.tick.hydraulic_active && (x.tick.machine_speed == 0))))
        (r ∷ rs);
  rpm_sum = sum_of (λ x. x.tick.engine_rpm) (r ∷ rs);
  fuel_used = most (r ∷ rs) - least r rs;
  load_cycles = sum_of (λ x. x.tick.load_cycles) (r ∷ rs);
  updated_at = now;
})

abbrev pub is_bucket : ℕ → ℕ → FleetMinuteRollup → Bool
is_bucket machine_id bucket r = (r.machine_id == machine_id) && (r.bucket_start == bucket)

unfoldable pub find_rollup : ℕ → ℕ → List FleetMinuteRollup → Option FleetMinuteRollup
find_rollup machine_id bucket [] = none
find_rollup machine_id bucket (r ∷ rs) =
    if is_bucket machine_id bucket r then some r else find_rollup machine_id bucket rs

-- `ON CONFLICT (machine_id, bucket_start) DO UPDATE`
unfoldable pub write_rollup :
    Option FleetMinuteRollup → List FleetMinuteRollup → List FleetMinuteRollup
write_rollup none rows = rows
write_rollup (some r) [] = r ∷ []
write_rollup (some r) (x ∷ xs) =
    let rest = write_rollup (some r) xs in
    if is_bucket r.machine_id r.bucket_start x then r ∷ xs else x ∷ rest

-- `recompute_rollups`, for the machine and the minute of each new tick.
unfoldable pub recompute_rollups :
    ℕ
    → List TelemetryArchive
    → List TelemetryArchive
    → List FleetMinuteRollup
    → List FleetMinuteRollup
recompute_rollups now [] archive rows = rows
recompute_rollups now (t ∷ ts) archive rows =
    write_rollup
      (rollup now t.machine_id (minute t.ts) (bucket_rows t.machine_id (minute t.ts) archive))
      (recompute_rollups now ts archive rows)

unfoldable pub apply_records : ℕ → List Envelope → FleetDb → ApplyResult × FleetDb
apply_records now envelopes db =
    let b = sort_records now envelopes in
    let new_ticks = insert_new archive_id (last_of_each archive_id b.ticks []) db.archive in
    let new_gaps = insert_new gap_id (last_of_each gap_id b.gap_rows []) db.gaps in
    let new_events = insert_new event_id_of (last_of_each event_id_of b.event_rows []) db.events in
    let archive = new_ticks ++ db.archive in
    let stored = length new_ticks + length new_gaps + length new_events in
    (
      record {
        stored = stored;
        duplicates = length envelopes - b.malformed - stored;
        malformed = b.malformed;
      },
      record {
        archive = archive;
        gaps = new_gaps ++ db.gaps;
        events = new_events ++ db.events;
        rollups = recompute_rollups now new_ticks archive db.rollups;
      },
    )

-- `poll_once`: the records of a batch that decode are stored and committed; a failure before the
-- broker's offsets are committed makes it come again. Each batch has the time of its storing, and the
-- latest batch stands first.
unfoldable pub store_batches : List (ℕ × List Envelope) → FleetDb → FleetDb
store_batches [] db = db
store_batches ((now, es) ∷ bs) db = (apply_records now es (store_batches bs db)).1
