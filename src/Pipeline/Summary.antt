-- ===== src/Pipeline/Summary.antt =====
-- backend/app/edge/shift_summary.py: the summary of a shift from its stored ticks. Hours, ratios and
-- rates are rounded as the code rounds them, to the nearest unit of the last digit kept.
use safe2go.Base.{
  ℕ, ◌+◌, ◌-◌, ◌*◌, min, max, Bool, true, false, not, ◌&&◌, Option, none, some, List, [], ◌∷◌, ◌==◌,
  leb, if◌then◌else◌,
}
use safe2go.Telemetry.{TelemetryTick}
use safe2go.Tasks.{TaskStatus, cancelled, EdgeTask}
use safe2go.Handlers.{ShiftSummary}
use safe2go.Training.Quiz.{round_ratio}

-- `ORDER BY timestamp`
unfoldable pub insert_tick : TelemetryTick → List TelemetryTick → List TelemetryTick
insert_tick t [] = t ∷ []
insert_tick t (x ∷ xs) =
    let rest = insert_tick t xs in if leb t.timestamp x.timestamp then t ∷ x ∷ xs else x ∷ rest

unfoldable pub by_time : List TelemetryTick → List TelemetryTick
by_time [] = []
by_time (t ∷ ts) = insert_tick t (by_time ts)

-- `WHERE shift_id = …`
unfoldable pub of_shift : ℕ → List TelemetryTick → List TelemetryTick
of_shift i [] = []
of_shift i (t ∷ ts) = let rest = of_shift i ts in if t.shift_id == i then t ∷ rest else rest

-- The sums of the query.
pub record Sums : Type 0 where
  pub engine_seconds : ℕ
  pub idle_seconds : ℕ
  pub cycles : ℕ

abbrev pub idles : TelemetryTick → Bool
idles t = t.engine_running && (not t.hydraulic_active && (t.machine_speed == 0))

unfoldable pub most_fuel : List TelemetryTick → ℕ
most_fuel [] = 0
most_fuel (t ∷ ts) = max t.fuel_used (most_fuel ts)

unfoldable pub least_fuel : TelemetryTick → List TelemetryTick → ℕ
least_fuel t [] = t.fuel_used
least_fuel t (u ∷ us) = min t.fuel_used (least_fuel u us)

abbrev pub is_cancelled : TaskStatus → Bool
is_cancelled cancelled = true
is_cancelled _ = false

unfoldable pub completed_in : ℕ → List EdgeTask → ℕ
completed_in i [] = 0
completed_in i (t ∷ ts) =
    (if (t.shift_id == i) && not (is_cancelled t.status) then t.completed_quantity else 0)
    + completed_in i ts

-- An hour and a minute of microseconds.
abbrev pub hour : ℕ
hour = 3600000000

abbrev pub minute : ℕ
minute = 60000000

-- A ratio, and 0 for an engine that did not run.
abbrev pub or_zero : ℕ → ℕ → ℕ
or_zero a b = if b == 0 then 0 else round_ratio a b

module _ (sim_tick_seconds max_tick_gap_seconds : ℕ) where
  -- `least(coalesce(gap, nominal), cap)`, with the gap to the tick before
  abbrev pub gap : Option ℕ → ℕ → ℕ
  gap none ts = min sim_tick_seconds max_tick_gap_seconds
  gap (some previous) ts = min (ts - previous) max_tick_gap_seconds

  unfoldable pub sums : Option ℕ → List TelemetryTick → Sums
  sums previous [] = record { engine_seconds = 0; idle_seconds = 0; cycles = 0 }
  sums previous (t ∷ ts) =
      let rest = sums (some t.timestamp) ts in
      let dt = gap previous t.timestamp in
      record {
        engine_seconds = (if t.engine_running then dt else 0) + rest.engine_seconds;
        idle_seconds = (if idles t then dt else 0) + rest.idle_seconds;
        cycles = t.load_cycles + rest.cycles;
      }

  -- The result of the query on these rows.
  unfoldable pub summarize : List TelemetryTick → List EdgeTask → ℕ → Option ShiftSummary
  summarize [] tasks shift_id = none
  summarize (t ∷ ts) tasks shift_id =
      let s = sums none (t ∷ ts) in
      some (record {
        shift_id = shift_id;
        engine_hours = round_ratio (s.engine_seconds * 1000) hour;
        idle_minutes = round_ratio (s.idle_seconds * 100) minute;
        idle_ratio = or_zero (s.idle_seconds * 10000) s.engine_seconds;
        cycle_count = s.cycles;
        completed_quantity = completed_in shift_id tasks;
        fuel_used = most_fuel (t ∷ ts) - least_fuel t ts;
        cycle_rate = or_zero (s.cycles * 1000 * hour) s.engine_seconds;
      })

  unfoldable pub build_shift_summary : List TelemetryTick → List EdgeTask → ℕ → Option ShiftSummary
  build_shift_summary telemetry tasks shift_id =
      summarize (by_time (of_shift shift_id telemetry)) tasks shift_id
