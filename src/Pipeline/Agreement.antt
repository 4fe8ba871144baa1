-- ===== src/Pipeline/Agreement.antt =====
-- The summary of a shift and the behavior engine count the same times.
use safe2go.Training.Quiz.{round_ratio}
use safe2go.Base.{
  ℕ, ◌+◌, ◌*◌, ◌≤◌, ◌&&◌, Option, none, some, List, [], ◌∷◌, ◌==◌, if◌then◌else◌, ◌≡◌, refl, ap,
  ◌∙◌, arith,
}
use safe2go.Telemetry.{TelemetryTick}
use safe2go.Tasks.{TaskStatus, EdgeTask}
use safe2go.Handlers.{ShiftSummary}
use safe2go.Behavior.Engine.{
  BehaviorThresholds, BehaviorEngine, BehaviorDb, Persist, tick, accumulate, call, process_tick,
  tick_seconds, is_idle,
}
use safe2go.Behavior.Isolation.{silent, advance, call-silent}
use safe2go.Pipeline.Summary.{
  insert_tick, by_time, of_shift, Sums, gap, sums, build_shift_summary, summarize,
}

-- Ticks in the order in which they were processed, and the engine after them.
pub record Fed : Type 0 where
  pub tick_data : TelemetryTick
  pub status : Option TaskStatus
  pub first : Persist
  pub second : Persist

unfoldable pub feed :
    BehaviorThresholds → List Fed → BehaviorEngine × BehaviorDb → BehaviorEngine × BehaviorDb
feed cfg [] s = s
feed cfg (f ∷ fs) s = feed cfg fs (process_tick cfg f.first f.second f.tick_data f.status s)

abbrev pub ticks : List Fed → List TelemetryTick
ticks [] = []
ticks (f ∷ fs) = f.tick_data ∷ ticks fs

-- Every tick is of the shift, and none is earlier than the one before it.
abbrev pub InOrder : ℕ → List TelemetryTick → Type 0
InOrder from [] = Unit
InOrder from (t ∷ ts) = (from ≤ t.timestamp) × InOrder t.timestamp ts

abbrev pub OfShift : ℕ → List TelemetryTick → Type 0
OfShift i [] = Unit
OfShift i (t ∷ ts) = (t.shift_id ≡ i) × OfShift i ts

of_shift-OfShift : (i : ℕ) (ts : List TelemetryTick) → OfShift i ts → of_shift i ts ≡ ts
unfolding of_shift
of_shift-OfShift i [] h = refl
of_shift-OfShift i (t ∷ ts) h = let rest = of_shift-OfShift i ts h.1 in ground arith

insert_tick-InOrder :
    (t : TelemetryTick) (ts : List TelemetryTick)
    → InOrder t.timestamp ts
    → insert_tick t ts ≡ t ∷ ts
unfolding insert_tick
insert_tick-InOrder t [] h = refl
insert_tick-InOrder t (x ∷ xs) h = ground arith

by_time-InOrder : (from : ℕ) (ts : List TelemetryTick) → InOrder from ts → by_time ts ≡ ts
unfolding by_time
by_time-InOrder from [] h = refl
by_time-InOrder from (t ∷ ts) h =
    ap (insert_tick t) (by_time-InOrder t.timestamp ts h.1) ∙ insert_tick-InOrder t ts h.1

module _ (cfg : BehaviorThresholds) (short : cfg.sim_tick_seconds ≤ cfg.max_tick_gap_seconds) where
  same_gap :
      (previous : Option ℕ) (ts : ℕ)
      → gap cfg.sim_tick_seconds cfg.max_tick_gap_seconds previous ts ≡ tick_seconds cfg previous ts
  same_gap none ts = ground arith
  same_gap (some previous) ts = refl

  -- The sums of the query with the engine's names.
  abbrev total : Option ℕ → List TelemetryTick → Sums
  total previous ts = sums cfg.sim_tick_seconds cfg.max_tick_gap_seconds previous ts

  process_tick-silent :
      (f : Fed) (s : BehaviorEngine × BehaviorDb)
      → silent (process_tick cfg f.first f.second f.tick_data f.status s).0
        ≡ advance cfg (tick f.first f.second f.tick_data f.status) (silent s.0)
  unfolding call
  process_tick-silent f s = call-silent cfg (tick f.first f.second f.tick_data f.status) s

  -- One tick in the engine, and in the sums.
  abbrev engine_part : Option ℕ → TelemetryTick → ℕ
  engine_part previous t = if t.engine_running then tick_seconds cfg previous t.timestamp else 0

  abbrev idle_part : Option ℕ → TelemetryTick → ℕ
  idle_part previous t =
      if t.engine_running && is_idle cfg t then tick_seconds cfg previous t.timestamp else 0

  one_tick :
      (f : Fed) (s : BehaviorEngine × BehaviorDb)
      → let e' = (process_tick cfg f.first f.second f.tick_data f.status s).0 in
        (e'.total_engine_seconds
          ≡ s.0.total_engine_seconds + engine_part s.0.last_tick_at f.tick_data)
        × (e'.total_idle_seconds ≡ s.0.total_idle_seconds + idle_part s.0.last_tick_at f.tick_data)
        × (e'.last_tick_at ≡ some f.tick_data.timestamp)
  unfolding accumulate
  one_tick f s =
      let same = process_tick-silent f s in
      (
        ap (λ (e : BehaviorEngine). e.total_engine_seconds) same,
        ap (λ (e : BehaviorEngine). e.total_idle_seconds) same,
        ap (λ (e : BehaviorEngine). e.last_tick_at) same,
      )

  sums-cons :
      (previous : Option ℕ) (t : TelemetryTick) (ts : List TelemetryTick)
      → ((total previous (t ∷ ts)).engine_seconds
          ≡ engine_part previous t + (total (some t.timestamp) ts).engine_seconds)
        × ((total previous (t ∷ ts)).idle_seconds
            ≡ idle_part previous t + (total (some t.timestamp) ts).idle_seconds)
  unfolding sums
  sums-cons previous t ts = (
    ap (λ n. (if t.engine_running then n else 0) + (total (some t.timestamp) ts).engine_seconds)
        (same_gap previous t.timestamp),
    ap
        (λ n.
          (if t.engine_running && is_idle cfg t then n else 0)
          + (total (some t.timestamp) ts).idle_seconds)
        (same_gap previous t.timestamp),
  )

  sums-nil :
      (previous : Option ℕ)
      → ((total previous []).engine_seconds ≡ 0) × ((total previous []).idle_seconds ≡ 0)
  unfolding sums
  sums-nil previous = (refl, refl)

  abbrev Adds : List TelemetryTick → BehaviorEngine → BehaviorEngine → Type 0
  Adds ts e e' =
      (e'.total_engine_seconds ≡ e.total_engine_seconds + (total e.last_tick_at ts).engine_seconds)
      × (e'.total_idle_seconds ≡ e.total_idle_seconds + (total e.last_tick_at ts).idle_seconds)

  feed-Adds :
      (fs : List Fed) (s : BehaviorEngine × BehaviorDb) → Adds (ticks fs) s.0 (feed cfg fs s).0
  unfolding feed
  feed-Adds [] s =
      let (engine, idle) = sums-nil s.0.last_tick_at in (omega (arith, engine), omega (arith, idle))
  feed-Adds (f ∷ fs) s =
      let s' = process_tick cfg f.first f.second f.tick_data f.status s in
      let (engine, idle, last) = one_tick f s in
      let (rest_engine, rest_idle) = feed-Adds fs s' in
      let (sum_engine, sum_idle) = sums-cons s.0.last_tick_at f.tick_data (ticks fs) in
      let then_engine = ap (λ l. (total l (ticks fs)).engine_seconds) last in
      let then_idle = ap (λ l. (total l (ticks fs)).idle_seconds) last in
      (
        omega (arith, engine, rest_engine, sum_engine, then_engine),
        omega (arith, idle, rest_idle, sum_idle, then_idle),
      )

  -- What a summary says of the times of an engine.
  abbrev pub Agrees : Option ShiftSummary → BehaviorEngine → Type 0
  Agrees none e = (e.total_engine_seconds ≡ 0) × (e.total_idle_seconds ≡ 0)
  Agrees (some s) e =
      (s.engine_hours ≡ round_ratio (e.total_engine_seconds * 1000) 3600000000)
      × (s.idle_minutes ≡ round_ratio (e.total_idle_seconds * 100) 60000000)
      × (s.idle_ratio ≡ (
          if e.total_engine_seconds == 0
          then 0
          else round_ratio (e.total_idle_seconds * 10000) e.total_engine_seconds))

  -- When the ticks of a shift reach the engine in the order of their times, and the nominal tick is
  -- not longer than the longest gap, the summary built from the stored ticks has the engine's time
  -- and idle time, however the stored ticks are spaced.
  pub build_shift_summary-Agrees :
      (fs : List Fed) (tasks : List EdgeTask) (shift_id : ℕ) (e : BehaviorEngine) (db : BehaviorDb)
      → InOrder 0 (ticks fs)
      → OfShift shift_id (ticks fs)
      → e.total_engine_seconds ≡ 0
      → e.total_idle_seconds ≡ 0
      → e.last_tick_at ≡ none
      → Agrees
          (build_shift_summary cfg.sim_tick_seconds cfg.max_tick_gap_seconds
            (ticks fs)
            tasks
            shift_id)
          (feed cfg fs (e, db)).0
  unfolding build_shift_summary summarize feed of_shift by_time
  build_shift_summary-Agrees [] tasks shift_id e db ordered own engine idle last = (engine, idle)
  build_shift_summary-Agrees (f ∷ fs) tasks shift_id e db ordered own engine idle last =
      let ts = ticks (f ∷ fs) in
      let rows : by_time (of_shift shift_id ts) ≡ ts =
        ap by_time (of_shift-OfShift shift_id ts own) ∙ by_time-InOrder 0 ts ordered in
      let (added, idled) = feed-Adds (f ∷ fs) (e, db) in
      let engine_total = ap (λ l. (total l ts).engine_seconds) last in
      let idle_total = ap (λ l. (total l ts).idle_seconds) last in
      let e' = (feed cfg (f ∷ fs) (e, db)).0 in
      let all_engine : (total none ts).engine_seconds ≡ e'.total_engine_seconds =
        omega (arith, added, engine, engine_total) in
      let all_idle : (total none ts).idle_seconds ≡ e'.total_idle_seconds =
        omega (arith, idled, idle, idle_total) in
      rw (rows) (
        ap (λ n. round_ratio (n * 1000) 3600000000) all_engine,
        ap (λ n. round_ratio (n * 100) 60000000) all_idle,
        ap (λ n. if n == 0 then 0 else round_ratio ((total none ts).idle_seconds * 10000) n)
              all_engine
            ∙ ap
                (λ n.
                  if e'.total_engine_seconds == 0
                  then 0
                  else round_ratio (n * 10000) e'.total_engine_seconds)
                all_idle,
      )
