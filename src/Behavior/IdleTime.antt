-- ===== src/Behavior/IdleTime.antt =====
-- The times that the idle ratio is made of.
use safe2go.Base.{
  ℕ, suc, ◌+◌, ◌*◌, ◌≤◌, max, Bool, ◌&&◌, Option, none, some, List, [], ◌∷◌, ◌≡◌, sym, arith,
  if◌then◌else◌,
}
use mathlib.Core.Path.{subst}
use safe2go.Telemetry.{TelemetryTick}
use safe2go.Incident.IncidentType.{overloading, seatbelt}
use safe2go.Behavior.Engine.{
  BehaviorThresholds, BehaviorEngine, BehaviorDb, Call, tick, incident, shift_end, tick_seconds,
  is_idle, accumulate, calls,
}
use safe2go.Behavior.Isolation.{silent, advance, call-silent}

abbrev pub count_ticks : List Call → ℕ
count_ticks [] = 0
count_ticks (tick w w' t status ∷ cs) = suc (count_ticks cs)
count_ticks (incident w type ts ∷ cs) = count_ticks cs
count_ticks (shift_end w at ∷ cs) = count_ticks cs

module _ (cfg : BehaviorThresholds) where
  -- The longest time that one tick stands for.
  abbrev pub longest_tick : ℕ
  longest_tick = max cfg.sim_tick_seconds cfg.max_tick_gap_seconds

  abbrev pub IsTimed : ℕ → BehaviorEngine → Type 0
  IsTimed n e =
      (e.total_idle_seconds ≤ e.total_engine_seconds) × (e.total_engine_seconds ≤ n * longest_tick)

  tick_seconds_bound : (last : Option ℕ) (ts : ℕ) → tick_seconds cfg last ts ≤ longest_tick
  tick_seconds_bound none ts = ground arith
  tick_seconds_bound (some previous) ts = ground arith

  grow :
      (running idle : Bool) (i e seconds n : ℕ)
      → i ≤ e
      → e ≤ n * longest_tick
      → seconds ≤ longest_tick
      → (i + (if running && idle then seconds else 0) ≤ e + (if running then seconds else 0))
        × (e + (if running then seconds else 0) ≤ suc n * longest_tick)
  grow running idle i e seconds n below total step = ground arith

  accumulate-IsTimed :
      (n : ℕ) (t : TelemetryTick) (e : BehaviorEngine)
      → IsTimed n e
      → IsTimed (suc n) (accumulate cfg t e)
  unfolding accumulate
  accumulate-IsTimed n t e h =
      grow t.engine_running (is_idle cfg t) e.total_idle_seconds e.total_engine_seconds
        (tick_seconds cfg e.last_tick_at t.timestamp) n h.0 h.1
        (tick_seconds_bound e.last_tick_at t.timestamp)

  advance-IsTimed :
      (c : Call) (cs : List Call) (e : BehaviorEngine)
      → IsTimed (count_ticks cs) e
      → IsTimed (count_ticks (c ∷ cs)) (advance cfg c e)
  advance-IsTimed (tick w w' t status) cs e h = accumulate-IsTimed (count_ticks cs) t e h
  advance-IsTimed (incident w overloading ts) cs e h = h
  advance-IsTimed (incident w seatbelt ts) cs e h = h
  advance-IsTimed (incident w _ ts) cs e h = h
  advance-IsTimed (shift_end w at) cs e h = ground arith

  -- The idle time never exceeds the engine time, and the engine time is at most the longest time of a
  -- tick for each tick, whatever the gaps between ticks and the order of their times.
  pub calls-IsTimed :
      (cs : List Call) (e : BehaviorEngine) (db : BehaviorDb)
      → e.total_idle_seconds ≡ 0
      → e.total_engine_seconds ≡ 0
      → IsTimed (count_ticks cs) (calls cfg cs (e, db)).0
  unfolding calls
  calls-IsTimed [] e db idle engine = omega (arith, idle, engine)
  calls-IsTimed (c ∷ cs) e db idle engine =
      subst (IsTimed (count_ticks (c ∷ cs))) (sym (call-silent cfg c (calls cfg cs (e, db))))
        (advance-IsTimed c cs (silent (calls cfg cs (e, db)).0) (calls-IsTimed cs e db idle engine))
