-- ===== src/Engine/Run.antt =====
-- The methods of `SafetyEngine`.
pub mod Names
pub mod AutoSlow
pub mod Side
use mathlib.Core.Option
use safe2go.Base.{
  map, ℕ, suc, ◌+◌, Bool, true, false, not, ◌&&◌, ◌||◌, Option, none, some, List, [], ◌∷◌, ◌++◌,
  ◌==◌, if◌then◌else◌, is_some,
}
use safe2go.Config.{
  SafetyThresholds, RuleName, seatbelt, operator_seated, proximity, tilt, overload, visibility,
  temperature,
}
use safe2go.Telemetry.{TelemetryTick}
use safe2go.Rule
use safe2go.Rule.{Machine, Outcome, EvaluationResult, Severity, critical, Reason}
use safe2go.Rules.Seatbelt
use safe2go.Rules.OperatorSeated
use safe2go.Rules.Proximity
use safe2go.Rules.Tilt
use safe2go.Rules.Overload
use safe2go.Rules.Visibility
use safe2go.Rules.Temperature
use safe2go.Escalation
use safe2go.Escalation.{Windows, record_and_check, reset_machine}
use safe2go.Incident
use safe2go.Incident.{
  Incident, IncidentType, IncidentStatus, open_status, is_resolved, status_after_hazard_clears,
}
use safe2go.Engine.State.{
  RuleSlot, BroadcastEvent, opened, escalated, closed, DegradedReason, rule_error, sensor_fault,
  Effect, notify_incident_opened, notify_incident_closed, broadcast_incident, broadcast_degraded,
  broadcast_restored, Shared, SafetyEngine, Session, Frame, Act, ◌>>=◌, ◌>>◌, pure, done, gets,
  set_slot, set_shared, set_session, after_commit, has, discard, add, find, replace,
}

-- The slot's module, called with its extra arguments.
unfoldable pub evaluate_module :
    SafetyThresholds → ℕ → RuleName → Machine → TelemetryTick → ℕ → Outcome
evaluate_module t limit seatbelt m tick ts = Seatbelt.evaluate m tick ts
evaluate_module t limit operator_seated m tick ts = OperatorSeated.evaluate m tick ts
evaluate_module t limit proximity m tick ts = Proximity.evaluate t m tick ts
evaluate_module t limit tilt m tick ts = Tilt.evaluate t limit m tick ts
evaluate_module t limit overload m tick ts = Overload.evaluate t m tick ts
evaluate_module t limit visibility m tick ts = Visibility.evaluate t m tick ts
evaluate_module t limit temperature m tick ts = Temperature.evaluate t m tick ts

-- The slot's `incident_type`.
unfoldable pub incident_type : RuleName → IncidentType
incident_type seatbelt = IncidentType.seatbelt
incident_type operator_seated = IncidentType.operator_not_seated
incident_type proximity = IncidentType.proximity
incident_type tilt = IncidentType.tilt
incident_type overload = IncidentType.overloading
incident_type visibility = IncidentType.working_condition
incident_type temperature = IncidentType.working_condition

-- An incident listener writes tables of its own, and `none` is an exception.
abbrev pub Listener : Type 0 → Type 0
Listener S = IncidentType → ℕ → TelemetryTick → S → Option S

-- Listeners in order, each in a savepoint: one that raises leaves the tables as they were.
unfoldable pub notify_incident_listeners :
    {S : Type 0} → List (Listener S) → IncidentType → ℕ → TelemetryTick → S → S
notify_incident_listeners [] type id tick s = s
notify_incident_listeners (l ∷ ls) type id tick s =
    notify_incident_listeners ls type id tick (elim (l type id tick s) [ none ↦ s | some s' ↦ s' ])

-- What the engine is built with, and the world it runs in: `fails n` says whether the n-th call of
-- the database raises.
pub record Env (S : Type 0) : Type 0 where
  pub thresholds : SafetyThresholds
  pub machine_id : ℕ
  pub tilt_limit : ℕ
  pub has_clock_driver : Bool
  pub listeners : List (Listener S)
  pub fails : ℕ → Bool

module _ {S : Type 0} (env : Env S) where
  open env use {thresholds, machine_id, tilt_limit, has_clock_driver, listeners, fails}

  -- A call of the database that may raise: the n-th one raises if `fails n`.
  call_database : Act S (Unit {0})
  call_database f = (
    if fails f.session.calls then none else some tt,
    record f { session = record f.session { calls = suc f.session.calls } },
  )

  -- `_mark_unresolved`
  mark_unresolved : ℕ → Act S (Unit {0})
  mark_unresolved id = do
    set_shared (λ sh. record sh { unresolved = add id sh.unresolved })
    if has_clock_driver then after_commit notify_incident_opened else done

  -- `_mark_resolved`, on the shared state.
  unfoldable pub resolved_shared : ℕ → Shared → Shared
  resolved_shared id sh = if not (has id sh.unresolved) then sh else record sh {
    unresolved = discard id sh.unresolved;
    effects = if has_clock_driver then sh.effects ++ notify_incident_closed ∷ [] else sh.effects;
  }

  track_unknown : Bool → Act S (Unit {0})
  track_unknown unknown f =
      if unknown && f.slot.unknown || not unknown && not f.slot.unknown
      then (some tt, f)
      else (do
        set_slot (λ s. record s { unknown = unknown })
        after_commit (
            if unknown
            then broadcast_degraded f.slot.name sensor_fault
            else broadcast_restored f.slot.name))
          f

  -- The row that `_open_incident` adds.
  new_incident : RuleName → TelemetryTick → Severity → Option Reason → ℕ → Incident
  unfolding incident_type
  new_incident name tick severity reason id = record {
    incident_id = id;
    shift_id = tick.shift_id;
    machine_id = machine_id;
    operator_id = tick.operator_id;
    task_id = tick.task_id;
    event_start = tick.timestamp;
    event_end = none;
    incident_type = incident_type name;
    peak_severity = severity;
    escalation_reason = reason;
    status = open_status;
    acknowledged_at = none;
    acknowledged_by = none;
  }

  open_incident : TelemetryTick → Severity → Option Reason → Act S ℕ
  unfolding call_database new_incident
  open_incident tick severity reason = do
    id ← gets (λ f. f.session.drawn)
    set_session (λ s. record s { drawn = suc s.drawn })
    call_database
    incident ← gets (λ f. new_incident f.slot.name tick severity reason id)
    set_session (λ s. record s { incidents = incident ∷ s.incidents; outbox = incident ∷ s.outbox })
    pure id

  -- A changed row: flushed, then queued.
  write_incident : Incident → Act S (Unit {0})
  unfolding call_database
  write_incident j = do
    call_database
    set_session (λ s. record s { incidents = replace j s.incidents; outbox = j ∷ s.outbox })

  escalate_incident : ℕ → Option Reason → Act S (Unit {0})
  unfolding write_incident
  escalate_incident id reason = do
    call_database
    found ← gets (λ f. find id f.session.incidents)
    elim found [
      | none ↦ done
      | some i ↦ write_incident (record i { peak_severity = critical; escalation_reason = reason })
    ]

  close_incident : ℕ → ℕ → Act S (Option IncidentStatus)
  unfolding write_incident
  close_incident id event_end = do
    call_database
    found ← gets (λ f. find id f.session.incidents)
    elim found [
      | none ↦ pure none
      | some i ↦ do
        let status = status_after_hazard_clears i.peak_severity i.status
        write_incident (record i { event_end = some event_end; status = status })
        pure (some status)
    ]

  notify : ℕ → TelemetryTick → Act S (Unit {0})
  unfolding notify_incident_listeners incident_type
  notify id tick f = (
    some tt,
    record f {
      session = record f.session {
        side =
            notify_incident_listeners listeners (incident_type f.slot.name) id tick f.session.side;
      };
    },
  )

  -- `record_and_check`, and the severity that it leaves.
  check_repeat : ℕ → Act S Severity
  check_repeat sim_ts f =
      let (w, repeated) =
        record_and_check thresholds.repeat_escalation machine_id f.slot.name sim_ts
          f.slot.machine.current_severity f.shared.escalation in
      let severity = if repeated then critical else f.slot.machine.current_severity in
      (
        some severity,
        record f {
          slot = record f.slot { machine = record f.slot.machine { current_severity = severity } };
          shared = record f.shared { escalation = w };
        },
      )

  unfoldable pub on_opened : TelemetryTick → ℕ → EvaluationResult → Act S (Unit {0})
  unfolding check_repeat open_incident mark_unresolved notify
  on_opened tick sim_ts result = do
    severity ← check_repeat sim_ts
    id ← open_incident tick severity result.escalation_reason
    set_slot (λ s. record s { open_incident_id = some id })
    mark_unresolved id
    name ← gets (λ f. f.slot.name)
    after_commit (broadcast_incident name id opened severity)
    notify id tick

  unfoldable pub on_escalated : ℕ → EvaluationResult → Act S (Unit {0})
  unfolding escalate_incident
  on_escalated id result = do
    escalate_incident id result.escalation_reason
    name ← gets (λ f. f.slot.name)
    after_commit (broadcast_incident name id escalated critical)

  unfoldable pub on_closed : ℕ → TelemetryTick → Act S (Unit {0})
  unfolding close_incident
  on_closed id tick = do
    status ← close_incident id tick.timestamp
    set_slot (λ s. record s { open_incident_id = none })
    elim status [
      | none ↦ done
      | some st ↦ if is_resolved st then set_shared (resolved_shared id) else done
    ]
    slot ← gets (λ f. f.slot)
    after_commit (broadcast_incident slot.name id closed slot.machine.current_severity)

  -- The branches of `_evaluate_rule` where nothing opened, on the slot's open incident.
  unfoldable pub follow_up : TelemetryTick → EvaluationResult → Option ℕ → Act S (Unit {0})
  follow_up tick result none f = (some tt, f)
  follow_up tick result (some id) f =
      if result.escalate_to_critical
      then on_escalated id result f
      else if result.has_closed
      then on_closed id tick f
      else (some tt, f)

  respond : TelemetryTick → ℕ → EvaluationResult → Act S (Unit {0})
  respond tick sim_ts result f =
      if result.opened
      then on_opened tick sim_ts result f
      else follow_up tick result f.slot.open_incident_id f

  -- The call of the rule's module: it raises before it writes.
  judge : TelemetryTick → ℕ → Act S EvaluationResult
  unfolding evaluate_module
  judge tick sim_ts f =
      elim (evaluate_module thresholds tilt_limit f.slot.name f.slot.machine tick sim_ts) [
        | none ↦ (none, f)
        | some (m, r) ↦ (some r, record f { slot = record f.slot { machine = m } })
      ]

  unfoldable pub evaluate_rule : TelemetryTick → ℕ → Act S (Unit {0})
  unfolding judge track_unknown respond
  evaluate_rule tick sim_ts = do
    result ← judge tick sim_ts
    track_unknown result.unknown
    respond tick sim_ts result
