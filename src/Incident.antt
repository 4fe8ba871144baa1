-- ===== src/Incident.antt =====
-- backend/app/db/models/edge/incident.py, and the rules of acknowledgement in
-- backend/app/edge/safety/acknowledgement.py. A raised domain error is `err`.
pub mod Resolution
use safe2go.Base.{ℕ, Bool, true, false, not, Option, none, some, ltb, ◌==◌, if◌then◌else◌, is_some}
use safe2go.Telemetry.{TelemetryTick}
use safe2go.Rule.{Severity, warning, critical, Reason}

pub data IncidentType : Type 0 where
  seatbelt operator_not_seated proximity overloading tilt working_condition manual_report :
      IncidentType

pub data IncidentStatus : Type 0 where
  open_status acknowledged resolved : IncidentStatus

pub record Incident : Type 0 where
  pub incident_id : ℕ
  pub shift_id : ℕ
  pub machine_id : ℕ
  pub operator_id : ℕ
  pub task_id : Option ℕ
  pub event_start : ℕ
  pub event_end : Option ℕ
  pub incident_type : IncidentType
  pub peak_severity : Severity
  pub escalation_reason : Option Reason
  pub status : IncidentStatus
  pub acknowledged_at : Option ℕ
  pub acknowledged_by : Option ℕ

pub data AckError : Type 0 where
  forbidden no_telemetry moving : AckError

pub data AckResult : Type 0 where
  ok : Incident → AckResult
  err : AckError → AckResult

abbrev pub is_resolved : IncidentStatus → Bool
is_resolved resolved = true
is_resolved _ = false

-- `if incident.acknowledged_at is None: ...`
stamp : ℕ → ℕ → Incident → Incident
stamp operator_id now i =
    if is_some i.acknowledged_at
    then i
    else record i { acknowledged_at = some now; acknowledged_by = some operator_id }

accept : ℕ → ℕ → Incident → Incident
unfolding stamp
accept operator_id now i = record (stamp operator_id now i) {
  status = if is_some i.event_end then resolved else acknowledged;
}

unfoldable pub acknowledge : Incident → Option TelemetryTick → ℕ → ℕ → AckResult
unfolding accept
acknowledge i tick operator_id now =
    if not (i.operator_id == operator_id)
    then err forbidden
    else if is_resolved i.status
    then ok i
    else elim tick [
      | none ↦ err no_telemetry
      | some t ↦ if ltb 0 t.machine_speed then err moving else ok (accept operator_id now i)
    ]

unfoldable pub status_after_hazard_clears : Severity → IncidentStatus → IncidentStatus
status_after_hazard_clears warning current = resolved
status_after_hazard_clears critical acknowledged = resolved
status_after_hazard_clears critical current = current
