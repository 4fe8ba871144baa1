-- ===== src/Examples/Incidents.antt =====
-- Escalation and acknowledgement at concrete incidents.
use safe2go.Base.{◌+◌, ◌≤◌, ◌≡◌, ◌≢◌, ◌↔◌, refl, true, none, some, List, [], ◌∷◌, arith}
use safe2go.Config.{seatbelt, tilt, default_safety, seconds}
use safe2go.Rule.{warning, critical}
use safe2go.Escalation
use safe2go.Incident
use safe2go.Escalation.{no_windows, record_and_check}
use safe2go.Escalation.Window.{Opening, track, recent_warnings, record_and_check_iff}
use safe2go.Incident.{Incident, IncidentType, open_status, acknowledged, resolved, ok, acknowledge}
use safe2go.Incident.Resolution.{clear_hazard, acknowledge-clear_hazard}
use safe2go.Examples.Ticks.{calm}

abbrev history : List Opening
history =
    record { machine_id = 1; rule = tilt; at = 1000000; severity = warning }
    ∷ record { machine_id = 1; rule = seatbelt; at = 2000000; severity = warning }
    ∷ record { machine_id = 1; rule = tilt; at = 900000000; severity = warning }
    ∷ []

record_and_check_iff_example :
    ((record_and_check default_safety.repeat_escalation 1 tilt 1801000000 warning
        (track default_safety.repeat_escalation history no_windows)).1
      ≡ true)
    ↔ (3 ≤ recent_warnings 1 tilt (seconds 1800) 1801000000 history + 1)
unfolding Escalation.contains
record_and_check_iff_example =
    record_and_check_iff default_safety.repeat_escalation 1 tilt refl history 1801000000
      (omega arith) (omega arith)

-- The third WARNING, exactly 30 minutes after the first, opens as CRITICAL.
third_warning :
    (record_and_check default_safety.repeat_escalation 1 tilt 1801000000 warning
      (track default_safety.repeat_escalation history no_windows)).1
    ≡ true
third_warning = record_and_check_iff_example.1 (omega arith)

abbrev tipped : Incident
tipped = record {
  incident_id = 5;
  shift_id = 3;
  machine_id = 1;
  operator_id = 7;
  task_id = none;
  event_start = 1000000;
  event_end = none;
  incident_type = IncidentType.tilt;
  peak_severity = critical;
  escalation_reason = none;
  status = open_status;
  acknowledged_at = none;
  acknowledged_by = none;
}

abbrev tipped_acked : Incident
tipped_acked = record tipped {
  status = acknowledged;
  acknowledged_at = some 2000000;
  acknowledged_by = some 7;
}

abbrev tipped_final : Incident
tipped_final = record tipped_acked { event_end = some 3000000; status = resolved }

acknowledge-clear_hazard_example :
    (clear_hazard 3000000 tipped_acked ≡ tipped_final)
    × (tipped_final.status ≡ resolved)
    × (tipped_acked.status ≢ resolved)
    × ((clear_hazard 3000000 tipped).status ≢ resolved)
unfolding acknowledge Incident.status_after_hazard_clears
acknowledge-clear_hazard_example =
    acknowledge-clear_hazard tipped calm 2000000 3000000 refl refl refl refl tipped_acked
      tipped_final refl refl
