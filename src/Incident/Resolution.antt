-- ===== src/Incident/Resolution.antt =====
-- When an incident is resolved.
use safe2go.Base.{
  ℕ, ◌≡◌, ◌≢◌, ◌⊎◌, ◌↔◌, true, some, none, arith, Option, is_some, Bool-cases, inl, inr,
}
use safe2go.Telemetry.{TelemetryTick}
use safe2go.Rule.{critical}
use safe2go.Incident.{
  Incident, open_status, acknowledged, resolved, ok, acknowledge, status_after_hazard_clears,
  is_resolved,
}

-- The end of the hazard at `at`, as `_close_incident` writes it.
abbrev pub clear_hazard : ℕ → Incident → Incident
clear_hazard at i = record i {
  event_end = some at;
  status = status_after_hazard_clears i.peak_severity i.status;
}

acknowledge_operator :
    (i j : Incident) (tick : Option TelemetryTick) (op now : ℕ)
    → acknowledge i tick op now ≡ ok j
    → i.operator_id ≡ op
unfolding acknowledge
acknowledge_operator i j tick op now e = ground arith

-- What an accepted acknowledgement of an unresolved incident does.
record Acknowledges (i j : Incident) : Type 0 where
  pub ends : (j.status ≡ resolved) ↔ (is_some i.event_end ≡ true)
  pub waits : (j.status ≡ acknowledged) ↔ (i.event_end ≡ none)
  pub stamped : is_some j.acknowledged_at ≡ true
  pub same_end : j.event_end ≡ i.event_end
  pub same_severity : j.peak_severity ≡ i.peak_severity

-- The machine stands still on its latest tick.
abbrev IsStationary : Option TelemetryTick → Type 0
IsStationary none = ⊥
IsStationary (some t) = t.machine_speed ≡ 0

acknowledge_effect :
    (i j : Incident) (tick : Option TelemetryTick) (op now : ℕ)
    → acknowledge i tick op now ≡ ok j
    → ((i.status ≡ resolved) × (j ≡ i)) ⊎ (IsStationary tick × Acknowledges i j)
unfolding acknowledge
acknowledge_effect i j none op now e = ground arith
acknowledge_effect i j (some t) op now e = elim (Bool-cases (is_resolved i.status)) [
  | inl old ↦ inl (ground arith)
  | inr new ↦ inr (ground arith, ground arith)
]

-- An acknowledgement goes through only for the incident's own operator, and, unless the incident is
-- resolved already and stays as it is, only while the latest tick is there and shows no speed. It
-- then resolves the incident if the hazard has ended, otherwise marks it acknowledged, and changes
-- neither the hazard's end nor the severity.
acknowledge_lem :
    (i j : Incident) (tick : Option TelemetryTick) (op now : ℕ)
    → acknowledge i tick op now ≡ ok j
    → (i.operator_id ≡ op)
      × (((i.status ≡ resolved) × (j ≡ i)) ⊎ (IsStationary tick × Acknowledges i j))
acknowledge_lem i j tick op now e =
    (acknowledge_operator i j tick op now e, acknowledge_effect i j tick op now e)

-- A CRITICAL incident that is open and not yet acknowledged is resolved by the acknowledgement and
-- the end of the hazard together, in either order and with the same record at the end, and by
-- neither alone.
pub acknowledge-clear_hazard :
    (i : Incident) (t : TelemetryTick) (now at : ℕ)
    → i.peak_severity ≡ critical
    → i.status ≡ open_status
    → i.event_end ≡ none
    → t.machine_speed ≡ 0
    → (acked final : Incident) → acknowledge i (some t) i.operator_id now ≡ ok acked
    → acknowledge (clear_hazard at i) (some t) i.operator_id now ≡ ok final
    → (clear_hazard at acked ≡ final)
      × (final.status ≡ resolved)
      × (acked.status ≢ resolved)
      × ((clear_hazard at i).status ≢ resolved)
unfolding acknowledge status_after_hazard_clears
acknowledge-clear_hazard i t now at c s e v acked final p q = ground arith
