-- ===== src/Rules/Grace.antt =====
-- The grace periods of the two rules with binary signals: seatbelt and operator not seated.
use safe2go.Base.{ℕ, ◌+◌, ◌≤◌, ◌<◌, true, ◌≡◌, ◌↔◌, ◌⊎◌, some, arith}
use safe2go.Config.{SafetyThresholds}
use safe2go.Telemetry.{TelemetryTick, unfastened, fastened}
use safe2go.Rule
use safe2go.Rule.{
  RuleState, idle, pending, active, warning, critical, EvaluationResult, Machine, Outcome,
}
use safe2go.Rules.Seatbelt
use safe2go.Rules.OperatorSeated

-- The operator-not-seated rule does not wait for its grace period: whatever the thresholds say, the
-- second of two ticks in a row with the seat empty, the engine running and the park brake off opens
-- a CRITICAL incident, however short the time between them.
pub seated_ignores_grace :
    (t : SafetyThresholds) (tick₁ tick₂ : TelemetryTick) (ts₁ ts₂ : ℕ) (m₁ m₂ : Machine)
    (r₁ r₂ : EvaluationResult)
    → ts₁ ≤ ts₂
    → OperatorSeated.condition tick₁ ≡ true
    → OperatorSeated.condition tick₂ ≡ true
    → OperatorSeated.evaluate (OperatorSeated.build_state_machine t) tick₁ ts₁ ≡ some (m₁, r₁)
    → OperatorSeated.evaluate m₁ tick₂ ts₂ ≡ some (m₂, r₂)
    → (r₂.opened ≡ true) × (m₂.current_severity ≡ critical)
unfolding OperatorSeated.build_state_machine OperatorSeated.evaluate Rule.evaluate
seated_ignores_grace t tick₁ tick₂ ts₁ ts₂ m₁ m₂ r₁ r₂ h c₁ c₂ e₁ e₂ = ground arith

-- An open seatbelt WARNING whose hazard began at `since` escalates on a tick exactly if the tick is
-- at least the critical grace period after it, whether the belt is then unfastened or fastened.
seatbelt_escalates_iff :
    (tick : TelemetryTick) (ts since : ℕ) (m m' : Machine) (r : EvaluationResult)
    → (tick.seatbelt_status ≡ unfastened) ⊎ (tick.seatbelt_status ≡ fastened)
    → m.state ≡ active
    → m.pending_since ≡ some since
    → m.current_severity ≡ warning
    → 0 < m.grace_critical
    → Seatbelt.evaluate m tick ts ≡ some (m', r)
    → (r.escalate_to_critical ≡ true) ↔ (since + m.grace_critical ≤ ts)
unfolding Seatbelt.evaluate Rule.evaluate
seatbelt_escalates_iff tick ts since m m' r b s p w g e = ground arith
