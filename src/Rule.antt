-- ===== src/Rule.antt =====
-- backend/app/edge/safety/state_machine.py: the event state machine that every safety rule runs.
-- A method returns the new machine. Times are whole microseconds on the simulation clock. A test
-- `ts - since >= span` is written `since + span <= ts`, which is the same on integers of either
-- sign. Subtracting `None` raises a `TypeError`, which is `none` here; no field has been written
-- when it is raised.
pub mod Invariant
pub mod Trace
pub mod Hold
pub mod Cooldown
pub mod Opening
use safe2go.Base.{ℕ, ◌+◌, Bool, true, false, not, ◌&&◌, Option, none, some, leb, ltb, if◌then◌else◌}

pub data RuleState : Type 0 where
  idle pending active clearing closed : RuleState

pub data Severity : Type 0 where
  warning critical : Severity

pub data Reason : Type 0 where
  grace_period threshold repeat : Reason

pub record EvaluationResult : Type 0 where
  pub state : RuleState
  pub opened : Bool
  pub has_closed : Bool
  pub escalate_to_critical : Bool
  pub escalation_reason : Option Reason
  pub unknown : Bool

pub record Machine : Type 0 where
  pub debounce : ℕ
  pub cooldown : ℕ
  pub grace_warning : ℕ
  pub grace_critical : ℕ
  pub clearing_hold : ℕ
  pub state : RuleState
  pub pending_since : Option ℕ
  pub active_since : Option ℕ
  pub clearing_since : Option ℕ
  pub closed_since : Option ℕ
  pub current_severity : Severity

-- `RuleStateMachine.__init__`, with `clearing_hold_seconds` given.
unfoldable pub new : ℕ → ℕ → ℕ → ℕ → ℕ → Machine
new debounce cooldown grace_warning grace_critical clearing_hold = record {
  debounce = debounce;
  cooldown = cooldown;
  grace_warning = grace_warning;
  grace_critical = grace_critical;
  clearing_hold = clearing_hold;
  state = idle;
  pending_since = none;
  active_since = none;
  clearing_since = none;
  closed_since = none;
  current_severity = warning;
}

-- `EvaluationResult(state=...)` with the defaults of the other fields.
abbrev pub quiet : RuleState → EvaluationResult
quiet s = record {
  state = s;
  opened = false;
  has_closed = false;
  escalate_to_critical = false;
  escalation_reason = none;
  unknown = false;
}

abbrev pub is_warning : Severity → Bool
is_warning warning = true
is_warning critical = false

-- `machine.state in (RuleState.ACTIVE, RuleState.CLEARING)`
abbrev pub is_open : RuleState → Bool
is_open active = true
is_open clearing = true
is_open _ = false

abbrev pub Outcome : Type 0
Outcome = Option (Machine × EvaluationResult)

from_idle : ℕ → Bool → Machine → Outcome
from_idle ts present m =
    if present
    then some (record m { pending_since = some ts; state = pending }, quiet pending)
    else some (m, quiet idle)

-- The machine opens an incident at `ts`.
abbrev open_at : ℕ → Severity → Option Reason → Machine → Machine × EvaluationResult
open_at ts severity reason m = (
  record m { current_severity = severity; state = active; active_since = some ts },
  record (quiet active) { opened = true; escalation_reason = reason },
)

from_pending_since : ℕ → ℕ → Bool → Machine → Machine × EvaluationResult
from_pending_since since ts is_critical m =
    if ltb 0 m.grace_warning
    then (if leb (since + m.grace_critical) ts && ltb 0 m.grace_critical
        then open_at ts critical (some grace_period) m
        else if leb (since + m.grace_warning) ts
        then open_at ts warning (some grace_period) m
        else (m, quiet pending))
    else if leb (since + m.debounce) ts
    then open_at ts (if is_critical then critical else warning) none m
    else (m, quiet pending)

from_pending : ℕ → Bool → Bool → Machine → Outcome
unfolding from_pending_since
from_pending ts present is_critical m =
    if not present
    then some (record m { state = idle; pending_since = none }, quiet idle)
    else elim m.pending_since [
      | none ↦ none
      | some since ↦ some (from_pending_since since ts is_critical m)
    ]

-- The two escalation tests of `_from_active`, in order: the second sees the severity that the
-- first may have written.
abbrev grace_elapsed : ℕ → Machine → Bool
grace_elapsed ts m =
    ltb 0 m.grace_critical
    && elim m.pending_since [ none ↦ false | some since ↦ leb (since + m.grace_critical) ts ]

abbrev escalate : Reason → Machine × EvaluationResult → Machine × EvaluationResult
escalate reason (m, r) = (
  record m { current_severity = critical },
  record r { escalate_to_critical = true; escalation_reason = some reason },
)

escalate_by_grace : ℕ → Machine × EvaluationResult → Machine × EvaluationResult
escalate_by_grace ts (m, r) =
    if grace_elapsed ts m && is_warning m.current_severity
    then escalate grace_period (m, r)
    else (m, r)

escalate_by_threshold : Bool → Machine × EvaluationResult → Machine × EvaluationResult
escalate_by_threshold is_critical (m, r) =
    if is_critical && is_warning m.current_severity then escalate threshold (m, r) else (m, r)

abbrev start_clearing : ℕ → Bool → Machine × EvaluationResult → Machine × EvaluationResult
start_clearing ts present (m, r) =
    if not present
    then (record m { clearing_since = some ts; state = clearing }, record r { state = clearing })
    else (m, r)

from_active : ℕ → Bool → Bool → Machine → Outcome
unfolding escalate_by_grace escalate_by_threshold
from_active ts present is_critical m = some (
    start_clearing ts present
      (escalate_by_threshold is_critical (escalate_by_grace ts (m, quiet active))))

from_clearing : ℕ → Bool → Machine → Outcome
from_clearing ts present m =
    if present
    then some (record m { state = active; clearing_since = none }, quiet active)
    else elim m.clearing_since [
      | none ↦ none
      | some since ↦ some (
          if leb (since + m.clearing_hold) ts
          then (
            record m { state = closed; closed_since = some ts },
            record (quiet closed) { has_closed = true },
          )
          else (m, quiet clearing))
    ]

from_closed : ℕ → Machine → Outcome
from_closed ts m = elim m.closed_since [
  | none ↦ none
  | some since ↦ some (
      if leb (since + m.cooldown) ts
      then (
        record m {
          state = idle;
          pending_since = none;
          active_since = none;
          clearing_since = none;
          closed_since = none;
        },
        quiet idle,
      )
      else (m, quiet closed))
]

dispatch : RuleState → ℕ → Bool → Bool → Machine → Outcome
unfolding from_idle from_pending from_active from_clearing from_closed
dispatch idle ts present is_critical m = from_idle ts present m
dispatch pending ts present is_critical m = from_pending ts present is_critical m
dispatch active ts present is_critical m = from_active ts present is_critical m
dispatch clearing ts present is_critical m = from_clearing ts present m
dispatch closed ts present is_critical m = from_closed ts m

-- `RuleStateMachine.evaluate`
unfoldable pub evaluate : ℕ → Bool → Bool → Machine → Outcome
unfolding dispatch
evaluate ts present is_critical m = dispatch m.state ts present is_critical m

held : RuleState → Machine → Machine
held clearing m = record m { state = active; clearing_since = none }
held _ m = m

unfoldable pub hold_unknown : Machine → Machine × EvaluationResult
unfolding held
hold_unknown m = let m' = held m.state m in (m', record (quiet m'.state) { unknown = true })

unfoldable pub reset : Machine → Machine
reset m = record m {
  state = idle;
  pending_since = none;
  active_since = none;
  clearing_since = none;
  closed_since = none;
  current_severity = warning;
}
