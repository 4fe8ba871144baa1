-- ===== src/Engine/State.antt =====
-- The state of `SafetyEngine`, its database session, and the primitive actions on both.
use safe2go.Base.{
  ℕ, Bool, false, ◌||◌, Option, none, some, List, [], ◌∷◌, ◌++◌, ◌==◌, if◌then◌else◌,
}
use safe2go.Config.{RuleName}
use safe2go.Rule.{Machine, Severity}
use safe2go.Escalation.{Windows}
use safe2go.Incident.{Incident}

-- `RuleSlot`. The rule's module and incident type follow from its name.
pub record RuleSlot : Type 0 where
  pub name : RuleName
  pub machine : Machine
  pub degraded : Bool
  pub unknown : Bool
  pub open_incident_id : Option ℕ

pub data BroadcastEvent : Type 0 where
  opened escalated closed : BroadcastEvent

pub data DegradedReason : Type 0 where
  rule_error sensor_fault : DegradedReason

-- What `_after_commit` queues.
pub data Effect : Type 0 where
  notify_incident_opened : Effect
  notify_incident_closed : Effect
  broadcast_incident : RuleName → ℕ → BroadcastEvent → Severity → Effect
  broadcast_degraded : RuleName → DegradedReason → Effect
  broadcast_restored : RuleName → Effect

-- The part of the engine that all its rules share. `unresolved` is a set without repetitions.
pub record Shared : Type 0 where
  pub escalation : Windows
  pub unresolved : List ℕ
  pub effects : List Effect

pub record SafetyEngine : Type 0 where
  pub machine_id : ℕ
  pub tilt_limit : ℕ
  pub has_clock_driver : Bool
  pub shared : Shared
  pub open shared use *
  pub rules : List RuleSlot

-- The session: the incidents, newest first, the outbox of incident messages, newest first, the
-- tables that only the incident listeners write, and two counters, of the calls that the database
-- has had and of the identifiers drawn.
pub record Session (S : Type 0) : Type 0 where
  pub incidents : List Incident
  pub outbox : List Incident
  pub side : S
  pub calls : ℕ
  pub drawn : ℕ

-- What one rule works on during a tick.
pub record Frame (S : Type 0) : Type 0 where
  pub slot : RuleSlot
  pub shared : Shared
  pub session : Session S

-- An action on a frame: `none` is a raised exception, and what was written before it stays.
abbrev pub Act : Type 0 → Type 0 → Type 0
Act S A = Frame S → Option A × Frame S

module _ {S : Type 0} {A B : Type 0} where
  abbrev pub continue : Option A → (A → Act S B) → Act S B
  continue (some a) k f = k a f
  continue none k f = (none, f)

  infixl 5 ◌>>=◌
  abbrev pub ◌>>=◌ : Act S A → (A → Act S B) → Act S B
  ◌>>=◌ m k f = let (r, f') = m f in continue r k f'

module _ {S : Type 0} {B : Type 0} where
  infixl 5 ◌>>◌
  abbrev pub ◌>>◌ : Act S (Unit {0}) → Act S B → Act S B
  m >> k = m >>= λ _. k

abbrev pub pure : {S A : Type 0} → A → Act S A
pure a f = (some a, f)

module _ {S : Type 0} where
  abbrev pub done : Act S (Unit {0})
  done f = (some tt, f)

  abbrev pub gets : {A : Type 0} → (Frame S → A) → Act S A
  gets get f = (some (get f), f)

  abbrev pub set_slot : (RuleSlot → RuleSlot) → Act S (Unit {0})
  set_slot change f = (some tt, record f { slot = change f.slot })

  abbrev pub set_shared : (Shared → Shared) → Act S (Unit {0})
  set_shared change f = (some tt, record f { shared = change f.shared })

  abbrev pub set_session : (Session S → Session S) → Act S (Unit {0})
  set_session change f = (some tt, record f { session = change f.session })

  -- `_after_commit`
  abbrev pub after_commit : Effect → Act S (Unit {0})
  after_commit e = set_shared (λ sh. record sh { effects = sh.effects ++ e ∷ [] })

-- `x in xs` and `xs.discard(x)`
unfoldable pub has : ℕ → List ℕ → Bool
has x [] = false
has x (y ∷ ys) = x == y || has x ys

unfoldable pub discard : ℕ → List ℕ → List ℕ
discard x [] = []
discard x (y ∷ ys) = let rest = discard x ys in if x == y then rest else y ∷ rest

-- `xs.add(x)`
unfoldable pub add : ℕ → List ℕ → List ℕ
unfolding has
add x xs = if has x xs then xs else x ∷ xs

-- `session.get(Incident, id)`, and the change of that row.
unfoldable pub find : ℕ → List Incident → Option Incident
find x [] = none
find x (i ∷ is) = if i.incident_id == x then some i else find x is

unfoldable pub replace : Incident → List Incident → List Incident
replace j [] = []
replace j (i ∷ is) =
    let rest = replace j is in if i.incident_id == j.incident_id then j ∷ is else i ∷ rest
