-- ===== src/Engine/Checkpoint.antt =====
-- `checkpoint` and `restore` of `SafetyEngine`: a tick whose transaction rolled back is undone.
use mathlib.Core.Option
use safe2go.Base.{◌≡◌, refl, arith, map, ℕ, Bool, Option, none, some, List, [], ◌∷◌}
use safe2go.Telemetry.{TelemetryTick}
use safe2go.Rule.{Machine}
use safe2go.Escalation.{Windows}
use safe2go.Engine.State.{RuleSlot, Shared, SafetyEngine, Session, Frame}
use safe2go.Engine.Run.{Env}
use safe2go.Engine.Run.Names.{evaluate_rule-name}
use safe2go.Engine.Tick.{visit, visit_all, process_tick}

-- What `checkpoint` copies: what a tick can change in a slot, and the shared state.
pub record SavedSlot : Type 0 where
  pub machine : Machine
  pub degraded : Bool
  pub unknown : Bool
  pub open_incident_id : Option ℕ

pub record Saved : Type 0 where
  pub slots : List SavedSlot
  pub escalation : Windows
  pub unresolved : List ℕ

save_slot : RuleSlot → SavedSlot
save_slot s = record {
  machine = s.machine;
  degraded = s.degraded;
  unknown = s.unknown;
  open_incident_id = s.open_incident_id;
}

unfoldable pub checkpoint : SafetyEngine → Saved
unfolding save_slot
checkpoint e = record {
  slots = map save_slot e.rules;
  escalation = e.escalation;
  unresolved = e.unresolved;
}

-- The `zip` of `restore` is strict: lists of unequal lengths raise.
restore_slots : List RuleSlot → List SavedSlot → Option (List RuleSlot)
restore_slots [] [] = some []
restore_slots (s ∷ ss) (v ∷ vs) =
    Option.map
      (λ rest.
        record s {
          machine = v.machine;
          degraded = v.degraded;
          unknown = v.unknown;
          open_incident_id = v.open_incident_id;
        }
        ∷ rest)
      (restore_slots ss vs)
restore_slots _ _ = none

unfoldable pub restore : Saved → SafetyEngine → Option SafetyEngine
unfolding restore_slots
restore saved e =
    Option.map
      (λ rules. record e {
        shared = record {
          escalation = saved.escalation;
          unresolved = saved.unresolved;
          effects = [];
        };
        rules = rules;
      })
      (restore_slots e.rules saved.slots)

restore_slots_same : (ss : List RuleSlot) → restore_slots ss (map save_slot ss) ≡ some ss
unfolding restore_slots save_slot
restore_slots_same [] = refl
restore_slots_same (s ∷ ss) = ground (arith, restore_slots_same ss)

-- The checkpoint of the engine itself, when no tick came between.
pub restore_same :
    (e : SafetyEngine)
    → restore (checkpoint e) e ≡ some (record e { shared = record e.shared { effects = [] } })
unfolding restore checkpoint
restore_same e = ground (arith, restore_slots_same e.rules)

module _ {S : Type 0} (env : Env S) where
  visit-name : (tick : TelemetryTick) (f : Frame S) → (visit env tick f).slot.name ≡ f.slot.name
  unfolding visit
  visit-name tick f = ground (arith, evaluate_rule-name env tick tick.timestamp f)

  restore_slots-visit_all :
      (tick : TelemetryTick) (ss : List RuleSlot) (sh : Shared) (db : Session S)
      → restore_slots (visit_all env tick ss sh db).0 (map save_slot ss) ≡ some ss
  unfolding visit_all restore_slots save_slot
  restore_slots-visit_all tick [] sh db = refl
  restore_slots-visit_all tick (s ∷ ss) sh db =
      let f = visit env tick (record { slot = s; shared = sh; session = db }) in
      ground (
        arith,
        restore_slots-visit_all tick ss f.shared f.session,
        visit-name tick (record { slot = s; shared = sh; session = db }),
      )

  -- After any tick, with whatever readings, failures of the database and listeners, `restore` with
  -- the checkpoint taken before the tick succeeds and gives back the engine as it was, but that no
  -- effect is left to be sent.
  pub restore-checkpoint :
      (tick : TelemetryTick) (e : SafetyEngine) (db : Session S)
      → restore (checkpoint e) (process_tick env tick e db).0
        ≡ some (record e { shared = record e.shared { effects = [] } })
  unfolding restore checkpoint process_tick
  restore-checkpoint tick e db = ground (arith, restore_slots-visit_all tick e.rules e.shared db)
