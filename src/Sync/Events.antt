-- ===== src/Sync/Events.antt =====
-- What can happen to one direction of the synchronisation, in any order.
use safe2go.Base.{ℕ, Option, none, some, List, [], ◌∷◌}
use safe2go.Sync.{Direction}
use safe2go.Sync.Worker.{World, deliver_pending, enqueue, retry_dead_letter}

-- What happens to a direction: a message is queued, a pass of the worker or of a script, an
-- administrator's retry, which changes nothing when it is refused.
pub data Event : Type 0 where
  queued : ℕ → ℕ → ℕ → ℕ → ℕ → Event
  pass : World → Event
  retry : ℕ → Event

module _ {ℓ} {D : Type ℓ} (handler : ℕ → Option (ℕ → ℕ → D → Option D)) (window : ℕ) where
  unfoldable pub happen : Event → Direction D → Direction D
  happen (queued id key type payload now) s = enqueue id key type payload now s
  happen (pass w) s = (deliver_pending handler window w s).1
  happen (retry i) s = elim (retry_dead_letter i s) [ none ↦ s | some s' ↦ s' ]

  unfoldable pub happen_all : List Event → Direction D → Direction D
  happen_all [] s = s
  happen_all (e ∷ es) s = happen_all es (happen e s)
