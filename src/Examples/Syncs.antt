-- ===== src/Examples/Syncs.antt =====
-- A direction whose receiving tier keeps the payloads, in which the payload 0 fails.
use safe2go.Base.{
  ℕ, Option, none, some, List, [], ◌∷◌, ◌≡◌, ◌==◌, if◌then◌else◌, refl, true, false, length,
}
use safe2go.Sync.{Direction}
use safe2go.Sync.Worker.{World}
use safe2go.Sync.Worker
use safe2go.Sync.Events.{Event, queued, pass, retry, happen, happen_all}
use safe2go.Sync.NothingLost.{Content, Holds, happen_all-Holds}
use safe2go.Sync.ExactlyOnce.{IsOnce, happen_all-IsOnce}

abbrev handlers : ℕ → Option (ℕ → ℕ → List ℕ → Option (List ℕ))
handlers type =
    if type == 1
    then some (λ payload seq d. if payload == 0 then none else some (payload ∷ d))
    else none

abbrev empty : Direction (List ℕ)
empty = record { outbox = []; dead_letters = []; inbox = []; tables = []; next_seq = 1 }

abbrev at_time : ℕ → World
at_time t = record {
  sim_now = t;
  wall_clock_now = t;
  locked = λ i. false;
  commit_fails = λ i. (i == 2);
  ready = λ i. true;
}

-- The first message is poisoned and becomes a dead letter after 100, the second is applied once.
abbrev events : List Event
events =
    queued 1 11 1 0 5
    ∷ queued 3 13 1 42 6
    ∷ pass (at_time 10)
    ∷ pass (at_time 120)
    ∷ retry 1
    ∷ pass (at_time 130)
    ∷ []

happen_all-IsOnce_example : IsOnce handlers 100 [] (happen_all handlers 100 events empty)
happen_all-IsOnce_example = happen_all-IsOnce handlers 100 events empty refl

abbrev one : Direction (List ℕ)
one = Worker.enqueue 1 11 1 0 5 empty

-- What the first message carries.
abbrev poisoned : Content
poisoned = record { idempotency_key = 11; message_type = 1; payload = 0 }

happen_all-Holds_example : Holds poisoned (happen_all handlers 100 events one)
unfolding Worker.enqueue
happen_all-Holds_example = happen_all-Holds handlers 100 events poisoned one refl

abbrev evening : Direction (List ℕ)
evening = happen_all handlers 100 events empty

once : (evening.tables ≡ 42 ∷ []) × (length evening.outbox ≡ 2) × (length evening.inbox ≡ 1)
unfolding happen_all happen Worker.enqueue Worker.deliver_pending Worker.undelivered
    Worker.insert_message Worker.deliver_ids Worker.deliver_message Worker.settle
    Worker.apply_message Worker.run_handler Worker.record_failure Worker.delete_message
    Worker.retry_dead_letter Worker.delete_dead
once = (refl, refl, refl)
