-- ===== src/Sync/Worker.antt =====
-- backend/app/sync/worker.py, and `enqueue` of backend/app/sync/outbox.py. The handlers are a
-- parameter: none for an unknown message type, and a handler may raise. A raised error rolls the
-- transaction back.
use safe2go.Base.{
  ℕ, suc, ◌+◌, Bool, true, false, not, ◌&&◌, ◌||◌, Option, none, some, List, [], ◌∷◌, ◌==◌, ltb,
  leb, if◌then◌else◌, is_some, take,
}
use safe2go.Sync.{OutboxMessage, InboxEntry, DeadLetter, Direction}

-- `coalesce(replay_seq, seq)`
abbrev pub effective_seq : OutboxMessage → ℕ
effective_seq m = elim m.replay_seq [ none ↦ m.seq | some s ↦ s ]

abbrev pub knows : ℕ → List InboxEntry → Bool
knows key [] = false
knows key (e ∷ es) = (e.idempotency_key == key) || knows key es

abbrev pub find_message : ℕ → List OutboxMessage → Option OutboxMessage
find_message i [] = none
find_message i (m ∷ ms) = if m.message_id == i then some m else find_message i ms

-- The row of a primary key is written, or taken out.
abbrev pub write_message : OutboxMessage → List OutboxMessage → List OutboxMessage
write_message m' [] = []
write_message m' (m ∷ ms) =
    if m.message_id == m'.message_id then m' ∷ ms else m ∷ write_message m' ms

unfoldable pub delete_message : ℕ → List OutboxMessage → List OutboxMessage
delete_message i [] = []
delete_message i (m ∷ ms) =
    let rest = delete_message i ms in if m.message_id == i then ms else m ∷ rest

-- `ORDER BY created_at, coalesce(replay_seq, seq)` of the undelivered messages.
abbrev pub goes_before : OutboxMessage → OutboxMessage → Bool
goes_before a b =
    ltb a.created_at b.created_at
    || ((a.created_at == b.created_at) && leb (effective_seq a) (effective_seq b))

unfoldable pub insert_message : OutboxMessage → List OutboxMessage → List OutboxMessage
insert_message m [] = m ∷ []
insert_message m (x ∷ xs) =
    let rest = insert_message m xs in if goes_before m x then m ∷ x ∷ xs else x ∷ rest

unfoldable pub undelivered : List OutboxMessage → List OutboxMessage
undelivered [] = []
undelivered (m ∷ ms) =
    let rest = undelivered ms in if is_some m.delivered_at then rest else insert_message m rest

abbrev pub message_ids : List OutboxMessage → List ℕ
message_ids [] = []
message_ids (m ∷ ms) = m.message_id ∷ message_ids ms

-- What surrounds one delivery pass: the clocks, the rows that another deliverer holds, the commits
-- that fail, and the messages still in backoff.
pub record World : Type 0 where
  pub sim_now : ℕ
  pub wall_clock_now : ℕ
  pub locked : ℕ → Bool
  pub commit_fails : ℕ → Bool
  pub ready : ℕ → Bool

pub record DeliveryResult : Type 0 where
  pub delivered : ℕ
  pub duplicates : ℕ
  pub dead_lettered : ℕ
  pub failed_message_id : Option ℕ
  pub busy : Bool

pub data Step : Type 0 where
  applied duplicate dead skipped busy_row failed : Step

abbrev pub nothing : DeliveryResult
nothing = record {
  delivered = 0;
  duplicates = 0;
  dead_lettered = 0;
  failed_message_id = none;
  busy = false;
}

abbrev pub counted : Step → DeliveryResult → DeliveryResult
counted applied r = record r { delivered = suc r.delivered }
counted duplicate r = record r { duplicates = suc r.duplicates }
counted dead r = record r { dead_lettered = suc r.dead_lettered }
counted _ r = r

-- `_BATCH_SIZE`
abbrev pub batch_size : ℕ
batch_size = 200

-- `message.first_failed_at or now`
abbrev pub first_failure : World → OutboxMessage → ℕ
first_failure w m = elim m.first_failed_at [ none ↦ w.wall_clock_now | some t ↦ t ]

-- `handler type` is the table of handlers; `window` is the dead-letter window.
module _ {ℓ} {D : Type ℓ} (handler : ℕ → Option (ℕ → ℕ → D → Option D)) (window : ℕ) where
  -- The handler's run on a message: none for no handler or a raised error.
  unfoldable pub run_handler : OutboxMessage → D → Option D
  run_handler m d = elim (handler m.message_type) [
    | none ↦ none
    | some h ↦ h m.payload (effective_seq m) d
  ]

  -- `_record_failure`
  unfoldable pub record_failure : World → OutboxMessage → Direction D → Step × Direction D
  record_failure w m s =
      let first = first_failure w m in
      let m' = record m { attempts = suc m.attempts; first_failed_at = some first } in
      if ltb w.wall_clock_now (first + window)
      then (failed, record s { outbox = write_message m' s.outbox })
      else (
        dead,
        record s {
          dead_letters = record { message = m'; dead_at = w.wall_clock_now } ∷ s.dead_letters;
          outbox = delete_message m.message_id s.outbox;
        },
      )

  -- `_apply`: none is a raised error.
  unfoldable pub apply_message : World → OutboxMessage → Direction D → Option (Step × Direction D)
  apply_message w m s =
      let outbox = write_message (record m { delivered_at = some w.sim_now }) s.outbox in
      if knows m.idempotency_key s.inbox
      then some (duplicate, record s { outbox = outbox })
      else elim (run_handler m s.tables) [
        | none ↦ none
        | some d ↦ some (
          applied,
          record s {
            outbox = outbox;
            tables = d;
            inbox =
                record {
                  idempotency_key = m.idempotency_key;
                  message_type = m.message_type;
                  seq = effective_seq m;
                  applied_at = w.sim_now;
                }
                ∷ s.inbox;
          },
        )
      ]

  -- An error of the handler or the commit is a failure of the message.
  unfoldable pub settle :
      World → OutboxMessage → Direction D → Option (Step × Direction D) → Step × Direction D
  settle w m s none = record_failure w m s
  settle w m s (some (step, s')) =
      if w.commit_fails m.message_id then record_failure w m s else (step, s')

  -- The body of the loop for one message.
  unfoldable pub deliver_message : World → ℕ → Direction D → Step × Direction D
  deliver_message w i s = elim (find_message i s.outbox) [
    | none ↦ (busy_row, s)
    | some m ↦
        if w.locked i
        then (busy_row, s)
        else if is_some m.delivered_at
        then (skipped, s)
        else settle w m s (apply_message w m s)
  ]

  -- What the loop does with the outcome of a message.
  abbrev pub stops : Step → Bool
  stops busy_row = true
  stops failed = true
  stops _ = false

  abbrev pub stopped : Step → ℕ → DeliveryResult → DeliveryResult
  stopped busy_row i r = record r { busy = true }
  stopped _ i r = record r { failed_message_id = some i }

  unfoldable pub deliver_ids :
      World → List ℕ → DeliveryResult → Direction D → DeliveryResult × Direction D
  deliver_ids w [] r s = (r, s)
  deliver_ids w (i ∷ is) r s =
      let d = deliver_message w i s in
      let next = deliver_ids w is (counted d.0 r) d.1 in
      if not (w.ready i)
      then (record r { failed_message_id = some i }, s)
      else if stops d.0
      then (stopped d.0 i r, d.1)
      else next

  unfoldable pub deliver_pending : World → Direction D → DeliveryResult × Direction D
  deliver_pending w s =
      deliver_ids w (message_ids (take batch_size (undelivered s.outbox))) nothing s

abbrev pub find_dead : ℕ → List DeadLetter → Option OutboxMessage
find_dead i [] = none
find_dead i (d ∷ ds) = if d.message.message_id == i then some d.message else find_dead i ds

unfoldable pub delete_dead : ℕ → List DeadLetter → List DeadLetter
delete_dead i [] = []
delete_dead i (d ∷ ds) =
    let rest = delete_dead i ds in if d.message.message_id == i then ds else d ∷ rest

module _ {ℓ} {D : Type ℓ} where
  -- `enqueue`, with the random identifiers that were drawn.
  unfoldable pub enqueue : ℕ → ℕ → ℕ → ℕ → ℕ → Direction D → Direction D
  enqueue message_id idempotency_key message_type payload sim_now s = record s {
    outbox =
        record {
          message_id = message_id;
          seq = s.next_seq;
          idempotency_key = idempotency_key;
          message_type = message_type;
          payload = payload;
          created_at = sim_now;
          delivered_at = none;
          attempts = 0;
          first_failed_at = none;
          replay_seq = none;
        }
        ∷ s.outbox;
    next_seq = suc s.next_seq;
  }

  -- `retry_dead_letter` in the direction that has it: none for the refusal of a letter with no
  -- sequence number, and no change for an unknown one.
  unfoldable pub retry_dead_letter : ℕ → Direction D → Option (Direction D)
  retry_dead_letter i s = elim (find_dead i s.dead_letters) [
    | none ↦ some s
    | some m ↦
        if m.seq == 0
        then none
        else some (record s {
          dead_letters = delete_dead i s.dead_letters;
          outbox =
              record m {
                seq = s.next_seq;
                delivered_at = none;
                attempts = 0;
                first_failed_at = none;
                replay_seq = some m.seq;
              }
              ∷ s.outbox;
          next_seq = suc s.next_seq;
        })
  ]
