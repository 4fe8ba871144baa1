-- ===== src/Sync.antt =====
-- One direction of the synchronisation between the tiers: the tables of
-- backend/app/db/models/edge/sync.py and backend/app/db/models/cloud/sync.py. The receiving tier's
-- data are any type, since the worker only hands them to handlers. Error texts are left out.
pub mod Worker
pub mod Events
pub mod ExactlyOnce
pub mod NothingLost
use safe2go.Base.{ℕ, Option, none, some, List, [], ◌∷◌}

pub record OutboxMessage : Type 0 where
  pub message_id : ℕ
  pub seq : ℕ
  pub idempotency_key : ℕ
  pub message_type : ℕ
  pub payload : ℕ
  pub created_at : ℕ
  pub delivered_at : Option ℕ
  pub attempts : ℕ
  pub first_failed_at : Option ℕ
  pub replay_seq : Option ℕ

pub record InboxEntry : Type 0 where
  pub idempotency_key : ℕ
  pub message_type : ℕ
  pub seq : ℕ
  pub applied_at : ℕ

pub record DeadLetter : Type 0 where
  pub message : OutboxMessage
  pub dead_at : ℕ

-- The sender's outbox and dead letters, the receiver's inbox and data.
pub record Direction {ℓ} (D : Type ℓ) : Type ℓ where
  pub outbox : List OutboxMessage
  pub dead_letters : List DeadLetter
  pub inbox : List InboxEntry
  pub tables : D
  pub next_seq : ℕ
