-- ===== src/Fleet/Consumer.antt =====
-- backend/app/cloud/stream/consumer.py: the analytics consumer's loop. The broker and the database
-- succeed or fail in each turn as an arbitrary record says. Times are microseconds. Left out: error
-- texts and the lag, which read the broker and change nothing else.
use safe2go.Base.{
  ℕ, suc, ◌+◌, ◌-◌, ◌*◌, ◌^◌, min, Bool, true, false, Option, none, some, List, [], ◌∷◌, ◌++◌, ltb,
  if◌then◌else◌, length,
}
use safe2go.Fleet.{Envelope, FleetDb, ApplyResult, apply_records}

pub data ConsumerState : Type 0 where
  stopped connecting broker_down running : ConsumerState

pub record ConsumerStats : Type 0 where
  pub state : ConsumerState
  pub received_total : ℕ
  pub stored_total : ℕ
  pub duplicates_total : ℕ
  pub malformed_total : ℕ
  pub last_batch_at : Option ℕ

-- `connected` is whether there is a consumer of the broker, and `read` the batches that it has read
-- since it last committed its position.
pub record AnalyticsConsumer : Type 0 where
  pub connected : Bool
  pub read : List (List Envelope)
  pub attempts : ℕ
  pub stats : ConsumerStats

-- What happens in one turn of the loop. A record of the broker decodes to an envelope, or not.
pub record Turn : Type 0 where
  pub reachable : Bool
  pub records : Option (List (Option Envelope))
  pub database_fails : Bool
  pub commit_fails : Bool
  pub now : ℕ

-- The consumer, the analytics tables, and the batches whose offsets were committed.
pub record World : Type 0 where
  pub consumer : AnalyticsConsumer
  pub db : FleetDb
  pub committed : List (List Envelope)

abbrev pub in_state : ConsumerState → AnalyticsConsumer → AnalyticsConsumer
in_state s c = record c { stats = record c.stats { state = s } }

abbrev pub new_consumer : AnalyticsConsumer
new_consumer = record {
  connected = false;
  read = [];
  attempts = 0;
  stats = record {
    state = stopped;
    received_total = 0;
    stored_total = 0;
    duplicates_total = 0;
    malformed_total = 0;
    last_batch_at = none;
  };
}

-- `2.0 ** n`: a float holds no power from 1,024 on, and Python raises an OverflowError.
abbrev pub float_power : ℕ → Option ℕ
float_power n = if ltb n 1024 then some (2 ^ n) else none

-- `_backoff`: none is the error.
unfoldable pub backoff : ℕ → AnalyticsConsumer → Option ℕ × AnalyticsConsumer
backoff max_delay c = (
  elim (float_power c.attempts) [ none ↦ none | some p ↦ some (min (p * 1_000_000) max_delay) ],
  record c { attempts = suc c.attempts },
)

-- A new consumer of the broker starts at the committed offsets.
unfoldable pub ensure_started : Turn → AnalyticsConsumer → Bool × AnalyticsConsumer
ensure_started t c =
    if c.connected
    then (true, c)
    else if t.reachable
    then (true, record (in_state running c) { connected = true; read = [] })
    else (false, in_state broker_down c)

abbrev pub decoded : List (Option Envelope) → List Envelope
decoded [] = []
decoded (none ∷ rs) = decoded rs
decoded (some e ∷ rs) = e ∷ decoded rs

abbrev pub counted :
    Turn → List (Option Envelope) → ApplyResult → AnalyticsConsumer → AnalyticsConsumer
counted t records result c = record c {
  stats = record c.stats {
    received_total = c.stats.received_total + length records;
    stored_total = c.stats.stored_total + result.stored;
    duplicates_total = c.stats.duplicates_total + result.duplicates;
    malformed_total =
        c.stats.malformed_total + (length records - length (decoded records) + result.malformed);
    last_batch_at = some t.now;
  };
}

-- `getmany` moves the consumer's position past the batch.
abbrev pub reading : List Envelope → AnalyticsConsumer → AnalyticsConsumer
reading es c = record c { read = es ∷ c.read }

-- `poll_once` on what was read of the broker, and whether it raised no error. The commit of offsets is
-- of the position: of every batch read since the last one.
unfoldable pub poll_batch : Turn → Option (List (Option Envelope)) → World → Bool × World
poll_batch t none w = (false, w)
poll_batch t (some []) w = (true, w)
poll_batch t (some (r ∷ rs)) w =
    let records = r ∷ rs in
    let applied = apply_records t.now (decoded records) w.db in
    let moved = record w { consumer = reading (decoded records) w.consumer } in
    let stored = record moved { db = applied.1 } in
    if t.database_fails then (false, moved) else if t.commit_fails then (false, stored) else (
      true,
      record stored {
        consumer = record (counted t records applied.0 w.consumer) { read = [] };
        committed = moved.consumer.read ++ w.committed;
      },
    )

unfoldable pub poll_once : Turn → World → Bool × World
poll_once t w = poll_batch t t.records w

-- The loop goes on at once, sleeps, or its task has ended with an error.
pub data Outcome : Type 0 where
  polled died : Outcome
  slept : ℕ → Outcome

-- `_close`: the broker's consumer is given up, with its position.
unfoldable pub close : AnalyticsConsumer → AnalyticsConsumer
close c = record c { connected = false }

-- The loop's handler of an exception.
unfoldable pub recover : ℕ → World → Outcome × World
recover max_delay w =
    let closed = in_state broker_down (close w.consumer) in
    let b = backoff max_delay closed in
    let w' = record w { consumer = b.1 } in (elim b.0 [ none ↦ died | some d ↦ slept d ], w')

-- The turn without a consumer: an error of the backoff is one of the turn.
unfoldable pub wait_for : ℕ → Option ℕ → World → Outcome × World
wait_for max_delay none w = recover max_delay w
wait_for max_delay (some d) w = (slept d, w)

unfoldable pub wait_turn : ℕ → World → Outcome × World
wait_turn max_delay w =
    let b = backoff max_delay w.consumer in wait_for max_delay b.0 (record w { consumer = b.1 })

unfoldable pub read_turn : ℕ → Turn → World → Outcome × World
read_turn max_delay t w =
    let polls = poll_once t w in
    if polls.0
    then (polled, record polls.1 { consumer = record polls.1.consumer { attempts = 0 } })
    else recover max_delay polls.1

-- One turn of `_loop`.
unfoldable pub turn : ℕ → Turn → World → Outcome × World
turn max_delay t w =
    let started = ensure_started t w.consumer in
    let w' = record w { consumer = started.1 } in
    if started.0 then read_turn max_delay t w' else wait_turn max_delay w'

-- The turns of the loop until its task ends, and whether it has not.
unfoldable pub go_on : Outcome → World → Bool × World → Bool × World
go_on died w rest = (false, w)
go_on polled w rest = rest
go_on (slept d) w rest = rest

unfoldable pub turns : ℕ → List Turn → World → Bool × World
turns max_delay [] w = (true, w)
turns max_delay (t ∷ ts) w =
    let next = turn max_delay t w in go_on next.0 next.1 (turns max_delay ts next.1)
