-- ===== src/Fleet/Outage.antt =====
-- How long the consumer waits, and what ends it.
use safe2go.Base.{
  ℕ, zero, suc, ◌+◌, ◌*◌, ◌^◌, ◌≤◌, min, true, false, Option, none, some, List, [], ◌∷◌, ◌++◌, ltb,
  leb, ◌≡◌, refl, arith,
}
use safe2go.Fleet.{Envelope, apply_records}
use safe2go.Fleet.Consumer.{
  AnalyticsConsumer, in_state, broker_down, Turn, World, slept, backoff, ensure_started, recover,
  wait_for, wait_turn, read_turn, go_on, poll_once, poll_batch, decoded, turn, turns, close,
}

-- A turn in which the broker cannot be reached.
abbrev pub outage : ℕ → Turn
outage now = record {
  reachable = false;
  records = none;
  database_fails = false;
  commit_fails = false;
  now = now;
}

abbrev pub outages : ℕ → ℕ → List Turn
outages now zero = []
outages now (suc n) = outage now ∷ outages now n

-- A consumer without a connection, after at most 1,024 attempts in a row, is alive after further turns
-- without a broker exactly when all the attempts are at most 1,024, whatever the longest wait is: the
-- next attempt ends its task.
pub turns-outages :
    (max_delay now n : ℕ) (w : World)
    → w.consumer.connected ≡ false
    → w.consumer.attempts ≤ 1024
    → (turns max_delay (outages now n) w).0 ≡ leb (w.consumer.attempts + n) 1024
unfolding turns turn go_on wait_for wait_turn backoff ensure_started recover close
turns-outages max_delay now zero w h few = ground arith
turns-outages max_delay now (suc n) w h few =
    let rest = turns-outages max_delay now n (turn max_delay (outage now) w).1 in ground arith

abbrev waited : World → World
waited w = record w {
  consumer = record (in_state broker_down w.consumer) { attempts = suc w.consumer.attempts };
}

backoff-few :
    (max_delay : ℕ) (c : AnalyticsConsumer)
    → ltb c.attempts 1024 ≡ true
    → (backoff max_delay c).0 ≡ some (min (2 ^ c.attempts * 1_000_000) max_delay)
unfolding backoff
backoff-few max_delay c few = ground arith

turn-outage :
    (max_delay now : ℕ) (w : World)
    → w.consumer.connected ≡ false
    → ltb w.consumer.attempts 1024 ≡ true
    → turn max_delay (outage now) w
      ≡ (slept (min (2 ^ w.consumer.attempts * 1_000_000) max_delay), waited w)
unfolding turn wait_for wait_turn backoff ensure_started
turn-outage max_delay now w h few =
    let waits = backoff-few max_delay (in_state broker_down w.consumer) few in rw h (rw waits refl)

-- After any number of turns without a broker that leaves a consumer without a connection alive, the
-- next turn with a broker, in which the database and the commit of offsets do not fail, stores the
-- batch that it reads, commits its offsets and resets the attempts.
pub turns-recovers :
    (max_delay now n : ℕ) (t : Turn) (r : Option Envelope) (rs : List (Option Envelope)) (w : World)
    → w.consumer.connected ≡ false
    → w.consumer.attempts + n ≤ 1024
    → t.reachable ≡ true
    → t.records ≡ some (r ∷ rs)
    → t.database_fails ≡ false
    → t.commit_fails ≡ false
    → ((turns max_delay (outages now n ++ t ∷ []) w).1.db
        ≡ (apply_records t.now (decoded (r ∷ rs)) w.db).1)
      × ((turns max_delay (outages now n ++ t ∷ []) w).1.committed ≡ decoded (r ∷ rs) ∷ w.committed)
      × ((turns max_delay (outages now n ++ t ∷ []) w).1.consumer.attempts ≡ 0)
unfolding turns turn go_on wait_for wait_turn read_turn poll_once poll_batch backoff ensure_started
    recover
turns-recovers max_delay now zero t r rs w h few up read fine committed =
    rw (h, up, read, fine, committed) (refl, refl, refl)
turns-recovers max_delay now (suc n) t r rs w h few up read fine committed =
    let few' : ltb w.consumer.attempts 1024 ≡ true = ground arith in
    rw (turn-outage max_delay now w h few')
      (turns-recovers max_delay now n t r rs (waited w) h (omega arith) up read fine committed)
