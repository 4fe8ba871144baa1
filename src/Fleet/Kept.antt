-- ===== src/Fleet/Kept.antt =====
-- The consumer commits only offsets of records that are stored.
use safe2go.Base.{
  ℕ, Bool, Option, none, some, List, [], ◌∷◌, inl, inr, Bool-cases, ◌≡◌, refl, true, false, arith,
}
use mathlib.Core.List.{Memᴰ}
use mathlib.Core.List.Memᴰ.{cases_cons}
use safe2go.Fleet.{Envelope, sort_records, apply_records}
use safe2go.Fleet.Consumer.{
  AnalyticsConsumer, close, Turn, World, Outcome, polled, died, slept, backoff, ensure_started,
  poll_batch, poll_once, recover, wait_for, wait_turn, read_turn, go_on, turn, turns, decoded,
}
use safe2go.Fleet.Redelivery.{Holds, Holds-apply_records, Holds-just_applied}

-- Every record of a committed batch that has a row is in its table.
abbrev pub AllStored : World → Type 0
AllStored w =
    (later : ℕ) (es : List Envelope) → Memᴰ es w.committed → Holds (sort_records later es) w.db

-- That, and no batch waits for a commit between turns.
abbrev pub IsKept : World → Type 0
IsKept w = AllStored w × (w.consumer.connected ≡ true → w.consumer.read ≡ [])

poll_batch-AllStored :
    (t : Turn) (records : Option (List (Option Envelope))) (w : World)
    → AllStored w
    → w.consumer.read ≡ []
    → AllStored (poll_batch t records w).1
      × ((poll_batch t records w).0 ≡ true → (poll_batch t records w).1.consumer.read ≡ [])
unfolding poll_batch
poll_batch-AllStored t none w kept none_read = (kept, λ raised. ground arith)
poll_batch-AllStored t (some []) w kept none_read = (kept, λ _. none_read)
poll_batch-AllStored t (some (r ∷ rs)) w kept none_read =
    let es = decoded (r ∷ rs) in
    let stored : AllStored (record w { db = (apply_records t.now es w.db).1 }) = λ later es' has.
      Holds-apply_records t.now es w.db (sort_records later es') (kept later es' has) in
    elim (Bool-cases t.database_fails) [
      | inl down ↦ rw down (kept, λ raised. ground arith)
      | inr up ↦ rw up (elim (Bool-cases t.commit_fails) [
        | inl lost ↦ rw lost (stored, λ raised. ground arith)
        | inr committed ↦
            rw (committed, none_read)
              (
                λ later es' has. elim (cases_cons has) [
                  | inl this ↦ rw this (Holds-just_applied t.now later es w.db)
                  | inr before ↦ stored later es' before
                ],
                λ _. refl,
              )
      ])
    ]

read_turn-IsKept :
    (max_delay : ℕ) (t : Turn) (w : World)
    → AllStored w
    → w.consumer.read ≡ []
    → IsKept (read_turn max_delay t w).1
unfolding read_turn recover poll_once close backoff
read_turn-IsKept max_delay t w kept none_read =
    let (kept', done) = poll_batch-AllStored t t.records w kept none_read in
    elim (Bool-cases (poll_batch t t.records w).0) [
      | inl read ↦ rw read (kept', λ _. done read)
      | inr raised ↦ rw raised (kept', λ closed. ground arith)
    ]

wait_for-IsKept :
    (max_delay : ℕ) (d : Option ℕ) (w : World)
    → AllStored w
    → w.consumer.connected ≡ false
    → IsKept (wait_for max_delay d w).1
unfolding wait_for recover close backoff
wait_for-IsKept max_delay none w kept off = (kept, λ closed. ground arith)
wait_for-IsKept max_delay (some d) w kept off = (kept, λ on. ground arith)

go_on-IsKept :
    (o : Outcome) (w : World) (rest : Bool × World)
    → IsKept w
    → IsKept rest.1
    → IsKept (go_on o w rest).1
unfolding go_on
go_on-IsKept died w rest kept later = kept
go_on-IsKept polled w rest kept later = later
go_on-IsKept (slept d) w rest kept later = later

-- After a start there is a consumer with nothing to commit, or none.
ensure_started_lem :
    (t : Turn) (c : AnalyticsConsumer)
    → (c.connected ≡ true → c.read ≡ [])
    → ((ensure_started t c).0 ≡ true → (ensure_started t c).1.read ≡ [])
      × ((ensure_started t c).0 ≡ false → (ensure_started t c).1.connected ≡ false)
unfolding ensure_started
ensure_started_lem t c fresh = elim (Bool-cases c.connected) [
  | inl on ↦ (λ _. rw on (fresh on), λ no_start. ground arith)
  | inr off ↦ ground arith
]

turn-IsKept : (max_delay : ℕ) (t : Turn) (w : World) → IsKept w → IsKept (turn max_delay t w).1
unfolding turn wait_turn backoff
turn-IsKept max_delay t w (kept, fresh) =
    let started = ensure_started t w.consumer in
    let (clean, off) = ensure_started_lem t w.consumer fresh in
    elim (Bool-cases started.0) [
      | inl connected ↦
          rw connected (
            read_turn-IsKept max_delay t (record w { consumer = started.1 }) kept (clean connected))
      | inr waits ↦ rw waits (
          wait_for-IsKept max_delay (backoff max_delay started.1).0
            (record w { consumer = (backoff max_delay started.1).1 }) kept (off waits))
    ]

-- When the records of every batch whose offsets are committed are stored, those with a row that is,
-- and a connected consumer has read nothing that it has not committed, both are so after any turns of
-- the loop: the position of the consumer, which is what it commits, never stands behind a batch that
-- is not stored, whatever of the broker and the database fails.
pub turns-IsKept :
    (max_delay : ℕ) (ts : List Turn) (w : World) → IsKept w → IsKept (turns max_delay ts w).1
unfolding turns
turns-IsKept max_delay [] w kept = kept
turns-IsKept max_delay (t ∷ ts) w kept =
    let next = turn max_delay t w in
    let kept' = turn-IsKept max_delay t w kept in
    go_on-IsKept next.0 next.1 (turns max_delay ts next.1) kept'
      (turns-IsKept max_delay ts next.1 kept')
