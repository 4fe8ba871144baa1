-- ===== src/Stream/Forwarder.antt =====
-- backend/app/edge/stream/forwarder.py: one pass of the forwarder. What the link, the broker, the
-- database and the other transactions do during a pass is a record; Kafka's log is part of the
-- state. Waiting times are not rounded. Left out: the error texts, the measured rates, and the background task around the passes.
use safe2go.Base.{
  ℕ, suc, ◌+◌, ◌-◌, ◌*◌, ◌/◌, ◌^◌, min, ◌&&◌, ◌||◌, Bool, true, false, not, Option, none, some,
  List, [], ◌∷◌, ◌++◌, map, take, length, ◌==◌, ltb, if◌then◌else◌,
}
use safe2go.Stream.{StreamKind, Gap, StreamSpool, Store}
use safe2go.Stream.Spool.{enforce_limit, elem, seqs, delete_seqs, spool_event, spool_tick}

pub data SendResult : Type 0 where
  acknowledged exception : SendResult

pub data ForwarderState : Type 0 where
  disabled stopped link_down connecting broker_down draining idle : ForwarderState

-- `acknowledged_prefix` on the rows: `none` is the error of a strict `zip`.
unfoldable pub acknowledged_rows :
    List ℕ → List StreamSpool → List SendResult → Option (List StreamSpool)
acknowledged_rows blocked [] [] = some []
acknowledged_rows blocked (r ∷ rs) (x ∷ xs) =
    let skip = acknowledged_rows blocked rs xs in
    let stop = acknowledged_rows (r.machine_id ∷ blocked) rs xs in
    if elem r.machine_id blocked then skip else elim x [
      | exception ↦ stop
      | acknowledged ↦ elim skip [ none ↦ none | some done ↦ some (r ∷ done) ]
    ]
acknowledged_rows blocked _ _ = none

unfoldable pub acknowledged_prefix : List StreamSpool → List SendResult → Option (List ℕ)
acknowledged_prefix rows results = elim (acknowledged_rows [] rows results) [
  | none ↦ none
  | some done ↦ some (seqs done)
]

-- Times are microseconds, the low-water mark thousandths.
pub record Settings : Type 0 where
  pub stream_spool_max_records : ℕ
  pub stream_spool_low_water : ℕ
  pub stream_batch_size : ℕ
  pub stream_backoff_max_seconds : ℕ
  pub stream_max_rate : ℕ

pub record ForwarderStats : Type 0 where
  pub state : ForwarderState
  pub sent_total : ℕ
  pub failed_total : ℕ
  pub dropped_total : ℕ
  pub gaps_total : ℕ
  pub retry_in_seconds : Option ℕ

pub record StreamForwarder : Type 0 where
  pub producer : Bool
  pub topics_checked : Bool
  pub attempts : ℕ
  pub retry_at : ℕ
  pub stats : ForwarderStats

pub record System : Type 0 where
  pub forwarder : StreamForwarder
  pub store : Store
  pub log : List StreamSpool

-- A transaction of the edge that spools one record, and one that fails to.
pub data Arrival : Type 0 where
  tick : Bool → ℕ → ℕ → ℕ → ℕ → ℕ → Arrival
  event : Bool → StreamKind → ℕ → ℕ → ℕ → ℕ → Arrival

unfoldable pub arrive : Arrival → Store → Store
arrive (tick fails machine_id timestamp now payload telemetry_id) s =
    spool_tick true fails machine_id timestamp now payload telemetry_id s
arrive (event fails kind machine_id event_time now payload) s =
    spool_event true fails kind machine_id event_time now payload s

unfoldable pub arrive_all : List Arrival → Store → Store
arrive_all [] s = s
arrive_all (a ∷ rest) s = arrive_all rest (arrive a s)

-- `answers` is `none` when the batch times out or a send raises; otherwise the broker's answer to
-- each record. `later` is the clock when a connection or a batch has failed. `meanwhile` is committed between the read of the batch and the delete.
pub record Pass : Type 0 where
  pub now : ℕ
  pub wall_clock_now : ℕ
  pub later : ℕ
  pub limit_fails : Bool
  pub reachable : Bool
  pub starts : Bool
  pub topics_ready : Bool
  pub answers : Option (StreamSpool → SendResult)
  pub meanwhile : List Arrival
  pub delete_fails : Bool

-- `ORDER BY priority, seq`, for the three priorities.
unfoldable pub with_priority : ℕ → List StreamSpool → List StreamSpool
with_priority p [] = []
with_priority p (r ∷ rs) =
    let rest = with_priority p rs in if r.priority == p then r ∷ rest else rest

unfoldable pub next_batch : ℕ → List StreamSpool → List StreamSpool
next_batch n rows = take n (with_priority 0 rows ++ with_priority 1 rows ++ with_priority 2 rows)

unfoldable pub send : Option (StreamSpool → SendResult) → List StreamSpool → List SendResult
send none rows = map (λ (r : StreamSpool). exception) rows
send (some answer) rows = map answer rows

-- The records that the broker has acknowledged, those after a failure included.
unfoldable pub received : List StreamSpool → List SendResult → List StreamSpool
received [] _ = []
received (r ∷ rs) [] = []
received (r ∷ rs) (x ∷ xs) =
    let rest = received rs xs in elim x [ acknowledged ↦ r ∷ rest | exception ↦ rest ]

unfoldable pub failures : List SendResult → ℕ
failures [] = 0
failures (x ∷ xs) = let rest = failures xs in elim x [ exception ↦ suc rest | acknowledged ↦ rest ]

-- Whether `2.0 ** (attempts - 1)` of the next failure raises an OverflowError.
abbrev pub overflows : StreamForwarder → Bool
overflows f = not (ltb f.attempts 1024)

-- The error leaves only the attempt counted.
unfoldable pub schedule_retry : Settings → ℕ → StreamForwarder → StreamForwarder
schedule_retry cfg clock f =
    let delay = min (2 ^ f.attempts * 1_000_000) cfg.stream_backoff_max_seconds in
    let f' = record f { attempts = suc f.attempts } in
    if overflows f then f' else record f' {
      retry_at = clock + delay;
      stats = record f.stats { state = broker_down; retry_in_seconds = some delay };
    }

-- `_ensure_producer`: whether there is a producer, and the forwarder.
unfoldable pub ensure_producer : Settings → Pass → StreamForwarder → Bool × StreamForwarder
ensure_producer cfg pass f =
    let f' = record f { stats = record f.stats { state = connecting } } in
    if f.producer
    then (true, f)
    else if pass.starts && (f.topics_checked || pass.topics_ready)
    then (true, record f' { producer = true; topics_checked = true })
    else (false, schedule_retry cfg pass.later f')

-- `_pace`: how long the pass sleeps so that `count` records take their time at the highest rate.
unfoldable pub pace : Settings → ℕ → ℕ → ℕ
pace cfg count elapsed =
    if cfg.stream_max_rate == 0 then 0 else count * 1_000_000 / cfg.stream_max_rate - elapsed

abbrev pub count_gaps : List Gap → ForwarderStats → ForwarderStats
count_gaps [] st = st
count_gaps (g ∷ gs) st = count_gaps gs (record st {
  gaps_total = suc st.gaps_total;
  dropped_total = st.dropped_total + g.dropped_count;
})

abbrev pub set_state : ForwarderState → System → System
set_state state sys = record sys {
  forwarder = record sys.forwarder { stats = record sys.forwarder.stats { state = state } };
}

-- After the delete: the counters, and the retry when anything failed.
unfoldable pub account : Settings → Pass → ℕ → ℕ → ℕ → StreamForwarder → StreamForwarder
account cfg pass sent kept failed f =
    let f' = record f { stats = record f.stats { sent_total = f.stats.sent_total + sent } } in
    if failed == 0
    then record f' { attempts = 0 }
    else schedule_retry cfg pass.later (record f' {
      producer = false;
      stats = record f'.stats { failed_total = f'.stats.failed_total + kept };
    })

-- The batch is sent, the acknowledged prefix of each machine deleted. A database error in the
-- delete ends the pass with the records still in the spool.
unfoldable pub forward : Settings → Pass → List StreamSpool → System → ℕ × System
forward cfg pass rows sys =
    let results = send pass.answers rows in
    let log = sys.log ++ received rows results in
    let store = arrive_all pass.meanwhile sys.store in
    elim (acknowledged_prefix rows results) [
      | none ↦ (0, record sys { log = log; store = store })
      | some acked ↦
          if pass.delete_fails && not (length acked == 0)
          then (0, record sys { log = log; store = store })
          else (
            if overflows sys.forwarder && not (failures results == 0) then 0 else length acked,
            record {
              forwarder =
                  account cfg pass (length acked) (length rows - length acked) (failures results)
                    sys.forwarder;
              store = record store { rows = delete_seqs acked store.rows };
              log = log;
            },
          )
    ]

unfoldable pub drain : Settings → Pass → System → ℕ × System
drain cfg pass sys =
    let rows = next_batch cfg.stream_batch_size sys.store.rows in
    if length rows == 0
    then (0, set_state idle sys)
    else forward cfg pass rows (set_state draining sys)

unfoldable pub connect : Settings → Pass → System → ℕ × System
connect cfg pass sys =
    let f = sys.forwarder in
    let clear = record f { stats = record f.stats { retry_in_seconds = none } } in
    let (ready, f') = ensure_producer cfg pass clear in
    let sys' = record sys { forwarder = f' } in if ready then drain cfg pass sys' else (0, sys')

unfoldable pub after_limit : Settings → Pass → System → ℕ × System
after_limit cfg pass sys =
    let f = sys.forwarder in
    let waiting = record f {
      stats = record f.stats { retry_in_seconds = some (f.retry_at - pass.now) };
    } in
    if not pass.reachable
    then (0, set_state link_down sys)
    else if ltb pass.now f.retry_at
    then (0, record sys { forwarder = waiting })
    else connect cfg pass sys

-- `run_once`, with what the loop does on an exception of the database or of the backoff.
unfoldable pub run_once : Settings → Pass → System → ℕ × System
run_once cfg pass sys =
    elim (enforce_limit pass.wall_clock_now cfg.stream_spool_max_records cfg.stream_spool_low_water
      sys.store) [
        | none ↦ (0, sys)
        | some (gaps, store) ↦
            if pass.limit_fails
            then (0, sys)
            else after_limit cfg pass (record sys {
              store = store;
              forwarder = record sys.forwarder { stats = count_gaps gaps sys.forwarder.stats };
            })
      ]
