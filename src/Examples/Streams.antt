-- ===== src/Examples/Streams.antt =====
-- The spool and the forwarder on a few records of two machines.
use safe2go.Base.{
  ℕ, ◌+◌, ◌*◌, ◌/◌, true, false, Option, none, some, List, [], ◌∷◌, ◌≡◌, inl, inr, refl, arith,
  ◌==◌, if◌then◌else◌,
}
use safe2go.Stream.{StreamKind, telemetry, incident, StreamSpool, Store, Gap, opaque}
use safe2go.Stream.Spool.{enforce_limit, raw_backlog, gaps_from, oldest, widen}
use safe2go.Stream.Gaps.Account.{Enforced, enforce_limit-Enforced}
use safe2go.Stream.Forwarder.{
  SendResult, acknowledged, exception, acknowledged_rows, Settings, System, Pass, stopped, event,
  tick, forward, send, arrive_all,
}
use safe2go.Stream.Prefix.{of_machine, until_failure, forward-after_delete, after_delete}
use safe2go.Stream.Delivery.Runs.{IsKept, Happening, happen_all, happen_all-IsKept}

abbrev row : ℕ → StreamKind → ℕ → StreamSpool
row seq kind machine = record {
  seq = seq;
  event_id = seq + 100;
  kind = kind;
  priority = elim kind [ telemetry ↦ 2 | _ ↦ 1 ];
  machine_id = machine;
  event_time = 10 * seq;
  spooled_at = 10 * seq;
  payload = opaque 0;
}

abbrev spooled : List StreamSpool
spooled =
    row 0 telemetry 1
    ∷ row 1 telemetry 2
    ∷ row 2 incident 1
    ∷ row 3 telemetry 1
    ∷ row 4 telemetry 1
    ∷ []

abbrev store : Store
store = record { rows = spooled; next_seq = 5; written = 5; write_failures = 0; drawn = 1 }

abbrev three_dropped : Option (List Gap × Store) → List Gap
three_dropped none = []
three_dropped (some (gs, _)) = gs

-- At most 3 raw ticks, down to 1: the oldest 3 go.
enforce_limit_run :
    three_dropped (enforce_limit 60 3 334 store)
    ≡ record { machine_id = 1; from_ts = 0; to_ts = 30; dropped_count = 2 }
      ∷ record { machine_id = 2; from_ts = 10; to_ts = 10; dropped_count = 1 }
      ∷ []
unfolding enforce_limit raw_backlog gaps_from oldest widen
enforce_limit_run = refl

enforce_limit-Enforced_example : Enforced 1 3 (3 * 334 / 1000) store (enforce_limit 60 3 334 store)
enforce_limit-Enforced_example = enforce_limit-Enforced 60 3 334 1 store (ground arith)

abbrev answers : List SendResult
answers = acknowledged ∷ exception ∷ exception ∷ acknowledged ∷ acknowledged ∷ []

acknowledged_rows_run : acknowledged_rows [] spooled answers ≡ some (row 0 telemetry 1 ∷ [])
unfolding acknowledged_rows
acknowledged_rows_run = refl

abbrev settings : Settings
settings = record {
  stream_spool_max_records = 3;
  stream_spool_low_water = 334;
  stream_batch_size = 10;
  stream_backoff_max_seconds = 30_000_000;
  stream_max_rate = 2000;
}

abbrev system : System
system = record {
  store = store;
  log = [];
  forwarder = record {
    producer = false;
    topics_checked = false;
    attempts = 0;
    retry_at = 0;
    stats = record {
      state = stopped;
      sent_total = 0;
      failed_total = 0;
      dropped_total = 0;
      gaps_total = 0;
      retry_in_seconds = none;
    };
  };
}

-- The link is up, the broker refuses machine 2, and an incident arrives while the batch is out.
abbrev pass : Pass
pass = record {
  now = 100;
  wall_clock_now = 60;
  later = 200;
  limit_fails = false;
  reachable = true;
  starts = true;
  topics_ready = true;
  answers = some (λ (r : StreamSpool). if r.machine_id == 2 then exception else acknowledged);
  meanwhile = event false incident 2 150 150 0 ∷ [];
  delete_fails = false;
}

forward-after_delete_example :
    (done : List StreamSpool) × ((m : ℕ)
      → of_machine m done ≡ until_failure m spooled (send pass.answers spooled))
    × ((forward settings pass spooled system).1.store
        ≡ after_delete pass done (arrive_all pass.meanwhile store))
forward-after_delete_example = forward-after_delete settings pass spooled system

abbrev happenings : List Happening
happenings = inl (tick false 2 50 50 0 9) ∷ inr (settings, pass) ∷ []

happen_all-IsKept_example : IsKept (row 2 incident 1) (happen_all happenings system)
happen_all-IsKept_example =
    happen_all-IsKept happenings (row 2 incident 1) system refl (ground arith)
      (inl (inr (inr (inl refl))))
