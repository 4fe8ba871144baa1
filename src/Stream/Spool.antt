-- ===== src/Stream/Spool.antt =====
-- backend/app/edge/stream/spool.py. A statement of the database fails by an argument of the
-- operation; times of the wall clock are arguments. `low_water` is in thousandths.
use safe2go.Base.{
  ℕ, suc, ◌-◌, ◌*◌, ◌/◌, min, max, Bool, true, false, not, Option, none, some, List, [], ◌∷◌, ◌++◌,
  map, ◌==◌, ◌||◌, ltb, leb, if◌then◌else◌,
}
use safe2go.Stream.{
  StreamKind, telemetry, incident, behavior_event, gap, Gap, Payload, opaque, gap_of, StreamSpool,
  Store,
}

-- `PRIORITY`
unfoldable pub priority_of : StreamKind → ℕ
priority_of gap = 0
priority_of incident = 1
priority_of behavior_event = 1
priority_of telemetry = 2

unfoldable pub new_row : StreamKind → ℕ → ℕ → ℕ → Payload → ℕ → ℕ → StreamSpool
unfolding priority_of
new_row kind machine_id event_time now payload event_id seq = record {
  seq = seq;
  event_id = event_id;
  kind = kind;
  priority = priority_of kind;
  machine_id = machine_id;
  event_time = event_time;
  spooled_at = now;
  payload = payload;
}

-- One insert; the identity column numbers it.
unfoldable pub insert : StreamKind → ℕ → ℕ → ℕ → Payload → ℕ → Store → Store
insert kind machine_id event_time now payload event_id s = record s {
  rows = s.rows ++ new_row kind machine_id event_time now payload event_id s.next_seq ∷ [];
  next_seq = suc s.next_seq;
}

-- `_add`: the savepoint takes back the insert that fails, and only the counters tell.
unfoldable pub add : Bool → StreamKind → ℕ → ℕ → ℕ → Payload → ℕ → Store → Store
add true kind machine_id event_time now payload event_id s = record s {
  write_failures = suc s.write_failures;
}
add false kind machine_id event_time now payload event_id s =
    let s' = insert kind machine_id event_time now payload event_id s in
    record s' { written = suc s'.written }

unfoldable pub spool_tick : Bool → Bool → ℕ → ℕ → ℕ → ℕ → ℕ → Store → Store
spool_tick kafka_enabled fails machine_id timestamp now payload telemetry_id s =
    if not kafka_enabled
    then s
    else add fails telemetry machine_id timestamp now (opaque payload) telemetry_id s

unfoldable pub spool_event : Bool → Bool → StreamKind → ℕ → ℕ → ℕ → ℕ → Store → Store
spool_event kafka_enabled fails kind machine_id event_time now payload s =
    if not kafka_enabled
    then s
    else add fails kind machine_id event_time now (opaque payload) s.drawn
        (record s { drawn = suc s.drawn })

abbrev pub is_telemetry : StreamSpool → Bool
is_telemetry r = elim r.kind [ telemetry ↦ true | _ ↦ false ]

unfoldable pub raw_backlog : List StreamSpool → ℕ
raw_backlog [] = 0
raw_backlog (r ∷ rs) = let rest = raw_backlog rs in if is_telemetry r then suc rest else rest

-- The oldest `n` raw ticks.
unfoldable pub oldest : ℕ → List StreamSpool → List StreamSpool
oldest n [] = []
oldest n (r ∷ rs) =
    let rest = oldest n rs in
    let fewer = oldest (n - 1) rs in
    if not (is_telemetry r) then rest else if n == 0 then [] else r ∷ fewer

abbrev pub elem : ℕ → List ℕ → Bool
elem n [] = false
elem n (m ∷ ms) = (m == n) || elem n ms

abbrev pub seqs : List StreamSpool → List ℕ
seqs rs = map (λ (r : StreamSpool). r.seq) rs

-- `delete(StreamSpool).where(StreamSpool.seq.in_(...))`
unfoldable pub delete_seqs : List ℕ → List StreamSpool → List StreamSpool
delete_seqs ds [] = []
delete_seqs ds (r ∷ rs) = let rest = delete_seqs ds rs in if elem r.seq ds then rest else r ∷ rest

-- `by_machine.setdefault(machine_id, []).append(row)`, and the gap of each group: one entry for each
-- machine, in the order of first appearance.
unfoldable pub widen : StreamSpool → List Gap → List Gap
widen r [] =
    record {
      machine_id = r.machine_id;
      from_ts = r.event_time;
      to_ts = r.event_time;
      dropped_count = 1;
    }
    ∷ []
widen r (g ∷ gs) =
    let rest = widen r gs in
    if g.machine_id == r.machine_id
    then record g {
      from_ts = min g.from_ts r.event_time;
      to_ts = max g.to_ts r.event_time;
      dropped_count = suc g.dropped_count;
    }
      ∷ gs
    else g ∷ rest

unfoldable pub gaps_from : List Gap → List StreamSpool → List Gap
gaps_from gs [] = gs
gaps_from gs (r ∷ rs) = gaps_from (widen r gs) rs

unfoldable pub add_gaps : ℕ → List Gap → Store → Store
add_gaps now [] s = s
add_gaps now (g ∷ gs) s =
    add_gaps now gs
      (insert gap g.machine_id g.to_ts now (gap_of g) s.drawn (record s { drawn = suc s.drawn }))

-- `none` is the database's refusal of a negative LIMIT, for a low-water mark above the backlog.
unfoldable pub enforce_limit : ℕ → ℕ → ℕ → Store → Option (List Gap × Store)
enforce_limit now max_records low_water s =
    let backlog = raw_backlog s.rows in
    let keep = max_records * low_water / 1000 in
    let excess = backlog - keep in
    let dropped = oldest excess s.rows in
    let gaps = gaps_from [] dropped in
    let s' = add_gaps now gaps s in
    if leb backlog max_records
    then some ([], s)
    else if ltb backlog keep
    then none
    else some (gaps, record s' { rows = delete_seqs (seqs dropped) s'.rows })
