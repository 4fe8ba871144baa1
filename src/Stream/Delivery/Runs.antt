-- ===== src/Stream/Delivery/Runs.antt =====
-- No record but a raw tick leaves the spool before the broker has it.
use mathlib.Core.Path.{subst}
use safe2go.Base.{
  ℕ, suc, ◌-◌, ◌*◌, ◌/◌, Bool, true, false, not, ◌&&◌, Option, none, some, List, [], ◌∷◌, ◌++◌,
  length, ◌≡◌, ◌==◌, if◌then◌else◌, ◌⊎◌, inl, inr, sym, arith, Bool-cases, Option-cases, leb, ltb,
}
use safe2go.Stream.{StreamKind, telemetry, gap, Payload, opaque, gap_of, Gap, StreamSpool, Store}
use safe2go.Stream.Spool.{
  insert, add, spool_tick, spool_event, is_telemetry, oldest, seqs, delete_seqs, add_gaps,
  gaps_from, enforce_limit, raw_backlog,
}
use safe2go.Stream.Gaps.{IsNumbered, Ascending, insert-IsNumbered}
use safe2go.Stream.Gaps.Account.{delete-dropped, Enforced, enforce_limit-Enforced}
use safe2go.Stream.Forwarder.{
  SendResult, acknowledged_rows, acknowledged_prefix, Settings, System, Pass, Arrival, tick, event,
  arrive, arrive_all, next_batch, send, received, ensure_producer, set_state, count_gaps, draining,
  forward, drain, connect, after_limit, run_once,
}
use safe2go.Stream.Delivery.{
  In, In-append_left, In-append_right, In-next_batch, In-without_oldest, In-delete_seqs,
  Ascending-delete_seqs, same_seq, acknowledged_rows-Received,
}

-- Where a record is safe: in the spool, or in the broker's log.
abbrev pub IsKept : StreamSpool → System → Type 0
IsKept r sys = In r sys.store.rows ⊎ In r sys.log

abbrev pub Happening : Type 0
Happening = Arrival ⊎ Settings × Pass

unfoldable pub happen : Happening → System → System
happen (inl a) sys = record sys { store = arrive a sys.store }
happen (inr (cfg, pass)) sys = (run_once cfg pass sys).1

unfoldable pub happen_all : List Happening → System → System
happen_all [] sys = sys
happen_all (h ∷ hs) sys = happen_all hs (happen h sys)

insert-In :
    (r : StreamSpool) (kind : StreamKind) (m t now : ℕ) (p : Payload) (id : ℕ) (s : Store)
    → In r s.rows
    → In r (insert kind m t now p id s).rows
unfolding insert
insert-In r kind m t now p id s h = In-append_left r s.rows _ h

-- What every change of the spool keeps, if it deletes nothing.
abbrev Grows : StreamSpool → Store → Store → Type 0
Grows r s s' = (IsNumbered s → IsNumbered s') × (In r s.rows → In r s'.rows)

insert-Grows :
    (r : StreamSpool) (kind : StreamKind) (m t now : ℕ) (p : Payload) (id : ℕ) (s : Store)
    → Grows r s (insert kind m t now p id s)
insert-Grows r kind m t now p id s =
    (insert-IsNumbered kind m t now p id s, insert-In r kind m t now p id s)

arrive-Grows : (r : StreamSpool) (a : Arrival) (s : Store) → Grows r s (arrive a s)
unfolding arrive spool_tick spool_event add
arrive-Grows r (tick true m t now p id) s = (λ h. h, λ h. h)
arrive-Grows r (tick false m t now p id) s = insert-Grows r telemetry m t now (opaque p) id s
arrive-Grows r (event true kind m t now p) s = (λ h. h, λ h. h)
arrive-Grows r (event false kind m t now p) s =
    insert-Grows r kind m t now (opaque p) s.drawn (record s { drawn = suc s.drawn })

arrive_all-Grows :
    (r : StreamSpool) (rest : List Arrival) (s : Store) → Grows r s (arrive_all rest s)
unfolding arrive_all
arrive_all-Grows r [] s = (λ h. h, λ h. h)
arrive_all-Grows r (a ∷ rest) s =
    let one = arrive-Grows r a s in
    let all = arrive_all-Grows r rest (arrive a s) in (λ h. all.0 (one.0 h), λ h. all.1 (one.1 h))

add_gaps-In :
    (r : StreamSpool) (now : ℕ) (gs : List Gap) (s : Store)
    → In r s.rows
    → In r (add_gaps now gs s).rows
unfolding add_gaps
add_gaps-In r now [] s h = h
add_gaps-In r now (g ∷ gs) s h =
    let s0 = record s { drawn = suc s.drawn } in
    add_gaps-In r now gs (insert gap g.machine_id g.to_ts now (gap_of g) s.drawn s0)
      (insert-In r gap g.machine_id g.to_ts now (gap_of g) s.drawn s0 h)

abbrev Keeps : StreamSpool → Option (List Gap × Store) → Type 0
Keeps r none = Unit
Keeps r (some (gs, s')) = In r s'.rows

enforce_limit-Keeps :
    (r : StreamSpool) (now max_records low_water : ℕ) (s : Store)
    → IsNumbered s
    → is_telemetry r ≡ false
    → In r s.rows
    → Keeps r (enforce_limit now max_records low_water s)
unfolding enforce_limit
enforce_limit-Keeps r now max_records low_water s num k i =
    let keep = max_records * low_water / 1000 in
    let n = raw_backlog s.rows - keep in
    let gaps = gaps_from [] (oldest n s.rows) in
    let there = add_gaps-In r now gaps s i in
    let kept = In-without_oldest r n (add_gaps now gaps s).rows k there in
    elim (Bool-cases (leb (raw_backlog s.rows) max_records)) [
      | inl fits ↦ rw fits i
      | inr over ↦ elim (Bool-cases (ltb (raw_backlog s.rows) keep)) [
        | inl below ↦ rw (over, below) tt
        | inr above ↦ rw (over, above) (subst (In r) (sym (delete-dropped now n gaps s num)) kept)
      ]
    ]

enforce_limit-In :
    (r : StreamSpool) (now max_records low_water : ℕ) (s s' : Store) (gs : List Gap)
    → IsNumbered s
    → is_telemetry r ≡ false
    → enforce_limit now max_records low_water s ≡ some (gs, s')
    → (IsNumbered s') × (In r s.rows → In r s'.rows)
enforce_limit-In r now max_records low_water s s' gs num k h =
    let keep = max_records * low_water / 1000 in
    let whole =
      subst (Enforced 0 max_records keep s) h
        (enforce_limit-Enforced now max_records low_water 0 s num) in
    (whole.0, λ i. subst (Keeps r) h (enforce_limit-Keeps r now max_records low_water s num k i))

-- The acknowledged rows, deleted by number from a table that has grown, are in the log.
delete-IsKept :
    (r : StreamSpool) (rows log done : List StreamSpool) (results : List SendResult) (hi : ℕ)
    (now_rows : List StreamSpool)
    → Ascending 0 hi now_rows
    → ((x : StreamSpool) → In x rows → In x now_rows)
    → acknowledged_rows [] rows results ≡ some done
    → In r now_rows
    → In r (delete_seqs (seqs done) now_rows) ⊎ In r (log ++ received rows results)
delete-IsKept r rows log done results hi now_rows asc sub h i =
    elim (In-delete_seqs r (seqs done) now_rows i) [
      | inl stays ↦ inl stays
      | inr gone ↦
          let (x, ix, e, got) = acknowledged_rows-Received r.seq [] rows done results h gone in
          let same = same_seq 0 hi x r now_rows asc (sub x ix) i e in
          inr (
            In-append_right r log _
              (subst (λ (y : StreamSpool). In y (received rows results)) same got))
    ]

abbrev IsSafe : StreamSpool → System → Type 0
IsSafe r sys = IsNumbered sys.store × IsKept r sys

forward-IsSafe :
    (r : StreamSpool) (cfg : Settings) (pass : Pass) (sys : System)
    → IsSafe r sys
    → IsSafe r (forward cfg pass (next_batch cfg.stream_batch_size sys.store.rows) sys).1
unfolding forward acknowledged_prefix
forward-IsSafe r cfg pass sys h =
    let rows = next_batch cfg.stream_batch_size sys.store.rows in
    let results = send pass.answers rows in
    let store = arrive_all pass.meanwhile sys.store in
    let num = (arrive_all-Grows r pass.meanwhile sys.store).0 h.0 in
    let sub : (x : StreamSpool) → In x rows → In x store.rows = λ x i.
      (arrive_all-Grows x pass.meanwhile sys.store).1
        (In-next_batch x cfg.stream_batch_size sys.store.rows i) in
    let still : In r store.rows ⊎ In r (sys.log ++ received rows results) = elim h.1 [
      | inl i ↦ inl ((arrive_all-Grows r pass.meanwhile sys.store).1 i)
      | inr i ↦ inr (In-append_left r sys.log (received rows results) i)
    ] in
    elim (Option-cases (acknowledged_rows [] rows results)) [
      | inl h' ↦ rw (forward, h') (num, still)
      | inr (done, h') ↦ elim (Bool-cases (pass.delete_fails && not (length (seqs done) == 0))) [
        | inl fails ↦ rw (forward, h', fails) (num, still)
        | inr deletes ↦
            rw (forward, h', deletes)
              (
                Ascending-delete_seqs 0 0 store.next_seq (seqs done) store.rows num (omega arith),
                elim still [
                  | inl i ↦
                      delete-IsKept r rows sys.log done results store.next_seq store.rows num sub h'
                        i
                  | inr i ↦ inr i
                ],
              )
      ]
    ]

drain-IsSafe :
    (r : StreamSpool) (cfg : Settings) (pass : Pass) (sys : System)
    → IsSafe r sys
    → IsSafe r (drain cfg pass sys).1
unfolding drain
drain-IsSafe r cfg pass sys h =
    let rows = next_batch cfg.stream_batch_size sys.store.rows in
    elim (Bool-cases (length rows == 0)) [
      | inl empty ↦ rw empty h
      | inr some_rows ↦ rw some_rows (forward-IsSafe r cfg pass (set_state draining sys) h)
    ]

connect-IsSafe :
    (r : StreamSpool) (cfg : Settings) (pass : Pass) (sys : System)
    → IsSafe r sys
    → IsSafe r (connect cfg pass sys).1
unfolding connect
connect-IsSafe r cfg pass sys h =
    let f = sys.forwarder in
    let p =
      ensure_producer cfg pass (record f { stats = record f.stats { retry_in_seconds = none } }) in
    elim (Bool-cases p.0) [
      | inl ready ↦ rw ready (drain-IsSafe r cfg pass (record sys { forwarder = p.1 }) h)
      | inr down ↦ rw down h
    ]

after_limit-IsSafe :
    (r : StreamSpool) (cfg : Settings) (pass : Pass) (sys : System)
    → IsSafe r sys
    → IsSafe r (after_limit cfg pass sys).1
unfolding after_limit
after_limit-IsSafe r cfg pass sys h = let next = connect-IsSafe r cfg pass sys h in ground arith

either-IsSafe :
    (r : StreamSpool) (b : Bool) (x y : ℕ × System)
    → IsSafe r x.1
    → IsSafe r y.1
    → IsSafe r (if b then x else y).1
either-IsSafe r true x y hx hy = hx
either-IsSafe r false x y hx hy = hy

run_once-IsSafe :
    (r : StreamSpool) (cfg : Settings) (pass : Pass) (sys : System)
    → is_telemetry r ≡ false
    → IsSafe r sys
    → IsSafe r (run_once cfg pass sys).1
unfolding run_once
run_once-IsSafe r cfg pass sys k h =
    let e =
      enforce_limit pass.wall_clock_now cfg.stream_spool_max_records cfg.stream_spool_low_water
        sys.store in
    elim (Option-cases e) [
      | inl fails ↦ rw (run_once, fails) h
      | inr ((gs, store), h') ↦
          let kept =
            enforce_limit-In r pass.wall_clock_now cfg.stream_spool_max_records
              cfg.stream_spool_low_water sys.store store gs h.0 k h' in
          let next = record sys {
            store = store;
            forwarder = record sys.forwarder { stats = count_gaps gs sys.forwarder.stats };
          } in
          let carried = elim h.1 as (λ _. IsKept r next) [
            | inl i ↦ inl (kept.1 i)
            | inr i ↦ inr i
          ] in
          rw (run_once, h')
            (either-IsSafe r pass.limit_fails (0, sys) (after_limit cfg pass next) h
              (after_limit-IsSafe r cfg pass next (kept.0, carried)))
    ]

happen-IsSafe :
    (r : StreamSpool) (a : Happening) (sys : System)
    → is_telemetry r ≡ false
    → IsSafe r sys
    → IsSafe r (happen a sys)
unfolding happen
happen-IsSafe r (inl a) sys k h =
    let grows = arrive-Grows r a sys.store in
    (grows.0 h.0, elim h.1 [ inl i ↦ inl (grows.1 i) | inr i ↦ inr i ])
happen-IsSafe r (inr (cfg, pass)) sys k h = run_once-IsSafe r cfg pass sys k h

-- A record other than a raw tick that is in a spool numbered in order is still in the spool or has
-- been acknowledged by the broker after any sequence of transactions of the edge, successful or
-- not, and of passes of the forwarder, with any settings, answers of the broker, timeouts, database
-- errors and transactions committed between the read of a batch and the delete.
pub happen_all-IsKept :
    (hs : List Happening) (r : StreamSpool) (sys : System)
    → is_telemetry r ≡ false
    → IsNumbered sys.store
    → IsKept r sys
    → IsKept r (happen_all hs sys)
unfolding happen_all
happen_all-IsKept [] r sys k num h = h
happen_all-IsKept (a ∷ rest) r sys k num h =
    let next = happen-IsSafe r a sys k (num, h) in
    happen_all-IsKept rest r (happen a sys) k next.0 next.1
