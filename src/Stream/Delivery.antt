-- ===== src/Stream/Delivery.antt =====
-- Rows of the spool: which operations keep them, and that a number names one row.
pub mod Runs
use mathlib.Core.Path.{subst}
use safe2go.Base.{
  ℕ, zero, suc, ◌+◌, ◌-◌, ◌*◌, ◌/◌, ◌≤◌, ◌<◌, Bool, true, false, not, ◌&&◌, Option, none, some,
  List, [], ◌∷◌, ◌++◌, take, length, ◌≡◌, ◌==◌, if◌then◌else◌, ◌⊎◌, inl, inr, refl, sym, arith,
  Bool-cases, Option-cases, leb, ltb,
}
use safe2go.Stream.{StreamKind, telemetry, gap, Payload, opaque, gap_of, Gap, StreamSpool, Store}
use safe2go.Stream.Spool.{
  insert, new_row, add, spool_tick, spool_event, is_telemetry, oldest, elem, seqs, delete_seqs,
  add_gaps, gaps_from, enforce_limit, raw_backlog,
}
use safe2go.Stream.Gaps.{
  IsNumbered, Ascending, insert-IsNumbered, add_gaps-IsNumbered, without_oldest,
}
use safe2go.Stream.Gaps.Account.{delete-dropped, Enforced, enforce_limit-Enforced}
use safe2go.Stream.Forwarder.{
  SendResult, acknowledged, exception, acknowledged_rows, acknowledged_prefix, Settings, System,
  Pass, Arrival, tick, event, arrive, arrive_all, with_priority, next_batch, send, received,
  failures, ensure_producer, account, set_state, count_gaps, draining, forward, drain, connect,
  after_limit, run_once,
}

abbrev pub In : StreamSpool → List StreamSpool → Type 0
In r [] = ⊥
In r (x ∷ xs) = (x ≡ r) ⊎ In r xs

pub In-append_left : (r : StreamSpool) (xs ys : List StreamSpool) → In r xs → In r (xs ++ ys)
In-append_left r [] ys h = elim h [ ]
In-append_left r (x ∷ xs) ys (inl e) = inl e
In-append_left r (x ∷ xs) ys (inr h) = inr (In-append_left r xs ys h)

pub In-append_right : (r : StreamSpool) (xs ys : List StreamSpool) → In r ys → In r (xs ++ ys)
In-append_right r [] ys h = h
In-append_right r (x ∷ xs) ys h = inr (In-append_right r xs ys h)

In-append : (r : StreamSpool) (xs ys : List StreamSpool) → In r (xs ++ ys) → In r xs ⊎ In r ys
In-append r [] ys h = inr h
In-append r (x ∷ xs) ys (inl e) = inl (inl e)
In-append r (x ∷ xs) ys (inr h) = elim (In-append r xs ys h) [
  | inl left ↦ inl (inr left)
  | inr right ↦ inr right
]

In-take : (r : StreamSpool) (n : ℕ) (xs : List StreamSpool) → In r (take n xs) → In r xs
In-take r zero xs h = elim h [ ]
In-take r (suc n) [] h = elim h [ ]
In-take r (suc n) (x ∷ xs) (inl e) = inl e
In-take r (suc n) (x ∷ xs) (inr h) = inr (In-take r n xs h)

In-with_priority :
    (r : StreamSpool) (p : ℕ) (xs : List StreamSpool) → In r (with_priority p xs) → In r xs
unfolding with_priority
In-with_priority r p [] h = h
In-with_priority r p (x ∷ xs) h = let rest = In-with_priority r p xs in ground arith

pub In-next_batch :
    (r : StreamSpool) (n : ℕ) (xs : List StreamSpool) → In r (next_batch n xs) → In r xs
unfolding next_batch
In-next_batch r n xs h =
    let low = with_priority 0 xs in
    let mid = with_priority 1 xs in
    let high = with_priority 2 xs in
    elim (In-append r (low ++ mid) high (In-take r n _ h)) [
      | inl first ↦ elim (In-append r low mid first) [
        | inl x ↦ In-with_priority r 0 xs x
        | inr x ↦ In-with_priority r 1 xs x
      ]
      | inr x ↦ In-with_priority r 2 xs x
    ]

pub In-without_oldest :
    (r : StreamSpool) (n : ℕ) (xs : List StreamSpool)
    → is_telemetry r ≡ false
    → In r xs
    → In r (without_oldest n xs)
unfolding without_oldest
In-without_oldest r n [] k h = elim h [ ]
In-without_oldest r n (x ∷ xs) k h =
    let rest = In-without_oldest r n xs k in
    let fewer = In-without_oldest r (n - 1) xs k in ground arith

pub In-delete_seqs :
    (r : StreamSpool) (ds : List ℕ) (xs : List StreamSpool)
    → In r xs
    → In r (delete_seqs ds xs) ⊎ (elem r.seq ds ≡ true)
unfolding delete_seqs
In-delete_seqs r ds [] h = elim h [ ]
In-delete_seqs r ds (x ∷ xs) h = let rest = In-delete_seqs r ds xs in ground arith

pub Ascending-delete_seqs :
    (lo lo' hi : ℕ) (ds : List ℕ) (xs : List StreamSpool)
    → Ascending lo hi xs
    → lo' ≤ lo
    → Ascending lo' hi (delete_seqs ds xs)
unfolding delete_seqs
Ascending-delete_seqs lo lo' hi ds [] h le = ground arith
Ascending-delete_seqs lo lo' hi ds (x ∷ xs) h le =
    let keep = Ascending-delete_seqs (suc x.seq) (suc x.seq) hi ds xs h.1 (omega arith) in
    let drop = Ascending-delete_seqs (suc x.seq) lo' hi ds xs h.1 (omega (arith, h.0)) in
    ground arith

In-later :
    (lo hi : ℕ) (r : StreamSpool) (xs : List StreamSpool)
    → Ascending lo hi xs
    → In r xs
    → lo ≤ r.seq
In-later lo hi r [] h i = elim i [ ]
In-later lo hi r (x ∷ xs) h i = let rest = In-later (suc x.seq) hi r xs h.1 in ground arith

-- A sequence number names one row.
pub same_seq :
    (lo hi : ℕ) (a b : StreamSpool) (xs : List StreamSpool)
    → Ascending lo hi xs
    → In a xs
    → In b xs
    → a.seq ≡ b.seq
    → a ≡ b
same_seq lo hi a b [] h i j e = elim i [ ]
same_seq lo hi a b (x ∷ xs) h i j e =
    let rest = same_seq (suc x.seq) hi a b xs h.1 in
    let ia = In-later (suc x.seq) hi a xs h.1 in
    let ib = In-later (suc x.seq) hi b xs h.1 in ground arith

-- A row of the batch with that number, which the broker has acknowledged.
abbrev Received : ℕ → List StreamSpool → List SendResult → Type 0
Received q rows results = (r : StreamSpool) × In r rows × (r.seq ≡ q) × In r (received rows results)

Received-cons :
    (q : ℕ) (r : StreamSpool) (rs : List StreamSpool) (x : SendResult) (xs : List SendResult)
    → Received q rs xs
    → Received q (r ∷ rs) (x ∷ xs)
unfolding received
Received-cons q r rs acknowledged xs (r', i, e, j) = (r', inr i, e, inr j)
Received-cons q r rs exception xs (r', i, e, j) = (r', inr i, e, j)

pub acknowledged_rows-Received :
    (q : ℕ) (blocked : List ℕ) (rows done : List StreamSpool) (results : List SendResult)
    → acknowledged_rows blocked rows results ≡ some done
    → elem q (seqs done) ≡ true
    → Received q rows results
unfolding acknowledged_rows received
acknowledged_rows-Received q blocked [] done [] h e = ground arith
acknowledged_rows-Received q blocked [] done (x ∷ xs) h e = ground arith
acknowledged_rows-Received q blocked (r ∷ rs) done [] h e = ground arith
acknowledged_rows-Received q blocked (r ∷ rs) done (exception ∷ xs) h e =
    elim (Bool-cases (elem r.machine_id blocked)) [
      | inl stopped ↦
          Received-cons q r rs exception xs
            (acknowledged_rows-Received q blocked rs done xs (ground arith) e)
      | inr free ↦
          Received-cons q r rs exception xs
            (acknowledged_rows-Received q (r.machine_id ∷ blocked) rs done xs (ground arith) e)
    ]
acknowledged_rows-Received q blocked (r ∷ rs) done (acknowledged ∷ xs) h e =
    elim (Bool-cases (elem r.machine_id blocked)) [
      | inl stopped ↦
          Received-cons q r rs acknowledged xs
            (acknowledged_rows-Received q blocked rs done xs (ground arith) e)
      | inr free ↦ elim (Option-cases (acknowledged_rows blocked rs xs)) [
        | inl short ↦ ground arith
        | inr (later, found) ↦ elim (Bool-cases (r.seq == q)) [
          | inl this ↦ (r, inl refl, ground arith, inl refl)
          | inr other ↦
              Received-cons q r rs acknowledged xs
                (acknowledged_rows-Received q blocked rs later xs found (ground arith))
        ]
      ]
    ]
