-- ===== src/Stream/Gaps/Account.antt =====
-- The account of every machine's raw ticks under the spool's limit.
use safe2go.Base.{
  ℕ, suc, ◌+◌, ◌-◌, ◌*◌, ◌/◌, ◌≤◌, ◌<◌, true, false, Option, none, some, List, [], ◌∷◌, ◌++◌, ◌≡◌,
  refl, arith, Bool-cases, sym, ap, ◌∙◌, inl, inr, leb, ltb, All, max,
}
use mathlib.Core.Path.{subst}
use safe2go.Stream.{gap, Gap, gap_of, StreamSpool, Store}
use safe2go.Stream.Spool.{
  insert, new_row, priority_of, is_telemetry, raw_backlog, oldest, seqs, delete_seqs, widen,
  gaps_from, add_gaps, enforce_limit,
}
use safe2go.Stream.Gaps.{
  IsNumbered, Ascending, raw_of, dropped_in, reported_of, events, without_oldest,
  delete_seqs-oldest, add_gaps-IsNumbered,
}

abbrev IsRaw : StreamSpool → Type 0
IsRaw r = is_telemetry r ≡ true

oldest-IsRaw : (n : ℕ) (rs : List StreamSpool) → All IsRaw (oldest n rs)
unfolding oldest
oldest-IsRaw n [] = ground arith
oldest-IsRaw n (r ∷ rs) =
    let rest = oldest-IsRaw n rs in let fewer = oldest-IsRaw (n - 1) rs in ground arith

dropped_in-widen :
    (m : ℕ) (r : StreamSpool) (gs : List Gap)
    → is_telemetry r ≡ true
    → dropped_in m (widen r gs) ≡ dropped_in m gs + raw_of m (r ∷ [])
unfolding widen dropped_in raw_of
dropped_in-widen m r [] raw = ground arith
dropped_in-widen m r (g ∷ gs) raw = let rest = dropped_in-widen m r gs raw in ground arith

-- The gaps of the dropped rows count them by machine.
dropped_in-gaps_from :
    (m : ℕ) (gs : List Gap) (rs : List StreamSpool)
    → All IsRaw rs
    → dropped_in m (gaps_from gs rs) ≡ dropped_in m gs + raw_of m rs
unfolding gaps_from raw_of
dropped_in-gaps_from m gs [] raw = ground arith
dropped_in-gaps_from m gs (r ∷ rs) raw =
    let rest = dropped_in-gaps_from m (widen r gs) rs raw.1 in
    let one = dropped_in-widen m r gs raw.0 in ground arith

-- A gap record at the end of the table leaves the raw ticks and their order alone.
gap_at_end :
    (m n : ℕ) (g : Gap) (r : StreamSpool) (rs : List StreamSpool)
    → r.kind ≡ gap
    → r.payload ≡ gap_of g
    → let rs' = rs ++ r ∷ [] in
      (raw_of m rs' ≡ raw_of m rs)
      × (reported_of m rs' ≡ reported_of m rs + dropped_in m (g ∷ []))
      × (oldest n rs' ≡ oldest n rs)
      × (raw_backlog rs' ≡ raw_backlog rs)
      × (events rs' ≡ events rs)
unfolding raw_of reported_of dropped_in oldest raw_backlog events
gap_at_end m n g r [] kind payload = ground arith
gap_at_end m n g r (x ∷ xs) kind payload =
    let rest = gap_at_end m n g r xs kind payload in
    let fewer = gap_at_end m (n - 1) g r xs kind payload in ground arith

add_gaps_lem :
    (now m n : ℕ) (gs : List Gap) (s : Store)
    → let s' = add_gaps now gs s in
      (raw_of m s'.rows ≡ raw_of m s.rows)
      × (reported_of m s'.rows ≡ reported_of m s.rows + dropped_in m gs)
      × (oldest n s'.rows ≡ oldest n s.rows)
      × (raw_backlog s'.rows ≡ raw_backlog s.rows)
      × (events s'.rows ≡ events s.rows)
unfolding add_gaps insert new_row priority_of dropped_in
add_gaps_lem now m n [] s = ground arith
add_gaps_lem now m n (g ∷ gs) s =
    let s1 =
      insert gap g.machine_id g.to_ts now (gap_of g) s.drawn (record s { drawn = suc s.drawn }) in
    let rest = add_gaps_lem now m n gs s1 in
    let one =
      gap_at_end m n g (new_row gap g.machine_id g.to_ts now (gap_of g) s.drawn s.next_seq) s.rows
        refl refl in
    ground arith

without_oldest_lem :
    (m n : ℕ) (rs : List StreamSpool)
    → (raw_of m (without_oldest n rs) + raw_of m (oldest n rs) ≡ raw_of m rs)
      × (reported_of m (without_oldest n rs) ≡ reported_of m rs)
      × (events (without_oldest n rs) ≡ events rs)
      × (raw_backlog (without_oldest n rs) ≡ raw_backlog rs - n)
unfolding without_oldest oldest raw_of reported_of events raw_backlog
without_oldest_lem m n [] = ground arith
without_oldest_lem m n (r ∷ rs) =
    let rest = without_oldest_lem m n rs in
    let fewer = without_oldest_lem m (n - 1) rs in ground arith

-- What the limit leaves and reports, for the machine `m`.
abbrev pub Enforced : ℕ → ℕ → ℕ → Store → Option (List Gap × Store) → Type 0
Enforced m max_records keep s none = raw_backlog s.rows < keep
Enforced m max_records keep s (some (gaps, s')) =
    IsNumbered s'
    × (raw_backlog s'.rows ≤ max max_records keep)
    × (raw_of m s'.rows + dropped_in m gaps ≡ raw_of m s.rows)
    × (reported_of m s'.rows ≡ reported_of m s.rows + dropped_in m gaps)
    × (events s'.rows ≡ events s.rows)

Ascending-without_oldest :
    (lo lo' hi n : ℕ) (rs : List StreamSpool)
    → Ascending lo hi rs
    → lo' ≤ lo
    → Ascending lo' hi (without_oldest n rs)
unfolding without_oldest
Ascending-without_oldest lo lo' hi n [] h le = ground arith
Ascending-without_oldest lo lo' hi n (r ∷ rs) h le =
    let rest = Ascending-without_oldest (suc r.seq) (suc r.seq) hi n rs h.1 (omega arith) in
    let fewer = Ascending-without_oldest (suc r.seq) lo' hi (n - 1) rs h.1 (omega (arith, h.0)) in
    ground arith

pub delete-dropped :
    (now n : ℕ) (gs : List Gap) (s : Store)
    → IsNumbered s
    → let s' = add_gaps now gs s in
      delete_seqs (seqs (oldest n s.rows)) s'.rows ≡ without_oldest n s'.rows
delete-dropped now n gs s h =
    let s' = add_gaps now gs s in
    let added = add_gaps_lem now 0 n gs s in
    ap (λ (ds : List StreamSpool). delete_seqs (seqs ds) s'.rows) (sym added.2)
    ∙ delete_seqs-oldest 0 s'.next_seq n s'.rows (add_gaps-IsNumbered now gs s h)

drop_Enforced :
    (now max_records keep m : ℕ) (s : Store)
    → IsNumbered s
    → ltb (raw_backlog s.rows) keep ≡ false
    → let n = raw_backlog s.rows - keep in
      let dropped = oldest n s.rows in
      let gaps = gaps_from [] dropped in
      let s' = add_gaps now gaps s in
      Enforced m max_records keep s
        (some (gaps, record s' { rows = delete_seqs (seqs dropped) s'.rows }))
unfolding dropped_in
drop_Enforced now max_records keep m s h above =
    let n = raw_backlog s.rows - keep in
    let dropped = oldest n s.rows in
    let gaps = gaps_from [] dropped in
    let s' = add_gaps now gaps s in
    let added = add_gaps_lem now m n gaps s in
    let numbered = add_gaps-IsNumbered now gaps s h in
    let counted = dropped_in-gaps_from m [] dropped (oldest-IsRaw n s.rows) in
    let left = without_oldest_lem m n s'.rows in
    let ascending = Ascending-without_oldest 0 0 s'.next_seq n s'.rows numbered (omega arith) in
    let deleted = delete-dropped now n gaps s h in
    subst
      (λ (rows : List StreamSpool).
        Enforced m max_records keep s (some (gaps, record s' { rows = rows })))
      (sym deleted) (ascending, ground arith, ground arith, ground arith, ground arith)

-- In a table numbered in order, the spool's limit drops raw ticks only, and every machine's raw
-- ticks stay accounted for: those left and those that the new gap records report are those that
-- were there. Incidents and behavior events stay, in their order; at most the larger of the limit
-- and the low-water mark of raw ticks is left; and the pass fails only when the low-water mark is
-- above the backlog.
pub enforce_limit-Enforced :
    (now max_records low_water m : ℕ) (s : Store)
    → IsNumbered s
    → Enforced m max_records
        (max_records * low_water / 1000)
        s
        (enforce_limit now max_records low_water s)
unfolding enforce_limit dropped_in
enforce_limit-Enforced now max_records low_water m s h =
    let keep = max_records * low_water / 1000 in
    elim (Bool-cases (leb (raw_backlog s.rows) max_records)) [
      | inl fits ↦ ground arith
      | inr over ↦ elim (Bool-cases (ltb (raw_backlog s.rows) keep)) [
        | inl below ↦ ground arith
        | inr above ↦ rw (over, above) (drop_Enforced now max_records keep m s h above)
      ]
    ]
