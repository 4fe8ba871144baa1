-- ===== src/Stream/Gaps.antt =====
-- The spool's limit: what it drops is what its gap records report.
pub mod Account
use safe2go.Base.{
  ℕ, zero, suc, ◌+◌, ◌-◌, ◌*◌, ◌/◌, ◌≤◌, ◌<◌, Bool, true, false, not, ◌&&◌, Option, none, some,
  List, [], ◌∷◌, ◌++◌, map, ◌==◌, ◌≡◌, refl, sym, ◌∙◌, ap, if◌then◌else◌, arith, All, Bool-cases,
  inl, inr, leb,
}
use safe2go.Stream.{
  StreamKind, telemetry, incident, behavior_event, gap, Gap, Payload, gap_of, opaque, StreamSpool,
  Store,
}
use safe2go.Stream.Spool.{
  insert, new_row, is_telemetry, raw_backlog, oldest, elem, seqs, delete_seqs, widen, gaps_from,
  add_gaps, enforce_limit, priority_of,
}

-- The sequence numbers ascend from `lo` and stay below `hi`.
abbrev pub Ascending : ℕ → ℕ → List StreamSpool → Type 0
Ascending lo hi [] = lo ≤ hi
Ascending lo hi (r ∷ rs) = (lo ≤ r.seq) × Ascending (suc r.seq) hi rs

abbrev pub IsNumbered : Store → Type 0
IsNumbered s = Ascending 0 s.next_seq s.rows

-- The raw ticks of one machine.
unfoldable pub raw_of : ℕ → List StreamSpool → ℕ
raw_of m [] = 0
raw_of m (r ∷ rs) =
    let rest = raw_of m rs in if is_telemetry r && (r.machine_id == m) then suc rest else rest

unfoldable pub dropped_in : ℕ → List Gap → ℕ
dropped_in m [] = 0
dropped_in m (g ∷ gs) =
    let rest = dropped_in m gs in if g.machine_id == m then g.dropped_count + rest else rest

abbrev pub reported_by : ℕ → StreamSpool → ℕ
reported_by m r = elim r.kind [
  | gap ↦ elim r.payload [
    | gap_of g ↦ if g.machine_id == m then g.dropped_count else 0
    | opaque _ ↦ 0
  ]
  | _ ↦ 0
]

-- The dropped ticks of one machine that the gap records of the table report.
unfoldable pub reported_of : ℕ → List StreamSpool → ℕ
reported_of m [] = 0
reported_of m (r ∷ rs) = reported_by m r + reported_of m rs

-- The incidents and behavior events.
abbrev pub is_event : StreamSpool → Bool
is_event r = elim r.kind [ incident ↦ true | behavior_event ↦ true | _ ↦ false ]

unfoldable pub events : List StreamSpool → List StreamSpool
events [] = []
events (r ∷ rs) = let rest = events rs in if is_event r then r ∷ rest else rest

Ascending-insert :
    (lo : ℕ) (rs : List StreamSpool) (r : StreamSpool)
    → Ascending lo r.seq rs
    → Ascending lo (suc r.seq) (rs ++ r ∷ [])
Ascending-insert lo [] r h = ground arith
Ascending-insert lo (x ∷ xs) r h = let rest = Ascending-insert (suc x.seq) xs r h.1 in ground arith

pub insert-IsNumbered :
    (kind : StreamKind) (m t now : ℕ) (p : Payload) (id : ℕ) (s : Store)
    → IsNumbered s
    → IsNumbered (insert kind m t now p id s)
unfolding insert new_row
insert-IsNumbered kind m t now p id s h =
    Ascending-insert 0 s.rows (new_row kind m t now p id s.next_seq) h

pub add_gaps-IsNumbered :
    (now : ℕ) (gs : List Gap) (s : Store) → IsNumbered s → IsNumbered (add_gaps now gs s)
unfolding add_gaps
add_gaps-IsNumbered now [] s h = h
add_gaps-IsNumbered now (g ∷ gs) s h = add_gaps-IsNumbered now gs _ (
    insert-IsNumbered gap g.machine_id g.to_ts now (gap_of g) s.drawn
      (record s { drawn = suc s.drawn }) h)

-- The table without its `n` oldest raw ticks, in one pass.
unfoldable pub without_oldest : ℕ → List StreamSpool → List StreamSpool
without_oldest n [] = []
without_oldest n (r ∷ rs) =
    let rest = without_oldest n rs in
    let fewer = without_oldest (n - 1) rs in
    if not (is_telemetry r) then r ∷ rest else if n == 0 then r ∷ rs else fewer

elem_later :
    (lo hi n d : ℕ) (rs : List StreamSpool)
    → Ascending lo hi rs
    → d < lo
    → elem d (seqs (oldest n rs)) ≡ false
unfolding oldest
elem_later lo hi n d [] h lt = refl
elem_later lo hi n d (r ∷ rs) h lt =
    let rest = elem_later (suc r.seq) hi n d rs h.1 in
    let fewer = elem_later (suc r.seq) hi (n - 1) d rs h.1 in ground arith

delete_earlier :
    (lo hi d : ℕ) (ds : List ℕ) (rs : List StreamSpool)
    → Ascending lo hi rs
    → d < lo
    → delete_seqs (d ∷ ds) rs ≡ delete_seqs ds rs
unfolding delete_seqs
delete_earlier lo hi d ds [] h lt = refl
delete_earlier lo hi d ds (r ∷ rs) h lt =
    let rest = delete_earlier (suc r.seq) hi d ds rs h.1 in ground arith

delete_none : (rs : List StreamSpool) → delete_seqs [] rs ≡ rs
unfolding delete_seqs
delete_none [] = refl
delete_none (r ∷ rs) = let rest = delete_none rs in ground arith

delete_seqs-oldest :
    (lo hi n : ℕ) (rs : List StreamSpool)
    → Ascending lo hi rs
    → delete_seqs (seqs (oldest n rs)) rs ≡ without_oldest n rs
unfolding delete_seqs oldest without_oldest
delete_seqs-oldest lo hi n [] h = refl
delete_seqs-oldest lo hi n (r ∷ rs) h =
    let rest = delete_seqs-oldest (suc r.seq) hi n rs h.1 in
    let fewer = delete_seqs-oldest (suc r.seq) hi (n - 1) rs h.1 in
    let out = elem_later (suc r.seq) hi n r.seq rs h.1 in
    let skip = delete_earlier (suc r.seq) hi r.seq (seqs (oldest (n - 1) rs)) rs h.1 in
    let all = delete_none rs in ground arith
