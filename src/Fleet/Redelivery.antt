-- ===== src/Fleet/Redelivery.antt =====
-- A batch that the broker delivers again changes nothing.
use safe2go.Base.{ℕ, true, ◌||◌, List, [], ◌∷◌, ◌++◌, ◌==◌, ◌≡◌, refl, arith, inl, inr}
use mathlib.Core.List.{Memᴰ}
use mathlib.Core.List.Memᴰ.{not-nil, cases_cons}
use safe2go.Handlers.Rows.{put}
use safe2go.Fleet.{
  FleetDb, Envelope, Batch, tick_row, gap_row, event_row, archive_id, gap_id, event_id_of,
  last_of_each, stores, insert_new, sort_record, sort_records, recompute_rollups, apply_records,
  store_batches,
}

module _ {R : Type 0} (id : R → ℕ) where
  stores-put :
      (i : ℕ) (r : R) (rows : List R)
      → stores id i (put id r rows) ≡ ((id r == i) || stores id i rows)
  unfolding stores put
  stores-put i r [] = refl
  stores-put i r (x ∷ xs) = let rest = stores-put i r xs in ground arith

  stores-last_of_each :
      (i : ℕ) (rows seen : List R)
      → stores id i (last_of_each id rows seen) ≡ (stores id i rows || stores id i seen)
  unfolding stores last_of_each
  stores-last_of_each i [] seen = refl
  stores-last_of_each i (r ∷ rs) seen =
      let rest = stores-last_of_each i rs (put id r seen) in
      let written = stores-put i r seen in ground arith

  -- After an insertion the table has the events it had and those of the rows.
  stores-insert_new :
      (i : ℕ) (rows table : List R)
      → stores id i (insert_new id rows table ++ table) ≡ (stores id i rows || stores id i table)
  unfolding stores insert_new
  stores-insert_new i [] table = refl
  stores-insert_new i (r ∷ rs) table = let rest = stores-insert_new i rs table in ground arith

  insert_new-stored :
      (rows table : List R)
      → ((i : ℕ) → stores id i rows ≡ true → stores id i table ≡ true)
      → insert_new id rows table ≡ []
  unfolding insert_new stores
  insert_new-stored [] table has = refl
  insert_new-stored (r ∷ rs) table has =
      let here = has (id r) in
      let rest = insert_new-stored rs table (λ i h. has i (ground arith)) in ground arith

-- Two batches hold the same events.
abbrev SameEvents : Batch → Batch → Type 0
SameEvents b c =
    (i : ℕ)
    → (stores archive_id i b.ticks ≡ stores archive_id i c.ticks)
      × (stores gap_id i b.gap_rows ≡ stores gap_id i c.gap_rows)
      × (stores event_id_of i b.event_rows ≡ stores event_id_of i c.event_rows)

sort_record-SameEvents :
    (now later : ℕ) (e : Envelope) (b c : Batch)
    → SameEvents b c
    → SameEvents (sort_record now e b) (sort_record later e c)
unfolding sort_record tick_row gap_row event_row stores
sort_record-SameEvents now later e b c same i = let (x, y, z) = same i in ground arith

sort_records-SameEvents :
    (now later : ℕ) (es : List Envelope) → SameEvents (sort_records now es) (sort_records later es)
unfolding sort_records
sort_records-SameEvents now later [] i = (refl, refl, refl)
sort_records-SameEvents now later (e ∷ es) i =
    sort_record-SameEvents now later e (sort_records now es) (sort_records later es)
      (sort_records-SameEvents now later es) i

-- The database has every event of the batch.
abbrev pub Holds : Batch → FleetDb → Type 0
Holds b db =
    (i : ℕ)
    → (stores archive_id i b.ticks ≡ true → stores archive_id i db.archive ≡ true)
      × (stores gap_id i b.gap_rows ≡ true → stores gap_id i db.gaps ≡ true)
      × (stores event_id_of i b.event_rows ≡ true → stores event_id_of i db.events ≡ true)

module _ {R : Type 0} (id : R → ℕ) where
  last_of_each-stored :
      (rows table : List R)
      → ((i : ℕ) → stores id i rows ≡ true → stores id i table ≡ true)
      → insert_new id (last_of_each id rows []) table ≡ []
  unfolding stores
  last_of_each-stored rows table has =
      insert_new-stored id (last_of_each id rows []) table
        (λ i h. let h' = has i in let same = stores-last_of_each id i rows [] in ground arith)

  stores-written :
      (i : ℕ) (rows table : List R)
      → stores id i (insert_new id (last_of_each id rows []) table ++ table)
        ≡ (stores id i rows || stores id i table)
  unfolding stores
  stores-written i rows table =
      let same = stores-last_of_each id i rows [] in
      let now = stores-insert_new id i (last_of_each id rows []) table in ground arith

-- A batch whose events are all there stores nothing and changes no table.
apply_records-Holds :
    (later : ℕ) (es : List Envelope) (db : FleetDb)
    → Holds (sort_records later es) db
    → ((apply_records later es db).0.stored ≡ 0) × ((apply_records later es db).1 ≡ db)
unfolding apply_records recompute_rollups
apply_records-Holds later es db has =
    let b = sort_records later es in
    let ticks = last_of_each-stored archive_id b.ticks db.archive (λ i. (has i).0) in
    let gaps = last_of_each-stored gap_id b.gap_rows db.gaps (λ i. (has i).1) in
    let events = last_of_each-stored event_id_of b.event_rows db.events (λ i. (has i).2) in
    rw (ticks, gaps, events) (refl, refl)

pub Holds-apply_records :
    (now : ℕ) (es : List Envelope) (db : FleetDb) (b : Batch)
    → Holds b db
    → Holds b (apply_records now es db).1
unfolding apply_records
Holds-apply_records now es db b has i =
    let c = sort_records now es in
    let (x, y, z) = has i in
    let ticks = stores-written archive_id i c.ticks db.archive in
    let gaps = stores-written gap_id i c.gap_rows db.gaps in
    let events = stores-written event_id_of i c.event_rows db.events in ground arith

pub Holds-just_applied :
    (now later : ℕ) (es : List Envelope) (db : FleetDb)
    → Holds (sort_records later es) (apply_records now es db).1
unfolding apply_records
Holds-just_applied now later es db i =
    let c = sort_records now es in
    let (x, y, z) = sort_records-SameEvents now later es i in
    let ticks = stores-written archive_id i c.ticks db.archive in
    let gaps = stores-written gap_id i c.gap_rows db.gaps in
    let events = stores-written event_id_of i c.event_rows db.events in ground arith

Holds-store_batches :
    (later : ℕ) (batch : ℕ × List Envelope) (bs : List (ℕ × List Envelope)) (db : FleetDb)
    → Memᴰ batch bs
    → Holds (sort_records later batch.1) (store_batches bs db)
unfolding store_batches
Holds-store_batches later batch [] db has = absurd (not-nil has)
Holds-store_batches later batch ((now, es) ∷ bs) db has = elim (cases_cons has) [
  | inl first ↦ rw first (Holds-just_applied now later es (store_batches bs db))
  | inr before ↦
      Holds-apply_records now es (store_batches bs db) (sort_records later batch.1)
        (Holds-store_batches later batch bs db before)
]

-- A batch that is among those stored before, and comes again at any later time, stores no record and
-- changes no table, rollups included.
pub store_batches-again :
    (later : ℕ) (batch : ℕ × List Envelope) (bs : List (ℕ × List Envelope)) (db : FleetDb)
    → Memᴰ batch bs
    → ((apply_records later batch.1 (store_batches bs db)).0.stored ≡ 0)
      × (store_batches ((later, batch.1) ∷ bs) db ≡ store_batches bs db)
unfolding store_batches
store_batches-again later batch bs db has =
    apply_records-Holds later batch.1 (store_batches bs db)
      (Holds-store_batches later batch bs db has)
