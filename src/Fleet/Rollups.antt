-- ===== src/Fleet/Rollups.antt =====
-- The archive holds each event once, and every rollup is that of the archive.
use safe2go.Base.{
  ℕ, Bool, true, false, ◌||◌, Option, none, some, List, [], ◌∷◌, ◌++◌, if◌then◌else◌, ◌≡◌, refl,
  sym, ap, ◌∙◌, arith, inl, inr, Bool-cases,
}
use mathlib.Core.List.{Memᴰ}
use mathlib.Core.List.Memᴰ.{head, tail, not-nil, cases_cons, append_left}
use safe2go.Fleet.{
  TelemetryArchive, FleetMinuteRollup, FleetDb, Envelope, minute, in_bucket, bucket_rows, rollup,
  is_bucket, find_rollup, write_rollup, recompute_rollups, archive_id, last_of_each, insert_new,
  sort_records, apply_records, store_batches,
}

-- A rollup without the time of its computation.
abbrev pub timeless : FleetMinuteRollup → FleetMinuteRollup
timeless r = record r { updated_at = 0 }

abbrev pub undated : Option FleetMinuteRollup → Option FleetMinuteRollup
undated none = none
undated (some r) = some (timeless r)

-- Each machine's minute has the rollup of its rows in the archive, or none when it has no rows.
abbrev pub IsRolled : List TelemetryArchive → List FleetMinuteRollup → Type 0
IsRolled archive rollups =
    (machine_id bucket : ℕ)
    → undated (find_rollup machine_id bucket rollups)
      ≡ rollup 0 machine_id bucket (bucket_rows machine_id bucket archive)

undated-rollup :
    (now machine_id bucket : ℕ) (rows : List TelemetryArchive)
    → undated (rollup now machine_id bucket rows) ≡ rollup 0 machine_id bucket rows
unfolding rollup
undated-rollup now machine_id bucket [] = refl
undated-rollup now machine_id bucket (r ∷ rs) = refl

find_rollup-write_rollup :
    (machine_id bucket : ℕ) (r : FleetMinuteRollup) (rows : List FleetMinuteRollup)
    → find_rollup machine_id bucket (write_rollup (some r) rows)
      ≡ (if is_bucket machine_id bucket r then some r else find_rollup machine_id bucket rows)
unfolding find_rollup write_rollup
find_rollup-write_rollup machine_id bucket r [] = refl
find_rollup-write_rollup machine_id bucket r (x ∷ xs) =
    let rest = find_rollup-write_rollup machine_id bucket r xs in ground arith

-- Whether some row falls into the bucket.
abbrev touches : ℕ → ℕ → List TelemetryArchive → Bool
touches machine_id bucket [] = false
touches machine_id bucket (r ∷ rs) = in_bucket machine_id bucket r || touches machine_id bucket rs

bucket_rows-untouched :
    (machine_id bucket : ℕ) (new archive : List TelemetryArchive)
    → touches machine_id bucket new ≡ false
    → bucket_rows machine_id bucket (new ++ archive) ≡ bucket_rows machine_id bucket archive
unfolding bucket_rows
bucket_rows-untouched machine_id bucket [] archive h = refl
bucket_rows-untouched machine_id bucket (r ∷ rs) archive h =
    let rest = bucket_rows-untouched machine_id bucket rs archive in ground arith

rollup-some :
    (now machine_id bucket : ℕ) (archive : List TelemetryArchive)
    → touches machine_id bucket archive ≡ true
    → (r : FleetMinuteRollup) × (rollup now machine_id bucket
          (bucket_rows machine_id bucket archive)
        ≡ some r)
      × (r.machine_id ≡ machine_id)
      × (r.bucket_start ≡ bucket)
unfolding rollup bucket_rows
rollup-some now machine_id bucket [] h = ground arith
rollup-some now machine_id bucket (x ∷ xs) h = elim (Bool-cases (in_bucket machine_id bucket x)) [
  | inl here ↦ rw here (_, refl, refl, refl)
  | inr other ↦ rw other (
      rollup-some now machine_id bucket xs
        (ap (λ b. b || touches machine_id bucket xs) (sym other) ∙ h))
]

touches_self :
    (t : TelemetryArchive) (archive : List TelemetryArchive)
    → touches t.machine_id (minute t.ts) (t ∷ archive) ≡ true
touches_self t archive = ground arith

touches-Memᴰ :
    (t : TelemetryArchive) (archive : List TelemetryArchive)
    → Memᴰ t archive
    → touches t.machine_id (minute t.ts) archive ≡ true
touches-Memᴰ t [] has = absurd (not-nil has)
touches-Memᴰ t (x ∷ xs) has = elim (cases_cons has) [
  | inl first ↦
      ap (λ y. touches t.machine_id (minute t.ts) (y ∷ xs)) (sym first) ∙ touches_self t xs
  | inr later ↦ let rest = touches-Memᴰ t xs later in ground arith
]

in_bucket_lem :
    (machine_id bucket : ℕ) (t : TelemetryArchive)
    → in_bucket machine_id bucket t ≡ true
    → (t.machine_id ≡ machine_id) × (minute t.ts ≡ bucket)
in_bucket_lem machine_id bucket t h = ground arith

is_bucket-in_bucket :
    (machine_id bucket : ℕ) (t : TelemetryArchive) (r : FleetMinuteRollup)
    → r.machine_id ≡ t.machine_id
    → r.bucket_start ≡ minute t.ts
    → is_bucket machine_id bucket r ≡ in_bucket machine_id bucket t
is_bucket-in_bucket machine_id bucket t r machine start = rw (machine, start) refl

rollup-same_bucket :
    (now machine_id bucket : ℕ) (t : TelemetryArchive) (archive : List TelemetryArchive)
    (r : FleetMinuteRollup)
    → rollup now t.machine_id (minute t.ts) (bucket_rows t.machine_id (minute t.ts) archive)
      ≡ some r
    → in_bucket machine_id bucket t ≡ true
    → undated (some r) ≡ rollup 0 machine_id bucket (bucket_rows machine_id bucket archive)
rollup-same_bucket now machine_id bucket t archive r found here =
    let (machine, start) = in_bucket_lem machine_id bucket t here in
    (ap undated (sym found)
      ∙ undated-rollup now t.machine_id (minute t.ts)
          (bucket_rows t.machine_id (minute t.ts) archive))
    ∙ rw (machine, start) refl

-- What writing the rollup of a row's minute does to each rollup.
write_rollup-find :
    (now machine_id bucket : ℕ) (t : TelemetryArchive) (archive : List TelemetryArchive)
    (rows : List FleetMinuteRollup) (r : FleetMinuteRollup)
    → rollup now t.machine_id (minute t.ts) (bucket_rows t.machine_id (minute t.ts) archive)
      ≡ some r
    → r.machine_id ≡ t.machine_id
    → r.bucket_start ≡ minute t.ts
    → undated (find_rollup machine_id bucket (write_rollup (some r) rows)) ≡ (
        if in_bucket machine_id bucket t
        then rollup 0 machine_id bucket (bucket_rows machine_id bucket archive)
        else undated (find_rollup machine_id bucket rows))
write_rollup-find now machine_id bucket t archive rows r found machine start =
    let same = is_bucket-in_bucket machine_id bucket t r machine start in
    rw (find_rollup-write_rollup machine_id bucket r rows, same)
      (elim (Bool-cases (in_bucket machine_id bucket t)) [
        | inl here ↦ rw here (rollup-same_bucket now machine_id bucket t archive r found here)
        | inr other ↦ rw other refl
      ])

-- What recomputing the minutes of some rows does to each rollup.
recompute_rollups-find :
    (now machine_id bucket : ℕ) (ts archive : List TelemetryArchive) (rows : List FleetMinuteRollup)
    → ((t : TelemetryArchive) → Memᴰ t ts → Memᴰ t archive)
    → undated (find_rollup machine_id bucket (recompute_rollups now ts archive rows)) ≡ (
        if touches machine_id bucket ts
        then rollup 0 machine_id bucket (bucket_rows machine_id bucket archive)
        else undated (find_rollup machine_id bucket rows))
unfolding recompute_rollups
recompute_rollups-find now machine_id bucket [] archive rows stored = refl
recompute_rollups-find now machine_id bucket (t ∷ ts) archive rows stored =
    let rest =
      recompute_rollups-find now machine_id bucket ts archive rows (λ x has. stored x (tail has)) in
    let known = touches-Memᴰ t archive (stored t (head refl)) in
    let (r, found, machine, start) = rollup-some now t.machine_id (minute t.ts) archive known in
    let written =
      write_rollup-find now machine_id bucket t archive (recompute_rollups now ts archive rows) r
        found machine start in
    rw found (
      written ∙ (elim (Bool-cases (in_bucket machine_id bucket t)) [
        | inl here ↦ rw here refl
        | inr other ↦ rw other rest
      ]))

recompute_rollups-IsRolled :
    (now : ℕ) (new archive : List TelemetryArchive) (rows : List FleetMinuteRollup)
    → IsRolled archive rows
    → IsRolled (new ++ archive) (recompute_rollups now new (new ++ archive) rows)
recompute_rollups-IsRolled now new archive rows rolled machine_id bucket =
    let found =
      recompute_rollups-find now machine_id bucket new (new ++ archive) rows
        (λ x has. append_left archive has) in
    found ∙ (elim (Bool-cases (touches machine_id bucket new)) [
      | inl new_row ↦ rw new_row refl
      | inr none_new ↦
          rw (none_new, bucket_rows-untouched machine_id bucket new archive none_new)
            (rolled machine_id bucket)
    ])

apply_records-IsRolled :
    (now : ℕ) (es : List Envelope) (db : FleetDb)
    → IsRolled db.archive db.rollups
    → IsRolled (apply_records now es db).1.archive (apply_records now es db).1.rollups
unfolding apply_records
apply_records-IsRolled now es db rolled =
    recompute_rollups-IsRolled now
      (insert_new archive_id (last_of_each archive_id (sort_records now es).ticks []) db.archive)
      db.archive db.rollups rolled

-- When every rollup is that of the archive's rows of its machine and minute, the time of computation
-- aside, and a minute without rows has none, it is so after any batches of records, whatever they
-- repeat and in whatever order they come.
pub store_batches-IsRolled :
    (bs : List (ℕ × List Envelope)) (db : FleetDb)
    → IsRolled db.archive db.rollups
    → IsRolled (store_batches bs db).archive (store_batches bs db).rollups
unfolding store_batches
store_batches-IsRolled [] db rolled = rolled
store_batches-IsRolled ((now, es) ∷ bs) db rolled =
    apply_records-IsRolled now es (store_batches bs db) (store_batches-IsRolled bs db rolled)
