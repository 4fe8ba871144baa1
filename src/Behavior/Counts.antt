-- ===== src/Behavior/Counts.antt =====
-- backend/app/edge/behavior/detectors/repeated_overloading.py and repeated_seatbelt.py, which differ
-- in their threshold.
use safe2go.Base.{
  ℕ, suc, Bool, true, false, not, ◌&&◌, Option, none, some, List, [], ◌∷◌, leb, if◌then◌else◌, ◌≡◌,
  length, arith, ltb,
}
use safe2go.Behavior.{DetectionEvent}

pub record Counter : Type 0 where
  pub count : ℕ
  pub first_ts : Option ℕ
  pub last_ts : Option ℕ
  pub was_emitted : Bool

abbrev pub new_counter : Counter
new_counter = record { count = 0; first_ts = none; last_ts = none; was_emitted = false }

abbrev or_now : Option ℕ → ℕ → ℕ
or_now none now = now
or_now (some t) now = t

unfoldable pub record_incident : ℕ → ℕ → Counter → Option DetectionEvent × Counter
record_incident threshold event_ts c =
    let first = or_now c.first_ts event_ts in
    let c' = record c { count = suc c.count; first_ts = some first; last_ts = some event_ts } in
    if leb threshold (suc c.count) && not c.was_emitted
    then (
      some (record { start = first; finish = event_ts; magnitude = suc c.count }),
      record c' { was_emitted = true },
    )
    else (none, c')

-- The incidents of a shift, the newest first, and the events that they gave, the newest first.
unfoldable pub record_all : ℕ → List ℕ → List DetectionEvent × Counter
record_all threshold [] = ([], new_counter)
record_all threshold (t ∷ earlier) =
    let (events, c) = record_all threshold earlier in
    let (event, c') = record_incident threshold t c in
    (elim event [ none ↦ events | some e ↦ e ∷ events ], c')

-- After any incidents of a shift, the detector has given one event if there were at least the
-- threshold and at least one, and none otherwise; it has counted them all, and remembers whether it
-- has given its event.
record_all_lem :
    (threshold : ℕ) (ts : List ℕ)
    → let r = record_all threshold ts in
      (r.1.count ≡ length ts)
      × (length r.0 ≡ (if leb threshold (length ts) && ltb 0 (length ts) then 1 else 0))
      × (r.1.was_emitted ≡ leb threshold (length ts) && ltb 0 (length ts))
unfolding record_all record_incident
record_all_lem threshold [] = ground arith
record_all_lem threshold (t ∷ ts) = let rest = record_all_lem threshold ts in ground arith
