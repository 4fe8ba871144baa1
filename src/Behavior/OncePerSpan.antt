-- ===== src/Behavior/OncePerSpan.antt =====
-- When a span detector reports.
use safe2go.Base.{
  ℕ, ◌+◌, ◌-◌, ◌≤◌, Bool, true, false, not, ◌&&◌, Option, none, some, List, [], ◌∷◌, leb, ◌≡◌, All,
  arith, refl,
}
use safe2go.Behavior.{DetectionEvent}
use safe2go.Behavior.Spans.{Detector, new_detector, emitted, follow}

-- The readings of a shift, the newest first: a time, and whether the condition held.
abbrev pub Readings : Type 0
Readings = List (ℕ × Bool)

abbrev pub push : Option DetectionEvent → List DetectionEvent → List DetectionEvent
push none es = es
push (some e) es = e ∷ es

unfoldable pub watch : ℕ → Readings → List DetectionEvent × Detector
watch threshold [] = ([], new_detector)
watch threshold ((ts, c) ∷ earlier) =
    let (events, d) = watch threshold earlier in
    let (event, d') = follow threshold ts c d in (push event events, d')

abbrev pub or_now : Option ℕ → ℕ → ℕ
or_now none now = now
or_now (some t) now = t

-- The first reading of the run of readings, up to the last, on all of which the condition held.
abbrev pub since : Readings → Option ℕ
since [] = none
since ((ts, false) ∷ earlier) = none
since ((ts, true) ∷ earlier) = some (or_now (since earlier) ts)

abbrev pub starts : List DetectionEvent → List ℕ
starts [] = []
starts (e ∷ es) = e.start ∷ starts es

abbrev pub Distinct : List ℕ → Type 0
Distinct [] = Unit
Distinct (s ∷ ss) = (emitted s ss ≡ false) × Distinct ss

abbrev pub Lasted : ℕ → DetectionEvent → Type 0
Lasted threshold e = (e.start + threshold ≤ e.finish) × (e.magnitude ≡ e.finish - e.start)

abbrev pub overdue : ℕ → ℕ → Bool → Option ℕ → List DetectionEvent → Bool
overdue threshold ts c none es = false
overdue threshold ts c (some s) es = c && (leb (s + threshold) ts && not (emitted s (starts es)))

-- A run that has lasted for the threshold, on a reading after its first, and is not reported.
abbrev pub is_due : ℕ → Readings → List DetectionEvent → Bool
is_due threshold [] es = false
is_due threshold ((ts, c) ∷ earlier) es = overdue threshold ts c (since earlier) es

-- What holds of a detector and its events after some readings.
abbrev Holds : ℕ → Option ℕ → List DetectionEvent → Detector → Type 0
Holds threshold current es d =
    (d.span_start ≡ current)
    × (d.emitted_starts ≡ starts es)
    × Distinct (starts es)
    × All (Lasted threshold) es

follow_hold :
    (threshold ts : ℕ) (current : Option ℕ) (es : List DetectionEvent) (d : Detector)
    → Holds threshold current es d
    → let r = follow threshold ts true d in
      Holds threshold (some (or_now current ts)) (push r.0 es) r.1
unfolding follow
follow_hold threshold ts none es d h = ground arith
follow_hold threshold ts (some s) es d h = ground arith

follow_due :
    (threshold ts : ℕ) (current : Option ℕ) (es : List DetectionEvent) (d : Detector)
    → Holds threshold current es d
    → let r = follow threshold ts true d in overdue threshold ts true current (push r.0 es) ≡ false
unfolding follow
follow_due threshold ts none es d h = refl
follow_due threshold ts (some s) es d h = ground arith

follow_release :
    (threshold ts : ℕ) (current : Option ℕ) (es : List DetectionEvent) (d : Detector)
    → Holds threshold current es d
    → let r = follow threshold ts false d in
      Holds threshold none (push r.0 es) r.1
      × (overdue threshold ts false current (push r.0 es) ≡ false)
unfolding follow
follow_release threshold ts none es d h = ground arith
follow_release threshold ts (some s) es d h = ground arith

-- Over any readings of a shift, in whatever order their times are, and with a run of readings on
-- which the condition held told by the time of its first: each run is reported at most once and
-- never before it has lasted for the threshold, with its length as magnitude; and as soon as it has
-- lasted that long, on a reading after its first, it has been reported.
pub watch_lem :
    (threshold : ℕ) (rs : Readings)
    → let r = watch threshold rs in
      (r.1.span_start ≡ since rs)
      × (r.1.emitted_starts ≡ starts r.0)
      × Distinct (starts r.0)
      × All (Lasted threshold) r.0
      × (is_due threshold rs r.0 ≡ false)
unfolding watch
watch_lem threshold [] = ground arith
watch_lem threshold ((ts, false) ∷ earlier) =
    let r = watch threshold earlier in
    let rest = watch_lem threshold earlier in
    let f = follow_release threshold ts (since earlier) r.0 r.1 (rest.0, rest.1, rest.2, rest.3) in
    (f.0.0, f.0.1, f.0.2, f.0.3, f.1)
watch_lem threshold ((ts, true) ∷ earlier) =
    let r = watch threshold earlier in
    let rest = watch_lem threshold earlier in
    let f = follow_hold threshold ts (since earlier) r.0 r.1 (rest.0, rest.1, rest.2, rest.3) in
    (
      f.0,
      f.1,
      f.2,
      f.3,
      follow_due threshold ts (since earlier) r.0 r.1 (rest.0, rest.1, rest.2, rest.3),
    )
