-- ===== src/Examples/Behaviors.antt =====
-- The detectors on a short shift: two idle runs, the second one long.
use safe2go.Base.{true, false, [], ◌∷◌, ◌≡◌, refl, All}
use safe2go.Behavior.Spans.{follow}
use safe2go.Behavior.OncePerSpan.{
  Readings, watch, since, starts, Distinct, Lasted, is_due, watch_lem,
}

abbrev readings : Readings
readings =
    (420, true)
    ∷ (410, true)
    ∷ (200, true)
    ∷ (100, true)
    ∷ (90, false)
    ∷ (60, true)
    ∷ (10, true)
    ∷ []

watched : (watch 300 readings).0 ≡ record { start = 100; finish = 410; magnitude = 310 } ∷ []
unfolding watch follow
watched = refl

watch_lem_example :
    ((watch 300 readings).1.span_start ≡ since readings)
    × ((watch 300 readings).1.emitted_starts ≡ starts (watch 300 readings).0)
    × Distinct (starts (watch 300 readings).0)
    × All (Lasted 300) (watch 300 readings).0
    × (is_due 300 readings (watch 300 readings).0 ≡ false)
watch_lem_example = watch_lem 300 readings
