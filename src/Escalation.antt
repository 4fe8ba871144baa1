-- ===== src/Escalation.antt =====
-- backend/app/edge/safety/escalation.py: `RepeatEscalationTracker`. The dictionary of deques is a
-- function from the key, empty where nothing was recorded; a deque is a list, oldest first.
pub mod Window
use safe2go.Base.{
  ℕ, ◌+◌, Bool, true, false, ◌&&◌, ◌||◌, not, List, [], ◌∷◌, ◌++◌, leb, ltb, ◌==◌, if◌then◌else◌,
  length,
}
use safe2go.Config.{
  RuleName, seatbelt, operator_seated, proximity, tilt, overload, visibility, temperature,
  RepeatEscalationConfig, seconds,
}
use safe2go.Rule.{Severity, is_warning}

abbrev number : RuleName → ℕ
number seatbelt = 0
number operator_seated = 1
number proximity = 2
number tilt = 3
number overload = 4
number visibility = 5
number temperature = 6

-- `==` on rule names.
abbrev pub same_rule : RuleName → RuleName → Bool
same_rule a b = number a == number b

-- `name in names`
unfoldable pub contains : RuleName → List RuleName → Bool
contains a [] = false
contains a (b ∷ bs) = same_rule a b || contains a bs

abbrev pub Windows : Type 0
Windows = ℕ → RuleName → List ℕ

abbrev pub no_windows : Windows
no_windows _ _ = []

-- The `while` loop: entries older than `ts - span` leave at the left.
unfoldable pub trim : ℕ → ℕ → List ℕ → List ℕ
trim span ts [] = []
trim span ts (x ∷ xs) = let rest = trim span ts xs in if ltb (x + span) ts then rest else x ∷ xs

-- The key's deque, written.
abbrev pub put : ℕ → RuleName → List ℕ → Windows → Windows
put machine_id rule window w m r = if m == machine_id && same_rule r rule then window else w m r

unfoldable pub record_and_check :
    RepeatEscalationConfig → ℕ → RuleName → ℕ → Severity → Windows → Windows × Bool
record_and_check cfg machine_id rule sim_ts severity w =
    if not (contains rule cfg.applies_to)
    then (w, false)
    else if not (is_warning severity)
    then (w, false)
    else let window = trim (seconds cfg.window_seconds) sim_ts (w machine_id rule) ++ sim_ts ∷ [] in
      (put machine_id rule window w, leb cfg.count_threshold (length window))

unfoldable pub reset_machine : ℕ → Windows → Windows
reset_machine machine_id w m r = if m == machine_id then [] else w m r
