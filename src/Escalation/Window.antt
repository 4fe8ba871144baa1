-- ===== src/Escalation/Window.antt =====
-- The rolling window against a count over the whole history.
use safe2go.Base.{
  ℕ, suc, ◌+◌, ◌≤◌, Bool, true, false, ◌&&◌, ◌≡◌, ◌↔◌, refl, List, [], ◌∷◌, ◌++◌, arith, leb, ◌==◌,
  if◌then◌else◌, length, length-append, Bool-cases, inl, inr, ◌⊎◌,
}
use safe2go.Config.{RuleName, RepeatEscalationConfig, seconds}
use safe2go.Rule.{Severity, warning, is_warning}
use safe2go.Escalation.{same_rule, contains, Windows, no_windows, trim, record_and_check}

-- An incident as the engine records it when it opens.
pub record Opening : Type 0 where
  pub machine_id : ℕ
  pub rule : RuleName
  pub at : ℕ
  pub severity : Severity

-- The tracker after a history of openings, oldest first.
unfoldable pub track : RepeatEscalationConfig → List Opening → Windows → Windows
track cfg [] w = w
track cfg (o ∷ os) w = track cfg os (record_and_check cfg o.machine_id o.rule o.at o.severity w).0

-- No opening lies before `t`, and each is no earlier than the one before it.
abbrev pub InOrder : ℕ → List Opening → Type 0
InOrder t [] = Unit
InOrder t (o ∷ os) = (t ≤ o.at) × InOrder o.at os

-- The WARNING openings of a rule on a machine that are at most `span` old at `now`.
abbrev pub recent_warnings : ℕ → RuleName → ℕ → ℕ → List Opening → ℕ
recent_warnings machine_id rule span now [] = 0
recent_warnings machine_id rule span now (o ∷ os) =
    let rest = recent_warnings machine_id rule span now os in
    if (o.machine_id == machine_id && same_rule o.rule rule)
      && (is_warning o.severity && leb now (o.at + span))
    then suc rest
    else rest

abbrev recent : ℕ → ℕ → List ℕ → ℕ
recent span now [] = 0
recent span now (x ∷ xs) =
    let rest = recent span now xs in if leb now (x + span) then suc rest else rest

-- A deque: in order, nothing before `low`, nothing after `high`.
abbrev Between : ℕ → ℕ → List ℕ → Type 0
Between low high [] = low ≤ high
Between low high (x ∷ xs) = (low ≤ x) × Between x high xs

Between-le : (low high : ℕ) (xs : List ℕ) → Between low high xs → low ≤ high
Between-le low high [] b = b
Between-le low high (x ∷ xs) b = omega (arith, Between-le x high xs b.1)

Between-weaken :
    (low low' high : ℕ) (xs : List ℕ) → low ≤ low' → Between low' high xs → Between low high xs
Between-weaken low low' high [] h b = omega arith
Between-weaken low low' high (x ∷ xs) h b = (omega arith, b.1)

Between-later :
    (low high high' : ℕ) (xs : List ℕ) → Between low high xs → high ≤ high' → Between low high' xs
Between-later low high high' [] b h = omega arith
Between-later low high high' (x ∷ xs) b h = (b.0, Between-later x high high' xs b.1 h)

recent_all :
    (span now low high : ℕ) (xs : List ℕ)
    → Between low high xs
    → now ≤ low + span
    → recent span now xs ≡ length xs
recent_all span now low high [] b h = refl
recent_all span now low high (x ∷ xs) b h = ground (arith, recent_all span now x high xs b.1)

length-trim :
    (span now low high : ℕ) (xs : List ℕ)
    → Between low high xs
    → length (trim span now xs) ≡ recent span now xs
unfolding trim
length-trim span now low high [] b = refl
length-trim span now low high (x ∷ xs) b =
    ground (arith, length-trim span now x high xs b.1, recent_all span now x high xs b.1)

-- Trimming at an earlier time changes no later count.
recent-trim :
    (span t now : ℕ) (xs : List ℕ) → t ≤ now → recent span now (trim span t xs) ≡ recent span now xs
unfolding trim
recent-trim span t now [] h = refl
recent-trim span t now (x ∷ xs) h = ground (arith, recent-trim span t now xs h)

trim-Between :
    (span t low high : ℕ) (xs : List ℕ) → Between low high xs → Between low high (trim span t xs)
unfolding trim
trim-Between span t low high [] b = b
trim-Between span t low high (x ∷ xs) b =
    ground (arith, trim-Between span t x high xs b.1, Between-weaken low x high (trim span t xs))

recent-append :
    (span now t : ℕ) (xs : List ℕ)
    → recent span now (xs ++ t ∷ []) ≡ recent span now xs + recent span now (t ∷ [])
recent-append span now t [] = ground arith
recent-append span now t (x ∷ xs) = ground (arith, recent-append span now t xs)

append-Between :
    (low high t : ℕ) (xs : List ℕ) → Between low high xs → high ≤ t → Between low t (xs ++ t ∷ [])
append-Between low high t [] b h = (omega arith, omega arith)
append-Between low high t (x ∷ xs) b h = (b.0, append-Between x high t xs b.1 h)

same_rule-eq : (a b : RuleName) → same_rule a b ≡ true → a ≡ b
same_rule-eq a b h = ground arith

same_rule_refl : (a : RuleName) → same_rule a a ≡ true
same_rule_refl a = ground arith

-- The time of the last opening, or `t` if there is none.
abbrev pub last_at : ℕ → List Opening → ℕ
last_at t [] = t
last_at t (o ∷ os) = last_at o.at os

module _ (cfg : RepeatEscalationConfig) (m : ℕ) (r : RuleName)
    (watched : contains r cfg.applies_to ≡ true) where
  abbrev span : ℕ
  span = seconds cfg.window_seconds

  deque_hit :
      (ts : ℕ) (w : Windows)
      → (record_and_check cfg m r ts warning w).0 m r ≡ trim span ts (w m r) ++ ts ∷ []
  unfolding record_and_check
  deque_hit ts w = ground (arith, same_rule_refl r, watched)

  abbrev counts : Opening → Bool
  counts o = (o.machine_id == m && same_rule o.rule r) && is_warning o.severity

  deque_miss :
      (o : Opening) (w : Windows)
      → counts o ≡ false
      → (record_and_check cfg o.machine_id o.rule o.at o.severity w).0 m r ≡ w m r
  unfolding record_and_check
  deque_miss o w h = ground (arith, same_rule-eq o.rule r, same_rule-eq r o.rule, same_rule_refl r)

  counted :
      (o : Opening) → counts o ≡ true → (o.machine_id ≡ m) × (o.rule ≡ r) × (o.severity ≡ warning)
  counted o h = ground (arith, same_rule-eq o.rule r)

  -- What one recorded opening does to the deque of the key.
  deque_step :
      (o : Opening) (w : Windows)
      → ((record_and_check cfg o.machine_id o.rule o.at o.severity w).0 m r
            ≡ trim span o.at (w m r) ++ o.at ∷ [])
          × (counts o ≡ true)
        ⊎ ((record_and_check cfg o.machine_id o.rule o.at o.severity w).0 m r ≡ w m r)
          × (counts o ≡ false)
  deque_step o w = elim (Bool-cases (counts o)) [
    | inl e ↦ let (em, er, es) = counted o e in inl (rw (em, er, es) (deque_hit o.at w), e)
    | inr e ↦ inr (deque_miss o w e, e)
  ]

  -- The deque after an opening, against the deque before it.
  record_step :
      (o : Opening) (w : Windows) (t now : ℕ)
      → Between 0 t (w m r)
      → t ≤ o.at
      → o.at ≤ now
      → let xs = (record_and_check cfg o.machine_id o.rule o.at o.severity w).0 m r in
        Between 0 o.at xs
        × (recent span now xs ≡ recent span now (w m r) + recent_warnings m r span now (o ∷ []))
  record_step o w t now b h k = elim (deque_step o w) [
    | inl (e, c) ↦ rw e (
      append-Between 0 t o.at _ (trim-Between span o.at 0 t (w m r) b) h,
      ground (
        arith,
        recent-append span now o.at (trim span o.at (w m r)),
        recent-trim span o.at now (w m r) k,
        c,
      ),
    )
    | inr (e, c) ↦ rw e (Between-later 0 t o.at (w m r) b h, ground (arith, c))
  ]

  last_at-le : (t : ℕ) (os : List Opening) → InOrder t os → t ≤ last_at t os
  last_at-le t [] h = omega arith
  last_at-le t (o ∷ os) h = omega (arith, h.0, last_at-le o.at os h.1)

  tracked :
      (os : List Opening) (w : Windows) (t now : ℕ)
      → Between 0 t (w m r)
      → InOrder t os
      → last_at t os ≤ now
      → let xs = track cfg os w m r in
        Between 0 (last_at t os) xs
        × (recent span now xs ≡ recent span now (w m r) + recent_warnings m r span now os)
  unfolding track
  tracked [] w t now b h k = (b, omega arith)
  tracked (o ∷ os) w t now b h k =
      let w' = (record_and_check cfg o.machine_id o.rule o.at o.severity w).0 in
      let (b', e) = record_step o w t now b h.0 (omega (arith, last_at-le o.at os h.1)) in
      let (b'', e') = tracked os w' o.at now b' h.1 k in (b'', ground (arith, e, e'))

  check_last :
      (ts : ℕ) (w : Windows)
      → (record_and_check cfg m r ts warning w).1
        ≡ leb cfg.count_threshold (length (trim span ts (w m r)) + 1)
  unfolding record_and_check
  check_last ts w = ground (arith, watched, length-append (trim span ts (w m r)) (ts ∷ []))

  -- For a watched rule, whatever incidents of all rules and machines were recorded before, in order
  -- of time, a WARNING at `ts` is told to open as CRITICAL exactly if, with itself, at least
  -- `count_threshold` WARNINGs of this rule on this machine were opened within the window that
  -- ends at `ts`.
  pub record_and_check_iff :
      (os : List Opening) (ts : ℕ)
      → InOrder 0 os
      → last_at 0 os ≤ ts
      → ((record_and_check cfg m r ts warning (track cfg os no_windows)).1 ≡ true)
        ↔ (cfg.count_threshold ≤ recent_warnings m r span ts os + 1)
  record_and_check_iff os ts h k =
      let w = track cfg os no_windows in
      let (b, e) = tracked os no_windows 0 ts (omega arith) h k in
      rw (check_last ts w) (ground (arith, length-trim span ts 0 (last_at 0 os) (w m r) b, e))
