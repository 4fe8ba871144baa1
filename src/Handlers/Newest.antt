-- ===== src/Handlers/Newest.antt =====
-- Which message a row comes from, after messages in any order and any number of times.
use safe2go.Base.{
  ℕ, ◌≤◌, false, Option, none, some, List, [], ◌∷◌, ◌==◌, ltb, if◌then◌else◌, ◌≡◌, refl, ap, ◌∙◌,
  arith, inl, inr, Bool-cases, Option-cases,
}
use mathlib.Core.List.{Memᴰ}
use mathlib.Core.List.Memᴰ.{head, tail, not-nil, cases_cons}
use safe2go.Handlers.Rows.{Row, get, row_key, apply_row, get-put}

module _ {ℓ} {V : Type ℓ} (id : V → ℕ) where
  -- The table after messages, the last one first.
  abbrev pub apply_rows : List (Row V) → List (Row V)
  apply_rows [] = []
  apply_rows (m ∷ ms) = apply_row id m.values m.sync_seq (apply_rows ms)

  -- What the row of `i` says of the messages: it is the newest one for `i`.
  abbrev pub IsNewest : ℕ → List (Row V) → Option (Row V) → Type ℓ
  IsNewest i ms none = (m : Row V) → Memᴰ m ms → (row_key id m == i) ≡ false
  IsNewest i ms (some r) =
      Memᴰ r ms
      × (row_key id r ≡ i)
      × ((m : Row V) → Memᴰ m ms → row_key id m ≡ i → m.sync_seq ≤ r.sync_seq)

  -- The newer of the row of `i` and a message for `i`.
  abbrev merge : Row V → Option (Row V) → Option (Row V)
  merge m none = some m
  merge m (some r) = if ltb r.sync_seq m.sync_seq then some m else some r

  get-apply_row :
      (i : ℕ) (m : Row V) (rows : List (Row V))
      → get (row_key id) i (apply_row id m.values m.sync_seq rows)
        ≡ (if row_key id m == i then merge m (get (row_key id) i rows) else get (row_key id) i rows)
  unfolding apply_row
  get-apply_row i m rows = elim (Bool-cases (row_key id m == i)) [
    | inl same ↦
        let here : i ≡ row_key id m = ground arith in
        rw (here) (elim (Option-cases (get (row_key id) (row_key id m) rows)) [
          | inl e ↦ let p = get-put (row_key id) (row_key id m) m rows in ground arith
          | inr (r, e) ↦ let p = get-put (row_key id) (row_key id m) m rows in ground arith
        ])
    | inr other ↦
        let p =
          get-put (row_key id) i m rows
          ∙ ap (λ b. if b then some m else get (row_key id) i rows) other in
        elim (Option-cases (get (row_key id) (row_key id m) rows)) [
          | inl e ↦ rw (apply_row, e, other, p) refl
          | inr (r, e) ↦ elim (Bool-cases (ltb r.sync_seq m.sync_seq)) [
            | inl newer ↦ rw (apply_row, e, other, newer, p) refl
            | inr older ↦ rw (apply_row, e, other, older) refl
          ]
        ]
  ]

  IsNewest-skip :
      (i : ℕ) (m : Row V) (ms : List (Row V)) (o : Option (Row V))
      → (row_key id m == i) ≡ false
      → IsNewest i ms o
      → IsNewest i (m ∷ ms) o
  IsNewest-skip i m ms none other h = λ m' has. elim (cases_cons has) [
    | inl first ↦ ap (λ x. row_key id x == i) first ∙ other
    | inr later ↦ h m' later
  ]
  IsNewest-skip i m ms (some r) other (has, same, newest) = (
    tail has,
    same,
    λ m' has' e. elim (cases_cons has') [
      | inl first ↦ ground arith
      | inr later ↦ newest m' later e
    ],
  )

  IsNewest-merge :
      (i : ℕ) (m : Row V) (ms : List (Row V)) (o : Option (Row V))
      → row_key id m ≡ i
      → IsNewest i ms o
      → IsNewest i (m ∷ ms) (merge m o)
  IsNewest-merge i m ms none same h = (
    head refl,
    same,
    λ m' has' e. elim (cases_cons has') [
      | inl first ↦ ground arith
      | inr later ↦ let no = h m' later in ground arith
    ],
  )
  IsNewest-merge i m ms (some r) same (has, key, newest) =
      elim (Bool-cases (ltb r.sync_seq m.sync_seq)) [
        | inl less ↦ rw less (
          head refl,
          same,
          λ m' has' e. elim (cases_cons has') [
            | inl first ↦ ground arith
            | inr later ↦ let below = newest m' later e in ground arith
          ],
        )
        | inr more ↦ rw more (
          tail has,
          key,
          λ m' has' e. elim (cases_cons has') [
            | inl first ↦ ground arith
            | inr later ↦ newest m' later e
          ],
        )
      ]

  apply_rows-IsNewest :
      (i : ℕ) (ms : List (Row V)) → IsNewest i ms (get (row_key id) i (apply_rows ms))
  apply_rows-IsNewest i [] = λ m has. absurd (not-nil has)
  apply_rows-IsNewest i (m ∷ ms) = elim (Bool-cases (row_key id m == i)) [
    | inl same ↦
        rw (get-apply_row i m (apply_rows ms), same)
          (IsNewest-merge i m ms (get (row_key id) i (apply_rows ms)) (ground arith)
            (apply_rows-IsNewest i ms))
    | inr other ↦
        rw (get-apply_row i m (apply_rows ms), other)
          (IsNewest-skip i m ms (get (row_key id) i (apply_rows ms)) other
            (apply_rows-IsNewest i ms))
  ]

  IsNewest-unique :
      (i : ℕ) (ms ms' : List (Row V)) (o o' : Option (Row V))
      → ((m : Row V) → Memᴰ m ms → Memᴰ m ms')
      → ((m : Row V) → Memᴰ m ms' → Memᴰ m ms)
      → ((m m' : Row V) → Memᴰ m ms → Memᴰ m' ms → m.sync_seq ≡ m'.sync_seq → m ≡ m')
      → IsNewest i ms o
      → IsNewest i ms' o'
      → o ≡ o'
  IsNewest-unique i ms ms' none none there back distinct h h' = refl
  IsNewest-unique i ms ms' none (some r) there back distinct h (has, key, newest) =
      let other = h r (back r has) in ground arith
  IsNewest-unique i ms ms' (some r) none there back distinct (has, key, newest) h' =
      let other = h' r (there r has) in ground arith
  IsNewest-unique i ms ms' (some r) (some r') there back distinct h h' =
      let (has, key, newest) = h in
      let (has', key', newest') = h' in
      let below = newest r' (back r' has') key' in
      let above = newest' r (there r has) key in
      ap some (distinct r r' has (back r' has') (omega (arith, below, above)))

  -- Two tables that have received the same messages, in any order and any number of times, hold the
  -- same row under each key, when no two messages share a sequence number.
  pub apply_rows-same :
      (i : ℕ) (ms ms' : List (Row V))
      → ((m : Row V) → Memᴰ m ms → Memᴰ m ms')
      → ((m : Row V) → Memᴰ m ms' → Memᴰ m ms)
      → ((m m' : Row V) → Memᴰ m ms → Memᴰ m' ms → m.sync_seq ≡ m'.sync_seq → m ≡ m')
      → get (row_key id) i (apply_rows ms) ≡ get (row_key id) i (apply_rows ms')
  apply_rows-same i ms ms' there back distinct =
      IsNewest-unique i ms ms' (get (row_key id) i (apply_rows ms))
        (get (row_key id) i (apply_rows ms')) there back distinct (apply_rows-IsNewest i ms)
        (apply_rows-IsNewest i ms')
