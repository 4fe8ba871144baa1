-- ===== src/Handlers/Rows.antt =====
-- Tables with a primary key, and the writing of rows that carry the sequence of their message:
-- `apply_shift_record` of backend/app/sync/handlers/cloud_to_edge.py and `apply_incident` of
-- backend/app/sync/handlers/edge_to_cloud.py.
use safe2go.Base.{
  ℕ, true, false, Option, none, some, List, [], ◌∷◌, ◌==◌, ltb, if◌then◌else◌, ◌≡◌, refl, ap, ◌∙◌,
  arith,
}

module _ {ℓ} {R : Type ℓ} (key : R → ℕ) where
  -- `session.get`
  abbrev pub get : ℕ → List R → Option R
  get i [] = none
  get i (r ∷ rs) = if key r == i then some r else get i rs

  -- The row of its key is written, or added.
  unfoldable pub put : R → List R → List R
  put r' [] = r' ∷ []
  put r' (r ∷ rs) = let rest = put r' rs in if key r == key r' then r' ∷ rs else r ∷ rest

  -- `_insert_once`
  unfoldable pub insert_once : R → List R → List R
  insert_once r rs = elim (get (key r) rs) [ none ↦ put r rs | some old ↦ rs ]

  pub get-put :
      (i : ℕ) (r : R) (rs : List R) → get i (put r rs) ≡ (if key r == i then some r else get i rs)
  unfolding put
  get-put i r [] = refl
  get-put i r' (r ∷ rs) = let rest = get-put i r' rs in ground arith

  pub get-put_same : (i : ℕ) (r : R) (rs : List R) → key r ≡ i → get i (put r rs) ≡ some r
  get-put_same i r rs same =
      let p = get-put i r rs in
      let here : (key r == i) ≡ true = ground arith in
      p ∙ ap (λ b. if b then some r else get i rs) here

  pub get-put_other :
      (i j : ℕ) (r : R) (rs : List R) → key r ≡ j → (j == i) ≡ false → get i (put r rs) ≡ get i rs
  get-put_other i j r rs here other =
      let p = get-put i r rs in
      p ∙ ap (λ b. if b then some r else get i rs) (ap (λ x. x == i) here ∙ other)

  pub get-key : (i : ℕ) (rs : List R) (r : R) → get i rs ≡ some r → key r ≡ i
  get-key i [] r h = ground arith
  get-key i (x ∷ xs) r h = let rest = get-key i xs r in ground arith

-- A row that was written by a message, and a message of a row: both are values with a sequence.
pub record Row {ℓ} (V : Type ℓ) : Type ℓ where
  pub values : V
  pub sync_seq : ℕ

module _ {ℓ} {V : Type ℓ} (id : V → ℕ) where
  abbrev pub row_key : Row V → ℕ
  row_key r = id r.values

  -- `apply_shift_record`, `apply_incident`: values with the sequence of their message.
  unfoldable pub apply_row : V → ℕ → List (Row V) → List (Row V)
  apply_row v seq rows =
      let r : Row V = record { values = v; sync_seq = seq } in
      elim (get row_key (id v) rows) [
        | none ↦ put row_key r rows
        | some old ↦ if ltb old.sync_seq seq then put row_key r rows else rows
      ]
