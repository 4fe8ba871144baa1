-- ===== src/Behavior/Baselines.antt =====
-- backend/app/edge/behavior/baselines.py: which idle-ratio baseline an operator is held to. Ratios
-- are ten-thousandths.
use safe2go.Base.{
  ℕ, Bool, true, false, ◌&&◌, Option, none, some, List, [], ◌∷◌, ◌==◌, leb, if◌then◌else◌,
}

pub data Scope : Type 0 where
  operator fleet other_scope : Scope

-- The columns that are read of a row with the metric `idle_ratio`.
pub record EdgeBehaviorBaseline : Type 0 where
  pub scope : Scope
  pub scope_id : Option ℕ
  pub machine_type : ℕ
  pub median : ℕ
  pub mad : ℕ
  pub sample_count : ℕ

-- The ratio 1.
abbrev pub one : ℕ
one = 10000

abbrev pub no_baseline : ℕ × ℕ
no_baseline = (one, 0)

abbrev pub is_operator : ℕ → EdgeBehaviorBaseline → Bool
is_operator i row = elim row.scope [
  | operator ↦ elim row.scope_id [ none ↦ false | some j ↦ j == i ]
  | fleet ↦ false
  | other_scope ↦ false
]

abbrev pub is_fleet : EdgeBehaviorBaseline → Bool
is_fleet row = elim row.scope [ operator ↦ false | fleet ↦ true | other_scope ↦ false ]

unfoldable pub operator_baseline : ℕ → ℕ → List EdgeBehaviorBaseline → Option (ℕ × ℕ)
operator_baseline min_shifts operator_id [] = none
operator_baseline min_shifts operator_id (row ∷ rows) =
    let rest = operator_baseline min_shifts operator_id rows in
    if is_operator operator_id row && leb min_shifts row.sample_count
    then some (row.median, row.mad)
    else rest

unfoldable pub fleet_baseline : List EdgeBehaviorBaseline → Option (ℕ × ℕ)
fleet_baseline [] = none
fleet_baseline (row ∷ rows) =
    let rest = fleet_baseline rows in if is_fleet row then some (row.median, row.mad) else rest

-- The `WHERE` clauses of the query.
unfoldable pub of_machine_type : ℕ → List EdgeBehaviorBaseline → List EdgeBehaviorBaseline
of_machine_type t [] = []
of_machine_type t (row ∷ rows) =
    let rest = of_machine_type t rows in if row.machine_type == t then row ∷ rest else rest

unfoldable pub idle_ratio_baseline : ℕ → List EdgeBehaviorBaseline → ℕ → ℕ → ℕ × ℕ
idle_ratio_baseline min_shifts table operator_id machine_type =
    let rows = of_machine_type machine_type table in
    elim (operator_baseline min_shifts operator_id rows) [
      | some found ↦ found
      | none ↦ elim (fleet_baseline rows) [ some found ↦ found | none ↦ no_baseline ]
    ]
