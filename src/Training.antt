-- ===== src/Training.antt =====
-- The edge's training tables, and backend/app/edge/training/recommendations.py. The random
-- identifiers are left out. A query that finds two rows where it wants one raises: none.
pub mod Mapped
pub mod Once
pub mod Quiz
pub mod Grades
use safe2go.Base.{
  ℕ, Bool, true, false, ◌&&◌, ◌||◌, Option, none, some, List, [], ◌∷◌, ◌++◌, ◌==◌, if◌then◌else◌,
}
use safe2go.Handlers.{TrainingModule, TrainingMapEntry}

pub record Recommendation : Type 0 where
  pub operator_id : ℕ
  pub shift_id : ℕ
  pub module_id : ℕ
  pub source_type : ℕ
  pub source_id : ℕ
  pub created_at : ℕ

pub record TrainingDb : Type 0 where
  pub modules : List TrainingModule
  pub training_map : List TrainingMapEntry
  pub recommendations : List Recommendation

pub record RecommendationOutcome : Type 0 where
  pub module_id : ℕ
  pub module_title : ℕ
  pub created : Bool

-- The modules that a map entry names.
unfoldable pub modules_named : ℕ → List TrainingModule → List TrainingModule
modules_named i [] = []
modules_named i (m ∷ ms) =
    let rest = modules_named i ms in if m.module_id == i then m ∷ rest else rest

-- The rows of the join in `mapped_module`.
unfoldable pub mapped : ℕ → ℕ → List TrainingMapEntry → List TrainingModule → List TrainingModule
mapped source_type type_value [] modules = []
mapped source_type type_value (e ∷ es) modules =
    let rest = mapped source_type type_value es modules in
    if (e.source_type == source_type) && (e.type_value == type_value)
    then modules_named e.recommended_module_id modules ++ rest
    else rest

-- `scalar_one_or_none`
abbrev pub one_or_none : List TrainingModule → Option (Option TrainingModule)
one_or_none [] = some none
one_or_none (m ∷ []) = some (some m)
one_or_none (m ∷ m' ∷ ms) = none

unfoldable pub mapped_module : ℕ → ℕ → TrainingDb → Option (Option TrainingModule)
mapped_module source_type type_value db =
    one_or_none (mapped source_type type_value db.training_map db.modules)

-- The row that the unique constraint would conflict with.
unfoldable pub recommended : ℕ → ℕ → ℕ → List Recommendation → Bool
recommended operator_id shift_id module_id [] = false
recommended operator_id shift_id module_id (r ∷ rs) =
    ((r.operator_id == operator_id) && ((r.shift_id == shift_id) && (r.module_id == module_id)))
    || recommended operator_id shift_id module_id rs

-- `ON CONFLICT DO NOTHING`
unfoldable pub insert_recommendation : Recommendation → TrainingDb → Bool × TrainingDb
insert_recommendation r db =
    if recommended r.operator_id r.shift_id r.module_id db.recommendations
    then (false, db)
    else (true, record db { recommendations = r ∷ db.recommendations })

abbrev pub recommendation_of : TrainingModule → ℕ → ℕ → ℕ → ℕ → ℕ → Recommendation
recommendation_of m operator_id shift_id source_type source_id created_at = record {
  operator_id = operator_id;
  shift_id = shift_id;
  module_id = m.module_id;
  source_type = source_type;
  source_id = source_id;
  created_at = created_at;
}

unfoldable pub recommend_for_source :
    ℕ → ℕ → ℕ → ℕ → ℕ → ℕ → TrainingDb → Option (Option RecommendationOutcome × TrainingDb)
recommend_for_source operator_id shift_id source_type type_value source_id created_at db =
    elim (mapped_module source_type type_value db) [
      | none ↦ none
      | some none ↦ some (none, db)
      | some (some m) ↦
          let inserted =
            insert_recommendation
              (recommendation_of m operator_id shift_id source_type source_id created_at) db in
          some (
            some (record { module_id = m.module_id; module_title = m.title; created = inserted.0 }),
            inserted.1,
          )
    ]
