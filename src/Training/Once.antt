-- ===== src/Training/Once.antt =====
-- Recommendations stand at most once for a module, an operator and a shift.
use safe2go.Base.{
  ℕ, true, false, Option, none, some, List, [], ◌∷◌, ◌≡◌, arith, inl, inr, Bool-cases, Option-cases,
  not, refl, sym, ◌∙◌, ap, ◌<◌, length, Bool, if◌then◌else◌,
}
use mathlib.Core.List.{Memᴰ}
use mathlib.Core.List.Memᴰ.{head, not-nil}
use mathlib.Core.Path.{subst}
use safe2go.Handlers.{TrainingModule}
use safe2go.Training.{
  Recommendation, TrainingDb, RecommendationOutcome, recommended, insert_recommendation, mapped,
  mapped_module, one_or_none, recommendation_of, recommend_for_source,
}
use safe2go.Training.Mapped.{IsMapped, mapped-IsMapped, IsMapped-mapped, only}

-- No two rows for the same operator, shift and module.
abbrev pub IsOnce : List Recommendation → Type 0
IsOnce [] = Unit
IsOnce (r ∷ rs) = (recommended r.operator_id r.shift_id r.module_id rs ≡ false) × IsOnce rs

-- What the query of one row or none finds in its rows.
abbrev IsOneOrNone : List TrainingModule → Option (Option TrainingModule) → Type 0
IsOneOrNone rows none = 1 < length rows
IsOneOrNone rows (some none) = rows ≡ []
IsOneOrNone rows (some (some m)) = rows ≡ m ∷ []

one_or_none_lem : (rows : List TrainingModule) → IsOneOrNone rows (one_or_none rows)
one_or_none_lem [] = refl
one_or_none_lem (m ∷ []) = refl
one_or_none_lem (m ∷ m' ∷ ms) = ground arith

module _ (operator_id shift_id source_type type_value source_id created_at : ℕ)
    (db : TrainingDb) where
  abbrev IsMappedTo : TrainingModule → Type 0
  IsMappedTo m = IsMapped source_type type_value db.modules db.training_map m

  -- A module is recommended to the operator in the shift.
  abbrev is_recommended : TrainingModule → Bool
  is_recommended m = recommended operator_id shift_id m.module_id db.recommendations

  -- The recommendations afterwards: the row of the module is added unless it was there.
  abbrev with_module : TrainingModule → List Recommendation
  with_module m =
      if is_recommended m
      then db.recommendations
      else recommendation_of m operator_id shift_id source_type source_id created_at
        ∷ db.recommendations

  abbrev pub Recommended : Option (Option RecommendationOutcome × TrainingDb) → Type 0
  Recommended none = 1 < length (mapped source_type type_value db.training_map db.modules)
  Recommended (some (none, db')) = (db' ≡ db) × ((m : TrainingModule) → ¬ (IsMappedTo m))
  Recommended (some (some o, db')) =
      (m : TrainingModule) × (IsMappedTo m × ((m' : TrainingModule) → IsMappedTo m' → m' ≡ m))
      × (o ≡ record {
        module_id = m.module_id;
        module_title = m.title;
        created = not (is_recommended m);
      })
      × (db' ≡ record db { recommendations = with_module m })
      × IsOnce db'.recommendations
      × (recommended operator_id shift_id m.module_id db'.recommendations ≡ true)

  found-Recommended :
      (m : TrainingModule)
      → mapped source_type type_value db.training_map db.modules ≡ m ∷ []
      → IsMappedTo m × ((m' : TrainingModule) → IsMappedTo m' → m' ≡ m)
  found-Recommended m rows = (
    mapped-IsMapped source_type type_value db.modules m db.training_map
        (subst (λ ms. Memᴰ m ms) (sym rows) (head refl)),
    λ m' named. only (
        subst (λ ms. Memᴰ m' ms) rows
          (IsMapped-mapped source_type type_value db.modules m' db.training_map named)),
  )

  -- When the rows are unique by operator, shift and module, they stay so. For a type that the training
  -- map sends to no module nothing is written; for one that it sends to exactly one, that module is
  -- the outcome, its row is added unless the operator has it in this shift already, as `created` says,
  -- and no other row changes. Only for a type with more than one row in the map does it raise.
  pub recommend_for_source-Recommended :
      IsOnce db.recommendations
      → Recommended
          (recommend_for_source operator_id shift_id source_type type_value source_id created_at db)
  unfolding recommend_for_source insert_recommendation recommended mapped_module
  recommend_for_source-Recommended once =
      let rows = mapped source_type type_value db.training_map db.modules in
      let kind = one_or_none_lem rows in
      elim (Option-cases (one_or_none rows)) [
        | inl e ↦ rw (recommend_for_source, mapped_module, e) (subst (IsOneOrNone rows) e kind)
        | inr (found, e) ↦ elim (Option-cases found) [
          | inl e' ↦
              let empty = subst (IsOneOrNone rows) (e ∙ ap some e') kind in
              rw (recommend_for_source, mapped_module, e, e')
                (
                  refl,
                  λ m named. not-nil (
                      subst (λ ms. Memᴰ m ms) empty
                        (IsMapped-mapped source_type type_value db.modules m db.training_map
                          named)),
                )
          | inr (m, e') ↦
              let single = subst (IsOneOrNone rows) (e ∙ ap some e') kind in
              let this = found-Recommended m single in
              elim (Bool-cases (is_recommended m)) [
                | inl seen ↦
                    rw (recommend_for_source, mapped_module, e, e', seen)
                      (m, this, rw seen refl, rw seen refl, once, seen)
                | inr fresh ↦
                    rw (recommend_for_source, mapped_module, e, e', fresh)
                      (m, this, rw fresh refl, rw fresh refl, (fresh, once), ground arith)
              ]
        ]
      ]
