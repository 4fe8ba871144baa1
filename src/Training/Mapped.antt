-- ===== src/Training/Mapped.antt =====
-- The modules that the training map gives a type: the rows of the join in `mapped_module`.
use safe2go.Base.{
  ℕ, true, false, List, [], ◌∷◌, ◌≡◌, arith, inl, inr, refl, ◌++◌, ◌==◌, ◌&&◌, sym, ◌∙◌, ap, ==_iff,
  ◌⊎◌, Bool, if◌then◌else◌,
}
use mathlib.Core.List.{Memᴰ}
use mathlib.Core.List.Memᴰ.{
  head, tail, not-nil, cases_cons, append_left, append_right, append_cases,
}
use safe2go.Handlers.{TrainingModule, TrainingMapEntry}
use safe2go.Training.{modules_named, mapped}

-- What a list under a test has.
module _ {A : Type 0} (a : A) (ys xs : List A) where
  if-Memᴰ : (b : Bool) → Memᴰ a (if b then ys ++ xs else xs) → ((b ≡ true) × Memᴰ a ys) ⊎ Memᴰ a xs
  if-Memᴰ true has = elim (append_cases ys has) [
    | inl first ↦ inl (refl, first)
    | inr later ↦ inr later
  ]
  if-Memᴰ false has = inr has

  Memᴰ-if_true : (b : Bool) → b ≡ true → Memᴰ a ys → Memᴰ a (if b then ys ++ xs else xs)
  Memᴰ-if_true true h has = append_left xs has
  Memᴰ-if_true false h has = ground arith

  Memᴰ-if_any : (b : Bool) → Memᴰ a xs → Memᴰ a (if b then ys ++ xs else xs)
  Memᴰ-if_any true has = append_right ys has
  Memᴰ-if_any false has = has

pub only : {A : Type 0} {a b : A} → Memᴰ a (b ∷ []) → a ≡ b
only has = elim (cases_cons has) [ inl e ↦ e | inr later ↦ absurd (not-nil later) ]

module _ (source_type type_value : ℕ) (modules : List TrainingModule) where
  -- The map sends the type to the module.
  abbrev pub IsMapped : List TrainingMapEntry → TrainingModule → Type 0
  IsMapped entries m =
      (e : TrainingMapEntry) × (Memᴰ e entries × Memᴰ m modules)
      × (e.source_type ≡ source_type)
      × (e.type_value ≡ type_value)
      × (m.module_id ≡ e.recommended_module_id)

  modules_named-Memᴰ :
      (i : ℕ) (m : TrainingModule) (ms : List TrainingModule)
      → Memᴰ m (modules_named i ms)
      → Memᴰ m ms × (m.module_id ≡ i)
  unfolding modules_named
  modules_named-Memᴰ i m [] has = absurd (not-nil has)
  modules_named-Memᴰ i m (x ∷ xs) has =
      elim (if-Memᴰ m (x ∷ []) (modules_named i xs) (x.module_id == i) has) [
        | inl (same, here) ↦
            let e = only here in
            (head e, ap (λ (y : TrainingModule). y.module_id) e ∙ (==_iff x.module_id i).0 same)
        | inr later ↦ let rest = modules_named-Memᴰ i m xs later in (tail rest.0, rest.1)
      ]

  Memᴰ-modules_named :
      (i : ℕ) (m : TrainingModule) (ms : List TrainingModule)
      → Memᴰ m ms
      → m.module_id ≡ i
      → Memᴰ m (modules_named i ms)
  unfolding modules_named
  Memᴰ-modules_named i m [] has same = absurd (not-nil has)
  Memᴰ-modules_named i m (x ∷ xs) has same = elim (cases_cons has) [
    | inl e ↦
        let named = sym (ap (λ (y : TrainingModule). y.module_id) e) ∙ same in
        Memᴰ-if_true m (x ∷ []) (modules_named i xs) (x.module_id == i)
          ((==_iff x.module_id i).1 named) (head e)
    | inr later ↦
        Memᴰ-if_any m (x ∷ []) (modules_named i xs) (x.module_id == i)
          (Memᴰ-modules_named i m xs later same)
  ]

  abbrev is_of : TrainingMapEntry → Bool
  is_of e = (e.source_type == source_type) && (e.type_value == type_value)

  pub mapped-IsMapped :
      (m : TrainingModule) (es : List TrainingMapEntry)
      → Memᴰ m (mapped source_type type_value es modules)
      → IsMapped es m
  unfolding mapped
  mapped-IsMapped m [] has = absurd (not-nil has)
  mapped-IsMapped m (e ∷ es) has =
      elim (if-Memᴰ m (modules_named e.recommended_module_id modules)
        (mapped source_type type_value es modules) (is_of e) has) [
          | inl (this, here) ↦
              let (there, same) = modules_named-Memᴰ e.recommended_module_id m modules here in
              (e, (head refl, there), ground arith, ground arith, same)
          | inr later ↦
              let (e', (has', there), source, type, same) = mapped-IsMapped m es later in
              (e', (tail has', there), source, type, same)
        ]

  pub IsMapped-mapped :
      (m : TrainingModule) (es : List TrainingMapEntry)
      → IsMapped es m
      → Memᴰ m (mapped source_type type_value es modules)
  unfolding mapped
  IsMapped-mapped m [] (e, (has, there), source, type, same) = absurd (not-nil has)
  IsMapped-mapped m (x ∷ xs) (e, (has, there), source, type, same) = elim (cases_cons has) [
    | inl first ↦
        let back = sym first in
        let source' = ap (λ (y : TrainingMapEntry). y.source_type) back ∙ source in
        let type' = ap (λ (y : TrainingMapEntry). y.type_value) back ∙ type in
        let same' = same ∙ ap (λ (y : TrainingMapEntry). y.recommended_module_id) first in
        let named = Memᴰ-modules_named x.recommended_module_id m modules there same' in
        Memᴰ-if_true m (modules_named x.recommended_module_id modules)
          (mapped source_type type_value xs modules) (is_of x) (ground arith) named
    | inr later ↦
        Memᴰ-if_any m (modules_named x.recommended_module_id modules)
          (mapped source_type type_value xs modules) (is_of x)
          (IsMapped-mapped m xs (e, (later, there), source, type, same))
  ]
