-- ===== src/Handlers/Snapshots.antt =====
-- Snapshots of the cloud's reference tables, received in any order.
use safe2go.Base.{
  ℕ, ◌<◌, ◌≤◌, true, false, Option, some, List, [], ◌∷◌, map, ◌≡◌, refl, sym, ap, ◌∙◌, arith, inl,
  inr, ◌⊎◌, ◌↔◌, Bool-cases,
}
use mathlib.Core.List.{Memᴰ}
use mathlib.Core.List.Memᴰ.{head, tail, not-nil, cases_cons}
use safe2go.Handlers.Edge.{
  EdgeDb, CloudMessage, OperatorPayload, SnapshotType, machine_master, operator_roster,
  behavior_baseline, eta_model_ref, training_content, snapshot_type, is_type, latest, exceeds,
  all_qualifications, newer_snapshot_applied, apply_machine_master, apply_operator_roster,
  apply_behavior_baseline, apply_eta_model_ref, apply_training_content, apply_shift_record,
  apply_task_assignment, apply_task_cancelled, apply_offline_credential, handle, receive,
  receive_all,
}

-- The edge's tables hold what a snapshot says.
abbrev pub Shows : CloudMessage → EdgeDb → Type 0
Shows (machine_master rows) db = db.machines ≡ rows
Shows (operator_roster ps) db =
    (db.operators ≡ map (λ (p : OperatorPayload). p.operator) ps)
    × (db.qualifications ≡ all_qualifications ps)
Shows (behavior_baseline rows) db = db.baselines ≡ rows
Shows (eta_model_ref rows) db = db.aggregates ≡ rows
Shows (training_content modules entries) db = (db.modules ≡ modules) × (db.training_map ≡ entries)
Shows _ db = Unit

handle-Shows :
    (m : CloudMessage) (t : SnapshotType) (seq : ℕ) (db : EdgeDb)
    → snapshot_type m ≡ some t
    → newer_snapshot_applied t seq db ≡ false
    → Shows m (handle m seq db)
unfolding handle apply_machine_master apply_operator_roster apply_behavior_baseline
    apply_eta_model_ref apply_training_content
handle-Shows (machine_master rows) t seq db type new = ground arith
handle-Shows (operator_roster ps) t seq db type new = ground arith
handle-Shows (behavior_baseline rows) t seq db type new = ground arith
handle-Shows (eta_model_ref rows) t seq db type new = ground arith
handle-Shows (training_content modules entries) t seq db type new = ground arith
handle-Shows _ t seq db type new = tt

-- A message that does not count for a type leaves its tables alone.
handle-keeps :
    (m : CloudMessage) (t : SnapshotType) (m' : CloudMessage) (seq : ℕ) (db : EdgeDb)
    → snapshot_type m ≡ some t
    → (is_type t (snapshot_type m') ≡ false) ⊎ (newer_snapshot_applied t seq db ≡ true)
    → Shows m db
    → Shows m (handle m' seq db)
unfolding handle apply_machine_master apply_operator_roster apply_behavior_baseline
    apply_eta_model_ref apply_training_content apply_shift_record apply_task_assignment
    apply_task_cancelled apply_offline_credential
handle-keeps (machine_master rows) t m' seq db type old h = ground arith
handle-keeps (operator_roster ps) t m' seq db type old h = ground arith
handle-keeps (behavior_baseline rows) t m' seq db type old h = ground arith
handle-keeps (eta_model_ref rows) t m' seq db type old h = ground arith
handle-keeps (training_content modules entries) t m' seq db type old h = ground arith
handle-keeps _ t m' seq db type old h = tt

-- The inbox after messages, the last one first.
abbrev stamps : List (CloudMessage × ℕ) → List (Option SnapshotType × ℕ)
stamps [] = []
stamps ((m, seq) ∷ ms) = (snapshot_type m, seq) ∷ stamps ms

handle-inbox : (m : CloudMessage) (seq : ℕ) (db : EdgeDb) → (handle m seq db).inbox ≡ db.inbox
unfolding handle apply_machine_master apply_operator_roster apply_behavior_baseline
    apply_eta_model_ref apply_training_content apply_shift_record apply_task_assignment
    apply_task_cancelled apply_offline_credential
handle-inbox m seq db = ground arith

receive_all-inbox :
    (ms : List (CloudMessage × ℕ)) (db : EdgeDb)
    → db.inbox ≡ []
    → (receive_all ms db).inbox ≡ stamps ms
unfolding receive_all receive
receive_all-inbox [] db empty = empty
receive_all-inbox ((m, seq) ∷ ms) db empty =
    ap (λ es. (snapshot_type m, seq) ∷ es)
      (handle-inbox m seq (receive_all ms db) ∙ receive_all-inbox ms db empty)

is_type_iff : (t : SnapshotType) (o : Option SnapshotType) → (is_type t o ≡ true) ↔ (o ≡ some t)
is_type_iff t o = ground arith

-- A message of `t` is at most the latest of its type.
latest-Memᴰ :
    (t : SnapshotType) (m : CloudMessage) (seq seq' : ℕ) (ms : List (CloudMessage × ℕ))
    → Memᴰ (m, seq) ms
    → snapshot_type m ≡ some t
    → seq' < seq
    → exceeds (latest t (stamps ms)) seq' ≡ true
unfolding latest
latest-Memᴰ t m seq seq' [] has type less = absurd (not-nil has)
latest-Memᴰ t m seq seq' ((m', s') ∷ ms) has type less = elim (cases_cons has) [
  | inl first ↦
      let type' = ap (λ (p : CloudMessage × ℕ). snapshot_type p.0) (sym first) ∙ type in
      let same = ap (λ (p : CloudMessage × ℕ). p.1) first in
      let found = (is_type_iff t (snapshot_type m')).1 type' in ground arith
  | inr later ↦ let rest = latest-Memᴰ t m seq seq' ms later type less in ground arith
]

-- The latest sequence of a type is that of a message.
latest_bound :
    (t : SnapshotType) (seq : ℕ) (ms : List (CloudMessage × ℕ))
    → ((m' : CloudMessage) (s' : ℕ) → Memᴰ (m', s') ms → snapshot_type m' ≡ some t → s' ≤ seq)
    → exceeds (latest t (stamps ms)) seq ≡ false
unfolding latest
latest_bound t seq [] below = refl
latest_bound t seq ((m, s) ∷ ms) below =
    let rest = latest_bound t seq ms (λ m' s' has. below m' s' (tail has)) in
    let here = below m s (head refl) in
    let found = (is_type_iff t (snapshot_type m)).0 in ground arith

module _ (t : SnapshotType) (m : CloudMessage) (seq : ℕ) (type : snapshot_type m ≡ some t) where
  Shows-receive :
      (e : CloudMessage × ℕ) (db : EdgeDb) → Shows m (handle e.0 e.1 db) → Shows m (receive e db)
  unfolding receive
  Shows-receive e db h =
      elim m as (λ k. Shows k (handle e.0 e.1 db) → Shows k (receive e db)) [
        | machine_master rows ↦ λ shown. shown
        | operator_roster ps ↦ λ shown. shown
        | behavior_baseline rows ↦ λ shown. shown
        | eta_model_ref rows ↦ λ shown. shown
        | training_content modules entries ↦ λ shown. shown
        | _ ↦ λ shown. shown
      ]
        h

  newer_iff :
      (s : ℕ) (ms : List (CloudMessage × ℕ)) (db : EdgeDb)
      → db.inbox ≡ []
      → newer_snapshot_applied t s (receive_all ms db) ≡ exceeds (latest t (stamps ms)) s
  unfolding newer_snapshot_applied
  newer_iff s ms db empty = ap (λ es. exceeds (latest t es) s) (receive_all-inbox ms db empty)

  newest_lands :
      (ms : List (CloudMessage × ℕ)) (db : EdgeDb)
      → db.inbox ≡ []
      → ((m' : CloudMessage) (s' : ℕ) → Memᴰ (m', s') ms → snapshot_type m' ≡ some t → s' ≤ seq)
      → Shows m (receive (m, seq) (receive_all ms db))
  newest_lands ms db empty below =
      Shows-receive (m, seq) (receive_all ms db)
        (handle-Shows m t seq (receive_all ms db) type
          (newer_iff seq ms db empty ∙ latest_bound t seq ms below))

  -- The edge holds the newest snapshot of each type that it has received, in whatever order and
  -- however often the messages came, when the other messages of the type have smaller sequence
  -- numbers or are copies of it.
  pub receive_all-Shows :
      (ms : List (CloudMessage × ℕ)) (db : EdgeDb)
      → db.inbox ≡ []
      → Memᴰ (m, seq) ms
      → ((m' : CloudMessage) (s' : ℕ)
          → Memᴰ (m', s') ms
          → snapshot_type m' ≡ some t
          → ((m' ≡ m) × (s' ≡ seq)) ⊎ (s' < seq))
      → Shows m (receive_all ms db)
  unfolding receive_all receive
  receive_all-Shows [] db empty has last = absurd (not-nil has)
  receive_all-Shows ((m', s') ∷ ms) db empty has last =
      let db' = receive_all ms db in
      let below : (m₂ : CloudMessage) (s₂ : ℕ)
          → Memᴰ (m₂, s₂) ms
          → snapshot_type m₂ ≡ some t
          → s₂ ≤ seq =
        λ m₂ s₂ has' type'. let l = last m₂ s₂ (tail has') type' in omega (arith, l) in
      let landed : m' ≡ m → s' ≡ seq → Shows m (receive (m', s') db') =
        λ same at. rw (same, at) (newest_lands ms db empty below) in
      elim (cases_cons has) [
        | inl first ↦
            landed (ap (λ (p : CloudMessage × ℕ). p.0) (sym first))
              (ap (λ (p : CloudMessage × ℕ). p.1) (sym first))
        | inr later ↦
            let before =
              receive_all-Shows ms db empty later (λ m₂ s₂ has'. last m₂ s₂ (tail has')) in
            let kept =
              λ (old : (is_type t (snapshot_type m') ≡ false)
                  ⊎ (newer_snapshot_applied t s' db' ≡ true)).
                Shows-receive (m', s') db' (handle-keeps m t m' s' db' type old before) in
            elim (Bool-cases (is_type t (snapshot_type m'))) [
              | inl same ↦
                  elim (last m' s' (head refl) ((is_type_iff t (snapshot_type m')).0 same)) [
                    | inl (copy, at) ↦ landed copy at
                    | inr older ↦ kept (
                        inr (newer_iff s' ms db empty ∙ latest-Memᴰ t m seq s' ms later type older))
                  ]
              | inr other ↦ kept (inl other)
            ]
      ]
