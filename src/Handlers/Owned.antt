-- ===== src/Handlers/Owned.antt =====
-- Tasks that the operator has started, against the messages of the cloud.
use safe2go.Base.{
  ℕ, true, false, some, List, [], ◌∷◌, ◌==◌, leb, ◌≡◌, refl, ◌∙◌, arith, inl, inr, Bool-cases,
  Option-cases, in_either,
}
use safe2go.Handlers.{SyncedTask, TaskAssignment}
use safe2go.Handlers.Rows.{get, put, get-put_other, get-key}
use safe2go.Handlers.Edge.{
  EdgeDb, CloudMessage, machine_master, operator_roster, behavior_baseline, eta_model_ref,
  training_content, shift_record, task_assigned, task_reassigned, task_cancelled,
  offline_credential, machines_snapshot, roster_snapshot, baseline_snapshot, model_snapshot,
  training_snapshot, newer_snapshot_applied, apply_machine_master, apply_operator_roster,
  apply_behavior_baseline, apply_eta_model_ref, apply_training_content, apply_shift_record,
  apply_task_assignment, apply_task_cancelled, apply_offline_credential, handle, receive,
  receive_all, started, task_key,
}

module _ (i : ℕ) (t : SyncedTask) (own : started t ≡ true) where
  abbrev Keeps : EdgeDb → Type 0
  Keeps db = get task_key i db.tasks ≡ some t

  Keeps-put :
      (j : ℕ) (u : SyncedTask) (db : EdgeDb)
      → u.task_id ≡ j
      → (j == i) ≡ false
      → Keeps db
      → Keeps (record db { tasks = put task_key u db.tasks })
  Keeps-put j u db here other h = get-put_other task_key i j u db.tasks here other ∙ h

  own_row : (j : ℕ) (db : EdgeDb) → (j == i) ≡ true → Keeps db → get task_key j db.tasks ≡ some t
  own_row j db same h = let here : j ≡ i = ground arith in rw (here) h

  assignment_ignored :
      (j : ℕ) (v : TaskAssignment) (seq : ℕ) (db : EdgeDb)
      → Keeps db
      → Keeps (apply_task_assignment j v seq db)
  unfolding apply_task_assignment
  assignment_ignored j v seq db h = elim (Bool-cases (j == i)) [
    | inl same ↦
        rw (apply_task_assignment, own_row j db same h, own)
          (in_either Keeps (leb seq t.sync_seq) h h)
    | inr other ↦ elim (Option-cases (get task_key j db.tasks)) [
      | inl e ↦ rw (apply_task_assignment, e) (Keeps-put j _ db refl other h)
      | inr (task, e) ↦
          rw (apply_task_assignment, e)
            (in_either Keeps (leb seq task.sync_seq) h (
              in_either Keeps (started task) h
                (Keeps-put j _ db (get-key task_key j db.tasks task e) other h)))
    ]
  ]

  cancellation_ignored :
      (j : ℕ) (seq : ℕ) (db : EdgeDb) → Keeps db → Keeps (apply_task_cancelled j seq db)
  unfolding apply_task_cancelled
  cancellation_ignored j seq db h = elim (Bool-cases (j == i)) [
    | inl same ↦
        rw (apply_task_cancelled, own_row j db same h, own)
          (in_either Keeps (leb seq t.sync_seq) h h)
    | inr other ↦ elim (Option-cases (get task_key j db.tasks)) [
      | inl e ↦ rw (apply_task_cancelled, e) h
      | inr (task, e) ↦
          rw (apply_task_cancelled, e)
            (in_either Keeps (leb seq task.sync_seq) h (
              in_either Keeps (started task) h
                (Keeps-put j _ db (get-key task_key j db.tasks task e) other h)))
    ]
  ]

  handle-Keeps : (m : CloudMessage) (seq : ℕ) (db : EdgeDb) → Keeps db → Keeps (handle m seq db)
  unfolding handle apply_machine_master apply_operator_roster apply_behavior_baseline
      apply_eta_model_ref apply_training_content apply_shift_record apply_offline_credential
  handle-Keeps (task_assigned j v) seq db h = assignment_ignored j v seq db h
  handle-Keeps (task_reassigned j v) seq db h = assignment_ignored j v seq db h
  handle-Keeps (task_cancelled j) seq db h = cancellation_ignored j seq db h
  handle-Keeps (shift_record v) seq db h = h
  handle-Keeps (offline_credential c) seq db h = h
  handle-Keeps (machine_master rows) seq db h =
      in_either Keeps (newer_snapshot_applied machines_snapshot seq db) h h
  handle-Keeps (operator_roster ps) seq db h =
      in_either Keeps (newer_snapshot_applied roster_snapshot seq db) h h
  handle-Keeps (behavior_baseline rows) seq db h =
      in_either Keeps (newer_snapshot_applied baseline_snapshot seq db) h h
  handle-Keeps (eta_model_ref rows) seq db h =
      in_either Keeps (newer_snapshot_applied model_snapshot seq db) h h
  handle-Keeps (training_content modules entries) seq db h =
      in_either Keeps (newer_snapshot_applied training_snapshot seq db) h h

  -- No sequence of messages of the cloud changes the row of a task that has started on the edge.
  pub receive_all-started :
      (ms : List (CloudMessage × ℕ)) (db : EdgeDb)
      → get task_key i db.tasks ≡ some t
      → get task_key i (receive_all ms db).tasks ≡ some t
  unfolding receive_all receive
  receive_all-started [] db h = h
  receive_all-started ((m, seq) ∷ ms) db h =
      handle-Keeps m seq (receive_all ms db) (receive_all-started ms db h)
