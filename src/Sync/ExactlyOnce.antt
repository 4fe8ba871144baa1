-- ===== src/Sync/ExactlyOnce.antt =====
-- The effects of messages on the receiving tier.
use safe2go.Base.{
  ℕ, ◌+◌, Bool, true, false, not, ◌||◌, Option, none, some, List, [], ◌∷◌, ◌==◌, ltb, ◌≡◌,
  if◌then◌else◌, inl, inr, refl, sym, ap, ◌∙◌, is_some, Bool-cases, Option-cases, take,
}
use safe2go.Sync.{OutboxMessage, Direction}
use safe2go.Sync.Events.{Event, queued, pass, retry, happen, happen_all}
use safe2go.Sync.Worker.{
  failed, dead, busy_row, skipped, settle, first_failure, knows, find_message, undelivered,
  message_ids, World, DeliveryResult, Step, nothing, counted, batch_size, run_handler,
  record_failure, apply_message, deliver_message, stops, stopped, deliver_ids, deliver_pending,
  enqueue, find_dead, retry_dead_letter,
}

-- The idempotency keys of messages, and a list of messages in which no key stands twice.
abbrev pub has_key : ℕ → List OutboxMessage → Bool
has_key key [] = false
has_key key (m ∷ ms) = (m.idempotency_key == key) || has_key key ms

abbrev pub Distinct : List OutboxMessage → Type 0
Distinct [] = Unit
Distinct (m ∷ ms) = (has_key m.idempotency_key ms ≡ false) × Distinct ms

module _ {ℓ} {D : Type ℓ} (handler : ℕ → Option (ℕ → ℕ → D → Option D)) (window : ℕ) where
  -- The tables after one successful run of the handler on each message, the newest first.
  abbrev pub Effects : List OutboxMessage → D → D → Type ℓ
  Effects [] before after = after ≡ before
  Effects (m ∷ ms) before after =
      (between : D) × Effects ms before between
      × (run_handler handler window m between ≡ some after)

  -- The inbox lists exactly the messages that have had their effect, each once.
  abbrev pub IsOnce : D → Direction D → Type ℓ
  IsOnce start s =
      (ms : List OutboxMessage) × Distinct ms
      × Effects ms start s.tables
      × ((key : ℕ) → knows key s.inbox ≡ has_key key ms)

  abbrev Kept : D → Option (Step × Direction D) → Type ℓ
  Kept start none = Unit
  Kept start (some (o, s')) = IsOnce start s'

  apply_message-Kept :
      (w : World) (m : OutboxMessage) (start : D) (s : Direction D)
      → IsOnce start s
      → Kept start (apply_message handler window w m s)
  unfolding apply_message
  apply_message-Kept w m start s (ms, distinct, effects, same) =
      elim (Bool-cases (knows m.idempotency_key s.inbox)) [
        | inl known ↦ rw (apply_message, known) (ms, distinct, effects, same)
        | inr fresh ↦ elim (Option-cases (run_handler handler window m s.tables)) [
          | inl raised ↦ rw (apply_message, fresh, raised) tt
          | inr (d, done) ↦
              let first : has_key m.idempotency_key ms ≡ false =
                sym (same m.idempotency_key) ∙ fresh in
              rw (apply_message, fresh, done)
                (
                  m ∷ ms,
                  (first, distinct),
                  (s.tables, effects, done),
                  λ (key : ℕ). ap (λ (b : Bool). (m.idempotency_key == key) || b) (same key),
                )
        ]
      ]

  either-IsOnce {κ} :
      {A : Type κ} (start : D) (b : Bool) (x y : A × Direction D)
      → IsOnce start x.1
      → IsOnce start y.1
      → IsOnce start (if b then x else y).1
  either-IsOnce start true x y hx hy = hx
  either-IsOnce start false x y hx hy = hy

  -- A failure does not touch the receiving tier.
  record_failure-IsOnce :
      (w : World) (m : OutboxMessage) (start : D) (s : Direction D)
      → IsOnce start s
      → IsOnce start (record_failure handler window w m s).1
  unfolding record_failure
  record_failure-IsOnce w m start s h =
      either-IsOnce start (ltb w.wall_clock_now (first_failure w m + window)) (failed, _) (dead, _)
        h h

  settle-IsOnce :
      (w : World) (m : OutboxMessage) (start : D) (s : Direction D)
      (o : Option (Step × Direction D))
      → IsOnce start s
      → Kept start o
      → IsOnce start (settle handler window w m s o).1
  unfolding settle
  settle-IsOnce w m start s none h k = record_failure-IsOnce w m start s h
  settle-IsOnce w m start s (some (step, s')) h k =
      either-IsOnce start (w.commit_fails m.message_id) (record_failure handler window w m s)
        (step, s') (record_failure-IsOnce w m start s h) k

  deliver_message-IsOnce :
      (w : World) (i : ℕ) (start : D) (s : Direction D)
      → IsOnce start s
      → IsOnce start (deliver_message handler window w i s).1
  unfolding deliver_message
  deliver_message-IsOnce w i start s h = elim (Option-cases (find_message i s.outbox)) [
    | inl absent ↦ rw (deliver_message, absent) h
    | inr (m, there) ↦
        rw (deliver_message, there)
          (either-IsOnce start (w.locked i) (busy_row, s) _ h
            (either-IsOnce start (is_some m.delivered_at) (skipped, s) _ h
              (settle-IsOnce w m start s (apply_message handler window w m s) h
                (apply_message-Kept w m start s h))))
  ]

  deliver_ids-IsOnce :
      (w : World) (is : List ℕ) (r : DeliveryResult) (start : D) (s : Direction D)
      → IsOnce start s
      → IsOnce start (deliver_ids handler window w is r s).1
  unfolding deliver_ids
  deliver_ids-IsOnce w [] r start s h = h
  deliver_ids-IsOnce w (i ∷ is) r start s h =
      let one = deliver_message-IsOnce w i start s h in
      let d = deliver_message handler window w i s in
      let rest = deliver_ids-IsOnce w is (counted d.0 r) start d.1 one in
      either-IsOnce start (not (w.ready i)) (record r { failed_message_id = some i }, s) _ h
        (either-IsOnce start (stops handler window d.0) (stopped handler window d.0 i r, d.1)
          (deliver_ids handler window w is (counted d.0 r) d.1) one rest)

  retry_dead_letter-IsOnce :
      (i : ℕ) (start : D) (s : Direction D)
      → IsOnce start s
      → IsOnce start (happen handler window (retry i) s)
  unfolding happen retry_dead_letter
  retry_dead_letter-IsOnce i start s h = elim (Option-cases (find_dead i s.dead_letters)) [
    | inl absent ↦ rw (happen, retry_dead_letter, absent) h
    | inr (m, there) ↦ elim (Bool-cases (m.seq == 0)) [
      | inl unknown ↦ rw (happen, retry_dead_letter, there, unknown) h
      | inr known ↦ rw (happen, retry_dead_letter, there, known) h
    ]
  ]

  happen-IsOnce :
      (e : Event) (start : D) (s : Direction D)
      → IsOnce start s
      → IsOnce start (happen handler window e s)
  unfolding happen enqueue deliver_pending
  happen-IsOnce (queued id key type payload now) start s h = h
  happen-IsOnce (pass w) start s h =
      deliver_ids-IsOnce w (message_ids (take batch_size (undelivered s.outbox))) nothing start s h
  happen-IsOnce (retry i) start s h = retry_dead_letter-IsOnce i start s h

  happen_all-Keeps :
      (es : List Event) (start : D) (s : Direction D)
      → IsOnce start s
      → IsOnce start (happen_all handler window es s)
  unfolding happen_all
  happen_all-Keeps [] start s h = h
  happen_all-Keeps (e ∷ es) start s h =
      happen_all-Keeps es start (happen handler window e s) (happen-IsOnce e start s h)

  -- From an empty inbox, over any sequence of queued messages, delivery passes and retries of dead
  -- letters, with any handlers, failing commits, locked rows and backoff: the receiving tier's data
  -- are what one successful run of the handler makes on each of a list of messages, no two with the
  -- same idempotency key, and the inbox holds exactly the keys of these messages.
  pub happen_all-IsOnce :
      (es : List Event) (s : Direction D)
      → s.inbox ≡ []
      → IsOnce s.tables (happen_all handler window es s)
  happen_all-IsOnce es s empty =
      happen_all-Keeps es s.tables s ([], tt, refl, λ (key : ℕ). ap (knows key) empty)
