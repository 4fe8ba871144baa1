-- ===== src/Sync/NothingLost.antt =====
-- The messages of the sending tier.
use safe2go.Base.{
  ℕ, suc, ◌+◌, Bool, true, false, not, ◌&&◌, ◌||◌, Option, none, some, List, [], ◌∷◌, ◌==◌, ltb,
  ◌≡◌, if◌then◌else◌, inl, inr, refl, ap, sym, ◌∙◌, arith, is_some, Bool-cases, Option-cases, take,
}
use safe2go.Sync.{OutboxMessage, InboxEntry, DeadLetter, Direction}
use safe2go.Sync.Events.{Event, queued, pass, retry, happen, happen_all}
use safe2go.Sync.Worker.{
  failed, dead, busy_row, skipped, settle, first_failure, find_message, write_message,
  delete_message, undelivered, message_ids, World, DeliveryResult, Step, nothing, counted,
  batch_size, record_failure, apply_message, deliver_message, stops, stopped, deliver_ids,
  deliver_pending, enqueue, find_dead, delete_dead, retry_dead_letter, knows, effective_seq,
}

-- What the receiver is to get: the key, the type and the payload of a message.
pub record Content : Type 0 where
  pub idempotency_key : ℕ
  pub message_type : ℕ
  pub payload : ℕ

abbrev carries : Content → OutboxMessage → Bool
carries c m =
    (m.idempotency_key == c.idempotency_key)
    && ((m.message_type == c.message_type) && (m.payload == c.payload))

-- A message that is delivered only if the receiver knows its key.
abbrev is_safe : Content → List InboxEntry → OutboxMessage → Bool
is_safe c inbox m = carries c m && (not (is_some m.delivered_at) || knows c.idempotency_key inbox)

abbrev pub has_message : Content → List InboxEntry → List OutboxMessage → Bool
has_message c inbox [] = false
has_message c inbox (m ∷ ms) = is_safe c inbox m || has_message c inbox ms

abbrev pub has_dead : Content → List DeadLetter → Bool
has_dead c [] = false
has_dead c (d ∷ ds) = carries c d.message || has_dead c ds

-- The sender still has the message with its content: in its outbox, where it is delivered only if the
-- receiver has its key, or as a dead letter.
abbrev pub Holds {ℓ} : {D : Type ℓ} → Content → Direction D → Type 0
Holds c s = has_message c s.inbox s.outbox || has_dead c s.dead_letters ≡ true

has_message-write_message :
    (c : Content) (inbox : List InboxEntry) (m m' : OutboxMessage) (ms : List OutboxMessage)
    → find_message m'.message_id ms ≡ some m
    → (is_safe c inbox m ≡ true → is_safe c inbox m' ≡ true)
    → has_message c inbox ms ≡ true
    → has_message c inbox (write_message m' ms) ≡ true
has_message-write_message c inbox m m' [] h e has = has
has_message-write_message c inbox m m' (x ∷ xs) h e has =
    let rest = has_message-write_message c inbox m m' xs in ground arith

has_message-delete_message :
    (c : Content) (inbox : List InboxEntry) (i : ℕ) (m : OutboxMessage) (ms : List OutboxMessage)
    → find_message i ms ≡ some m
    → is_safe c inbox m || has_message c inbox (delete_message i ms) ≡ has_message c inbox ms
unfolding delete_message
has_message-delete_message c inbox i m [] h = ground arith
has_message-delete_message c inbox i m (x ∷ xs) h =
    let rest = has_message-delete_message c inbox i m xs in ground arith

-- A message whose key the receiver knows is safe however it is marked.
known_safe :
    (c : Content) (inbox : List InboxEntry) (m m' : OutboxMessage)
    → m'.idempotency_key ≡ m.idempotency_key
    → m'.message_type ≡ m.message_type
    → m'.payload ≡ m.payload
    → knows m.idempotency_key inbox ≡ true
    → is_safe c inbox m ≡ true
    → is_safe c inbox m' ≡ true
known_safe c inbox m m' key type payload known safe =
    let same : m.idempotency_key ≡ c.idempotency_key = ground arith in
    let knows_c = ap (λ k. knows k inbox) (sym same) ∙ known in ground arith

-- A new entry of the inbox makes no message less safe.
has_message-inbox :
    (c : Content) (e : InboxEntry) (inbox : List InboxEntry) (ms : List OutboxMessage)
    → has_message c inbox ms ≡ true
    → has_message c (e ∷ inbox) ms ≡ true
has_message-inbox c e inbox [] h = h
has_message-inbox c e inbox (m ∷ ms) h = let rest = has_message-inbox c e inbox ms in ground arith

has_dead-delete_dead :
    (c : Content) (i : ℕ) (m : OutboxMessage) (ds : List DeadLetter)
    → find_dead i ds ≡ some m
    → carries c m || has_dead c (delete_dead i ds) ≡ has_dead c ds
unfolding delete_dead
has_dead-delete_dead c i m [] h = ground arith
has_dead-delete_dead c i m (d ∷ ds) h = let rest = has_dead-delete_dead c i m ds in ground arith

find_message-message_id :
    (i : ℕ) (m : OutboxMessage) (ms : List OutboxMessage)
    → find_message i ms ≡ some m
    → m.message_id ≡ i
find_message-message_id i m [] h = ground arith
find_message-message_id i m (x ∷ xs) h = let rest = find_message-message_id i m xs in ground arith

module _ {ℓ} {D : Type ℓ} (handler : ℕ → Option (ℕ → ℕ → D → Option D)) (window : ℕ) where
  either-Holds {κ} :
      {A : Type κ} (c : Content) (b : Bool) (x y : A × Direction D)
      → Holds c x.1
      → Holds c y.1
      → Holds c (if b then x else y).1
  either-Holds c true x y hx hy = hx
  either-Holds c false x y hx hy = hy

  record_failure-Holds :
      (w : World) (m : OutboxMessage) (c : Content) (s : Direction D)
      → find_message m.message_id s.outbox ≡ some m
      → Holds c s
      → Holds c (record_failure handler window w m s).1
  unfolding record_failure
  record_failure-Holds w m c s there h =
      let m' = record m { attempts = suc m.attempts; first_failed_at = some (first_failure w m) } in
      let kept = has_message-write_message c s.inbox m m' s.outbox there in
      let gone = has_message-delete_message c s.inbox m.message_id m s.outbox there in
      either-Holds c (ltb w.wall_clock_now (first_failure w m + window)) (failed, _) (dead, _)
        (ground arith) (ground arith)

  apply_message-Holds :
      (w : World) (m : OutboxMessage) (c : Content) (s s' : Direction D) (o : Step)
      → find_message m.message_id s.outbox ≡ some m
      → Holds c s
      → apply_message handler window w m s ≡ some (o, s')
      → Holds c s'
  unfolding apply_message
  apply_message-Holds w m c s s' o there h e =
      let m' = record m { delivered_at = some w.sim_now } in
      let entry : InboxEntry = record {
        idempotency_key = m.idempotency_key;
        message_type = m.message_type;
        seq = effective_seq m;
        applied_at = w.sim_now;
      } in
      let grown = has_message-inbox c entry s.inbox s.outbox in
      let kept =
        has_message-write_message c (entry ∷ s.inbox) m m' s.outbox there (λ safe. ground arith) in
      elim (Bool-cases (knows m.idempotency_key s.inbox)) [
        | inl known ↦
            let as_before =
              has_message-write_message c s.inbox m m' s.outbox there
                (known_safe c s.inbox m m' refl refl refl known) in
            ground arith
        | inr unknown ↦ ground arith
      ]

  settle-Holds :
      (w : World) (m : OutboxMessage) (c : Content) (s : Direction D)
      (o : Option (Step × Direction D))
      → find_message m.message_id s.outbox ≡ some m
      → Holds c s
      → apply_message handler window w m s ≡ o
      → Holds c (settle handler window w m s o).1
  unfolding settle
  settle-Holds w m c s none there h e = record_failure-Holds w m c s there h
  settle-Holds w m c s (some (step, s')) there h e =
      either-Holds c (w.commit_fails m.message_id) (record_failure handler window w m s) (step, s')
        (record_failure-Holds w m c s there h) (apply_message-Holds w m c s s' step there h e)

  deliver_message-Holds :
      (w : World) (i : ℕ) (c : Content) (s : Direction D)
      → Holds c s
      → Holds c (deliver_message handler window w i s).1
  unfolding deliver_message
  deliver_message-Holds w i c s h = elim (Option-cases (find_message i s.outbox)) [
    | inl absent ↦ rw (deliver_message, absent) h
    | inr (m, found) ↦
        let id = find_message-message_id i m s.outbox found in
        let there : find_message m.message_id s.outbox ≡ some m = ground arith in
        rw (deliver_message, found)
          (either-Holds c (w.locked i) (busy_row, s) _ h
            (either-Holds c (is_some m.delivered_at) (skipped, s) _ h
              (settle-Holds w m c s (apply_message handler window w m s) there h refl)))
  ]

  deliver_ids-Holds :
      (w : World) (is : List ℕ) (r : DeliveryResult) (c : Content) (s : Direction D)
      → Holds c s
      → Holds c (deliver_ids handler window w is r s).1
  unfolding deliver_ids
  deliver_ids-Holds w [] r c s h = h
  deliver_ids-Holds w (i ∷ is) r c s h =
      let one = deliver_message-Holds w i c s h in
      let d = deliver_message handler window w i s in
      let rest = deliver_ids-Holds w is (counted d.0 r) c d.1 one in
      either-Holds c (not (w.ready i)) (record r { failed_message_id = some i }, s) _ h
        (either-Holds c (stops handler window d.0) (stopped handler window d.0 i r, d.1)
          (deliver_ids handler window w is (counted d.0 r) d.1) one rest)

  retry_dead_letter-Holds :
      (i : ℕ) (c : Content) (s : Direction D)
      → Holds c s
      → Holds c (happen handler window (retry i) s)
  unfolding happen retry_dead_letter
  retry_dead_letter-Holds i c s h = elim (Option-cases (find_dead i s.dead_letters)) [
    | inl absent ↦ rw (happen, retry_dead_letter, absent) h
    | inr (m, there) ↦
        let gone = has_dead-delete_dead c i m s.dead_letters there in
        elim (Bool-cases (m.seq == 0)) [
          | inl unknown ↦ rw (happen, retry_dead_letter, there, unknown) h
          | inr known ↦ rw (happen, retry_dead_letter, there, known) (ground arith)
        ]
  ]

  happen-Holds :
      (e : Event) (c : Content) (s : Direction D) → Holds c s → Holds c (happen handler window e s)
  unfolding happen enqueue deliver_pending
  happen-Holds (queued id k type payload now) c s h = ground arith
  happen-Holds (pass w) c s h =
      deliver_ids-Holds w (message_ids (take batch_size (undelivered s.outbox))) nothing c s h
  happen-Holds (retry i) c s h = retry_dead_letter-Holds i c s h

  -- A message that the sending tier has queued is still there, with its idempotency key, type and
  -- payload, after any sequence of queued messages, delivery passes and retries: in its outbox, marked
  -- delivered only if the receiver's inbox has its key, or among its dead letters.
  pub happen_all-Holds :
      (es : List Event) (c : Content) (s : Direction D)
      → Holds c s
      → Holds c (happen_all handler window es s)
  unfolding happen_all
  happen_all-Holds [] c s h = h
  happen_all-Holds (e ∷ es) c s h =
      happen_all-Holds es c (happen handler window e s) (happen-Holds e c s h)
