-- ===== src/Pipeline/Whole.antt =====
-- A tick is one transaction: it takes effect whole or not at all.
use safe2go.Base.{
  ℕ, Bool, true, false, Option, none, some, List, [], ◌∷◌, ◌++◌, map, ◌==◌, if◌then◌else◌, is_some,
  ◌≡◌, refl, sym, ap, ◌∙◌, arith, inl, inr, ◌⊎◌, Bool-cases, Option-cases,
}
use mathlib.Core.Path.{subst}
use safe2go.Telemetry.{TelemetryTick}
use safe2go.Handlers.Rows.{get, put, get-put_same, get-put_other, get-key}
use safe2go.Engine.State.{SafetyEngine}
use safe2go.Engine.Tick
use safe2go.Pipeline.State.{
  MachineContext, EdgePipeline, PipelineConfig, World, Sent, recommendation, telemetry_message,
}
use safe2go.Pipeline.Process.{
  Run, context_key, tick_key, restore_behavior, restore_safety, new_context, context_for, task_of,
  attempt, roll_back, flushed, finish, start, conclude, process, master_key, plan_key, adopt,
  messages_before, messages_of, progress_sent, behavior_of,
}
use safe2go.Pipeline.Setup.{setup_of, IsBuilt, attempt-IsBuilt}
use safe2go.Behavior.Engine.{BehaviorEngine}
use safe2go.Behavior.Checkpoint.{setup, restore_lem, flush_effects}
use safe2go.Pipeline.Stored.{attempt-Stores}
use safe2go.Pipeline.Atomic.{calm, Reached, restore_safety-Reached, attempt-Reached}

-- No message of an engine waits.
abbrev pub IsSettled : MachineContext → Type 0
IsSettled c = (c.safety.effects ≡ []) × (c.behavior.effects ≡ [])

abbrev pub AllSettled : List MachineContext → Type 0
AllSettled cs = (i : ℕ) (c : MachineContext) → get context_key i cs ≡ some c → IsSettled c

abbrev cleared : MachineContext → MachineContext
cleared c = record c { safety = calm c.safety; behavior = record c.behavior { effects = [] } }

cleared-IsSettled : (c : MachineContext) → IsSettled c → cleared c ≡ c
cleared-IsSettled c (safety, behavior) =
    ap
      (λ es. record c {
        safety = record c.safety { shared = record c.safety.shared { effects = es } };
        behavior = record c.behavior { effects = [] };
      })
      (sym safety)
    ∙ ap (λ es. record c { behavior = record c.behavior { effects = es } }) (sym behavior)

-- Writing a row that stands there already changes no lookup.
get-put_there :
    (i : ℕ) (c : MachineContext) (cs : List MachineContext)
    → get context_key c.machine_id cs ≡ some c
    → get context_key i (put context_key c cs) ≡ get context_key i cs
get-put_there i c cs there = elim (Bool-cases (c.machine_id == i)) [
  | inl same ↦
      let here : c.machine_id ≡ i = ground arith in
      get-put_same context_key i c cs here ∙ sym there ∙ ap (λ k. get context_key k cs) here
  | inr other ↦ get-put_other context_key i c.machine_id c cs refl other
]

module _ (cfg : PipelineConfig) (w : World) (tick : TelemetryTick) (p : EdgePipeline) where
  -- The messages of a transaction, in their order.
  abbrev pub announced : MachineContext → Run → List Sent
  announced ctx r =
      let c = record ctx { safety = adopt cfg r.previous r.safety; behavior = r.behavior } in
      messages_before cfg r.previous
      ++ (messages_of cfg c
          ++ (map recommendation r.effects
              ++ (telemetry_message tick ∷ progress_sent cfg r.progress)))

  -- A transaction ran without an error on the engines of the tick's shift; the tables are the ones
  -- that it left, the tick's row among them, and its messages were sent after those sent before.
  abbrev pub IsCommitted : EdgePipeline → Type 0
  IsCommitted p' =
      (ctx : MachineContext) × (previous : Option MachineContext) × (r : Run) × (context_for cfg
          tick p
        ≡ some (ctx, previous))
      × (attempt cfg w tick ctx.bucket_capacity (task_of cfg tick p.tables.tasks)
            (start cfg ctx previous p.tables)
          ≡ (false, r))
      × (get context_key tick.machine_id p'.contexts
          ≡ some (record ctx {
            safety = calm (adopt cfg r.previous r.safety);
            behavior = record r.behavior { effects = [] };
          }))
      × (p'.tables ≡ r.tables)
      × (p'.tables.telemetry ≡ tick ∷ p.tables.telemetry)
      × (p'.sent ≡ p.sent ++ announced ctx r)

  -- What a tick leaves: nothing of it when it failed; otherwise the transaction's tables and messages,
  -- and the stored tick's machine has the
  -- engines of the tick's shift with no message waiting, the other machines are as they were, and the
  -- tick is the machine's latest.
  abbrev pub Outcome : Bool → EdgePipeline → Type 0
  Outcome true p' =
      (p'.tables ≡ p.tables)
      × (p'.latest ≡ p.latest)
      × (p'.sent ≡ p.sent)
      × ((i : ℕ) → get context_key i p'.contexts ≡ get context_key i p.contexts)
  Outcome false p' =
      IsCommitted p'
      × ((c : MachineContext) × (get context_key tick.machine_id p'.contexts ≡ some c)
          × (c.shift_id ≡ tick.shift_id)
          × IsSettled c)
      × ((i : ℕ)
          → (tick.machine_id == i) ≡ false
          → get context_key i p'.contexts ≡ get context_key i p.contexts)
      × (get tick_key tick.machine_id p'.latest ≡ some tick)

  -- The contexts that `context_for` can give.
  abbrev Chosen : MachineContext × Option MachineContext → Type 0
  Chosen (ctx, previous) =
      (ctx.machine_id ≡ tick.machine_id) × (ctx.shift_id ≡ tick.shift_id) × (elim previous [
        | none ↦
            (get context_key tick.machine_id p.contexts ≡ some ctx)
            ⊎ (get context_key tick.machine_id p.contexts ≡ none)
        | some c ↦ get context_key tick.machine_id p.contexts ≡ some c
      ])

  abbrev ChosenIf : Option (MachineContext × Option MachineContext) → Type 0
  ChosenIf none = Unit
  ChosenIf (some c) = Chosen c

  abbrev OfTick : Option MachineContext → Type 0
  OfTick none = Unit
  OfTick (some c) = (c.machine_id ≡ tick.machine_id) × (c.shift_id ≡ tick.shift_id)

  new_context-OfTick : OfTick (new_context cfg tick p.tables)
  unfolding new_context
  new_context-OfTick = elim (Option-cases (get master_key tick.machine_id p.tables.machines)) [
    | inl e ↦ rw (new_context, e) tt
    | inr (machine, e) ↦ elim (Option-cases (get plan_key tick.shift_id p.tables.shifts)) [
      | inl e' ↦ rw (new_context, e, e') tt
      | inr (shift, e') ↦
          rw (new_context, e, e')
            (get-key master_key tick.machine_id p.tables.machines machine e, refl)
    ]
  ]

  context_for-Chosen : ChosenIf (context_for cfg tick p)
  unfolding context_for
  context_for-Chosen =
      let fresh = new_context-OfTick in
      elim (Option-cases (get context_key tick.machine_id p.contexts)) [
        | inl e ↦ elim (Option-cases (new_context cfg tick p.tables)) [
          | inl e' ↦ rw (context_for, e, e') tt
          | inr (c, e') ↦
              let (key, shift) = subst OfTick e' fresh in
              rw (context_for, e, e') (key, shift, inr e)
        ]
        | inr (current, e) ↦ elim (Bool-cases (current.shift_id == tick.shift_id)) [
          | inl same ↦
              rw (context_for, e, same)
                (get-key context_key tick.machine_id p.contexts current e, ground arith, inl e)
          | inr other ↦ elim (Option-cases (new_context cfg tick p.tables)) [
            | inl e' ↦ rw (context_for, e, other, e') tt
            | inr (c, e') ↦
                let (key, shift) = subst OfTick e' fresh in
                rw (context_for, e, other, e') (key, shift, e)
          ]
        ]
      ]

  -- The restored context is the one that stands in the dictionary.
  restored-same :
      (c : MachineContext) (e : SafetyEngine) (b : BehaviorEngine)
      → Reached cfg w tick c.safety e
      → setup b ≡ setup c.behavior
      → IsSettled c
      → record c { safety = restore_safety c.safety e; behavior = restore_behavior c.behavior b }
        ≡ c
  unfolding restore_behavior
  restored-same c e b reached built settled =
      ap (λ s. record c { safety = s; behavior = restore_behavior c.behavior b })
        (restore_safety-Reached cfg w tick c.safety e reached)
      ∙ ap (λ x. record c { safety = calm c.safety; behavior = x }) (restore_lem c.behavior b built)
      ∙ cleared-IsSettled c settled

  behavior_of-setup :
      (c : MachineContext) (now : Option MachineContext)
      → setup_of now ≡ some (setup c.behavior)
      → setup (behavior_of cfg c now) ≡ setup c.behavior
  behavior_of-setup c none same = refl
  behavior_of-setup c (some c') same =
      ap (λ o. elim o [ none ↦ setup c.behavior | some x ↦ x ]) same

  roll_back-same :
      (ctx : MachineContext) (previous : Option MachineContext) (r : Run)
      → Chosen (ctx, previous)
      → Reached cfg w tick ctx.safety r.safety
      → IsBuilt cfg w tick (setup ctx.behavior) (setup_of previous) r
      → AllSettled p.contexts
      → (i : ℕ)
      → get context_key i (roll_back cfg ctx previous r p.contexts) ≡ get context_key i p.contexts
  unfolding roll_back
  roll_back-same ctx none r (key, shift, inl current) reached (built, _) settled i =
      let there = ap (λ k. get context_key k p.contexts) key ∙ current in
      let same =
        restored-same ctx r.safety r.behavior reached built (settled tick.machine_id ctx current) in
      let back = record ctx {
        safety = restore_safety ctx.safety r.safety;
        behavior = restore_behavior ctx.behavior r.behavior;
      } in
      ap
        (λ o. get context_key i (if is_some o then put context_key back p.contexts else p.contexts))
        there
      ∙ ap (λ c. get context_key i (put context_key c p.contexts)) same
      ∙ get-put_there i ctx p.contexts there
  roll_back-same ctx none r (key, shift, inr new) reached built settled i =
      let there = ap (λ k. get context_key k p.contexts) key ∙ new in
      let back = record ctx {
        safety = restore_safety ctx.safety r.safety;
        behavior = restore_behavior ctx.behavior r.behavior;
      } in
      ap
        (λ o. get context_key i (if is_some o then put context_key back p.contexts else p.contexts))
        there
  roll_back-same ctx (some c) r (key, shift, current) reached (_, built) settled i =
      let here = get-key context_key tick.machine_id p.contexts c current in
      let there = ap (λ k. get context_key k p.contexts) here ∙ current in
      let same =
        restored-same c c.safety (behavior_of cfg c r.previous) (inl refl)
          (behavior_of-setup c r.previous built) (settled tick.machine_id c current) in
      ap (λ c'. get context_key i (put context_key c' p.contexts)) same
      ∙ get-put_there i c p.contexts there

  finish-Outcome :
      (ctx : MachineContext) (previous : Option MachineContext) (r : Run)
      → context_for cfg tick p ≡ some (ctx, previous)
      → attempt cfg w tick ctx.bucket_capacity
          (task_of cfg tick p.tables.tasks)
          (start cfg ctx previous p.tables)
        ≡ (false, r)
      → ctx.machine_id ≡ tick.machine_id
      → ctx.shift_id ≡ tick.shift_id
      → Outcome false (finish cfg tick ctx r p)
  unfolding finish flushed flush_effects Tick.flush_effects
  finish-Outcome ctx previous r chosen ran key shift = (
    (
      ctx,
      previous,
      r,
      chosen,
      ran,
      get-put_same context_key tick.machine_id _ p.contexts key,
      refl,
      ap (λ o. o.1.tables.telemetry) (sym ran)
          ∙ attempt-Stores cfg w tick ctx.bucket_capacity (task_of cfg tick p.tables.tasks)
              (start cfg ctx previous p.tables) (ap (λ o. o.0) ran),
      refl,
    ),
    (_, get-put_same context_key tick.machine_id _ p.contexts key, shift, (refl, refl)),
    λ i other. get-put_other context_key i tick.machine_id _ p.contexts key other,
    get-put_same tick_key tick.machine_id tick p.latest refl,
  )

  conclude-Outcome :
      (ctx : MachineContext) (previous : Option MachineContext) (raised : Bool) (r : Run)
      → context_for cfg tick p ≡ some (ctx, previous)
      → attempt cfg w tick ctx.bucket_capacity
          (task_of cfg tick p.tables.tasks)
          (start cfg ctx previous p.tables)
        ≡ (raised, r)
      → Chosen (ctx, previous)
      → Reached cfg w tick ctx.safety r.safety
      → IsBuilt cfg w tick (setup ctx.behavior) (setup_of previous) r
      → AllSettled p.contexts
      → Outcome
          (conclude cfg tick ctx previous p (raised, r)).0
          (conclude cfg tick ctx previous p (raised, r)).1
  conclude-Outcome ctx previous true r e ran chosen reached built settled =
      (refl, refl, refl, roll_back-same ctx previous r chosen reached built settled)
  conclude-Outcome ctx previous false r e ran (key, shift, _) reached built settled =
      finish-Outcome ctx previous r e ran key shift

  -- When no message of an engine waits, a tick has its effect whole or not at all. If anything raises,
  -- be it the lookups, the ingest, the progress or the commit, the tables, which the database rolls back, the sent messages, the latest
  -- ticks and the engines of every machine, restored from their checkpoints, are those from before the
  -- tick. If nothing raises, the tables are those that the whole transaction left, the tick's row among them, all its messages are
  -- sent after the earlier ones, the machine has the transaction's engines, those of the tick's shift, with no
  -- message waiting, the other machines are as they were, and the tick is the machine's latest.
  pub process-Outcome :
      AllSettled p.contexts → Outcome (process cfg w tick p).0 (process cfg w tick p).1
  unfolding process
  process-Outcome settled = elim (Option-cases (context_for cfg tick p)) [
    | inl e ↦ rw (process, e) (refl, refl, refl, λ i. refl)
    | inr ((ctx, previous), e) ↦
        let chosen = subst ChosenIf e context_for-Chosen in
        let task = task_of cfg tick p.tables.tasks in
        let r = start cfg ctx previous p.tables in
        let reached = attempt-Reached cfg w tick ctx.safety ctx.bucket_capacity task r refl in
        let built =
          attempt-IsBuilt cfg w tick (setup ctx.behavior) (setup_of previous) ctx.bucket_capacity
            task r (refl, refl) in
        let done = attempt cfg w tick ctx.bucket_capacity task r in
        rw (process, e)
          (conclude-Outcome ctx previous done.0 done.1 e refl chosen reached built settled)
  ]

module _ (cfg : PipelineConfig) where
  Outcome-AllSettled :
      (w : World) (tick : TelemetryTick) (p p' : EdgePipeline) (raised : Bool)
      → AllSettled p.contexts
      → Outcome cfg w tick p raised p'
      → AllSettled p'.contexts
  Outcome-AllSettled w tick p p' true settled (tables, latest, sent, same) i c found =
      settled i c (sym (same i) ∙ found)
  Outcome-AllSettled w tick p p' false settled (_, (c', at, shift, waits), others, latest) i c
        found =
      elim (Bool-cases (tick.machine_id == i)) [
        | inl same ↦
            let here : tick.machine_id ≡ i = ground arith in
            let both = sym at ∙ ap (λ k. get context_key k p'.contexts) here ∙ found in
            let this : c' ≡ c = ap (λ o. elim o [ none ↦ c' | some x ↦ x ]) both in
            subst IsSettled this waits
        | inr other ↦ settled i c (sym (others i other) ∙ found)
      ]

  -- Ticks in turn, the last one first.
  unfoldable pub process_all : List (World × TelemetryTick) → EdgePipeline → EdgePipeline
  process_all [] p = p
  process_all ((w, tick) ∷ ts) p = (process cfg w tick (process_all ts p)).1

  -- Between ticks no message waits, so every tick meets the hypothesis of `process-Outcome`.
  pub process_all-AllSettled :
      (ts : List (World × TelemetryTick)) (p : EdgePipeline)
      → AllSettled p.contexts
      → AllSettled (process_all ts p).contexts
  unfolding process_all
  process_all-AllSettled [] p settled = settled
  process_all-AllSettled ((w, tick) ∷ ts) p settled =
      let before = process_all-AllSettled ts p settled in
      let q = process_all ts p in
      Outcome-AllSettled w tick q (process cfg w tick q).1 (process cfg w tick q).0 before
        (process-Outcome cfg w tick q before)
