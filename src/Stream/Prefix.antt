-- ===== src/Stream/Prefix.antt =====
-- The records that a pass deletes, machine by machine.
use safe2go.Base.{
  ℕ, true, some, List, [], ◌∷◌, ◌==◌, ◌≡◌, length, if◌then◌else◌, arith, Option-cases, inl, inr,
  refl, is_some, suc, ap, Option, none, not, ◌&&◌, Bool-cases,
}
use safe2go.Stream.{StreamSpool, Store}
use safe2go.Stream.Spool.{elem, seqs, delete_seqs}
use safe2go.Stream.Forwarder.{
  SendResult, acknowledged, exception, acknowledged_rows, acknowledged_prefix, Settings, System,
  Pass, send, forward, arrive_all,
}

-- The records of one machine.
unfoldable pub of_machine : ℕ → List StreamSpool → List StreamSpool
of_machine m [] = []
of_machine m (r ∷ rs) = let rest = of_machine m rs in if r.machine_id == m then r ∷ rest else rest

-- The machine's records of the batch before its first failure.
unfoldable pub until_failure : ℕ → List StreamSpool → List SendResult → List StreamSpool
until_failure m (r ∷ rs) (x ∷ xs) =
    let rest = until_failure m rs xs in
    if r.machine_id == m then elim x [ exception ↦ [] | acknowledged ↦ r ∷ rest ] else rest
until_failure m _ _ = []

abbrev Prefix : ℕ → List ℕ → List StreamSpool → List SendResult → List StreamSpool → Type 0
Prefix m blocked rows results done =
    of_machine m done ≡ (if elem m blocked then [] else until_failure m rows results)

of_machine-acknowledged_rows :
    (m : ℕ) (blocked : List ℕ) (rows done : List StreamSpool) (results : List SendResult)
    → acknowledged_rows blocked rows results ≡ some done
    → Prefix m blocked rows results done
unfolding acknowledged_rows of_machine until_failure
of_machine-acknowledged_rows m blocked [] done [] h = ground arith
of_machine-acknowledged_rows m blocked [] done (x ∷ xs) h = ground arith
of_machine-acknowledged_rows m blocked (r ∷ rs) done [] h = ground arith
of_machine-acknowledged_rows m blocked (r ∷ rs) done (x ∷ xs) h =
    let skip = of_machine-acknowledged_rows m blocked rs done xs in
    let stop = of_machine-acknowledged_rows m (r.machine_id ∷ blocked) rs done xs in
    elim (Option-cases (acknowledged_rows blocked rs xs)) [
      | inl short ↦ ground arith
      | inr (later, found) ↦
          let rest = of_machine-acknowledged_rows m blocked rs later xs found in ground arith
    ]

acknowledged_rows-is_some :
    (blocked : List ℕ) (rows : List StreamSpool) (results : List SendResult)
    → length rows ≡ length results
    → is_some (acknowledged_rows blocked rows results) ≡ true
unfolding acknowledged_rows
acknowledged_rows-is_some blocked [] [] same = refl
acknowledged_rows-is_some blocked [] (x ∷ xs) same = ground arith
acknowledged_rows-is_some blocked (r ∷ rs) [] same = ground arith
acknowledged_rows-is_some blocked (r ∷ rs) (x ∷ xs) same =
    let skip = acknowledged_rows-is_some blocked rs xs in
    let stop = acknowledged_rows-is_some (r.machine_id ∷ blocked) rs xs in ground arith

acknowledged_rows_until :
    (rows : List StreamSpool) (results : List SendResult)
    → length rows ≡ length results
    → (done : List StreamSpool) × (acknowledged_rows [] rows results ≡ some done)
      × ((m : ℕ) → of_machine m done ≡ until_failure m rows results)
acknowledged_rows_until rows results same =
    let total = acknowledged_rows-is_some [] rows results same in
    elim (Option-cases (acknowledged_rows [] rows results)) [
      | inl absent ↦ ground arith
      | inr (done, h) ↦ (done, h, λ m. of_machine-acknowledged_rows m [] rows done results h)
    ]

length-send :
    (answers : Option (StreamSpool → SendResult)) (rows : List StreamSpool)
    → length rows ≡ length (send answers rows)
unfolding send
length-send none [] = refl
length-send none (r ∷ rs) = ap suc (length-send none rs)
length-send (some answer) [] = refl
length-send (some answer) (r ∷ rs) = ap suc (length-send (some answer) rs)

-- What the delete of a pass leaves in the store, when these records are to go.
abbrev pub after_delete : Pass → List StreamSpool → Store → Store
after_delete pass done store =
    if pass.delete_fails && not (length (seqs done) == 0)
    then store
    else record store { rows = delete_seqs (seqs done) store.rows }

forward-store :
    (cfg : Settings) (pass : Pass) (rows done : List StreamSpool) (sys : System)
    → acknowledged_rows [] rows (send pass.answers rows) ≡ some done
    → (forward cfg pass rows sys).1.store
      ≡ after_delete pass done (arrive_all pass.meanwhile sys.store)
unfolding forward acknowledged_prefix
forward-store cfg pass rows done sys found =
    rw (forward, acknowledged_prefix, found)
      (elim (Bool-cases (pass.delete_fails && not (length (seqs done) == 0))) [
        | inl fails ↦ rw fails refl
        | inr deleted ↦ rw deleted refl
      ])

-- After a batch is sent, the store is the one with what arrived meanwhile, less the records that for
-- every machine are exactly its records of the batch before its first failed one, in their order;
-- when the database fails in that delete, no record has gone.
pub forward-after_delete :
    (cfg : Settings) (pass : Pass) (rows : List StreamSpool) (sys : System)
    → (done : List StreamSpool) × ((m : ℕ)
        → of_machine m done ≡ until_failure m rows (send pass.answers rows))
      × ((forward cfg pass rows sys).1.store
          ≡ after_delete pass done (arrive_all pass.meanwhile sys.store))
forward-after_delete cfg pass rows sys =
    let (done, found, until) =
      acknowledged_rows_until rows (send pass.answers rows) (length-send pass.answers rows) in
    (done, until, forward-store cfg pass rows done sys found)
