-- ===== src/Assignment/Plan.antt =====
-- What planning keeps: no double booking of an operator, a machine or a shift's time.
pub mod TimeOfShift
use safe2go.Base.{
  ℕ, suc, ◌+◌, ◌≤◌, ◌<◌, max, Bool, true, false, not, ◌&&◌, ◌||◌, Option, none, some, List, [], ◌∷◌,
  ◌==◌, ltb, leb, ◌≡◌, ◌⊎◌, inl, inr, refl, All, arith, if◌then◌else◌, is_some, Bool-cases,
  Option-cases,
}
use safe2go.Tasks.{TaskStatus, assigned, cancelled}
use safe2go.Assignment.{
  available, maintenance, CloudDb, Operator, Machine, Shift, Task, Message, AuditEntry, Result, ok,
  err, ◌>>=◌, ◌>>◌, AssignmentError,
}
use safe2go.Assignment.Validation.{
  skill_of, Slot, AssignmentWarning, overlaps, any_overlap, require_valid_window,
  require_qualification, require_available, require_no_shift_overlap, require_no_task_overlap,
}
use safe2go.Assignment.Lookup.{
  found, find_operator, find_machine, find_task, shift_slots, shift_slot, of_operator, of_machine,
  is_cancelled, active_tasks, end_of, task_slot, task_slots,
}
use safe2go.Assignment.Service.{
  issue_for_shift, add_shift, create_shift, without_task, save_task, place_task, create_task,
  cancel_task, reassign_task, get_unstarted_task, ShiftResult,
}

abbrev pub share_time : ℕ → ℕ → ℕ → ℕ → Bool
share_time a_start a_end b_start b_end = ltb a_start b_end && ltb b_start a_end

-- Two shifts of the same operator or on the same machine at the same time.
abbrev pub double_booked : Shift → Shift → Bool
double_booked a b =
    ((a.operator_id == b.operator_id) || (a.machine_id == b.machine_id))
    && share_time a.scheduled_start a.scheduled_end b.scheduled_start b.scheduled_end

abbrev pub NoneBooked : Shift → List Shift → Type 0
NoneBooked s ss = All (λ o. double_booked s o ≡ false) ss

abbrev pub ShiftsApart : List Shift → Type 0
ShiftsApart [] = Unit
ShiftsApart (s ∷ ss) = NoneBooked s ss × ShiftsApart ss

abbrev pub AllOk {ℓ κ} : {A : Type ℓ} → (A → Type κ) → Result A → Type κ
AllOk P (ok a) = P a
AllOk P (err e) = Unit

-- No overlap with the selected slots is no overlap with any selected shift.
any_overlap-shift_slots :
    (mine : Shift → Bool) (start finish : ℕ) (ss : List Shift)
    → any_overlap start finish (shift_slots mine start finish ss) ≡ false
    → All
        (λ (o : Shift). mine o && share_time start finish o.scheduled_start o.scheduled_end ≡ false)
        ss
unfolding any_overlap shift_slots overlaps
any_overlap-shift_slots mine start finish [] h = tt
any_overlap-shift_slots mine start finish (s ∷ ss) h =
    let rest = any_overlap-shift_slots mine start finish ss in ground arith

NoneBooked-join :
    (s : Shift) (ss : List Shift)
    → All
        (λ (o : Shift).
          of_operator s.operator_id o
            && share_time s.scheduled_start s.scheduled_end o.scheduled_start o.scheduled_end
          ≡ false)
        ss
    → All
        (λ (o : Shift).
          of_machine s.machine_id o
            && share_time s.scheduled_start s.scheduled_end o.scheduled_start o.scheduled_end
          ≡ false)
        ss
    → NoneBooked s ss
NoneBooked-join s [] a b = tt
NoneBooked-join s (o ∷ os) a b = let rest = NoneBooked-join s os a.1 b.1 in ground arith

require_no_shift_overlap-NoneBooked :
    (s : Shift) (ss : List Shift)
    → require_no_shift_overlap s.scheduled_start s.scheduled_end
        (shift_slots (of_operator s.operator_id) s.scheduled_start s.scheduled_end ss)
        (shift_slots (of_machine s.machine_id) s.scheduled_start s.scheduled_end ss)
      ≡ ok tt
    → NoneBooked s ss
unfolding require_no_shift_overlap
require_no_shift_overlap-NoneBooked s ss h =
    let start = s.scheduled_start in
    let finish = s.scheduled_end in
    let mine = of_operator s.operator_id in
    let here = of_machine s.machine_id in
    elim (Bool-cases (any_overlap start finish (shift_slots mine start finish ss))) [
      | inl booked ↦ ground arith
      | inr free ↦ elim (Bool-cases (any_overlap start finish (shift_slots here start finish ss))) [
        | inl booked ↦ ground arith
        | inr free' ↦
            NoneBooked-join s ss (any_overlap-shift_slots mine start finish ss free)
              (any_overlap-shift_slots here start finish ss free')
      ]
    ]

add_shift-shifts :
    (grace : ℕ) (actor : Option ℕ) (s : Shift) (db : CloudDb)
    → ((add_shift grace actor s db).2.shifts ≡ s ∷ db.shifts)
      × ((add_shift grace actor s db).2.tasks ≡ db.tasks)
      × ((add_shift grace actor s db).2.drawn ≡ suc db.drawn)
unfolding add_shift issue_for_shift
add_shift-shifts grace actor s db = ground arith

abbrev new_shift : ℕ → ℕ → ℕ → ℕ → ℕ → CloudDb → Shift
new_shift operator_id machine_id start finish weather db = record {
  shift_id = db.drawn;
  machine_id = machine_id;
  operator_id = operator_id;
  scheduled_start = start;
  scheduled_end = finish;
  weather_forecast = weather;
}

-- What a successful `create_shift` has done.
abbrev pub Added : Shift → CloudDb → ShiftResult → Type 0
Added s db r =
    NoneBooked s db.shifts
    × (r.2.shifts ≡ s ∷ db.shifts)
    × (r.2.tasks ≡ db.tasks)
    × (r.2.drawn ≡ suc db.drawn)

pub create_shift-Added :
    (grace operator_id machine_id start finish weather : ℕ) (actor : Option ℕ) (db : CloudDb)
    (r : ShiftResult)
    → create_shift grace operator_id machine_id start finish weather actor db ≡ ok r
    → Added (new_shift operator_id machine_id start finish weather db) db r
unfolding create_shift
create_shift-Added grace operator_id machine_id start finish weather actor db r h =
    let s = new_shift operator_id machine_id start finish weather db in
    let free = require_no_shift_overlap-NoneBooked s db.shifts in
    let a = add_shift-shifts grace actor s db in ground arith

-- What the documented rules ask of a new shift.
abbrev pub Admissible : ℕ → ℕ → ℕ → ℕ → CloudDb → Type 0
Admissible operator_id machine_id start finish db =
    (start < finish)
    × (is_some (find_operator operator_id db.operators) ≡ true)
    × ((m : Machine) × (find_machine machine_id db.machines ≡ some m)
        × (is_some (skill_of operator_id m.machine_type db.qualifications) ≡ true)
        × (m.machine_status ≡ available))
    × All
        (λ (o : Shift).
          ((o.operator_id == operator_id) || (o.machine_id == machine_id))
            && share_time start finish o.scheduled_start o.scheduled_end
          ≡ false)
        db.shifts

any_overlap-free_slots :
    (mine : Shift → Bool) (start finish : ℕ) (ss : List Shift)
    → All
        (λ (o : Shift). mine o && share_time start finish o.scheduled_start o.scheduled_end ≡ false)
        ss
    → any_overlap start finish (shift_slots mine start finish ss) ≡ false
unfolding any_overlap shift_slots overlaps
any_overlap-free_slots mine start finish [] h = refl
any_overlap-free_slots mine start finish (s ∷ ss) h =
    let rest = any_overlap-free_slots mine start finish ss h.1 in ground arith

abbrev Free : (Shift → Bool) → ℕ → ℕ → List Shift → Type 0
Free mine start finish ss =
    All (λ (o : Shift). mine o && share_time start finish o.scheduled_start o.scheduled_end ≡ false)
      ss

Free-both :
    (operator_id machine_id start finish : ℕ) (ss : List Shift)
    → All
        (λ (o : Shift).
          ((o.operator_id == operator_id) || (o.machine_id == machine_id))
            && share_time start finish o.scheduled_start o.scheduled_end
          ≡ false)
        ss
    → Free (of_operator operator_id) start finish ss × Free (of_machine machine_id) start finish ss
Free-both operator_id machine_id start finish [] h = (tt, tt)
Free-both operator_id machine_id start finish (o ∷ os) h =
    let rest = Free-both operator_id machine_id start finish os h.1 in ground arith

abbrev pub is_ok {ℓ} : {A : Type ℓ} → Result A → Bool
is_ok (ok _) = true
is_ok (err _) = false

-- A request for a shift that meets the documented rules is never refused: its window is not empty,
-- the operator and the machine exist, the operator is qualified for the machine's type, the machine
-- is available, and no shift of the operator or on the machine shares time with the window.
pub create_shift-Admissible :
    (grace operator_id machine_id start finish weather : ℕ) (actor : Option ℕ) (db : CloudDb)
    → Admissible operator_id machine_id start finish db
    → is_ok (create_shift grace operator_id machine_id start finish weather actor db) ≡ true
unfolding create_shift require_valid_window require_qualification require_available
    require_no_shift_overlap
create_shift-Admissible grace operator_id machine_id start finish weather actor db
      (window, op, (m, known, skilled, free), apart) =
    let both = Free-both operator_id machine_id start finish db.shifts apart in
    let a = any_overlap-free_slots (of_operator operator_id) start finish db.shifts both.0 in
    let b = any_overlap-free_slots (of_machine machine_id) start finish db.shifts both.1 in
    ground arith
