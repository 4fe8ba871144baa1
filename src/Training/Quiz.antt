-- ===== src/Training/Quiz.antt =====
-- backend/app/edge/training/service.py: quizzes and the training status. Scores are tenths of a
-- percent: `round(100.0 * correct / questions, 1)`, with ties to the even digit.
use safe2go.Base.{
  ℕ, suc, ◌+◌, ◌*◌, ◌/◌, ◌%◌, max, Bool, ◌&&◌, ◌||◌, Option, none, some, List, [], ◌∷◌, ◌==◌, ltb,
  leb, if◌then◌else◌, length,
}
use safe2go.Handlers.{QuizResultValues}

pub data TrainingStatus : Type 0 where
  not_started passed needs_retry : TrainingStatus

-- A question's right option; its text is left out.
pub record QuizGrade : Type 0 where
  pub score : ℕ
  pub passed : Bool
  pub questions : List Bool

unfoldable pub best : List ℕ → ℕ
best [] = 0
best (s ∷ ss) = max s (best ss)

unfoldable pub derive_status : List ℕ → ℕ → TrainingStatus
derive_status [] pass_pct = not_started
derive_status (s ∷ ss) pass_pct =
    if leb pass_pct (best (s ∷ ss)) then TrainingStatus.passed else needs_retry

abbrev pub is_even : ℕ → Bool
is_even n = (n % 2) == 0

-- `a / b` rounded to the nearest whole number.
unfoldable pub round_ratio : ℕ → ℕ → ℕ
round_ratio a b =
    let q = a / b in
    let r = a % b in if ltb (2 * r) b || ((2 * r == b) && is_even q) then q else suc q

unfoldable pub count_correct : List Bool → ℕ
count_correct [] = 0
count_correct (c ∷ cs) = (if c then 1 else 0) + count_correct cs

-- The answers to the questions, marked; `zip` stops at the shorter list.
unfoldable pub mark : List ℕ → List ℕ → List Bool
mark [] answers = []
mark (q ∷ qs) [] = []
mark (q ∷ qs) (a ∷ answers) = (a == q) ∷ mark qs answers

-- None for a wrong number of answers, and for a quiz without questions, whose score is a division
-- by zero.
unfoldable pub grade_quiz : List ℕ → List ℕ → ℕ → Option QuizGrade
grade_quiz quiz answers pass_pct =
    let results = mark quiz answers in
    let score = round_ratio (1000 * count_correct results) (length results) in
    if length answers == length quiz
    then (if length quiz == 0
        then none
        else some (record { score = score; passed = leb pass_pct score; questions = results }))
    else none

-- The quiz results, newest first, and those queued for the cloud.
pub record QuizDb : Type 0 where
  pub quiz_results : List QuizResultValues
  pub outbox : List QuizResultValues

-- The scores of a module's attempts, newest first.
unfoldable pub scores : ℕ → ℕ → List QuizResultValues → List ℕ
scores operator_id module_id [] = []
scores operator_id module_id (r ∷ rs) =
    let rest = scores operator_id module_id rs in
    if (r.operator_id == operator_id) && (r.module_id == module_id) then r.score ∷ rest else rest

-- A module with no attempt is not in the result; its reader takes `not_started`.
unfoldable pub statuses_for_operator : ℕ → ℕ → QuizDb → ℕ → TrainingStatus
statuses_for_operator pass_pct operator_id db module_id =
    derive_status (scores operator_id module_id db.quiz_results) pass_pct

-- `submit_quiz`, with the module's quiz and the identifier that was drawn.
unfoldable pub submit_quiz :
    ℕ → ℕ → ℕ → ℕ → List ℕ → List ℕ → ℕ → QuizDb → Option ((QuizGrade × TrainingStatus) × QuizDb)
submit_quiz pass_pct result_id operator_id module_id quiz answers completed_at db =
    elim (grade_quiz quiz answers pass_pct) [
      | none ↦ none
      | some grade ↦
          let result : QuizResultValues = record {
            result_id = result_id;
            operator_id = operator_id;
            module_id = module_id;
            score = grade.score;
            completed_at = completed_at;
          } in
          let db' : QuizDb = record {
            quiz_results = result ∷ db.quiz_results;
            outbox = result ∷ db.outbox;
          } in
          some ((grade, statuses_for_operator pass_pct operator_id db' module_id), db')
    ]
