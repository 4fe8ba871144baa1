-- ===== src/Training/Grades.antt =====
-- Grades are percentages, and a pass is never lost.
use mathlib.Core.Path.{subst}
use safe2go.Base.{
  ℕ, ◌+◌, ◌*◌, ◌/◌, ◌%◌, ◌≤◌, ◌<◌, Bool, true, false, ◌&&◌, ◌||◌, Option, none, some, List, [], ◌∷◌,
  ◌==◌, leb, if◌then◌else◌, length, ◌≡◌, ◌≢◌, refl, sym, ap, ◌∙◌, arith, inl, inr, ◌⊎◌, Bool-cases,
  Option-cases,
}
use native.Mathlib.Nat.{div-add-mod, div-le_of_le-mul, mul-div_cancel}
use safe2go.Handlers.{QuizResultValues}
use safe2go.Training.Quiz.{
  TrainingStatus, needs_retry, QuizGrade, QuizDb, best, derive_status, round_ratio, count_correct,
  mark, grade_quiz, scores, statuses_for_operator, submit_quiz,
}

round_ratio_bound : (c n : ℕ) → 0 < n → c ≤ n → round_ratio (1000 * c) n ≤ 1000
unfolding round_ratio
round_ratio_bound c n some_question h =
    let q = 1000 * c / n in
    let r = 1000 * c % n in
    let below : q ≤ 1000 = div-le_of_le-mul n (omega arith) in
    let whole : n * q + r ≡ 1000 * c = div-add-mod (1000 * c) n in
    elim (Bool-cases (leb 1000 q)) [
      | inl top ↦
          let all : q ≡ 1000 = ground arith in
          let exact : n * 1000 + r ≡ 1000 * c = ap (λ k. n * k + r) (sym all) ∙ whole in
          let nothing_left : r ≡ 0 = omega arith in ground arith
      | inr less ↦ ground arith
    ]

round_ratio-all : (n : ℕ) → 0 < n → round_ratio (1000 * n) n ≡ 1000
unfolding round_ratio
round_ratio-all n some_question =
    let quotient : 1000 * n / n ≡ 1000 = mul-div_cancel 1000 some_question in
    let whole : n * (1000 * n / n) + 1000 * n % n ≡ 1000 * n = div-add-mod (1000 * n) n in
    let exact : n * 1000 + 1000 * n % n ≡ 1000 * n =
      ap (λ k. n * k + 1000 * n % n) (sym quotient) ∙ whole in
    let nothing_left : 1000 * n % n ≡ 0 = omega arith in ground arith

count_correct_bound : (cs : List Bool) → count_correct cs ≤ length cs
unfolding count_correct
count_correct_bound [] = omega arith
count_correct_bound (c ∷ cs) = let rest = count_correct_bound cs in ground arith

length-mark :
    (quiz answers : List ℕ)
    → length answers ≡ length quiz
    → length (mark quiz answers) ≡ length quiz
unfolding mark
length-mark [] answers h = refl
length-mark (q ∷ qs) [] h = ground arith
length-mark (q ∷ qs) (a ∷ answers) h = let rest = length-mark qs answers in ground arith

count_correct-mark : (quiz : List ℕ) → count_correct (mark quiz quiz) ≡ length quiz
unfolding count_correct mark
count_correct-mark [] = refl
count_correct-mark (q ∷ qs) = let rest = count_correct-mark qs in ground arith

-- What a grade says of its quiz and answers.
abbrev pub Graded : List ℕ → List ℕ → ℕ → Option QuizGrade → Type 0
Graded quiz answers pass_pct none = (length answers ≢ length quiz) ⊎ (length quiz ≡ 0)
Graded quiz answers pass_pct (some g) =
    (length answers ≡ length quiz)
    × (length quiz ≢ 0)
    × (length g.questions ≡ length quiz)
    × (g.score ≤ 1000)
    × (count_correct g.questions ≡ length quiz → g.score ≡ 1000)
    × (answers ≡ quiz → g.score ≡ 1000)
    × (g.passed ≡ leb pass_pct g.score)

-- Grading is refused exactly for a wrong number of answers or an empty quiz. Otherwise every question
-- is marked, the score is at most 100 percent and is 100 percent
-- when all are marked right, as they are for the quiz's own answers, and the pass mark decides.
pub grade_quiz-Graded :
    (quiz answers : List ℕ) (pass_pct : ℕ)
    → Graded quiz answers pass_pct (grade_quiz quiz answers pass_pct)
unfolding grade_quiz
grade_quiz-Graded quiz answers pass_pct = elim (Bool-cases (length answers == length quiz)) [
  | inl same ↦ elim (Bool-cases (length quiz == 0)) [
    | inl empty ↦ rw (grade_quiz, same, empty) (inr (ground arith))
    | inr asked ↦
        let counted : length answers ≡ length quiz = ground arith in
        let marked = length-mark quiz answers counted in
        let some_question : 0 < length (mark quiz answers) = ground arith in
        rw (grade_quiz, same, asked)
          (
            counted,
            ground arith,
            marked,
            round_ratio_bound (count_correct (mark quiz answers)) (length (mark quiz answers))
                some_question (count_correct_bound (mark quiz answers)),
            λ all.
                ap (λ c. round_ratio (1000 * c) (length (mark quiz answers))) (all ∙ sym marked)
                ∙ round_ratio-all (length (mark quiz answers)) some_question,
            λ right.
                ap (λ c. round_ratio (1000 * c) (length (mark quiz answers)))
                  (ap (λ a. count_correct (mark quiz a)) right
                    ∙ (count_correct-mark quiz ∙ sym marked))
                ∙ round_ratio-all (length (mark quiz answers)) some_question,
            refl,
          )
  ]
  | inr other ↦ rw (grade_quiz, other) (inl (ground arith))
]

abbrev pub is_passed : TrainingStatus → Bool
is_passed TrainingStatus.passed = true
is_passed _ = false

-- The status after an attempt is a pass if it was one before or the attempt passed.
abbrev after : Bool → Bool → TrainingStatus
after before now = if before || now then TrainingStatus.passed else needs_retry

derive_status-cons :
    (score pass_pct : ℕ) (ss : List ℕ)
    → derive_status (score ∷ ss) pass_pct
      ≡ after (is_passed (derive_status ss pass_pct)) (leb pass_pct score)
unfolding derive_status best
derive_status-cons score pass_pct [] = ground arith
derive_status-cons score pass_pct (s ∷ ss) = ground arith

module _ (pass_pct result_id operator_id module_id completed_at : ℕ) (quiz answers : List ℕ)
    (db : QuizDb) where
  -- The row of an attempt with a score.
  abbrev result_of : ℕ → QuizResultValues
  result_of score = record {
    result_id = result_id;
    operator_id = operator_id;
    module_id = module_id;
    score = score;
    completed_at = completed_at;
  }

  abbrev pub Submitted : Option ((QuizGrade × TrainingStatus) × QuizDb) → Type 0
  Submitted none = (length answers ≢ length quiz) ⊎ (length quiz ≡ 0)
  Submitted (some ((grade, status), db')) =
      Graded quiz answers pass_pct (some grade)
      × (status ≡ (
          if is_passed (statuses_for_operator pass_pct operator_id db module_id) || grade.passed
          then TrainingStatus.passed
          else needs_retry))
      × ((m : ℕ)
          → (m == module_id) ≡ false
          → statuses_for_operator pass_pct operator_id db' m
            ≡ statuses_for_operator pass_pct operator_id db m)
      × (db' ≡ record {
        quiz_results = result_of grade.score ∷ db.quiz_results;
        outbox = result_of grade.score ∷ db.outbox;
      })

  -- An attempt is refused, and nothing stored, exactly when the number of answers is wrong or the quiz
  -- is empty. Otherwise every question is marked, the score is at most 100 percent and is that when all
  -- are marked right, as they are for the quiz's own answers, and the pass mark decides. The module is
  -- passed afterwards exactly if it was before or the attempt passed, the status of every other module
  -- stays, and one row with that score is stored and queued for the cloud, and nothing else.
  pub submit_quiz-Submitted :
      Submitted (submit_quiz pass_pct result_id operator_id module_id quiz answers completed_at db)
  unfolding submit_quiz statuses_for_operator scores
  submit_quiz-Submitted =
      let mine = scores operator_id module_id db.quiz_results in
      let own : ((operator_id == operator_id) && (module_id == module_id)) ≡ true = ground arith in
      let others : (m : ℕ)
          → (m == module_id) ≡ false
          → ((operator_id == operator_id) && (module_id == m)) ≡ false =
        λ m other. ground arith in
      let graded = grade_quiz-Graded quiz answers pass_pct in
      elim (Option-cases (grade_quiz quiz answers pass_pct)) [
        | inl e ↦ rw (submit_quiz, e) (subst (Graded quiz answers pass_pct) e graded)
        | inr (g, e) ↦
            let (counted, asked, marked, bound, all, right, pass) =
              subst (Graded quiz answers pass_pct) e graded in
            rw (submit_quiz, e)
              (
                (counted, asked, marked, bound, all, right, pass),
                ap (λ b. derive_status (if b then g.score ∷ mine else mine) pass_pct) own
                    ∙ derive_status-cons g.score pass_pct mine
                    ∙ ap (after (is_passed (derive_status mine pass_pct))) (sym pass),
                λ m other.
                    ap
                      (λ b.
                        derive_status
                          (if b
                            then g.score ∷ scores operator_id m db.quiz_results
                            else scores operator_id m db.quiz_results)
                          pass_pct)
                      (others m other),
                refl,
              )
      ]
