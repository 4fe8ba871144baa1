-- ===== src/Examples/Trainings.antt =====
-- Recommendations and quizzes.
use safe2go.Base.{none, some, [], ◌∷◌, ◌≡◌, refl, true, false}
use safe2go.Training.{TrainingDb, recommended, recommend_for_source}
use safe2go.Training.Once.{Recommended, recommend_for_source-Recommended}
use safe2go.Training.Quiz.{QuizDb, round_ratio, count_correct, mark, grade_quiz, submit_quiz}
use safe2go.Training.Grades.{Graded, grade_quiz-Graded, Submitted, submit_quiz-Submitted}

abbrev catalog : TrainingDb
catalog = record {
  modules =
      record { module_id = 5; title = 50; format = 0; duration_min = 10; content_path = none } ∷ [];
  training_map =
      record { map_id = 1; source_type = 0; type_value = 2; recommended_module_id = 5 } ∷ [];
  recommendations =
      record {
        operator_id = 7;
        shift_id = 3;
        module_id = 5;
        source_type = 0;
        source_id = 1;
        created_at = 9;
      }
      ∷ [];
}

recommend_for_source-Recommended_example :
    Recommended 8 3 0 2 11 20 catalog (recommend_for_source 8 3 0 2 11 20 catalog)
unfolding recommended
recommend_for_source-Recommended_example =
    recommend_for_source-Recommended 8 3 0 2 11 20 catalog (refl, tt)

abbrev attempts : QuizDb
attempts = record { quiz_results = []; outbox = [] }

-- Two of three right: 66.7 percent.
graded :
    grade_quiz (1 ∷ 2 ∷ 0 ∷ []) (1 ∷ 2 ∷ 3 ∷ []) 800
    ≡ some (record { score = 667; passed = false; questions = true ∷ true ∷ false ∷ [] })
unfolding grade_quiz mark count_correct round_ratio
graded = refl

submit_quiz-Submitted_example :
    Submitted 800 1 7 5 30
      (1 ∷ 2 ∷ 0 ∷ [])
      (1 ∷ 2 ∷ 0 ∷ [])
      attempts
      (submit_quiz 800 1 7 5 (1 ∷ 2 ∷ 0 ∷ []) (1 ∷ 2 ∷ 0 ∷ []) 30 attempts)
submit_quiz-Submitted_example =
    submit_quiz-Submitted 800 1 7 5 30 (1 ∷ 2 ∷ 0 ∷ []) (1 ∷ 2 ∷ 0 ∷ []) attempts

grade_quiz-Graded_example : Graded (1 ∷ 2 ∷ []) (1 ∷ []) 800 (grade_quiz (1 ∷ 2 ∷ []) (1 ∷ []) 800)
grade_quiz-Graded_example = grade_quiz-Graded (1 ∷ 2 ∷ []) (1 ∷ []) 800
