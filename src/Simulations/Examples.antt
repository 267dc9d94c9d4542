-- ===== src/Simulations/Examples.antt =====
-- The theorems about sessions at a package with two questions and one user.
use package.ayo_snbt_backend.Common.{
  ◌≡◌, ◌≤◌, refl, true, false, none, some, List, [], ◌∷◌, ◌++◌, arith, Option, first, length, Bool,
}
use package.ayo_snbt_backend.Common.Action.{
  after, error, returns, throws, other_error, not_found_error,
}
use package.ayo_snbt_backend.Simulations.Data.{
  in_progress, graded, simulation, Weights, by_category, by_tag, SimulationPackage,
  SimulationSession, SimulationAnswer, Question, grade, Db, session_id,
}
use package.ayo_snbt_backend.Simulations.Scoring.{add_points}
use package.ayo_snbt_backend.Simulations.Scoring.Counts.{score-le-max_score}
use package.ayo_snbt_backend.Simulations.Grading.{
  auto_submit, grade_session, scoring_of, get_package, default_scoring,
}
use package.ayo_snbt_backend.Simulations.Start.{
  RandomOrder, NewSession, start_session, attempts_of, check_start, new_session, pick,
}
use package.ayo_snbt_backend.Common.Keys.{by}
use package.ayo_snbt_backend.Simulations.Step.{Call, submits, processes, flags, run}
use package.ayo_snbt_backend.Simulations.Final.{Holds}
use package.ayo_snbt_backend.Simulations.Final.Calls.{run-Holds}
use package.ayo_snbt_backend.Simulations.Graded.{FoundWith, IsGradedWith, grade_session_lem}
use package.ayo_snbt_backend.Simulations.Attempts.{IsWithinPolicy, start_session-IsWithinPolicy}
use package.ayo_snbt_backend.Simulations.Stuck.{IsStuck, auto_submit_deleted}
use package.ayo_snbt_backend.Simulations.Overlap.{overlap_loses_attempt}

abbrev algebra : Question
algebra = record {
  id = 20;
  category = 3;
  difficulty = 2;
  tags = 7 ∷ [];
  is_multiple_choice = true;
  is_deleted = false;
}

abbrev try_out : SimulationPackage
try_out = record {
  id = 5;
  is_published = true;
  is_deleted = false;
  duration_minutes = 30;
  question_counts = (by_category 3, 1) ∷ (by_tag 7, 1) ∷ [];
  scoring = default_scoring;
  max_attempts = some 2;
  retake_cooldown_minutes = none;
  scheduled_at = none;
  closes_at = none;
}

abbrev sitting : SimulationSession
sitting = record {
  id = 1;
  user_id = 9;
  package_id = some 5;
  type = simulation;
  status = in_progress;
  started_at = 100;
  deadline_at = 1_800_100;
  submitted_at = none;
  score = none;
  max_score = 0;
  correct_count = 0;
  wrong_count = 0;
  blank_count = 0;
  percentile = none;
}

abbrev answer : SimulationAnswer
answer = record {
  id = 30;
  session_id = 1;
  question_id = 20;
  selected_option_id = some 40;
  answered_at = some 500;
  is_correct = none;
  is_flagged = false;
  time_spent_ms = 400;
  sort_order = 0;
}

abbrev tables : Db
tables = record {
  packages = try_out ∷ [];
  sessions = sitting ∷ [];
  answers = answer ∷ [];
  questions = algebra ∷ [];
  options = record { id = 40; question_id = 20; is_correct = true } ∷ [];
  jobs = [];
}

abbrev finished : SimulationSession
finished = record sitting { status = graded; score = some 4 }

abbrev graded_tables : Db
graded_tables = record tables { sessions = finished ∷ [] }

abbrev random : RandomOrder
random ids = ids

abbrev calls : List Call
calls = submits 9 1 600 ∷ processes (grade 1) 700 ∷ flags 9 1 20 true ∷ []

run-Holds_example : Holds 1 finished (run random graded_tables calls)
run-Holds_example =
    run-Holds random 1 finished graded_tables calls (tt, (tt, (tt, tt))) ((refl, tt), (refl, refl))

grade_session_example :
    FoundWith (IsGradedWith tables.options (answer ∷ [])) 1 (after (grade_session 1 700 tables))
unfolding scoring_of get_package
grade_session_example = grade_session_lem 1 700 sitting default_scoring tables refl refl refl

abbrev points_list : List (Weights × Option Bool)
points_list = (default_scoring.base, some true) ∷ (default_scoring.base, none) ∷ []

score-le-max_score_example : (add_points points_list (0, 0)).0 ≤ (add_points points_list (0, 0)).1
score-le-max_score_example =
    score-le-max_score points_list ((omega arith, omega arith), ((omega arith, omega arith), tt))

abbrev second : NewSession
second = record { now = 900; id = 2; answer_id = 50 }

start_session-IsWithinPolicy_example :
    IsWithinPolicy try_out 9 (after (start_session random second 9 5 tables))
start_session-IsWithinPolicy_example =
    start_session-IsWithinPolicy random second 9 5 try_out tables refl (omega arith)

abbrev without_package : Db
without_package = record tables { packages = record try_out { is_deleted = true } ∷ [] }

auto_submit_deleted_example :
    (error (auto_submit 1 2_000_000 without_package) ≡ some not_found_error)
    × (auto_submit 1 3_000_000 (after (auto_submit 1 2_000_000 without_package))
        ≡ returns tt (after (auto_submit 1 2_000_000 without_package)))
    × (s' : SimulationSession) × (first
          (by session_id 1)
          (after (auto_submit 1 2_000_000 without_package)).sessions
        ≡ some s')
    × IsStuck sitting s'
unfolding get_package
auto_submit_deleted_example =
    auto_submit_deleted sitting 5 2_000_000 3_000_000 without_package refl refl refl refl

overlap_loses_attempt_example :
    (start_session random second 9 5 tables
      ≡ throws other_error
          (record tables { sessions = tables.sessions ++ new_session second 9 try_out ∷ [] }))
    × (length (attempts_of 9 5 (after (start_session random second 9 5 tables)).sessions) ≡ 2)
unfolding check_start pick
overlap_loses_attempt_example =
    overlap_loses_attempt random second 9 5 20 try_out ((by_category 3, 1) ∷ [])
      ((by_tag 7, 1) ∷ []) tables refl refl refl refl refl
