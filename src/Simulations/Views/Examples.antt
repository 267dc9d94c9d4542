-- ===== src/Simulations/Views/Examples.antt =====
-- A practice session that its user finishes.
use package.ayo_snbt_backend.Common.{◌≡◌, refl, true, false, none, some, [], ◌∷◌, any, select}
use package.ayo_snbt_backend.Common.Action.{after}
use package.ayo_snbt_backend.Simulations.Data.{
  SimulationPackage, SimulationSession, Db, in_progress, practice,
}
use package.ayo_snbt_backend.Simulations.Sessions.{finish_practice}
use package.ayo_snbt_backend.Simulations.Grading.{default_scoring}
use package.ayo_snbt_backend.Simulations.Views.{is_ranked}
use package.ayo_snbt_backend.Simulations.Views.Ranked.{is_practice_row, finish_practice-ranked}

abbrev tryout : SimulationPackage
tryout = record {
  id = 3;
  is_published = true;
  is_deleted = false;
  duration_minutes = 60;
  question_counts = [];
  scoring = default_scoring;
  max_attempts = some 1;
  retake_cooldown_minutes = none;
  scheduled_at = none;
  closes_at = none;
}

abbrev drill : SimulationSession
drill = record {
  id = 5;
  user_id = 1;
  package_id = some 3;
  type = practice;
  status = in_progress;
  started_at = 10;
  deadline_at = 20;
  submitted_at = none;
  score = none;
  max_score = 4;
  correct_count = 0;
  wrong_count = 0;
  blank_count = 0;
  percentile = none;
}

abbrev table : Db
table = record {
  packages = tryout ∷ [];
  sessions = drill ∷ [];
  answers =
      record {
        id = 8;
        session_id = 5;
        question_id = 20;
        selected_option_id = some 31;
        answered_at = some 12;
        is_correct = some true;
        is_flagged = false;
        time_spent_ms = 0;
        sort_order = 0;
      }
      ∷ [];
  questions = [];
  options = [];
  jobs = [];
}

finish_practice-ranked_example :
    any
      (is_practice_row 5)
      (select (is_ranked 3 none []) (after (finish_practice 1 5 table)).sessions)
    ≡ true
finish_practice-ranked_example =
    finish_practice-ranked 1 5 3 drill tryout table refl refl refl refl refl
