-- ===== src/Simulations/Data.antt =====
-- shared/db/schema/simulations.ts and the columns of the question bank that the sessions read. Ids,
-- categories and tags are numbers, and times are milliseconds.
use package.ayo_snbt_backend.Common.{ℕ, Bool, true, false, Option, List, ◌==◌, ◌&&◌}

pub data SessionStatus : Type 0 where
  in_progress submitted graded : SessionStatus

abbrev pub is_in_progress : SessionStatus → Bool
is_in_progress in_progress = true
is_in_progress submitted = false
is_in_progress graded = false

abbrev pub is_graded : SessionStatus → Bool
is_graded graded = true
is_graded in_progress = false
is_graded submitted = false

pub data SessionType : Type 0 where
  simulation practice : SessionType

abbrev pub is_practice : SessionType → Bool
is_practice practice = true
is_practice simulation = false

-- The weights are natural numbers: docs/product/FEATURE-SPECS.md asks for no penalty.
pub record Weights : Type 0 where
  pub correct : ℕ
  pub blank : ℕ
  pub wrong : ℕ

-- The `scoring` column: the base weights, and those of single categories.
pub record PackageScoring : Type 0 where
  pub base : Weights
  pub per_category : List (ℕ × Weights)

-- A key of `questionCounts`: a category, or `tag:` and a tag's name.
pub data CountKey : Type 0 where
  by_category by_tag : ℕ → CountKey

pub record SimulationPackage : Type 0 where
  pub id : ℕ
  pub is_published : Bool
  pub is_deleted : Bool
  pub duration_minutes : ℕ
  pub question_counts : List (CountKey × ℕ)
  pub scoring : PackageScoring
  pub max_attempts : Option ℕ
  pub retake_cooldown_minutes : Option ℕ
  pub scheduled_at : Option ℕ
  pub closes_at : Option ℕ

-- `percentile` is counted in tenths of a percent.
pub record SimulationSession : Type 0 where
  pub id : ℕ
  pub user_id : ℕ
  pub package_id : Option ℕ
  pub type : SessionType
  pub status : SessionStatus
  pub started_at : ℕ
  pub deadline_at : ℕ
  pub submitted_at : Option ℕ
  pub score : Option ℕ
  pub max_score : ℕ
  pub correct_count : ℕ
  pub wrong_count : ℕ
  pub blank_count : ℕ
  pub percentile : Option ℕ

pub record SimulationAnswer : Type 0 where
  pub id : ℕ
  pub session_id : ℕ
  pub question_id : ℕ
  pub selected_option_id : Option ℕ
  pub answered_at : Option ℕ
  pub is_correct : Option Bool
  pub is_flagged : Bool
  pub time_spent_ms : ℕ
  pub sort_order : ℕ

pub record Question : Type 0 where
  pub id : ℕ
  pub category : ℕ
  pub difficulty : ℕ
  pub tags : List ℕ
  pub is_multiple_choice : Bool
  pub is_deleted : Bool

pub record QuestionOption : Type 0 where
  pub id : ℕ
  pub question_id : ℕ
  pub is_correct : Bool

-- The jobs of the grading queue.
pub data GradingJob : Type 0 where
  grade auto_submits : ℕ → GradingJob

pub record Db : Type 0 where
  pub packages : List SimulationPackage
  pub sessions : List SimulationSession
  pub answers : List SimulationAnswer
  pub questions : List Question
  pub options : List QuestionOption
  pub jobs : List GradingJob

abbrev pub session_id : SimulationSession → ℕ
session_id s = s.id

-- `eq(simulationAnswers.sessionId, id)`.
abbrev pub is_of : ℕ → SimulationAnswer → Bool
is_of session a = a.session_id == session

-- `and(eq(simulationAnswers.sessionId, id), eq(simulationAnswers.questionId, question))`.
abbrev pub is_answer_to : ℕ → ℕ → SimulationAnswer → Bool
is_answer_to session question a = (a.session_id == session) && (a.question_id == question)
