-- ===== src/Simulations/Grading.antt =====
-- `getPackage`, `computeRank`, `gradeSession` and `autoSubmit` of modules/simulations/service.ts,
-- and modules/simulations/processor.ts. The cache, the events and the log line are left out.
use package.ayo_snbt_backend.Common.{
  ℕ, ◌+◌, Bool, false, not, ◌&&◌, Option, none, some, List, [], ◌∷◌, map, ◌==◌, ltb, if◌then◌else◌,
  first, select, update, length,
}
use package.ayo_snbt_backend.Common.Action.{
  Action, pure, or_throw, gets, modify, ◌>>=◌, ◌>>◌, not_found_error,
}
use package.ayo_snbt_backend.Common.Keys.{by}
use package.ayo_snbt_backend.Simulations.Data.{
  submitted, graded, is_in_progress, is_graded, PackageScoring, SimulationPackage,
  SimulationSession, SimulationAnswer, QuestionOption, GradingJob, grade, auto_submits, Db,
  session_id, is_of, is_answer_to,
}
use package.ayo_snbt_backend.Simulations.Scoring.{
  mark, Tally, tally, no_marks, weights_of, category_of, add_points, score_of, percentile_of,
}

-- `getPackage`: a package that is not deleted.
unfoldable pub get_package : ℕ → Action Db SimulationPackage
get_package id = do
  packages ← gets (λ db. db.packages)
  or_throw (first (λ p. (p.id == id) && not p.is_deleted) packages) not_found_error

-- The session is of the package and graded.
abbrev pub is_graded_of : ℕ → SimulationSession → Bool
is_graded_of pkg s = elim s.package_id [ none ↦ false | some p ↦ p == pkg ] && is_graded s.status

-- `computeRank`: 1 for the best score.
unfoldable pub compute_rank : ℕ → ℕ → ℕ → List SimulationSession → ℕ
compute_rank pkg score exclude sessions =
    let peers = select (λ s. not (s.id == exclude)) (select (is_graded_of pkg) sessions) in
    length (select (λ s. ltb score (score_of s)) peers) + 1

-- The weights where a session has no package.
abbrev pub default_scoring : PackageScoring
default_scoring = record { base = record { correct = 4; blank = 0; wrong = 0 }; per_category = [] }

unfoldable pub scoring_of : Option ℕ → Action Db PackageScoring
unfolding get_package
scoring_of none = pure default_scoring
scoring_of (some pkg) = do p ← get_package pkg; pure p.scoring

abbrev pub set_mark : Option Bool → SimulationAnswer → SimulationAnswer
set_mark m a = record a { is_correct = m }

-- The loop that writes the marks to the answers' rows.
unfoldable pub write_marks :
    List QuestionOption → ℕ → List SimulationAnswer → List SimulationAnswer → List SimulationAnswer
write_marks options session [] rows = rows
write_marks options session (a ∷ others) rows =
    write_marks options session others
      (update (is_answer_to session a.question_id) (set_mark (mark options a)) rows)

-- The scores of the graded sessions of the package; a session without a package has no peers.
unfoldable pub peer_scores : Option ℕ → List SimulationSession → List ℕ
peer_scores none sessions = []
peer_scores (some pkg) sessions = map score_of (select (is_graded_of pkg) sessions)

abbrev pub set_forced : ℕ → SimulationSession → SimulationSession
set_forced now s = record s { status = submitted; submitted_at = some now }

abbrev pub set_graded : ℕ → ℕ → Tally → ℕ → SimulationSession → SimulationSession
set_graded score max_score t percentile s = record s {
  status = graded;
  score = some score;
  max_score = max_score;
  correct_count = t.correct;
  wrong_count = t.wrong;
  blank_count = t.blank;
  percentile = some percentile;
}

abbrev pub write_session : ℕ → (SimulationSession → SimulationSession) → Db → Db
write_session session f db = record db { sessions = update (by session_id session) f db.sessions }

-- The part of `gradeSession` after the weights are read. The counts and points are those of the
-- answers as they were read, before the loop wrote their marks.
unfoldable pub grade_answers : SimulationSession → PackageScoring → Db → Db
unfolding mark tally weights_of category_of add_points write_marks peer_scores percentile_of
grade_answers s scoring db =
    let answers = select (is_of s.id) db.answers in
    if length answers == 0
    then write_session s.id (set_graded 0 0 no_marks 0) db
    else (let marks = map (mark db.options) answers in
        let p =
          add_points
            (map
              (λ a.
                (weights_of scoring (category_of db.questions a.question_id), mark db.options a))
              answers)
            (0, 0) in
        write_session s.id
          (set_graded p.0 p.1 (tally marks no_marks)
            (percentile_of (peer_scores s.package_id db.sessions) p.0))
          (record db { answers = write_marks db.options s.id answers db.answers }))

-- The part of `gradeSession` for a session that is not graded.
unfoldable pub grade_found : SimulationSession → ℕ → Action Db (Unit {0})
unfolding scoring_of grade_answers
grade_found s now = do
  modify (λ db. if is_in_progress s.status then write_session s.id (set_forced now) db else db)
  scoring ← scoring_of s.package_id
  modify (grade_answers s scoring)

-- `gradeSession`.
unfoldable pub grade_session : ℕ → ℕ → Action Db (Unit {0})
unfolding grade_found
grade_session session now = do
  found ← gets (λ db. first (by session_id session) db.sessions)
  elim found [ none ↦ pure tt | some s ↦ if is_graded s.status then pure tt else grade_found s now ]

-- `autoSubmit`.
unfoldable pub auto_submit : ℕ → ℕ → Action Db (Unit {0})
unfolding grade_session
auto_submit session now = do
  found ← gets (λ db. first (by session_id session) db.sessions)
  elim found [
    | none ↦ pure tt
    | some s ↦ if is_in_progress s.status then grade_session session now else pure tt
  ]

-- `processGradingJob` of modules/simulations/processor.ts.
unfoldable pub process_grading_job : GradingJob → ℕ → Action Db (Unit {0})
unfolding grade_session auto_submit
process_grading_job (grade session) now = grade_session session now
process_grading_job (auto_submits session) now = auto_submit session now
