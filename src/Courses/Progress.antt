-- ===== src/Courses/Progress.antt =====
-- `recordProgress`, `listProgress` and the progress rollup of `listMine` of modules/courses/service.ts.
pub mod Rollup
use package.ayo_snbt_backend.Common.{
  ℕ, ◌+◌, ◌*◌, ◌/◌, Bool, true, false, not, ◌&&◌, Option, none, some, List, [], ◌∷◌, ◌++◌, ◌==◌,
  if◌then◌else◌, or_else, any, first, select, update, length,
}
use package.ayo_snbt_backend.Common.Action.{
  Action, or_throw, gets, modify, ◌>>=◌, ◌>>◌, not_found_error, after,
}
use package.ayo_snbt_backend.Courses.Data.{
  ProgressStatus, in_progress, completed, is_completed, Lesson, LessonProgress, Db, not_deleted,
  is_lesson_of, is_progress, find_lesson_by_id,
}

pub record ProgressInput : Type 0 where
  pub status : Option ProgressStatus
  pub progress_percent : Option ℕ
  pub last_position_seconds : Option ℕ

-- `input.status === "completed" ? new Date() : undefined`
abbrev pub completion : ℕ → ProgressInput → Option ℕ
completion now input = elim input.status [
  | none ↦ none
  | some s ↦ if is_completed s then some now else none
]

-- The `set` of the update, in which what is undefined stays.
unfoldable pub apply_progress : ℕ → ProgressInput → LessonProgress → LessonProgress
apply_progress now input p = record p {
  status = or_else input.status p.status;
  progress_percent = or_else input.progress_percent p.progress_percent;
  last_position_seconds = or_else input.last_position_seconds p.last_position_seconds;
  completed_at = elim (completion now input) [ none ↦ p.completed_at | some t ↦ some t ];
  updated_at = now;
}

-- The row of the insert, with the defaults of the columns.
unfoldable pub new_progress : ℕ → ℕ → ℕ → ℕ → ProgressInput → LessonProgress
new_progress id now user lesson input = record {
  id = id;
  user_id = user;
  lesson_id = lesson;
  status = or_else input.status in_progress;
  progress_percent = or_else input.progress_percent 0;
  last_position_seconds = or_else input.last_position_seconds 0;
  completed_at = completion now input;
  updated_at = now;
}

-- The write of `recordProgress`.
unfoldable pub write_progress :
    ℕ → ℕ → ℕ → ℕ → ProgressInput → List LessonProgress → List LessonProgress
unfolding apply_progress new_progress
write_progress id now user lesson input rows = elim (first (is_progress user lesson) rows) [
  | some existing ↦
      update (λ (p : LessonProgress). p.id == existing.id) (apply_progress now input) rows
  | none ↦ rows ++ new_progress id now user lesson input ∷ []
]

-- `recordProgress`: whether the user is enrolled is not asked.
unfoldable pub record_progress : ℕ → ℕ → ℕ → ℕ → ProgressInput → Action Db (Unit {0})
unfolding find_lesson_by_id write_progress
record_progress id now user_id lesson_id input = do
  found ← find_lesson_by_id lesson_id
  _ ← or_throw found not_found_error
  modify (λ db. record db { progress = write_progress id now user_id lesson_id input db.progress })

-- `listProgress`.
unfoldable pub list_progress : ℕ → ℕ → Db → List LessonProgress
list_progress user_id course_id db =
    select
      (λ (p : LessonProgress).
        (p.user_id == user_id)
        && any (λ (l : Lesson). (l.id == p.lesson_id) && is_lesson_of course_id l) db.lessons)
      db.progress

-- The entry of `lessonCounts`.
unfoldable pub total_lessons : ℕ → List Lesson → ℕ
total_lessons course lessons = length (select (is_lesson_of course) lessons)

abbrev pub is_done : ℕ → LessonProgress → Bool
is_done user p = (p.user_id == user) && is_completed p.status

abbrev pub is_lesson_at : ℕ → ℕ → Lesson → Bool
is_lesson_at course id l = (l.id == id) && is_lesson_of course l

-- The entry of `completedCounts`: the completed rows of the user whose lesson is in the course.
unfoldable pub completed_lessons : ℕ → ℕ → List Lesson → List LessonProgress → ℕ
completed_lessons user course lessons rows =
    length (select (λ p. is_done user p && any (is_lesson_at course p.lesson_id) lessons) rows)

-- `Math.round((completedLessons / totalLessons) * 100)`, and 0 for no lessons.
unfoldable pub percent_complete : ℕ → ℕ → ℕ
percent_complete done total = if total == 0 then 0 else (200 * done + total) / (2 * total)

-- What `listMine` adds to a row.
unfoldable pub rollup : ℕ → ℕ → Db → ℕ × ℕ × ℕ
unfolding total_lessons completed_lessons percent_complete
rollup user course db =
    let done : ℕ = completed_lessons user course db.lessons db.progress in
    let total : ℕ = total_lessons course db.lessons in (done, total, percent_complete done total)

-- A call of `recordProgress`: the new id, the time, the user, the lesson and the input.
pub record ProgressCall : Type 0 where
  pub id : ℕ
  pub now : ℕ
  pub user_id : ℕ
  pub lesson_id : ℕ
  pub input : ProgressInput

-- The calls one after the other, whether they return or throw.
unfoldable pub run : List ProgressCall → Db → Db
unfolding record_progress
run [] db = db
run (c ∷ cs) db = run cs (after (record_progress c.id c.now c.user_id c.lesson_id c.input db))
