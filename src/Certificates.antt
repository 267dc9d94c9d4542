-- ===== src/Certificates.antt =====
-- modules/certificates/service.ts: certificates for completed courses. The certificate's number is
-- left out; an insert that its unique index refuses is logged and skipped, as one whose row is there.
pub mod Issued
mod Examples
use package.ayo_snbt_backend.Common.{
  ℕ, Bool, true, false, not, ◌&&◌, ◌||◌, List, [], ◌∷◌, ◌++◌, ◌==◌, if◌then◌else◌, any, all, select,
  map,
}
use package.ayo_snbt_backend.Courses.Data.{
  Course, Lesson, CourseEnrollment, LessonProgress, Db, is_completed, not_deleted, is_live,
}

pub record Certificate : Type 0 where
  pub user_id : ℕ
  pub course_id : ℕ
  pub issued_at : ℕ

pub record CertificateDb : Type 0 where
  pub db : Db
  pub certificates : List Certificate

-- The `where` of the first query, and its course.
abbrev pub is_active_of : ℕ → CourseEnrollment → Bool
is_active_of user e = (e.user_id == user) && e.is_active

unfoldable pub enrolled_courses : ℕ → Db → List ℕ
enrolled_courses user db =
    map (λ (e : CourseEnrollment). e.course_id) (select (is_active_of user) db.enrollments)

-- `inArray(column, ids)`.
abbrev pub in_array : ℕ → List ℕ → Bool
in_array x ids = any (λ i. i == x) ids

abbrev pub is_open_lesson : List ℕ → Lesson → Bool
is_open_lesson ids l = in_array l.course_id ids && not_deleted l.deleted_at

-- The keys of the map `byCourse`, in the order of their first lessons.
unfoldable pub courses_of : List ℕ → List Lesson → List ℕ
courses_of seen [] = []
courses_of seen (l ∷ ls) =
    if in_array l.course_id seen
    then courses_of seen ls
    else l.course_id ∷ courses_of (l.course_id ∷ seen) ls

-- `doneSet.has(id)`.
abbrev pub is_done : ℕ → Db → ℕ → Bool
is_done user db id =
    any
      (λ (p : LessonProgress). (p.user_id == user) && is_completed p.status && (p.lesson_id == id))
      db.progress

-- `completedCourses`.
unfoldable pub completed_courses : ℕ → Db → List ℕ
unfolding enrolled_courses courses_of
completed_courses user db =
    let rows : List Lesson = select (is_open_lesson (enrolled_courses user db)) db.lessons in
    select (λ c. all (λ (l : Lesson). not (l.course_id == c) || is_done user db l.id) rows)
      (courses_of [] rows)

abbrev pub is_certificate : ℕ → ℕ → Certificate → Bool
is_certificate user course c = (c.user_id == user) && (c.course_id == course)

-- The insert with `onConflictDoNothing`.
unfoldable pub issue : ℕ → ℕ → ℕ → List Certificate → List Certificate
issue now user course rows =
    if any (is_certificate user course) rows
    then rows
    else rows ++ record { user_id = user; course_id = course; issued_at = now } ∷ []

-- The loop of `listMine`.
unfoldable pub issue_all : ℕ → ℕ → List ℕ → List Certificate → List Certificate
unfolding issue
issue_all now user [] rows = rows
issue_all now user (c ∷ cs) rows = issue_all now user cs (issue now user c rows)

-- `listMine`: the state that it leaves, and the rows joined with their courses, before the order.
unfoldable pub list_mine : ℕ → ℕ → CertificateDb → List Certificate × CertificateDb
unfolding completed_courses issue_all
list_mine now user s =
    let rows : List Certificate = issue_all now user (completed_courses user s.db) s.certificates in
    (
      select
          (λ (c : Certificate).
            (c.user_id == user) && any (λ (k : Course). k.id == c.course_id) s.db.courses)
          rows,
      record s { certificates = rows },
    )
