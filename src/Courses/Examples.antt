-- ===== src/Courses/Examples.antt =====
-- A paid course with a mentor, two lessons and a student.
use package.ayo_snbt_backend.Common.{
  ℕ, ◌≡◌, ◌≤◌, ◌||◌, refl, true, false, not, none, some, [], ◌∷◌, ltb, if◌then◌else◌, any,
}
use package.ayo_snbt_backend.Common.Action.{after, value, error, forbidden_error, payment_required}
use package.ayo_snbt_backend.Courses.Data.{
  published, completed, Course, Lesson, Db, User, is_enrollment,
}
use package.ayo_snbt_backend.Courses.{enroll, is_enrolled}
use package.ayo_snbt_backend.Courses.Enrolment.{enroll_iff}
use package.ayo_snbt_backend.Courses.Progress.{rollup, run, ProgressCall}
use package.ayo_snbt_backend.Courses.Progress.Rollup.{run-rollup-bounds}

abbrev paid_course : Course
paid_course = record {
  id = 4;
  mentor_id = some 2;
  title = 9;
  category = none;
  price_cents = 500;
  status = published;
  deleted_at = none;
  created_at = 10;
  updated_at = 10;
}

abbrev lesson : ℕ → Lesson
lesson id = record {
  id = id;
  course_id = 4;
  title = 1;
  sort_order = 1;
  video_id = none;
  is_free = false;
  deleted_at = none;
  updated_at = 11;
}

abbrev table : Db
table = record {
  courses = paid_course ∷ [];
  lessons = lesson 6 ∷ lesson 7 ∷ [];
  enrollments = record { user_id = 1; course_id = 4; is_active = true; enrolled_at = 12 } ∷ [];
  progress = [];
  wishlist = [];
  events = [];
  cache_version = 1;
}

abbrev mentor : User
mentor = record { id = 2; is_admin = false }

abbrev student : User
student = record { id = 3; is_admin = false }

abbrev administrator : User
administrator = record { id = 8; is_admin = true }

enroll_iff_example :
    (value (is_enrolled 3 4 (after (enroll 20 3 4 table)))
      ≡ some (any (is_enrollment 3 4) table.enrollments || not (ltb 0 500)))
    × (error (enroll 20 3 4 table) ≡ (
        if any (is_enrollment 3 4) table.enrollments || not (ltb 0 500)
        then none
        else some (forbidden_error payment_required)))
enroll_iff_example = enroll_iff 20 3 4 paid_course table refl

abbrev done : ℕ → ProgressCall
done k = record {
  id = k;
  now = k;
  user_id = 1;
  lesson_id = 6;
  input = record {
    status = some completed;
    progress_percent = some 100;
    last_position_seconds = none;
  };
}

run-rollup-bounds_example :
    ((rollup 1 4 (run (done 20 ∷ done 21 ∷ []) table)).0
      ≤ (rollup 1 4 (run (done 20 ∷ done 21 ∷ []) table)).1)
    × ((rollup 1 4 (run (done 20 ∷ done 21 ∷ []) table)).2 ≤ 100)
run-rollup-bounds_example = run-rollup-bounds (done 20 ∷ done 21 ∷ []) table 1 4 refl
