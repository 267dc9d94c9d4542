-- ===== src/Courses.antt =====
-- modules/courses/service.ts: courses, lessons, enrolment and the wishlist. Audit lines are left out,
-- and the columns that the data leaves out.
pub mod Data
pub mod Progress
pub mod Enrolment
pub mod Owners
pub mod Wishlist
mod Examples
use package.ayo_snbt_backend.Common.{
  ℕ, zero, suc, ◌+◌, ◌<◌, Bool, true, false, not, ◌&&◌, Option, none, some, List, [], ◌∷◌, ◌++◌,
  ◌==◌, ltb, if◌then◌else◌, is_some, or_else, any, first, select, update, map, head?,
}
use package.ayo_snbt_backend.Common.Action.{
  Action, pure, throw, throw_if, or_throw, gets, modify, ◌>>=◌, ◌>>◌, bad_request_error,
  forbidden_error, not_found_error, bad_request, forbidden, payment_required,
}
use package.ayo_snbt_backend.Common.Keys.{by}
use Data.{
  CourseStatus, draft, published, is_published, Course, Lesson, CourseEnrollment, WishlistRow,
  CourseEvent, course_published, course_deleted, course_restored, Db, User, not_deleted, is_live,
  course_key, find_by_id, find_by_id_include_deleted, find_lesson_by_id, is_lesson_of,
  is_enrollment, is_wish,
}

-- `CourseInput`, and its partial form: what is none stays.
pub record CourseInput : Type 0 where
  pub title : Option ℕ
  pub category : Option ℕ
  pub price_cents : Option ℕ
  pub status : Option CourseStatus

abbrev pub emit : CourseEvent → Action Db (Unit {0})
emit e = modify (λ db. record db { events = db.events ++ e ∷ [] })

abbrev pub bump_cache_version : Action Db (Unit {0})
bump_cache_version = modify (λ db. record db { cache_version = suc db.cache_version })

-- `!user.roles.includes("admin") && course.mentorId !== user.id`
abbrev pub is_stranger : User → Course → Bool
is_stranger user c =
    not user.is_admin && not (elim c.mentor_id [ none ↦ false | some m ↦ m == user.id ])

-- `create`: the id is the table's default.
unfoldable pub create : ℕ → ℕ → ℕ → CourseInput → Action Db Course
create id now user_id input = do
  let row : Course = record {
    id = id;
    mentor_id = some user_id;
    title = or_else input.title 0;
    category = input.category;
    price_cents = or_else input.price_cents 0;
    status = or_else input.status draft;
    deleted_at = none;
    created_at = now;
    updated_at = now;
  }
  modify (λ db. record db { courses = db.courses ++ row ∷ [] })
  bump_cache_version
  pure row

unfoldable pub apply_input : CourseInput → ℕ → Course → Course
apply_input input now c = record c {
  title = or_else input.title c.title;
  category = elim input.category [ none ↦ c.category | some x ↦ some x ];
  price_cents = or_else input.price_cents c.price_cents;
  status = or_else input.status c.status;
  updated_at = now;
}

-- `update`.
unfoldable pub update_course : ℕ → User → ℕ → CourseInput → Action Db Course
unfolding find_by_id apply_input
update_course now user id input = do
  found ← find_by_id id
  existing ← or_throw found not_found_error
  throw_if (is_stranger user existing) (forbidden_error forbidden)
  modify
      (λ db. record db { courses = update (by course_key id) (apply_input input now) db.courses })
  rows ← gets (λ db. select (by course_key id) db.courses)
  row ← or_throw (head? rows) not_found_error
  bump_cache_version
  pure row

abbrev pub publication : CourseInput
publication = record { title = none; category = none; price_cents = none; status = some published }

-- `publish`.
unfoldable pub publish : ℕ → User → ℕ → Action Db Course
unfolding update_course
publish now user id = do
  result ← update_course now user id publication
  emit (course_published id)
  pure result

-- What `enroll` returns.
pub record Enrolled : Type 0 where
  pub enrolled : Bool
  pub already_enrolled : Bool

-- The insert with `onConflictDoNothing`.
unfoldable pub insert_enrollment : ℕ → ℕ → ℕ → List CourseEnrollment → List CourseEnrollment
insert_enrollment now user course rows =
    if any (is_enrollment user course) rows
    then rows
    else rows
      ++ record { user_id = user; course_id = course; is_active = true; enrolled_at = now } ∷ []

-- `enroll`.
unfoldable pub enroll : ℕ → ℕ → ℕ → Action Db Enrolled
unfolding insert_enrollment
enroll now user_id course_id = do
  found ← gets (λ db. first (is_live course_id) db.courses)
  course ← or_throw found not_found_error
  existing ← gets (λ db. any (is_enrollment user_id course_id) db.enrollments)
  if existing then pure (record { enrolled = true; already_enrolled = true }) else (do
    throw_if (ltb 0 course.price_cents) (forbidden_error payment_required)
    modify
        (λ db. record db { enrollments = insert_enrollment now user_id course_id db.enrollments })
    pure (record { enrolled = true; already_enrolled = false }))

-- `isEnrolled`.
unfoldable pub is_enrolled : ℕ → ℕ → Action Db Bool
is_enrolled user_id course_id = gets (λ db. any (is_enrollment user_id course_id) db.enrollments)

-- The input of `addLesson`, and of `updateLesson`.
pub record LessonInput : Type 0 where
  pub title : Option ℕ
  pub video_id : Option ℕ
  pub is_free : Option Bool

-- `maxOrder[0]?.max ?? 0`, where the query is no aggregate: the order of the first lesson it gives.
unfoldable pub max_order : ℕ → List Lesson → ℕ
max_order course rows = elim (head? (select (is_lesson_of course) rows)) [
  | none ↦ 0
  | some l ↦ l.sort_order
]

-- `addLesson`.
unfoldable pub add_lesson : ℕ → ℕ → User → ℕ → LessonInput → Action Db Lesson
unfolding find_by_id max_order
add_lesson id now user course_id input = do
  found ← find_by_id course_id
  c ← or_throw found not_found_error
  throw_if (is_stranger user c) (forbidden_error forbidden)
  order ← gets (λ db. max_order course_id db.lessons)
  let row : Lesson = record {
    id = id;
    course_id = course_id;
    title = or_else input.title 0;
    sort_order = order + 1;
    video_id = input.video_id;
    is_free = or_else input.is_free false;
    deleted_at = none;
    updated_at = now;
  }
  modify (λ db. record db { lessons = db.lessons ++ row ∷ [] })
  pure row

unfoldable pub apply_lesson_input : LessonInput → ℕ → Lesson → Lesson
apply_lesson_input input now l = record l {
  title = or_else input.title l.title;
  video_id = elim input.video_id [ none ↦ l.video_id | some v ↦ some v ];
  is_free = or_else input.is_free l.is_free;
  updated_at = now;
}

-- `updateLesson`; the row that it returns is left out.
unfoldable pub update_lesson : ℕ → User → ℕ → LessonInput → Action Db (Unit {0})
unfolding find_by_id find_lesson_by_id apply_lesson_input
update_lesson now user lesson_id input = do
  lesson ← find_lesson_by_id lesson_id
  l ← or_throw lesson not_found_error
  course ← find_by_id l.course_id
  c ← or_throw course not_found_error
  throw_if (is_stranger user c) (forbidden_error forbidden)
  modify (λ db. record db {
    lessons =
        update (by (λ (x : Lesson). x.id) lesson_id) (apply_lesson_input input now) db.lessons;
  })

abbrev pub set_deleted : Option ℕ → ℕ → Course → Course
set_deleted at now c = record c { deleted_at = at; updated_at = now }

-- `remove`.
unfoldable pub remove : ℕ → User → ℕ → Action Db (Unit {0})
unfolding find_by_id
remove now user id = do
  existing ← find_by_id id
  course ← or_throw existing not_found_error
  throw_if (is_stranger user course) (forbidden_error forbidden)
  modify (λ db. record db {
    courses = update (by course_key id) (set_deleted (some now) now) db.courses;
  })
  bump_cache_version
  emit (course_deleted id)

-- `restore`: whether the course was active already.
unfoldable pub restore : ℕ → User → ℕ → Action Db Bool
unfolding find_by_id_include_deleted
restore now user id = do
  throw_if (not user.is_admin) (forbidden_error forbidden)
  existing ← find_by_id_include_deleted id
  course ← or_throw existing not_found_error
  if not_deleted course.deleted_at then pure true else (do
    modify
        (λ db. record db { courses = update (by course_key id) (set_deleted none now) db.courses })
    bump_cache_version
    emit (course_restored id)
    pure false)

-- The `enrolled` flag of `getById`.
unfoldable pub viewer_enrolled : Option ℕ → ℕ → Db → Bool
viewer_enrolled none id db = false
viewer_enrolled (some user) id db =
    any (λ (e : CourseEnrollment). is_enrollment user id e && e.is_active) db.enrollments

-- `getById`: the course, its lessons before the order, and the flag.
unfoldable pub get_by_id : ℕ → Option ℕ → Action Db (Course × List Lesson × Bool)
unfolding find_by_id viewer_enrolled
get_by_id id user_id = do
  row ← find_by_id id
  found ← or_throw row not_found_error
  lessons ← gets (λ db. select (is_lesson_of id) db.lessons)
  enrolled ← gets (viewer_enrolled user_id id)
  pure (found, lessons, enrolled)
