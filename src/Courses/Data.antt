-- ===== src/Courses/Data.antt =====
-- shared/db/schema/courses.ts and modules/courses/repository.ts. Ids and texts are numbers, times are
-- milliseconds; slugs, descriptions, levels and image keys are left out.
use package.ayo_snbt_backend.Common.{
  ℕ, Bool, true, false, not, ◌&&◌, Option, List, ◌==◌, is_some, first,
}
use package.ayo_snbt_backend.Common.Action.{Action, gets}

pub data CourseStatus : Type 0 where
  draft published archived : CourseStatus

abbrev pub is_published : CourseStatus → Bool
is_published published = true
is_published draft = false
is_published archived = false

pub record Course : Type 0 where
  pub id : ℕ
  pub mentor_id : Option ℕ
  pub title : ℕ
  pub category : Option ℕ
  pub price_cents : ℕ
  pub status : CourseStatus
  pub deleted_at : Option ℕ
  pub created_at : ℕ
  pub updated_at : ℕ

pub record Lesson : Type 0 where
  pub id : ℕ
  pub course_id : ℕ
  pub title : ℕ
  pub sort_order : ℕ
  pub video_id : Option ℕ
  pub is_free : Bool
  pub deleted_at : Option ℕ
  pub updated_at : ℕ

-- `is_active` says that the status is `active`.
pub record CourseEnrollment : Type 0 where
  pub user_id : ℕ
  pub course_id : ℕ
  pub is_active : Bool
  pub enrolled_at : ℕ

pub data ProgressStatus : Type 0 where
  in_progress completed : ProgressStatus

abbrev pub is_completed : ProgressStatus → Bool
is_completed completed = true
is_completed in_progress = false

pub record LessonProgress : Type 0 where
  pub id : ℕ
  pub user_id : ℕ
  pub lesson_id : ℕ
  pub status : ProgressStatus
  pub progress_percent : ℕ
  pub last_position_seconds : ℕ
  pub completed_at : Option ℕ
  pub updated_at : ℕ

pub record WishlistRow : Type 0 where
  pub user_id : ℕ
  pub course_id : ℕ
  pub created_at : ℕ

pub data CourseEvent : Type 0 where
  course_published course_deleted course_restored : ℕ → CourseEvent

-- The tables, the events that were emitted, and the version of the cached listings.
pub record Db : Type 0 where
  pub courses : List Course
  pub lessons : List Lesson
  pub enrollments : List CourseEnrollment
  pub progress : List LessonProgress
  pub wishlist : List WishlistRow
  pub events : List CourseEvent
  pub cache_version : ℕ

-- The signed-in user; `is_admin` says that the roles include `admin`.
pub record User : Type 0 where
  pub id : ℕ
  pub is_admin : Bool

-- `notDeleted`.
abbrev pub not_deleted : Option ℕ → Bool
not_deleted t = not (is_some t)

abbrev pub is_live : ℕ → Course → Bool
is_live id c = (c.id == id) && not_deleted c.deleted_at

abbrev pub course_key : Course → ℕ
course_key c = c.id

-- `courseRepo.findById`.
unfoldable pub find_by_id : ℕ → Action Db (Option Course)
find_by_id id = gets (λ db. first (is_live id) db.courses)

-- `courseRepo.findByIdIncludeDeleted`.
unfoldable pub find_by_id_include_deleted : ℕ → Action Db (Option Course)
find_by_id_include_deleted id = gets (λ db. first (λ (c : Course). c.id == id) db.courses)

-- `courseRepo.findLessonById`.
unfoldable pub find_lesson_by_id : ℕ → Action Db (Option Lesson)
find_lesson_by_id id =
    gets (λ db. first (λ (l : Lesson). (l.id == id) && not_deleted l.deleted_at) db.lessons)

-- `courseRepo.findLessons`, before the order by `sort_order`.
abbrev pub is_lesson_of : ℕ → Lesson → Bool
is_lesson_of course l = (l.course_id == course) && not_deleted l.deleted_at

abbrev pub is_enrollment : ℕ → ℕ → CourseEnrollment → Bool
is_enrollment user course e = (e.user_id == user) && (e.course_id == course)

abbrev pub is_progress : ℕ → ℕ → LessonProgress → Bool
is_progress user lesson p = (p.user_id == user) && (p.lesson_id == lesson)

abbrev pub is_wish : ℕ → ℕ → WishlistRow → Bool
is_wish user course w = (w.user_id == user) && (w.course_id == course)
