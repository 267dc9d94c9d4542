-- ===== src/Courses/Owners.antt =====
-- Who may change a course.
use package.ayo_snbt_backend.Common.{ℕ, ◌≡◌, refl, true, some, first}
use package.ayo_snbt_backend.Common.Action.{Action, throws, ◌>>=◌, pure, forbidden_error, forbidden}
use package.ayo_snbt_backend.Courses.Data.{Course, Db, User, is_live, find_by_id}
use package.ayo_snbt_backend.Courses.{
  CourseInput, LessonInput, is_stranger, update_course, publish, add_lesson, remove,
}

-- The calls that change one course or what it holds.
pub data Edit : Type 0 where
  updates : CourseInput → Edit
  publishes : Edit
  adds_lesson : ℕ → LessonInput → Edit
  removes : Edit

unfoldable pub edit : ℕ → User → ℕ → Edit → Action Db (Unit {0})
unfolding update_course publish add_lesson remove
edit now user id (updates input) = do _ ← update_course now user id input; pure tt
edit now user id publishes = do _ ← publish now user id; pure tt
edit now user id (adds_lesson lesson input) = do _ ← add_lesson lesson now user id input; pure tt
edit now user id removes = remove now user id

-- A user who is no administrator and not the mentor of the course gets 403 from every call that
-- changes it, and the tables stay as they are.
pub edit_stranger :
    (now : ℕ) (user : User) (id : ℕ) (e : Edit) (c : Course) (db : Db)
    → first (is_live id) db.courses ≡ some c
    → is_stranger user c ≡ true
    → edit now user id e db ≡ throws (forbidden_error forbidden) db
unfolding edit update_course publish add_lesson remove find_by_id
edit_stranger now user id (updates input) c db h s = rw (h, edit) (rw (s, edit) refl)
edit_stranger now user id publishes c db h s = rw (h, edit) (rw (s, edit) refl)
edit_stranger now user id (adds_lesson lesson input) c db h s = rw (h, edit) (rw (s, edit) refl)
edit_stranger now user id removes c db h s = rw (h, edit) (rw (s, edit) refl)
