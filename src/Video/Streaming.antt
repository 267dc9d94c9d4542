-- ===== src/Video/Streaming.antt =====
-- Who may stream a video.
use package.ayo_snbt_backend.Common.{
  ℕ, ◌≡◌, refl, Bool, true, false, not, ◌&&◌, ◌||◌, none, some, List, [], ◌∷◌, arith, ◌==◌,
  if◌then◌else◌, any, first, select,
}
use package.ayo_snbt_backend.Common.Action.{
  throw_if, error, forbidden_error, forbidden, enrollment_required,
}
use package.ayo_snbt_backend.Courses.Data.{Course, Lesson, is_enrollment}
use package.ayo_snbt_backend.Video.{
  Video, VideoDb, User, is_live, find_video, is_ready, shows, is_empty, may_stream,
  assert_can_stream,
}

-- A lesson opens its video to the user: it is free, or the user is an administrator, the mentor of its
-- course or enrolled in it.
abbrev pub opens : User → VideoDb → Lesson → Bool
opens user db l = l.is_free || elim (first (λ (c : Course). c.id == l.course_id) db.courses) [
  | none ↦ false
  | some c ↦
      user.is_admin
      || elim c.mentor_id [ none ↦ false | some m ↦ m == user.id ]
      || any (is_enrollment user.id c.id) db.enrollments
]

may_stream_lem :
    (user : User) (db : VideoDb) (ls : List Lesson) → may_stream user db ls ≡ any (opens user db) ls
unfolding may_stream
may_stream_lem user db [] = refl
may_stream_lem user db (l ∷ ls) = ground (arith, may_stream_lem user db ls)

decided :
    (e a m g : Bool) (db : VideoDb)
    → error (
        (if e
            then throw_if (not a && not m) (forbidden_error forbidden)
            else throw_if (not g) (forbidden_error enrollment_required))
          db)
      ≡ (if (if e then a || m else g)
          then none
          else some (forbidden_error (if e then forbidden else enrollment_required)))
decided true true m g db = refl
decided true false true g db = refl
decided true false false g db = refl
decided false a m true db = refl
decided false a m false db = refl

-- A video that is ready may be streamed exactly by those to whom one of its lessons opens it, or, where
-- no lesson shows it, by administrators and mentors; the others get 403, with the code
-- ENROLLMENT_REQUIRED where a lesson shows it.
pub assert_can_stream_iff :
    (user : User) (id : ℕ) (v : Video) (db : VideoDb)
    → first (is_live id) db.videos ≡ some v
    → is_ready v.status ≡ true
    → error (assert_can_stream user id db) ≡ (
        if (if is_empty (select (shows id) db.lessons)
          then user.is_admin || user.is_mentor
          else any (opens user db) (select (shows id) db.lessons))
        then none
        else some (
            forbidden_error
              (if is_empty (select (shows id) db.lessons) then forbidden else enrollment_required)))
unfolding assert_can_stream find_video
assert_can_stream_iff user id v db h r =
    rw (h, assert_can_stream)
      (rw (r, assert_can_stream)
        (rw (may_stream_lem user db (select (shows id) db.lessons), assert_can_stream)
          (decided (is_empty (select (shows id) db.lessons)) user.is_admin user.is_mentor
            (any (opens user db) (select (shows id) db.lessons)) db)))
