-- ===== src/Certificates/Issued.antt =====
-- Which certificates there are after a listing.
use package.ayo_snbt_backend.Common.{
  ℕ, ◌≡◌, ◌∙◌, refl, ap, inl, inr, Bool, true, not, ◌&&◌, ◌||◌, List, [], ◌∷◌, arith, ◌==◌, any,
  any-append, all, select, map, Bool-cases, ==_refl, ==_iff,
}
use package.ayo_snbt_backend.Courses.Data.{Lesson, CourseEnrollment, Db, is_lesson_of}
use package.ayo_snbt_backend.Certificates.{
  Certificate, CertificateDb, is_active_of, enrolled_courses, in_array, is_open_lesson, courses_of,
  is_done, completed_courses, is_certificate, issue, issue_all, list_mine,
}

-- The user has an active enrolment in the course, the course has lessons, and the user has completed
-- them all.
unfoldable pub is_complete : ℕ → ℕ → Db → Bool
is_complete user course db =
    any (λ (e : CourseEnrollment). is_active_of user e && (e.course_id == course)) db.enrollments
    && any (is_lesson_of course) db.lessons
    && all (λ (l : Lesson). not (is_lesson_of course l) || is_done user db l.id) db.lessons

in_array-eq : (a b : ℕ) (ids : List ℕ) → (a == b) ≡ true → in_array a ids ≡ in_array b ids
in_array-eq a b ids h = ap (λ x. in_array x ids) ((==_iff a b).0 h)

enrolled-in :
    (user course : ℕ) (es : List CourseEnrollment)
    → in_array course (map (λ (e : CourseEnrollment). e.course_id) (select (is_active_of user) es))
      ≡ any (λ (e : CourseEnrollment). is_active_of user e && (e.course_id == course)) es
enrolled-in user course [] = refl
enrolled-in user course (e ∷ es) = ground (arith, enrolled-in user course es)

courses_of-in :
    (course : ℕ) (seen : List ℕ) (ls : List Lesson)
    → (in_array course seen || in_array course (courses_of seen ls))
      ≡ (in_array course seen || any (λ (l : Lesson). l.course_id == course) ls)
unfolding courses_of
courses_of-in course seen [] = refl
courses_of-in course seen (l ∷ ls) = elim (Bool-cases (in_array l.course_id seen)) [
  | inl e ↦ rw e (ground (arith, courses_of-in course seen ls, in_array-eq l.course_id course seen))
  | inr e ↦ rw e (ground (arith, courses_of-in course (l.course_id ∷ seen) ls))
]

-- A lesson of the rows that were read, for a course of the list.
any_open :
    (course : ℕ) (ids : List ℕ) (ls : List Lesson)
    → any (λ (l : Lesson). l.course_id == course) (select (is_open_lesson ids) ls)
      ≡ (in_array course ids && any (is_lesson_of course) ls)
any_open course ids [] = ground arith
any_open course ids (l ∷ ls) =
    ground (arith, any_open course ids ls, in_array-eq l.course_id course ids)

all_open :
    (user course : ℕ) (ids : List ℕ) (db : Db) (ls : List Lesson)
    → in_array course ids ≡ true
    → all
        (λ (l : Lesson). not (l.course_id == course) || is_done user db l.id)
        (select (is_open_lesson ids) ls)
      ≡ all (λ (l : Lesson). not (is_lesson_of course l) || is_done user db l.id) ls
all_open user course ids db [] h = refl
all_open user course ids db (l ∷ ls) h =
    ground (arith, all_open user course ids db ls h, in_array-eq l.course_id course ids)

any-select-at :
    (p : ℕ → Bool) (course : ℕ) (xs : List ℕ)
    → in_array course (select p xs) ≡ (in_array course xs && p course)
any-select-at p course [] = refl
any-select-at p course (x ∷ xs) =
    ground
      (arith, any-select-at p course xs, λ (h : (x == course) ≡ true). ap p ((==_iff x course).0 h))

enrolled_courses-in :
    (user course : ℕ) (db : Db)
    → in_array course (enrolled_courses user db)
      ≡ any
          (λ (e : CourseEnrollment). is_active_of user e && (e.course_id == course))
          db.enrollments
unfolding enrolled_courses
enrolled_courses-in user course db = enrolled-in user course db.enrollments

completed-in :
    (user course : ℕ) (db : Db)
    → in_array course (completed_courses user db) ≡ is_complete user course db
unfolding completed_courses is_complete
completed-in user course db =
    let ids : List ℕ = enrolled_courses user db in
    let rows : List Lesson = select (is_open_lesson ids) db.lessons in
    let p : ℕ → Bool =
      λ c. all (λ (l : Lesson). not (l.course_id == c) || is_done user db l.id) rows in
    any-select-at p course (courses_of [] rows) ∙ elim (Bool-cases (in_array course ids)) [
      | inl e ↦ ground (
        arith,
        courses_of-in course [] rows,
        any_open course ids db.lessons,
        enrolled_courses-in user course db,
        all_open user course ids db db.lessons e,
      )
      | inr e ↦ ground (
        arith,
        courses_of-in course [] rows,
        any_open course ids db.lessons,
        enrolled_courses-in user course db,
      )
    ]

issue-any :
    (now user course k : ℕ) (rows : List Certificate)
    → any (is_certificate user k) (issue now user course rows)
      ≡ (any (is_certificate user k) rows || (course == k))
unfolding issue
issue-any now user course k rows = elim (Bool-cases (any (is_certificate user course) rows)) [
  | inl e ↦ rw e (
      ground (
        arith,
        e,
        λ (h : (course == k) ≡ true).
            ap (λ x. any (is_certificate user x) rows) ((==_iff course k).0 h),
      ))
  | inr e ↦ rw e (
      ground (
        arith,
        ==_refl user,
        any-append (is_certificate user k) rows
            (record { user_id = user; course_id = course; issued_at = now } ∷ []),
      ))
]

issue_all-any :
    (now user k : ℕ) (cs : List ℕ) (rows : List Certificate)
    → any (is_certificate user k) (issue_all now user cs rows)
      ≡ (any (is_certificate user k) rows || in_array k cs)
unfolding issue_all
issue_all-any now user k [] rows = ground arith
issue_all-any now user k (c ∷ cs) rows =
    ground (arith, issue_all-any now user k cs (issue now user c rows), issue-any now user c k rows)

-- After a user's listing, the user has a certificate for a course exactly if there was one before, or
-- the user has an active enrolment in the course and has completed every lesson of it, with one at least.
pub list_mine_iff :
    (now user course : ℕ) (s : CertificateDb)
    → any (is_certificate user course) (list_mine now user s).1.certificates
      ≡ (any (is_certificate user course) s.certificates || is_complete user course s.db)
unfolding list_mine
list_mine_iff now user course s =
    issue_all-any now user course (completed_courses user s.db) s.certificates
    ∙ ap (λ b. any (is_certificate user course) s.certificates || b) (completed-in user course s.db)
