-- ===== src/Courses/Enrolment.antt =====
-- Who is enrolled after `enroll`, and what `restore` gives back after `remove`.
use package.ayo_snbt_backend.Common.{
  ℕ, ◌≡◌, refl, inl, inr, true, false, not, ◌||◌, Option, none, some, List, [], ◌∷◌, arith, ltb,
  if◌then◌else◌, any, any-append, first, first-holds, ==_iff, subst, ap, update, Bool-cases,
  ==_refl,
}
use package.ayo_snbt_backend.Common.Action.{after, value, error, forbidden_error, payment_required}
use package.ayo_snbt_backend.Common.Keys.{by, Distinct, first-by_key, first-by-update}
use package.ayo_snbt_backend.Courses.Data.{
  Course, CourseEnrollment, Db, User, is_live, is_enrollment, course_key, find_by_id,
  find_by_id_include_deleted,
}
use package.ayo_snbt_backend.Courses.{
  insert_enrollment, enroll, is_enrolled, is_stranger, remove, restore, set_deleted,
}

insert_enrollment-any :
    (now user course : ℕ) (rows : List CourseEnrollment)
    → any (is_enrollment user course) (insert_enrollment now user course rows) ≡ true
unfolding insert_enrollment
insert_enrollment-any now user course rows =
    elim (Bool-cases (any (is_enrollment user course) rows)) [
      | inl e ↦ rw e e
      | inr e ↦ rw e (
          rw
            (any-append (is_enrollment user course) rows (
              record { user_id = user; course_id = course; is_active = true; enrolled_at = now }
              ∷ []))
            (ground (arith, ==_refl user, ==_refl course)))
    ]

-- For a course that is found, `isEnrolled` says after `enroll` that the user is enrolled exactly if it
-- said so before or the course is free; and `enroll` throws 403, with the code `PAYMENT_REQUIRED`,
-- exactly if the user is then not enrolled.
pub enroll_iff :
    (now user course : ℕ) (c : Course) (db : Db)
    → first (is_live course) db.courses ≡ some c
    → (value (is_enrolled user course (after (enroll now user course db)))
        ≡ some (any (is_enrollment user course) db.enrollments || not (ltb 0 c.price_cents)))
      × (error (enroll now user course db) ≡ (
          if any (is_enrollment user course) db.enrollments || not (ltb 0 c.price_cents)
          then none
          else some (forbidden_error payment_required)))
unfolding enroll is_enrolled
enroll_iff now user course c db h =
    elim (Bool-cases (any (is_enrollment user course) db.enrollments)) [
      | inl e ↦ rw (h, enroll) (rw (e, enroll) (rw (e, is_enrolled) (refl, refl)))
      | inr e ↦ elim (Bool-cases (ltb 0 c.price_cents)) [
        | inl p ↦
            rw (h, enroll) (rw (e, enroll) (rw (p, enroll) (rw (e, is_enrolled) (refl, refl))))
        | inr p ↦
            rw (h, enroll)
              (rw (e, enroll)
                (rw (p, enroll)
                  (rw (insert_enrollment-any now user course db.enrollments, is_enrolled)
                    (refl, refl))))
      ]
    ]

first-by_id :
    (id : ℕ) (c : Course) (xs : List Course)
    → Distinct course_key xs
    → first (is_live id) xs ≡ some c
    → first (by course_key id) xs ≡ some c
first-by_id id c xs d h =
    subst (λ k. first (by course_key k) xs ≡ some c)
      (ground (arith, first-holds (is_live id) xs c h, ==_iff c.id id))
      (first-by_key course_key (is_live id) xs c d h)

first-by-written :
    (id now : ℕ) (at : Option ℕ) (c : Course) (xs : List Course)
    → first (by course_key id) xs ≡ some c
    → first (by course_key id) (update (by course_key id) (set_deleted at now) xs)
      ≡ some (set_deleted at now c)
first-by-written id now at c xs h =
    rw (first-by-update course_key id id (set_deleted at now) xs (λ x. refl))
      (rw (h, ==_refl id) refl)

-- Where course ids are distinct, a course that is found and that its owner or an administrator removes
-- is found again after an administrator restores it, with its other columns as they were.
pub remove-restore :
    (t later : ℕ) (user admin : User) (id : ℕ) (c : Course) (db : Db)
    → Distinct course_key db.courses
    → first (is_live id) db.courses ≡ some c
    → is_stranger user c ≡ false
    → admin.is_admin ≡ true
    → value (
        find_by_id_include_deleted id
          (after (restore later admin id (after (remove t user id db)))))
      ≡ some (some (set_deleted none later c))
unfolding remove restore find_by_id find_by_id_include_deleted
remove-restore t later user admin id c db d h s a =
    let k1 = first-by_id id c db.courses d h in
    let k2 = first-by-written id t (some t) c db.courses k1 in
    rw (h, remove)
      (rw (s, remove)
        (rw (a, restore)
          (rw (k2, restore)
            (ap some (first-by-written id later none (set_deleted (some t) t c) _ k2)))))
