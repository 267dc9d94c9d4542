-- ===== src/Courses/Progress/Rollup.antt =====
-- The rollup of the rows that recorded progress leaves: one for each user and lesson, so that no
-- more lessons are completed than there are.
use native.Mathlib.Nat.{div-lt_iff_lt-mul}
use package.ayo_snbt_backend.Common.{
  ℕ, ◌+◌, ◌*◌, ◌≤◌, ◌≡◌, refl, inl, inr, Bool, false, ◌&&◌, none, List, [], ◌∷◌, ◌++◌, arith, ◌==◌,
  if◌then◌else◌, any, any-append, first, select, update, length, Bool-cases, Option-cases,
}
use package.ayo_snbt_backend.Courses.Data.{
  Lesson, LessonProgress, Db, is_lesson_of, is_progress, not_deleted, find_lesson_by_id,
}
use package.ayo_snbt_backend.Courses.Progress.{
  ProgressInput, apply_progress, new_progress, write_progress, record_progress, total_lessons,
  is_done, completed_lessons, percent_complete, rollup, run, ProgressCall,
}

-- The unique index on the user and the lesson.
abbrev pub Unique : List LessonProgress → Type 0
Unique [] = Unit
Unique (p ∷ ps) = (any (is_progress p.user_id p.lesson_id) ps ≡ false) × Unique ps

any-update :
    (user lesson id now : ℕ) (input : ProgressInput) (rows : List LessonProgress)
    → any
        (is_progress user lesson)
        (update (λ (p : LessonProgress). p.id == id) (apply_progress now input) rows)
      ≡ any (is_progress user lesson) rows
unfolding apply_progress
any-update user lesson id now input [] = refl
any-update user lesson id now input (p ∷ ps) =
    ground (arith, any-update user lesson id now input ps)

Unique-update :
    (id now : ℕ) (input : ProgressInput) (rows : List LessonProgress)
    → Unique rows
    → Unique (update (λ (p : LessonProgress). p.id == id) (apply_progress now input) rows)
unfolding apply_progress
Unique-update id now input [] u = tt
Unique-update id now input (p ∷ ps) u = elim (Bool-cases (p.id == id)) [
  | inl e ↦
      rw e (
        rw (any-update p.user_id p.lesson_id id now input ps) u.0,
        Unique-update id now input ps u.1,
      )
  | inr e ↦
      rw e (
        rw (any-update p.user_id p.lesson_id id now input ps) u.0,
        Unique-update id now input ps u.1,
      )
]

Unique-append :
    (user lesson : ℕ) (rows : List LessonProgress) (p : LessonProgress)
    → p.user_id ≡ user
    → p.lesson_id ≡ lesson
    → any (is_progress user lesson) rows ≡ false
    → Unique rows
    → Unique (rows ++ p ∷ [])
Unique-append user lesson [] p a b h u = (refl, tt)
Unique-append user lesson (x ∷ xs) p a b h u = (
  ground (arith, any-append (is_progress x.user_id x.lesson_id) xs (p ∷ [])),
  Unique-append user lesson xs p a b (ground arith) u.1,
)

any_of_first-none :
    (q : LessonProgress → Bool) (rows : List LessonProgress)
    → first q rows ≡ none
    → any q rows ≡ false
any_of_first-none q [] h = refl
any_of_first-none q (p ∷ ps) h = ground (arith, any_of_first-none q ps)

write_progress-Unique :
    (id now user lesson : ℕ) (input : ProgressInput) (rows : List LessonProgress)
    → Unique rows
    → Unique (write_progress id now user lesson input rows)
unfolding write_progress new_progress
write_progress-Unique id now user lesson input rows u =
    elim (Option-cases (first (is_progress user lesson) rows)) [
      | inl e ↦
          rw (e, write_progress)
            (Unique-append user lesson rows _ refl refl
              (any_of_first-none (is_progress user lesson) rows e) u)
      | inr (p, e) ↦ rw (e, write_progress) (Unique-update p.id now input rows u)
    ]

run-Unique : (cs : List ProgressCall) (db : Db) → Unique db.progress → Unique (run cs db).progress
unfolding run record_progress find_lesson_by_id
run-Unique [] db u = u
run-Unique (c ∷ cs) db u =
    elim (Option-cases
      (first (λ (l : Lesson). (l.id == c.lesson_id) && not_deleted l.deleted_at) db.lessons)) [
        | inl e ↦ rw (e, run) (run-Unique cs db u)
        | inr (l, e) ↦
            rw (e, run)
              (run-Unique cs _
                (write_progress-Unique c.id c.now c.user_id c.lesson_id c.input db.progress u))
      ]

-- The rows of one lesson.
abbrev at_lesson : ℕ → ℕ → LessonProgress → Bool
at_lesson user k p = is_done user p && (k == p.lesson_id)

none_at :
    (user k : ℕ) (rows : List LessonProgress)
    → any (is_progress user k) rows ≡ false
    → length (select (at_lesson user k) rows) ≡ 0
none_at user k [] h = refl
none_at user k (p ∷ ps) h = ground (arith, none_at user k ps)

at_most_one :
    (user k : ℕ) (rows : List LessonProgress)
    → Unique rows
    → length (select (at_lesson user k) rows) ≤ 1
at_most_one user k [] u = omega arith
at_most_one user k (p ∷ ps) u = elim (Bool-cases (at_lesson user k p)) [
  | inl e ↦ rw e (omega (arith, none_at user k ps (ground (arith, u.0))))
  | inr e ↦ rw e (at_most_one user k ps u.1)
]

-- The completed rows of the lessons `l ∷ ls`, counted apart.
split_count :
    (user course : ℕ) (l : Lesson) (ls : List Lesson) (rows : List LessonProgress)
    → completed_lessons user course (l ∷ ls) rows
      ≤ (if is_lesson_of course l then length (select (at_lesson user l.id) rows) else 0)
        + completed_lessons user course ls rows
unfolding completed_lessons
split_count user course l ls [] = ground arith
split_count user course l ls (p ∷ ps) = ground (arith, split_count user course l ls ps)

none_completed :
    (user course : ℕ) (rows : List LessonProgress) → completed_lessons user course [] rows ≡ 0
unfolding completed_lessons
none_completed user course [] = refl
none_completed user course (p ∷ ps) = ground (arith, none_completed user course ps)

completed-le :
    (user course : ℕ) (ls : List Lesson) (rows : List LessonProgress)
    → Unique rows
    → completed_lessons user course ls rows ≤ total_lessons course ls
unfolding total_lessons
completed-le user course [] rows u = omega (arith, none_completed user course rows)
completed-le user course (l ∷ ls) rows u = ground (
  arith,
  split_count user course l ls rows,
  at_most_one user l.id rows u,
  completed-le user course ls rows u,
)

percent-le : (done total : ℕ) → done ≤ total → percent_complete done total ≤ 100
unfolding percent_complete
percent-le done total h = elim (Bool-cases (total == 0)) [
  | inl e ↦ rw e (omega arith)
  | inr e ↦ rw e (
      omega (
        arith,
        (div-lt_iff_lt-mul {k = 2 * total} {x = 200 * done + total} {y = 101} (ground arith)).1
            (ground arith),
      ))
]

-- Whatever progress is recorded from an empty table on, the rollup counts at most as many completed
-- lessons of a course as the course has, and its percentage is at most 100.
pub run-rollup-bounds :
    (cs : List ProgressCall) (db : Db) (user course : ℕ)
    → db.progress ≡ []
    → ((rollup user course (run cs db)).0 ≤ (rollup user course (run cs db)).1)
      × ((rollup user course (run cs db)).2 ≤ 100)
unfolding rollup
run-rollup-bounds cs db user course h =
    let u : Unique (run cs db).progress = run-Unique cs db (rw h tt) in
    let le = completed-le user course (run cs db).lessons (run cs db).progress u in
    (le, percent-le _ _ le)
