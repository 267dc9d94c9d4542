-- ===== src/Simulations/Graded.antt =====
-- What grading stores in a session.
use package.ayo_snbt_backend.Common.{
  sym, subst, ℕ, ◌+◌, ◌≤◌, ◌≡◌, refl, inl, inr, true, false, Option, none, some, List, [], ◌∷◌, map,
  arith, first, select, length, ◌==◌, Bool-cases, ==_refl, ==_iff, first-holds, subst,
}
use package.ayo_snbt_backend.Common.Action.{after, value, returns}
use package.ayo_snbt_backend.Common.Keys.{by, first-by-update}
use package.ayo_snbt_backend.Simulations.Data.{
  graded, is_in_progress, is_graded, PackageScoring, SimulationSession, Db, session_id, is_of,
  SimulationAnswer, QuestionOption,
}
use package.ayo_snbt_backend.Simulations.Scoring.{mark, no_marks}
use package.ayo_snbt_backend.Simulations.Scoring.Counts.{
  tally_total, percentile_of-le, tally_counts, is_blank, is_correctly_answered, is_wrongly_answered,
}
use package.ayo_snbt_backend.Simulations.Grading.{
  grade_session, grade_found, grade_answers, scoring_of, write_session, get_package, set_forced,
  set_graded,
}

-- The session is graded: its counts are those of its answers of each kind, they add up to the
-- number of answers, and its percentile is at most 100 %.
abbrev pub IsGradedWith : List QuestionOption → List SimulationAnswer → SimulationSession → Type 0
IsGradedWith options answers s =
    (s.status ≡ graded)
    × (s.correct_count ≡ length (select (is_correctly_answered options) answers))
    × (s.wrong_count ≡ length (select (is_wrongly_answered options) answers))
    × (s.blank_count ≡ length (select is_blank answers))
    × ((s.correct_count + s.wrong_count) + s.blank_count ≡ length answers)
    × (p : ℕ) × (s.percentile ≡ some p)
    × (p ≤ 1_000)

-- The session with this id is found and is `P`.
abbrev pub FoundWith : (SimulationSession → Type 0) → ℕ → Db → Type 0
FoundWith P id db = (s : SimulationSession) × (first (by session_id id) db.sessions ≡ some s) × P s

written :
    (P : SimulationSession → Type 0) (id : ℕ) (f : SimulationSession → SimulationSession)
    (s : SimulationSession) (db : Db)
    → ((x : SimulationSession) → (f x).id ≡ x.id)
    → first (by session_id id) db.sessions ≡ some s
    → P (f s)
    → FoundWith P id (write_session id f db)
written P id f s db keep e p =
    (f s, rw (first-by-update session_id id id f db.sessions keep) (rw e (rw (==_refl id) refl)), p)

length-map {ℓ κ} :
    {A : Type ℓ} {B : Type κ} (f : A → B) (xs : List A) → length (map f xs) ≡ length xs
length-map f [] = refl
length-map f (x ∷ xs) = omega (arith, length-map f xs)

no_rows : (rows : List SimulationAnswer) → (length rows == 0) ≡ true → rows ≡ []
no_rows [] h = refl
no_rows (r ∷ rows) h = ground arith

grade_answers-FoundWith :
    (o s : SimulationSession) (scoring : PackageScoring) (db : Db)
    → first (by session_id o.id) db.sessions ≡ some s
    → FoundWith
        (IsGradedWith db.options (select (is_of o.id) db.answers))
        o.id
        (grade_answers o scoring db)
unfolding grade_answers
grade_answers-FoundWith o s scoring db e =
    elim (Bool-cases (length (select (is_of o.id) db.answers) == 0)) [
      | inl z ↦
          rw (z, grade_answers)
            (written _ o.id _ s db (λ x. refl) e
              (subst (λ xs. IsGradedWith db.options xs (set_graded 0 0 no_marks 0 s))
                (sym (no_rows _ z)) (refl, refl, refl, refl, refl, 0, refl, omega arith)))
      | inr z ↦
          rw (z, grade_answers)
            (written _ o.id _ s db (λ x. refl) e
              (
                refl,
                (tally_counts db.options (select (is_of o.id) db.answers)).0,
                (tally_counts db.options (select (is_of o.id) db.answers)).1,
                (tally_counts db.options (select (is_of o.id) db.answers)).2,
                omega (
                  arith,
                  tally_total (map (mark db.options) (select (is_of o.id) db.answers)),
                  length-map (mark db.options) (select (is_of o.id) db.answers),
                ),
                _,
                refl,
                percentile_of-le _ _,
              ))
    ]

scoring_of-write_session :
    (pkg : Option ℕ) (scoring : PackageScoring) (id : ℕ) (f : SimulationSession → SimulationSession)
    (db : Db)
    → value (scoring_of pkg db) ≡ some scoring
    → scoring_of pkg (write_session id f db) ≡ returns scoring (write_session id f db)
unfolding scoring_of get_package
scoring_of-write_session none scoring id f db h = ground arith
scoring_of-write_session (some pkg) scoring id f db h = ground arith

scoring_of-same :
    (pkg : Option ℕ) (scoring : PackageScoring) (db : Db)
    → value (scoring_of pkg db) ≡ some scoring
    → scoring_of pkg db ≡ returns scoring db
unfolding scoring_of get_package
scoring_of-same none scoring db h = ground arith
scoring_of-same (some pkg) scoring db h = ground arith

grade_found-FoundWith :
    (s : SimulationSession) (now : ℕ) (scoring : PackageScoring) (db : Db)
    → first (by session_id s.id) db.sessions ≡ some s
    → value (scoring_of s.package_id db) ≡ some scoring
    → FoundWith
        (IsGradedWith db.options (select (is_of s.id) db.answers))
        s.id
        (after (grade_found s now db))
unfolding grade_found
grade_found-FoundWith s now scoring db e h = elim (Bool-cases (is_in_progress s.status)) [
  | inr p ↦
      rw (p, grade_found)
        (rw (scoring_of-same s.package_id scoring db h) (grade_answers-FoundWith s s scoring db e))
  | inl p ↦
      rw (p, grade_found)
        (rw (scoring_of-write_session s.package_id scoring s.id (set_forced now) db h) (
          grade_answers-FoundWith s (set_forced now s) scoring
            (write_session s.id (set_forced now) db)
            (rw (first-by-update session_id s.id s.id (set_forced now) db.sessions (λ x. refl))
              (rw e (rw (==_refl s.id) refl)))))
]

-- Where a session is found that is not graded and its package, if it has one, is found too: after
-- `gradeSession` the session is graded, its counts are the numbers of its answers that select a
-- correct option of their question, that select another one and that select none, these add up to
-- the number of its answers, and its percentile is at most 100 %.
pub grade_session_lem :
    (id now : ℕ) (s : SimulationSession) (scoring : PackageScoring) (db : Db)
    → first (by session_id id) db.sessions ≡ some s
    → is_graded s.status ≡ false
    → value (scoring_of s.package_id db) ≡ some scoring
    → FoundWith
        (IsGradedWith db.options (select (is_of id) db.answers))
        id
        (after (grade_session id now db))
unfolding grade_session
grade_session_lem id now s scoring db e g h =
    subst
      (λ k.
        FoundWith (IsGradedWith db.options (select (is_of k) db.answers)) k
          (after (grade_session id now db)))
      same
      (rw (e, grade_session)
        (rw g (
          grade_found-FoundWith s now scoring db
            (subst (λ k. first (by session_id k) db.sessions ≡ some s) (sym same) e) h)))
  where
    same : s.id ≡ id
    same = (==_iff s.id id).0 (first-holds (by session_id id) db.sessions s e)
