-- ===== src/Simulations/Final.antt =====
-- A graded session is final: no call changes it.
pub mod Calls
use package.ayo_snbt_backend.Common.{
  ℕ, ◌≡◌, refl, sym, ap, inl, inr, ◌≢◌, subst, Bool, true, false, not, ◌&&◌, Option, none, some,
  List, [], ◌∷◌, ◌++◌, arith, first, update, any, ◌==◌, if◌then◌else◌, Bool-cases, Option-cases,
  ==_iff, first-holds, ◌⊎◌, length, select,
}
use package.ayo_snbt_backend.Common.Action.{after, value, returns, throws, after-and_then}
use package.ayo_snbt_backend.Common.Keys.{
  by, Distinct, Distinct-update, Distinct-append, first-by-update, first-by-append, first-by_key,
}
use package.ayo_snbt_backend.Simulations.Data.{
  SessionStatus, in_progress, submitted, graded, is_in_progress, is_graded, SimulationSession, Db,
  session_id, PackageScoring, is_of,
}
use package.ayo_snbt_backend.Simulations.Grading.{
  grade_session, grade_found, grade_answers, scoring_of, write_session, auto_submit, get_package,
  set_forced,
}

-- The session with this id is found, and is graded.
abbrev pub IsGradedAt : ℕ → SimulationSession → Db → Type 0
IsGradedAt id s db = (first (by session_id id) db.sessions ≡ some s) × (s.status ≡ graded)

-- Grading a session that is graded changes nothing.
pub grade_session-graded :
    (id now : ℕ) (s : SimulationSession) (db : Db)
    → IsGradedAt id s db
    → grade_session id now db ≡ returns tt db
unfolding grade_session
grade_session-graded id now s db h = rw (h.0, grade_session) (rw (h.1, grade_session) refl)

-- The graded session is found and ids are told apart.
abbrev pub Holds : ℕ → SimulationSession → Db → Type 0
Holds id s db = Distinct session_id db.sessions × IsGradedAt id s db

-- A write to another session leaves it.
write_session-Holds :
    (id other : ℕ) (f : SimulationSession → SimulationSession) (s : SimulationSession) (db : Db)
    → ((x : SimulationSession) → (f x).id ≡ x.id)
    → (id == other) ≡ false
    → Holds id s db
    → Holds id s (write_session other f db)
write_session-Holds id other f s db keep ne h = (
  Distinct-update session_id (by session_id other) f db.sessions keep h.0,
  (
    rw (first-by-update session_id other id f db.sessions keep) (rw ((h.1).0) (rw ne refl)),
    (h.1).1,
  ),
)

-- The session with this id is not graded, so it is another one.
apart :
    (id other : ℕ) (s s' : SimulationSession) (db : Db)
    → Holds id s db
    → first (by session_id other) db.sessions ≡ some s'
    → is_graded s'.status ≡ false
    → (id == other) ≡ false
apart id other s s' db h e n = elim (Bool-cases (id == other)) [
  | inr t ↦ t
  | inl t ↦ ground (
    arith,
    h.1,
    e,
    n,
    subst (λ k. first (by session_id k) db.sessions ≡ some s) ((==_iff id other).0 t) ((h.1).0),
  )
]

abbrev pub forced : SimulationSession → ℕ → Db → Db
forced s now db = if is_in_progress s.status then write_session s.id (set_forced now) db else db

scoring_of-after : (pkg : Option ℕ) (db : Db) → after (scoring_of pkg db) ≡ db
unfolding scoring_of get_package
scoring_of-after none db = refl
scoring_of-after (some pkg) db = ground arith

apart_found :
    (id session : ℕ) (s s' : SimulationSession) (db : Db)
    → Holds id s db
    → first (by session_id session) db.sessions ≡ some s'
    → is_graded s'.status ≡ false
    → (id == s'.id) ≡ false
apart_found id session s s' db h e g =
    rw ((==_iff s'.id session).0 (first-holds (by session_id session) db.sessions s' e))
      (apart id session s s' db h e g)

module _ (id : ℕ) (s : SimulationSession) where
  grade_answers-Holds :
      (s' : SimulationSession) (scoring : PackageScoring) (db : Db)
      → (id == s'.id) ≡ false
      → Holds id s db
      → Holds id s (grade_answers s' scoring db)
  unfolding grade_answers
  grade_answers-Holds s' scoring db ne h =
      elim (Bool-cases (length (select (is_of s'.id) db.answers) == 0)) [
        | inl e ↦ rw (e, grade_answers) (write_session-Holds id s'.id _ s db (λ x. refl) ne h)
        | inr e ↦ rw (e, grade_answers) (write_session-Holds id s'.id _ s db (λ x. refl) ne h)
      ]

  grade_found-Holds :
      (s' : SimulationSession) (now : ℕ) (db : Db)
      → (id == s'.id) ≡ false
      → Holds id s db
      → Holds id s (after (grade_found s' now db))
  unfolding grade_found
  grade_found-Holds s' now db ne h =
      after-and_then (Holds id s) (Holds id s) (scoring_of s'.package_id (forced s' now db)) _
        (rw (scoring_of-after s'.package_id (forced s' now db)) (forced-Holds (Bool-cases _)))
        (λ t k. k) (λ scoring t k. grade_answers-Holds s' scoring t ne k)
    where
      forced-Holds :
          (is_in_progress s'.status ≡ true) ⊎ (is_in_progress s'.status ≡ false)
          → Holds id s (forced s' now db)
      forced-Holds (inl e) = rw e (write_session-Holds id s'.id _ s db (λ x. refl) ne h)
      forced-Holds (inr e) = rw e h

  grade_session-Holds :
      (session now : ℕ) (db : Db)
      → Holds id s db
      → Holds id s (after (grade_session session now db))
  unfolding grade_session
  grade_session-Holds session now db h =
      elim (Option-cases (first (by session_id session) db.sessions)) [
        | inl e ↦ rw (e, grade_session) h
        | inr (s', e) ↦
            rw (e, grade_session)
              (elim (Bool-cases (is_graded s'.status)) [
                | inl g ↦ rw g h
                | inr g ↦
                    rw g (grade_found-Holds s' now db (apart_found id session s s' db h e g) h)
              ])
      ]

  auto_submit-Holds :
      (session now : ℕ) (db : Db) → Holds id s db → Holds id s (after (auto_submit session now db))
  unfolding auto_submit
  auto_submit-Holds session now db h =
      elim (Option-cases (first (by session_id session) db.sessions)) [
        | inl e ↦ rw (e, auto_submit) h
        | inr (s', e) ↦
            rw (e, auto_submit)
              (elim (Bool-cases (is_in_progress s'.status)) [
                | inl g ↦ rw g (grade_session-Holds session now db h)
                | inr g ↦ rw g h
              ])
      ]
