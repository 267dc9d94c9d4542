-- ===== src/Simulations/Stuck.antt =====
-- Calls that fail half-way, and what they leave.
use package.ayo_snbt_backend.Common.{
  ℕ, ◌≡◌, refl, true, false, none, some, arith, first, ==_refl, ap,
}
use package.ayo_snbt_backend.Common.Action.{after, value, error, returns, throws, not_found_error}
use package.ayo_snbt_backend.Common.Keys.{by, first-by-update}
use package.ayo_snbt_backend.Simulations.Data.{
  submitted, is_in_progress, is_graded, in_progress, SimulationSession, Db, session_id,
}
use package.ayo_snbt_backend.Simulations.Grading.{
  auto_submit, grade_session, grade_found, scoring_of, get_package, write_session, set_forced,
}

-- The package is not found, so grading throws after it has written the submission.
deleted_throws :
    (s : SimulationSession) (pkg now : ℕ) (db : Db)
    → s.package_id ≡ some pkg
    → value (get_package pkg db) ≡ none
    → s.status ≡ in_progress
    → grade_found s now db ≡ throws not_found_error (write_session s.id (set_forced now) db)
unfolding grade_found scoring_of get_package
deleted_throws s pkg now db h n p = rw (p, grade_found) (rw (h, grade_found) (ground arith))

-- The session's row is submitted and its score is the one that it had.
abbrev pub IsStuck : SimulationSession → SimulationSession → Type 0
IsStuck s s' = (s'.status ≡ submitted) × (s'.score ≡ s.score)

throwing_auto_submit :
    (s : SimulationSession) (pkg now : ℕ) (db : Db)
    → first (by session_id s.id) db.sessions ≡ some s
    → s.status ≡ in_progress
    → s.package_id ≡ some pkg
    → value (get_package pkg db) ≡ none
    → auto_submit s.id now db ≡ throws not_found_error (write_session s.id (set_forced now) db)
unfolding auto_submit grade_session
throwing_auto_submit s pkg now db e p h n =
    rw (e, auto_submit)
      (rw (active, auto_submit)
        (rw (e, grade_session)
          (rw (ap is_graded p, grade_session) (deleted_throws s pkg now db h n p))))
  where
    active : is_in_progress s.status ≡ true
    active = ap is_in_progress p

repeated_auto_submit :
    (id now : ℕ) (s : SimulationSession) (db : Db)
    → first (by session_id id) db.sessions ≡ some s
    → is_in_progress s.status ≡ false
    → auto_submit id now db ≡ returns tt db
unfolding auto_submit
repeated_auto_submit id now s db e p = rw (e, auto_submit) (rw (p, auto_submit) refl)

-- A session in progress whose package has been deleted: the delayed `autoSubmit` throws and leaves
-- the session submitted without a score, and its retry returns and changes nothing, so the queue
-- takes the job for done and the session is never graded by it.
pub auto_submit_deleted :
    (s : SimulationSession) (pkg now later : ℕ) (db : Db)
    → first (by session_id s.id) db.sessions ≡ some s
    → s.status ≡ in_progress
    → s.package_id ≡ some pkg
    → value (get_package pkg db) ≡ none
    → (error (auto_submit s.id now db) ≡ some not_found_error)
      × (auto_submit s.id later (after (auto_submit s.id now db))
          ≡ returns tt (after (auto_submit s.id now db)))
      × (s' : SimulationSession) × (first
            (by session_id s.id)
            (after (auto_submit s.id now db)).sessions
          ≡ some s')
      × IsStuck s s'
auto_submit_deleted s pkg now later db e p h n = rw (throwing_auto_submit s pkg now db e p h n) (
  refl,
  repeated_auto_submit s.id later (set_forced now s) (write_session s.id (set_forced now) db) found
      refl,
  set_forced now s,
  found,
  (refl, refl),
)
  where
    found :
        first (by session_id s.id) (write_session s.id (set_forced now) db).sessions
        ≡ some (set_forced now s)
    found =
        rw (first-by-update session_id s.id s.id (set_forced now) db.sessions (λ x. refl))
          (rw e (rw (==_refl s.id) refl))
