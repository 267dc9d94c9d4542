-- ===== src/Simulations/Final/Calls.antt =====
-- No call of a student or of the grading queue changes a graded session.
use package.ayo_snbt_backend.Common.{
  ℕ, ◌≡◌, refl, inl, inr, Bool, true, false, none, some, List, [], ◌∷◌, ◌++◌, arith, first, update,
  any, ◌==◌, Bool-cases, Option-cases, ==_iff, first-update, first-holds, ltb, subst, Option,
  first_of_none, ◌∙◌, length,
}
use package.ayo_snbt_backend.Common.Action.{after, after-and_then}
use package.ayo_snbt_backend.Common.Keys.{
  by, Distinct-update, Distinct-append, first-by-append, first-by_key,
}
use package.ayo_snbt_backend.Simulations.Data.{
  is_in_progress, is_graded, SimulationSession, Db, session_id, grade, auto_submits, SessionStatus,
  is_practice, SimulationPackage,
}
use package.ayo_snbt_backend.Simulations.Grading.{
  process_grading_job, get_package, write_session, grade_session,
}
use package.ayo_snbt_backend.Simulations.Sessions.{
  submit_session, save_answer, flag_answer, practice_answer, finish_practice, get_owned_session,
  is_owned, is_open, set_submitted, write_answer, practice_weights,
}
use package.ayo_snbt_backend.Simulations.Start.{
  RandomOrder, NewSession, start_session, check_start, insert_session, new_session, attempts_of,
  breaks_index, answer_rows, pick,
}
use package.ayo_snbt_backend.Simulations.Final.{
  Holds, grade_session-Holds, auto_submit-Holds, apart, write_session-Holds,
}
use package.ayo_snbt_backend.Simulations.Step.{
  Call, starts, saves, flags, submits, practices, finishes, processes, step, run,
}

practice_weights-after : (pkg : Option ℕ) (db : Db) → after (practice_weights pkg db) ≡ db
unfolding practice_weights get_package
practice_weights-after none db = refl
practice_weights-after (some pkg) db = ground arith

get_package-after : (pkg : ℕ) (db : Db) → after (get_package pkg db) ≡ db
unfolding get_package
get_package-after pkg db = ground arith

check_start-after :
    (fresh : NewSession) (attempts : List SimulationSession) (p : SimulationPackage) (db : Db)
    → after (check_start fresh attempts p db) ≡ db
unfolding check_start
check_start-after fresh attempts p db = ground arith

module _ (id : ℕ) (s : SimulationSession) where
  -- The submitting write changes sessions in progress only.
  submit-Holds :
      (session now : ℕ) (db : Db)
      → Holds id s db
      → Holds id s
          (record db { sessions = update (is_open session) (set_submitted now) db.sessions })
  submit-Holds session now db h = (
    Distinct-update session_id (is_open session) (set_submitted now) db.sessions (λ x. refl) h.0,
    (
      rw
          (first-update (is_open session) (by session_id id) (set_submitted now) db.sessions
            (λ x. refl))
          (rw ((h.1).0) (rw ((h.1).1) (ground arith))),
      (h.1).1,
    ),
  )

  submit_session-Holds :
      (user session now : ℕ) (db : Db)
      → Holds id s db
      → Holds id s (after (submit_session user session now db))
  unfolding submit_session get_owned_session
  submit_session-Holds user session now db h =
      elim (Option-cases (first (is_owned user session) db.sessions)) [
        | inl e ↦ rw (e, submit_session) h
        | inr (o, e) ↦
            rw (e, submit_session)
              (elim (Bool-cases (is_in_progress o.status)) [
                | inr p ↦ rw p h
                | inl p ↦ rw p (elim (Bool-cases (any (is_open session) db.sessions)) [
                  | inr u ↦ rw u (submit-Holds session now db h)
                  | inl u ↦ rw u (submit-Holds session now db h)
                ])
              ])
      ]

  flag_answer-sessions :
      (user session question : ℕ) (b : Bool) (db : Db)
      → (after (flag_answer user session question b db)).sessions ≡ db.sessions
  unfolding flag_answer get_owned_session
  flag_answer-sessions user session question b db = ground arith

  practice_answer-sessions :
      (user session question option now : ℕ) (db : Db)
      → (after (practice_answer user session question option now db)).sessions ≡ db.sessions
  unfolding practice_answer get_owned_session
  practice_answer-sessions user session question option now db = ground arith

  write_answer-sessions :
      (o : SimulationSession) (question option now : ℕ) (db : Db)
      → (after (write_answer o question option now db)).sessions ≡ db.sessions
  unfolding write_answer
  write_answer-sessions o question option now db = ground arith

  save_answer-Holds :
      (user session question option now : ℕ) (db : Db)
      → Holds id s db
      → Holds id s (after (save_answer user session question option now db))
  unfolding save_answer get_owned_session
  save_answer-Holds user session question option now db h =
      elim (Option-cases (first (is_owned user session) db.sessions)) [
        | inl e ↦ rw (e, save_answer) h
        | inr (o, e) ↦
            rw (e, save_answer)
              (elim (Bool-cases (is_in_progress o.status)) [
                | inr p ↦ rw p h
                | inl p ↦ rw p (elim (Bool-cases (ltb o.deadline_at now)) [
                  | inr t ↦ rw t (rw (write_answer-sessions o question option now db) h)
                  | inl t ↦ rw t (
                      after-and_then (Holds id s) (Holds id s) (submit_session user session now db)
                        _ (submit_session-Holds user session now db h) (λ u k. k)
                        (λ b u k.
                          after-and_then (Holds id s) (Holds id s) (grade_session session now u) _
                            (grade_session-Holds id s session now u k) (λ v l. l) (λ b v l. l)))
                ])
              ])
      ]

  finish_write-Holds :
      (o : SimulationSession) (f : SimulationSession → SimulationSession) (user session : ℕ)
      (db : Db)
      → ((x : SimulationSession) → (f x).id ≡ x.id)
      → first (is_owned user session) db.sessions ≡ some o
      → is_in_progress o.status ≡ true
      → Holds id s db
      → Holds id s (write_session session f db)
  finish_write-Holds o f user session db keep e p h =
      write_session-Holds id session f s db keep
        (apart id session s o db h
          (subst (λ k. first (by session_id k) db.sessions ≡ some o) (ground (arith, owned))
            (first-by_key session_id (is_owned user session) db.sessions o h.0 e))
          (open_ungraded o.status p))
        h
    where
      owned : is_owned user session o ≡ true
      owned = first-holds (is_owned user session) db.sessions o e

      open_ungraded : (t : SessionStatus) → is_in_progress t ≡ true → is_graded t ≡ false
      open_ungraded t q = ground arith

  finish_practice-Holds :
      (user session : ℕ) (db : Db)
      → Holds id s db
      → Holds id s (after (finish_practice user session db))
  unfolding finish_practice get_owned_session practice_weights get_package
  finish_practice-Holds user session db h =
      elim (Option-cases (first (is_owned user session) db.sessions)) [
        | inl e ↦ rw (e, finish_practice) h
        | inr (o, e) ↦
            rw (e, finish_practice)
              (elim (Bool-cases (is_practice o.type)) [
                | inr q ↦ rw q h
                | inl q ↦ rw q (elim (Bool-cases (is_in_progress o.status)) [
                  | inr p ↦ rw p h
                  | inl p ↦ rw p (
                      after-and_then (λ d. d ≡ db) (Holds id s) (practice_weights o.package_id db) _
                        (practice_weights-after o.package_id db) (λ d k. rw k h)
                        (λ w d k. rw k (finish_write-Holds o _ user session db (λ x. refl) e p h)))
                ])
              ])
      ]

  insert_session-sessions :
      (fresh : NewSession) (user : ℕ) (p : SimulationPackage) (picked : List ℕ) (db : Db)
      → (after (insert_session fresh user p picked db)).sessions
        ≡ db.sessions ++ new_session fresh user p ∷ []
  unfolding insert_session
  insert_session-sessions fresh user p picked db =
      elim (Bool-cases (breaks_index db.answers (answer_rows fresh picked 0))) [
        | inl e ↦ rw (e, insert_session) refl
        | inr e ↦ rw (e, insert_session) refl
      ]

  insert_session-Holds :
      (fresh : NewSession) (user : ℕ) (p : SimulationPackage) (picked : List ℕ) (db : Db)
      → any (by session_id fresh.id) db.sessions ≡ false
      → Holds id s db
      → Holds id s (after (insert_session fresh user p picked db))
  unfolding new_session
  insert_session-Holds fresh user p picked db new h =
      rw (insert_session-sessions fresh user p picked db) (
        Distinct-append session_id db.sessions (new_session fresh user p) new h.0,
        (
          rw (first-by-append session_id id db.sessions (new_session fresh user p) new)
              (elim (Bool-cases (fresh.id == id)) [
                | inr e ↦ rw e ((h.1).0)
                | inl e ↦ ground (
                  arith,
                  (h.1).0,
                  first_of_none (by session_id fresh.id) db.sessions new,
                  (==_iff fresh.id id).0 e,
                )
              ]),
          (h.1).1,
        ),
      )

  start_session-Holds :
      (random : RandomOrder) (fresh : NewSession) (user pkg : ℕ) (db : Db)
      → any (by session_id fresh.id) db.sessions ≡ false
      → Holds id s db
      → Holds id s (after (start_session random fresh user pkg db))
  unfolding start_session
  start_session-Holds random fresh user pkg db new h =
      after-and_then (λ d. d ≡ db) (Holds id s) (get_package pkg db) _ (get_package-after pkg db)
        (λ d k. rw k h)
        (λ p d k.
          after-and_then (λ t. t ≡ db) (Holds id s)
            (check_start fresh (attempts_of user pkg d.sessions) p d) _
            (check_start-after fresh (attempts_of user pkg d.sessions) p d ∙ k) (λ t l. rw l h)
            (λ u t l.
              rw l (elim (Bool-cases (length (pick random db.questions p.question_counts) == 0)) [
                | inl z ↦ rw z h
                | inr z ↦ rw z (
                    insert_session-Holds fresh user p (pick random db.questions p.question_counts)
                      db new h)
              ])))

-- The id of the session that a call starts is new.
abbrev pub IsFresh : Db → Call → Type 0
IsFresh db (starts fresh user pkg) = any (by session_id fresh.id) db.sessions ≡ false
IsFresh db (saves user session question option now) = Unit
IsFresh db (flags user session question is_flagged) = Unit
IsFresh db (submits user session now) = Unit
IsFresh db (practices user session question option now) = Unit
IsFresh db (finishes user session) = Unit
IsFresh db (processes job now) = Unit

abbrev pub AllFresh : RandomOrder → Db → List Call → Type 0
AllFresh random db [] = Unit
AllFresh random db (c ∷ cs) = IsFresh db c × AllFresh random (step random db c) cs

module _ (random : RandomOrder) (id : ℕ) (s : SimulationSession) where
  step-Holds : (db : Db) (c : Call) → IsFresh db c → Holds id s db → Holds id s (step random db c)
  unfolding step process_grading_job
  step-Holds db (starts fresh user pkg) new h =
      start_session-Holds id s random fresh user pkg db new h
  step-Holds db (saves user session question option now) new h =
      save_answer-Holds id s user session question option now db h
  step-Holds db (flags user session question b) new h =
      rw (flag_answer-sessions id s user session question b db) h
  step-Holds db (submits user session now) new h = submit_session-Holds id s user session now db h
  step-Holds db (practices user session question option now) new h =
      rw (practice_answer-sessions id s user session question option now db) h
  step-Holds db (finishes user session) new h = finish_practice-Holds id s user session db h
  step-Holds db (processes (grade session) now) new h = grade_session-Holds id s session now db h
  step-Holds db (processes (auto_submits session) now) new h =
      auto_submit-Holds id s session now db h

  -- A graded session, with its score and its counts, is the same after any sequence of calls that
  -- start sessions (under new ids), save, flag, submit, practise, finish, grade and auto-submit.
  pub run-Holds :
      (db : Db) (cs : List Call)
      → AllFresh random db cs
      → Holds id s db
      → Holds id s (run random db cs)
  unfolding run
  run-Holds db [] new h = h
  run-Holds db (c ∷ cs) new h = run-Holds (step random db c) cs new.1 (step-Holds db c new.0 h)
