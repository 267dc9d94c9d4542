-- ===== src/Simulations/Sessions.antt =====
-- The student's calls of modules/simulations/service.ts on a session: saving and flagging an
-- answer, submitting, and the practice calls. `now` is the clock; the explanations that a practice
-- answer returns are left out.
use package.ayo_snbt_backend.Common.{
  is_some, ℕ, ◌+◌, ◌-◌, ◌*◌, Bool, true, false, not, ◌&&◌, Option, none, some, List, [], ◌∷◌, ◌++◌,
  ◌==◌, ltb, max, if◌then◌else◌, or_else, any, first, select, update, length,
}
use package.ayo_snbt_backend.Common.Action.{
  Action, pure, throw, throw_if, or_throw, gets, modify, ◌>>=◌, ◌>>◌, bad_request_error,
  not_found_error, bad_request, session_closed, session_expired,
}
use package.ayo_snbt_backend.Common.Keys.{by}
use package.ayo_snbt_backend.Simulations.Data.{
  submitted, graded, is_in_progress, is_practice, Weights, SimulationSession, SimulationAnswer,
  grade, Db, is_of, is_answer_to,
}
use package.ayo_snbt_backend.Simulations.Grading.{get_package, grade_session}
use package.ayo_snbt_backend.Simulations.Scoring.{is_right}

-- `and(eq(sessions.id, id), eq(sessions.userId, user))`.
abbrev pub is_owned : ℕ → ℕ → SimulationSession → Bool
is_owned user session s = (s.id == session) && (s.user_id == user)

unfoldable pub get_owned_session : ℕ → ℕ → Action Db SimulationSession
get_owned_session user session = do
  sessions ← gets (λ db. db.sessions)
  or_throw (first (is_owned user session) sessions) not_found_error

abbrev pub is_open : ℕ → SimulationSession → Bool
is_open session s = (s.id == session) && is_in_progress s.status

abbrev pub set_submitted : ℕ → SimulationSession → SimulationSession
set_submitted now s = record s { status = submitted; submitted_at = some now }

-- `submitSession`: whether this call submitted; otherwise it was submitted already.
unfoldable pub submit_session : ℕ → ℕ → ℕ → Action Db Bool
unfolding get_owned_session
submit_session user session now = do
  s ← get_owned_session user session
  if not (is_in_progress s.status) then pure false else (do
    updated ← gets (λ db. any (is_open session) db.sessions)
    modify (λ db. record db { sessions = update (is_open session) (set_submitted now) db.sessions })
    if not updated
        then pure false
        else (do modify (λ db. record db { jobs = db.jobs ++ grade session ∷ [] }); pure true))

unfoldable pub last_time : List SimulationAnswer → ℕ
last_time [] = 0
last_time (a ∷ rest) = max (or_else a.answered_at 0) (last_time rest)

-- The first row's `answeredAt` in the order `DESC`, in which PostgreSQL puts null before every time.
unfoldable pub latest : List SimulationAnswer → Option ℕ
unfolding last_time
latest [] = none
latest (a ∷ rest) =
    if any (λ x. not (is_some x.answered_at)) (a ∷ rest) then none else some (last_time (a ∷ rest))

abbrev pub answer_key : SimulationAnswer → ℕ
answer_key a = a.id

abbrev pub set_selected : ℕ → ℕ → ℕ → SimulationAnswer → SimulationAnswer
set_selected option now spent a = record a {
  selected_option_id = some option;
  answered_at = some now;
  time_spent_ms = spent;
}

-- The part of `saveAnswer` after the deadline test: the time spent on the question. A negative
-- difference counts as 0, as subtraction does.
unfoldable pub write_answer : SimulationSession → ℕ → ℕ → ℕ → Action Db ℕ
unfolding latest
write_answer s question option now = do
  answers ← gets (λ db. db.answers)
  a ← or_throw (first (is_answer_to s.id question) answers) (bad_request_error bad_request)
  spent ←
      pure (a.time_spent_ms + (now - or_else (latest (select (is_of s.id) answers)) s.started_at))
  modify (λ db. record db {
    answers = update (by answer_key a.id) (set_selected option now spent) db.answers;
  })
  pure spent

-- `saveAnswer`.
unfoldable pub save_answer : ℕ → ℕ → ℕ → ℕ → ℕ → Action Db ℕ
unfolding get_owned_session submit_session grade_session write_answer
save_answer user session question option now = do
  s ← get_owned_session user session
  throw_if (not (is_in_progress s.status)) (bad_request_error session_closed)
  if ltb s.deadline_at now
      then (do
        _ ← submit_session user session now
        grade_session session now
        throw (bad_request_error session_expired))
      else write_answer s question option now

abbrev pub set_flag : Bool → SimulationAnswer → SimulationAnswer
set_flag is_flagged a = record a { is_flagged = is_flagged }

-- `flagAnswer`.
unfoldable pub flag_answer : ℕ → ℕ → ℕ → Bool → Action Db Bool
unfolding get_owned_session
flag_answer user session question is_flagged = do
  s ← get_owned_session user session
  throw_if (not (is_in_progress s.status)) (bad_request_error session_closed)
  answers ← gets (λ db. db.answers)
  a ← or_throw (first (is_answer_to session question) answers) (bad_request_error bad_request)
  modify
      (λ db. record db { answers = update (by answer_key a.id) (set_flag is_flagged) db.answers })
  pure is_flagged

abbrev pub set_practice : ℕ → ℕ → Bool → SimulationAnswer → SimulationAnswer
set_practice option now right a = record a {
  selected_option_id = some option;
  answered_at = some now;
  is_correct = some right;
}

-- `practiceAnswer`: whether the answer is correct.
unfoldable pub practice_answer : ℕ → ℕ → ℕ → ℕ → ℕ → Action Db Bool
unfolding get_owned_session
practice_answer user session question option now = do
  s ← get_owned_session user session
  throw_if (not (is_practice s.type)) (bad_request_error bad_request)
  throw_if (not (is_in_progress s.status)) (bad_request_error session_closed)
  answers ← gets (λ db. db.answers)
  a ← or_throw (first (is_answer_to session question) answers) (bad_request_error bad_request)
  right ← gets (λ db. is_right db.options question option)
  modify (λ db. record db {
    answers = update (by answer_key a.id) (set_practice option now right) db.answers;
  })
  pure right

abbrev pub is_mark : Option Bool → SimulationAnswer → Bool
is_mark none a = elim a.is_correct [ none ↦ true | some b ↦ false ]
is_mark (some true) a = or_else a.is_correct false
is_mark (some false) a = not (or_else a.is_correct true)

unfoldable pub practice_weights : Option ℕ → Action Db Weights
unfolding get_package
practice_weights none = pure (record { correct = 4; blank = 0; wrong = 0 })
practice_weights (some pkg) = do p ← get_package pkg; pure (p.scoring).base

abbrev pub set_finished : ℕ → ℕ → ℕ → ℕ → SimulationSession → SimulationSession
set_finished points correct wrong blank s = record s {
  status = graded;
  score = some points;
  correct_count = correct;
  wrong_count = wrong;
  blank_count = blank;
}

-- `finishPractice`: the score, or none where the practice was finished already.
unfoldable pub finish_practice : ℕ → ℕ → Action Db (Option ℕ)
unfolding get_owned_session practice_weights
finish_practice user session = do
  s ← get_owned_session user session
  throw_if (not (is_practice s.type)) (bad_request_error bad_request)
  if not (is_in_progress s.status) then pure none else (do
    answers ← gets (λ db. select (is_of session) db.answers)
    w ← practice_weights s.package_id
    correct ← pure (length (select (is_mark (some true)) answers))
    wrong ← pure (length (select (is_mark (some false)) answers))
    blank ← pure (length (select (is_mark none) answers))
    points ← pure (correct * w.correct + wrong * w.wrong + blank * w.blank)
    modify (λ db. record db {
      sessions =
          update (λ x. x.id == session) (set_finished points correct wrong blank) db.sessions;
    })
    pure (some points))
