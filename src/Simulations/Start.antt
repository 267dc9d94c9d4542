-- ===== src/Simulations/Start.antt =====
-- `startSession` of modules/simulations/service.ts. The random order that the database gives the
-- rows of the question bank is a parameter; the new rows' ids and the clock are arguments. The
-- event and the log line are left out, and of the delayed job its delay.
use package.ayo_snbt_backend.Common.{
  ℕ, suc, ◌+◌, ◌*◌, Bool, false, not, ◌&&◌, ◌||◌, Option, none, some, List, [], ◌∷◌, ◌++◌, map,
  ◌==◌, ltb, leb, max, or_else, any, all, take, select, length,
}
use package.ayo_snbt_backend.Common.Action.{
  forbidden, Action, pure, throw_if, gets, modify, ◌>>=◌, ◌>>◌, bad_request_error, forbidden_error,
  validation_error, other_error, tryout_not_started, tryout_expired, attempt_limit_reached,
  package_empty, bank_empty,
}
use package.ayo_snbt_backend.Simulations.Data.{
  in_progress, simulation, is_practice, CountKey, by_category, by_tag, SimulationPackage,
  SimulationSession, SimulationAnswer, Question, auto_submits, Db, is_answer_to,
}
use package.ayo_snbt_backend.Simulations.Grading.{get_package}

-- The order that `random()` gives to the ids of the rows that match.
abbrev pub RandomOrder : Type 0
RandomOrder = List ℕ → List ℕ

-- The values that are new in a call: the clock, the session's id and the first answer's id.
pub record NewSession : Type 0 where
  pub now : ℕ
  pub id : ℕ
  pub answer_id : ℕ

abbrev pub is_same : Option ℕ → ℕ → Bool
is_same none k = false
is_same (some j) k = j == k

-- The user's try-outs of the package, finished or not.
abbrev pub is_attempt : ℕ → ℕ → SimulationSession → Bool
is_attempt user pkg s = (s.user_id == user) && is_same s.package_id pkg && not (is_practice s.type)

abbrev pub attempts_of : ℕ → ℕ → List SimulationSession → List SimulationSession
attempts_of user pkg sessions = select (is_attempt user pkg) sessions

-- The window: `scheduledAt` lies ahead, or `closesAt` behind.
unfoldable pub is_early : Option ℕ → ℕ → Bool
is_early none now = false
is_early (some t) now = ltb now t

unfoldable pub is_late : Option ℕ → ℕ → Bool
is_late none now = false
is_late (some t) now = ltb t now

unfoldable pub is_used_up : Option ℕ → ℕ → Bool
is_used_up none used = false
is_used_up (some m) used = leb m used

unfoldable pub last_start : List SimulationSession → Option ℕ
last_start [] = none
last_start (s ∷ ss) = some (max s.started_at (or_else (last_start ss) 0))

-- `if (pkg.retakeCooldownMinutes)`: none and 0 are no cooldown.
unfoldable pub is_cooling : Option ℕ → Option ℕ → ℕ → Bool
is_cooling none last now = false
is_cooling (some minutes) none now = false
is_cooling (some minutes) (some t) now = not (minutes == 0) && ltb now (t + minutes * 60_000)

unfoldable pub matches : CountKey → Question → Bool
matches (by_category c) q = (q.category == c) && q.is_multiple_choice && not q.is_deleted
matches (by_tag t) q = any (λ x. x == t) q.tags && q.is_multiple_choice && not q.is_deleted

-- The questions for one key, and for all the keys.
unfoldable pub pick_key : RandomOrder → List Question → CountKey × ℕ → List ℕ
unfolding matches
pick_key random questions e =
    take e.1 (random (map (λ (q : Question). q.id) (select (matches e.0) questions)))

unfoldable pub pick : RandomOrder → List Question → List (CountKey × ℕ) → List ℕ
unfolding pick_key
pick random questions [] = []
pick random questions (e ∷ es) = pick_key random questions e ++ pick random questions es

-- The new answers' rows, numbered from `i`.
unfoldable pub answer_rows : NewSession → List ℕ → ℕ → List SimulationAnswer
answer_rows fresh [] i = []
answer_rows fresh (q ∷ qs) i =
    record {
      id = fresh.answer_id + i;
      session_id = fresh.id;
      question_id = q;
      selected_option_id = none;
      answered_at = none;
      is_correct = none;
      is_flagged = false;
      time_spent_ms = 0;
      sort_order = i;
    }
    ∷ answer_rows fresh qs (suc i)

-- A row breaks the unique index on (session, question): with a row of the table or of the insert.
unfoldable pub breaks_index : List SimulationAnswer → List SimulationAnswer → Bool
breaks_index table [] = false
breaks_index table (r ∷ rs) =
    any (is_answer_to r.session_id r.question_id) table
    || any (is_answer_to r.session_id r.question_id) rs
    || breaks_index table rs

unfoldable pub new_session : NewSession → ℕ → SimulationPackage → SimulationSession
new_session fresh user p = record {
  id = fresh.id;
  user_id = user;
  package_id = some p.id;
  type = simulation;
  status = in_progress;
  started_at = fresh.now;
  deadline_at = fresh.now + p.duration_minutes * 60_000;
  submitted_at = none;
  score = none;
  max_score = 0;
  correct_count = 0;
  wrong_count = 0;
  blank_count = 0;
  percentile = none;
}

-- The checks of the package, the window and the attempt policy.
unfoldable pub check_start :
    NewSession → List SimulationSession → SimulationPackage → Action Db (Unit {0})
unfolding is_early is_late is_used_up is_cooling
check_start fresh attempts p = do
  throw_if (not p.is_published) (forbidden_error forbidden)
  throw_if (is_early p.scheduled_at fresh.now) (forbidden_error tryout_not_started)
  throw_if (is_late p.closes_at fresh.now) (forbidden_error tryout_expired)
  throw_if (is_used_up p.max_attempts (length attempts)) (forbidden_error attempt_limit_reached)
  throw_if (is_cooling p.retake_cooldown_minutes (last_start attempts) fresh.now)
      (forbidden_error attempt_limit_reached)
  throw_if (all (λ (e : CountKey × ℕ). e.1 == 0) p.question_counts)
      (bad_request_error package_empty)

-- The writes: the session, its answers' rows and the delayed job. The session's row stays where the
-- insert of the answers throws.
unfoldable pub insert_session : NewSession → ℕ → SimulationPackage → List ℕ → Action Db (ℕ × ℕ)
unfolding new_session answer_rows breaks_index
insert_session fresh user p picked = do
  modify (λ db. record db { sessions = db.sessions ++ new_session fresh user p ∷ [] })
  answers ← gets (λ db. db.answers)
  throw_if (breaks_index answers (answer_rows fresh picked 0)) other_error
  modify (λ db. record db { answers = db.answers ++ answer_rows fresh picked 0 })
  modify (λ db. record db { jobs = db.jobs ++ auto_submits fresh.id ∷ [] })
  pure (fresh.id, fresh.now + p.duration_minutes * 60_000)

-- `startSession`: the session's id and its deadline.
unfoldable pub start_session : RandomOrder → NewSession → ℕ → ℕ → Action Db (ℕ × ℕ)
unfolding get_package check_start pick insert_session
start_session random fresh user pkg = do
  p ← get_package pkg
  attempts ← gets (λ db. attempts_of user pkg db.sessions)
  check_start fresh attempts p
  picked ← gets (λ db. pick random db.questions p.question_counts)
  throw_if (length picked == 0) (bad_request_error bank_empty)
  insert_session fresh user p picked

-- `validateAttemptPolicy`, which a package's creation and change call. The numbers are natural, so
-- that the cooldown always passes.
unfoldable pub validate_attempt_policy : Option ℕ → Action Db (Unit {0})
validate_attempt_policy none = pure tt
validate_attempt_policy (some m) = throw_if (ltb m 1) (bad_request_error validation_error)
