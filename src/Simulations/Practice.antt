-- ===== src/Simulations/Practice.antt =====
-- `startPractice` and `getPracticeSession` of modules/simulations/service.ts.
use package.ayo_snbt_backend.Common.{
  ℕ, ◌+◌, ◌*◌, min, Bool, true, false, not, ◌&&◌, Option, none, some, List, [], ◌∷◌, ◌++◌, ◌==◌,
  if◌then◌else◌, or_else, is_some, any, select, take, length, map,
}
use package.ayo_snbt_backend.Common.Action.{
  Action, pure, throw_if, gets, modify, ◌>>=◌, ◌>>◌, bad_request_error, other_error, bad_request,
  bank_empty,
}
use package.ayo_snbt_backend.Simulations.Data.{
  in_progress, practice, is_practice, SimulationSession, SimulationAnswer, Question, QuestionOption,
  Db, is_of,
}
use package.ayo_snbt_backend.Simulations.Grading.{get_package}
use package.ayo_snbt_backend.Simulations.Start.{
  RandomOrder, NewSession, pick, answer_rows, breaks_index,
}
use package.ayo_snbt_backend.Simulations.Sessions.{get_owned_session, is_mark, practice_weights}

-- The input of `startPractice`; a tag is its normalized name.
pub record PracticeInput : Type 0 where
  pub package_id : Option ℕ
  pub category : Option ℕ
  pub difficulty : Option ℕ
  pub count : Option ℕ
  pub question_ids : Option (List ℕ)
  pub tag : Option ℕ

-- No filter is given, so that the package's own distribution is used.
abbrev is_unfiltered : PracticeInput → Bool
is_unfiltered input =
    not (is_some input.category) && not (is_some input.difficulty) && not (is_some input.tag)

-- The questions by the package's `questionCounts`.
unfoldable pub pick_package : RandomOrder → PracticeInput → Action Db (List ℕ)
unfolding get_package pick
pick_package random input = elim input.package_id [
  | none ↦ pure []
  | some id ↦ (do
    p ← get_package id
    gets (λ db. if is_unfiltered input then pick random db.questions p.question_counts else []))
]

abbrev equals : Option ℕ → ℕ → Bool
equals none x = true
equals (some y) x = x == y

-- `if (input.questionIds?.length)`
abbrev is_listed : Option (List ℕ) → ℕ → Bool
is_listed none x = true
is_listed (some []) x = true
is_listed (some (i ∷ is)) x = any (λ j. j == x) (i ∷ is)

-- The clauses of the fallback.
unfoldable pub is_wanted : PracticeInput → Question → Bool
is_wanted input q =
    q.is_multiple_choice
    && not q.is_deleted
    && equals input.category q.category
    && equals input.difficulty q.difficulty
    && elim input.tag [ none ↦ true | some t ↦ any (λ x. x == t) q.tags ]
    && is_listed input.question_ids q.id

-- `input.questionIds?.length ?? Math.min(input.count ?? 10, 100)`: an empty list wants no question.
unfoldable pub wanted_count : PracticeInput → ℕ
wanted_count input = elim input.question_ids [
  | some ids ↦ length ids
  | none ↦ min (or_else input.count 10) 100
]

unfoldable pub pick_filtered : RandomOrder → PracticeInput → List Question → List ℕ
unfolding is_wanted wanted_count
pick_filtered random input questions =
    take (wanted_count input)
      (random (map (λ (q : Question). q.id) (select (is_wanted input) questions)))

abbrev is_empty {ℓ} : {A : Type ℓ} → List A → Bool
is_empty [] = true
is_empty (x ∷ xs) = false

-- A year.
unfoldable pub practice_session : NewSession → ℕ → Option ℕ → ℕ → SimulationSession
practice_session fresh user package_id max_score = record {
  id = fresh.id;
  user_id = user;
  package_id = package_id;
  type = practice;
  status = in_progress;
  started_at = fresh.now;
  deadline_at = fresh.now + 365 * 86_400_000;
  submitted_at = none;
  score = none;
  max_score = max_score;
  correct_count = 0;
  wrong_count = 0;
  blank_count = 0;
  percentile = none;
}

-- `startPractice`: the session's id, and the questions that were picked. The weights are read before
-- the questions are picked, and of the package.
unfoldable pub start_practice :
    RandomOrder → NewSession → ℕ → PracticeInput → Action Db (ℕ × List ℕ)
unfolding practice_weights pick_package pick_filtered practice_session answer_rows breaks_index
start_practice random fresh user input = do
  w ← practice_weights input.package_id
  by_package ← pick_package random input
  fallback ← gets (λ db. pick_filtered random input db.questions)
  let picked : List ℕ = if is_empty by_package then fallback else by_package
  throw_if (is_empty picked) (bad_request_error bank_empty)
  modify (λ db. record db {
    sessions =
        db.sessions
        ++ practice_session fresh user input.package_id (length picked * w.correct) ∷ [];
  })
  answers ← gets (λ db. db.answers)
  throw_if (breaks_index answers (answer_rows fresh picked 0)) other_error
  modify (λ db. record db { answers = db.answers ++ answer_rows fresh picked 0 })
  pure (fresh.id, picked)

-- A question of `getPracticeSession`, with its options' ids.
pub record PracticeQuestion : Type 0 where
  pub id : ℕ
  pub answered : Bool
  pub selected_option_id : Option ℕ
  pub is_correct : Option Bool
  pub options : List ℕ

abbrev pub options_of : ℕ → List QuestionOption → List QuestionOption
options_of question options = select (λ (o : QuestionOption). o.question_id == question) options

-- The questions of the answers' rows; a row whose question is gone is left out.
unfoldable pub practice_questions : Db → List SimulationAnswer → List PracticeQuestion
practice_questions db [] = []
practice_questions db (a ∷ rows) =
    let rest = practice_questions db rows in
    if any (λ (q : Question). q.id == a.question_id) db.questions
    then record {
      id = a.question_id;
      answered = is_some a.selected_option_id;
      selected_option_id = a.selected_option_id;
      is_correct = a.is_correct;
      options = map (λ (o : QuestionOption). o.id) (options_of a.question_id db.options);
    }
      ∷ rest
    else rest

pub record PracticeView : Type 0 where
  pub session : SimulationSession
  pub questions : List PracticeQuestion
  pub total : ℕ
  pub answered : ℕ
  pub correct : ℕ

-- `getPracticeSession`, before the order by `sortOrder`.
unfoldable pub get_practice_session : ℕ → ℕ → Action Db PracticeView
unfolding get_owned_session practice_questions
get_practice_session user id = do
  s ← get_owned_session user id
  throw_if (not (is_practice s.type)) (bad_request_error bad_request)
  rows ← gets (λ db. select (is_of id) db.answers)
  questions ← gets (λ db. practice_questions db rows)
  pure (record {
    session = s;
    questions = questions;
    total = length rows;
    answered = length (select (λ (a : SimulationAnswer). is_some a.selected_option_id) rows);
    correct = length (select (is_mark (some true)) rows);
  })
