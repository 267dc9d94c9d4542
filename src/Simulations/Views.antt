-- ===== src/Simulations/Views.antt =====
-- `getResult`, `getLeaderboard` and `getReview` of modules/simulations/service.ts. Titles
-- and names are left out, as are the cache of the leaderboard and the video's address.
pub mod Ranked
mod Examples
use package.ayo_snbt_backend.Common.{
  ℕ, suc, ◌+◌, ◌-◌, ◌*◌, Bool, true, false, not, ◌&&◌, ◌||◌, Option, none, some, List, [], ◌∷◌,
  ◌++◌, ◌==◌, ltb, leb, if◌then◌else◌, or_else, is_some, any, first, select, take, length, map,
}
use package.ayo_snbt_backend.Common.Action.{
  Action, pure, throw_if, gets, ◌>>=◌, ◌>>◌, bad_request_error, not_graded,
}
use package.ayo_snbt_backend.Simulations.Data.{
  SimulationPackage, SimulationSession, SimulationAnswer, Question, QuestionOption, Db, is_graded,
  is_practice, is_of,
}
use package.ayo_snbt_backend.Simulations.Grading.{get_package, compute_rank, is_graded_of}
use package.ayo_snbt_backend.Simulations.Sessions.{get_owned_session}
use package.ayo_snbt_backend.Simulations.Practice.{options_of}

-- The rank of the session, where it has a package.
abbrev rank_of : SimulationSession → Db → Option ℕ
rank_of s db = elim s.package_id [
  | none ↦ none
  | some p ↦ some (compute_rank p (or_else s.score 0) s.id db.sessions)
]

abbrev load_package : Option ℕ → Action Db (Option SimulationPackage)
load_package none = pure none
load_package (some id) = do p ← get_package id; pure (some p)

-- `getResult`: the session with its rank. It throws where the package was removed.
unfoldable pub get_result : ℕ → ℕ → Action Db (SimulationSession × Option ℕ)
unfolding get_owned_session get_package compute_rank
get_result user id = do
  s ← get_owned_session user id
  throw_if (not (is_graded s.status)) (bad_request_error not_graded)
  _ ← load_package s.package_id
  rank ← gets (rank_of s)
  pure (s, rank)

pub data Period : Type 0 where
  week month all_time : Period

-- The start of the period.
unfoldable pub cutoff : Period → ℕ → Option ℕ
cutoff week now = some (now - 7 * 24 * 3_600_000)
cutoff month now = some (now - 30 * 24 * 3_600_000)
cutoff all_time now = none

abbrev is_recent : Option ℕ → Option ℕ → Bool
is_recent none submitted = true
is_recent (some t) none = false
is_recent (some t) (some u) = leb t u

abbrev is_friend : List ℕ → ℕ → Bool
is_friend [] user = true
is_friend (f ∷ fs) user = any (λ i. i == user) (f ∷ fs)

-- `buildWhere`: the type of the session is not asked.
unfoldable pub is_ranked : ℕ → Option ℕ → List ℕ → SimulationSession → Bool
is_ranked pkg since friends s =
    is_graded_of pkg s && is_recent since s.submitted_at && is_friend friends s.user_id

abbrev score_of : SimulationSession → ℕ
score_of s = or_else s.score 0

-- The order by the score, descending; a graded session has a score.
unfoldable pub insert_desc : SimulationSession → List SimulationSession → List SimulationSession
insert_desc s [] = s ∷ []
insert_desc s (x ∷ xs) =
    let rest = insert_desc s xs in if ltb (score_of x) (score_of s) then s ∷ x ∷ xs else x ∷ rest

unfoldable pub sort_desc : List SimulationSession → List SimulationSession
unfolding insert_desc
sort_desc [] = []
sort_desc (s ∷ ss) = insert_desc s (sort_desc ss)

-- `personalRank`: the score is that of the first row of the user.
unfoldable pub personal_rank : ℕ → List SimulationSession → Option ℕ
personal_rank user rows = elim (first (λ (s : SimulationSession). s.user_id == user) rows) [
  | none ↦ none
  | some mine ↦ elim mine.score [
    | none ↦ none
    | some x ↦ some (length (select (λ (s : SimulationSession). ltb x (score_of s)) rows) + 1)
  ]
]

-- `getLeaderboard`.
unfoldable pub get_leaderboard :
    ℕ → ℕ → ℕ → Period → List ℕ → Option ℕ → Db → List SimulationSession × Option ℕ
unfolding cutoff is_ranked sort_desc personal_rank
get_leaderboard now pkg limit period friends user db =
    let rows : List SimulationSession =
      select (is_ranked pkg (cutoff period now) friends) db.sessions in
    (take limit (sort_desc rows), elim user [ none ↦ none | some u ↦ personal_rank u rows ])

-- The options in the order of `sortOrder` are those of the table; correct options come by their ids.
pub record ReviewItem : Type 0 where
  pub question_id : ℕ
  pub selected_option_id : Option ℕ
  pub correct_option_ids : List ℕ
  pub is_correct : Option Bool
  pub options : List QuestionOption

unfoldable pub review_items : Db → List SimulationAnswer → List ReviewItem
review_items db [] = []
review_items db (a ∷ rows) =
    let rest = review_items db rows in
    let options : List QuestionOption = options_of a.question_id db.options in
    if any (λ (q : Question). q.id == a.question_id) db.questions
    then record {
      question_id = a.question_id;
      selected_option_id = a.selected_option_id;
      correct_option_ids =
          map (λ (o : QuestionOption). o.id)
            (select (λ (o : QuestionOption). o.is_correct) options);
      is_correct = a.is_correct;
      options = options;
    }
      ∷ rest
    else rest

-- `getReview`.
unfoldable pub get_review : ℕ → ℕ → Action Db (List ReviewItem)
unfolding get_owned_session review_items
get_review user id = do
  s ← get_owned_session user id
  throw_if (not (is_graded s.status)) (bad_request_error not_graded)
  rows ← gets (λ db. select (is_of id) db.answers)
  gets (λ db. review_items db rows)
