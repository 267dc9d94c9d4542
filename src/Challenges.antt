-- ===== src/Challenges.antt =====
-- modules/challenges/service.ts: the question of the day and the streak. A day of the streak is its
-- number since 1970, and `getToday` takes the day's key as a text.
pub mod Streak
mod Examples
use package.ayo_snbt_backend.Common.{
  ℕ, zero, suc, ◌/◌, ◌%◌, ◌-◌, Bool, true, false, not, ◌&&◌, ◌||◌, Option, none, some, List, [],
  ◌∷◌, ◌++◌, ◌==◌, leb, if◌then◌else◌, any, first, select, update, get_elem?, length,
}
use package.ayo_snbt_backend.Common.Action.{
  Action, pure, throw_if, or_throw, gets, modify, ◌>>=◌, ◌>>◌, bad_request_error, not_found_error,
  validation_error,
}
use package.ayo_snbt_backend.Common.Text.{Text, text_eq}

pub record DailyChallenge : Type 0 where
  pub date : Text
  pub question_id : ℕ
  pub created_by : ℕ

pub record Question : Type 0 where
  pub id : ℕ
  pub is_multiple_choice : Bool
  pub is_deleted : Bool

pub record Answer : Type 0 where
  pub user_id : ℕ
  pub is_practice : Bool
  pub answered_at : Option ℕ

pub record Db : Type 0 where
  pub daily_challenges : List DailyChallenge
  pub questions : List Question
  pub answers : List Answer

-- The first row of the random order; `draw` is the random number.
unfoldable pub pick : ℕ → List Question → Option Question
pick draw [] = none
pick draw (q ∷ qs) = get_elem? (q ∷ qs) (draw % length (q ∷ qs))

abbrev pub is_candidate : Question → Bool
is_candidate q = q.is_multiple_choice && not q.is_deleted

-- `getToday`: the question that it shows.
unfoldable pub get_today : ℕ → Text → Action Db Question
unfolding pick
get_today draw today = do
  pinned ← gets (λ db. first (λ (c : DailyChallenge). text_eq c.date today) db.daily_challenges)
  random ← gets (λ db. pick draw (select is_candidate db.questions))
  question_id ←
      or_throw
        (elim pinned [
          | some c ↦ some c.question_id
          | none ↦ elim random [ none ↦ none | some q ↦ some q.id ]
        ])
        not_found_error
  found ← gets (λ db. first (λ (q : Question). q.id == question_id) db.questions)
  q ← or_throw found not_found_error
  pure q

-- The number of the day of a time.
abbrev pub day_of : ℕ → ℕ
day_of t = t / 86_400_000

-- The days of the user's practice answers.
unfoldable pub days_of : ℕ → List Answer → List ℕ
days_of user [] = []
days_of user (a ∷ as_) =
    let rest = days_of user as_ in
    if (a.user_id == user) && a.is_practice
    then elim a.answered_at [ none ↦ rest | some t ↦ day_of t ∷ rest ]
    else rest

abbrev pub has : ℕ → List ℕ → Bool
has d days = any (λ x. x == d) days

-- The `while` loop from a day on; no answer is older than day 0.
unfoldable pub count_back : List ℕ → ℕ → ℕ
count_back days zero = if has zero days then 1 else 0
count_back days (suc d) = let rest = count_back days d in if has (suc d) days then suc rest else 0

-- The day that the loop starts from: today, or yesterday where there is no answer today.
unfoldable pub start : List ℕ → ℕ → Option ℕ
start days zero = if has zero days then some zero else none
start days (suc d) = if has (suc d) days then some (suc d) else some d

-- `streak`; `now` is the time.
unfoldable pub streak : ℕ → ℕ → List Answer → ℕ
unfolding days_of count_back start
streak now user answers = elim (start (days_of user answers) (day_of now)) [
  | none ↦ 0
  | some d ↦ count_back (days_of user answers) d
]

abbrev is_digit : ℕ → Bool
is_digit c = leb 48 c && leb c 57

-- The pattern `^\d{4}-\d{2}-\d{2}$`.
unfoldable pub is_date : Text → Bool
is_date (a ∷ b ∷ c ∷ d ∷ x ∷ e ∷ f ∷ y ∷ g ∷ h ∷ []) =
    is_digit a
    && is_digit b
    && is_digit c
    && is_digit d
    && (x == 45)
    && is_digit e
    && is_digit f
    && (y == 45)
    && is_digit g
    && is_digit h
is_date _ = false

-- The insert with `onConflictDoUpdate`.
unfoldable pub upsert_challenge : ℕ → Text → ℕ → List DailyChallenge → List DailyChallenge
upsert_challenge admin date question rows =
    if any (λ (c : DailyChallenge). text_eq c.date date) rows
    then update (λ (c : DailyChallenge). text_eq c.date date)
        (λ c. record c { question_id = question }) rows
    else rows ++ record { date = date; question_id = question; created_by = admin } ∷ []

-- `pinChallenge`.
unfoldable pub pin_challenge : ℕ → Text → ℕ → Action Db (Unit {0})
unfolding is_date upsert_challenge
pin_challenge admin_id date question_id = do
  throw_if (not (is_date date)) (bad_request_error validation_error)
  q ← gets (λ db. first (λ (q : Question). q.id == question_id) db.questions)
  _ ← or_throw q not_found_error
  modify (λ db. record db {
    daily_challenges = upsert_challenge admin_id date question_id db.daily_challenges;
  })
