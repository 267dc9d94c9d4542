-- ===== src/Challenges/Examples.antt =====
-- Answers on two days in a row, and a question pinned for a day.
use package.ayo_snbt_backend.Common.{ℕ, refl, true, false, some, List, [], ◌∷◌, if◌then◌else◌}
use package.ayo_snbt_backend.Common.Text.{Text}
use package.ayo_snbt_backend.Challenges.{Question, Answer, Db, has, days_of, streak}
use package.ayo_snbt_backend.Challenges.Streak.{IsRun, streak_lem}

abbrev answer : ℕ → Answer
answer t = record { user_id = 1; is_practice = true; answered_at = some t }

abbrev answers : List Answer
answers = answer 864_000_000 ∷ answer 950_400_005 ∷ []

streak_lem_example :
    IsRun
      (days_of 1 answers)
      (if has 12 (days_of 1 answers) then 12 else 11)
      (streak 1_036_800_009 1 answers)
streak_lem_example = streak_lem 1_036_800_009 1 answers 11 refl

-- 2026-07-01
abbrev day : Text
day = 50 ∷ 48 ∷ 50 ∷ 54 ∷ 45 ∷ 48 ∷ 55 ∷ 45 ∷ 48 ∷ 49 ∷ []

abbrev question : ℕ → Question
question id = record { id = id; is_multiple_choice = true; is_deleted = false }

abbrev table : Db
table = record {
  daily_challenges = record { date = day; question_id = 4; created_by = 2 } ∷ [];
  questions = question 4 ∷ question 5 ∷ [];
  answers = [];
}
