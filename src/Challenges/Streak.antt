-- ===== src/Challenges/Streak.antt =====
-- The streak is the longest run of days with answers up to its first day, and a question that is
-- pinned is the one that is shown.
use package.ayo_snbt_backend.Common.{
  ℕ, zero, suc, ◌-◌, ◌<◌, ◌≤◌, ◌≡◌, refl, ap, ◌∙◌, inl, inr, Bool, true, false, some, List, [], ◌∷◌,
  ◌++◌, arith, ◌==◌, if◌then◌else◌, any, first, update, Bool-cases,
}
use package.ayo_snbt_backend.Common.Action.{value, after}
use package.ayo_snbt_backend.Common.Text.{Text, text_eq, text_eq_refl}
use package.ayo_snbt_backend.Challenges.{
  DailyChallenge, Question, Answer, Db, has, count_back, start, streak, days_of, day_of,
  upsert_challenge, pin_challenge, get_today, is_date,
}

-- Each of the `n` days up to `d` has an answer, and the day before them, if there is one, has none.
abbrev pub IsRun : List ℕ → ℕ → ℕ → Type 0
IsRun days d n =
    ((k : ℕ) → k < n → has (d - k) days ≡ true) × (n ≤ d → has (d - n) days ≡ false) × (n ≤ suc d)

moved : (days : List ℕ) (a b : ℕ) (v : Bool) → a ≡ b → has b days ≡ v → has a days ≡ v
moved days a b v e h = ap (λ x. has x days) e ∙ h

extend :
    (days : List ℕ) (d n : ℕ)
    → has (suc d) days ≡ true
    → IsRun days d n
    → IsRun days (suc d) (suc n)
extend days d n e r = (
  inside,
  (λ h. moved days (suc d - suc n) (d - n) false (omega arith) (r.1 (omega (arith, h)))),
  omega (arith, r.2),
)
  where
    inside : (k : ℕ) → k < suc n → has (suc d - k) days ≡ true
    inside zero h = moved days (suc d - 0) (suc d) true (omega arith) e
    inside (suc k) h =
        moved days (suc d - suc k) (d - k) true (omega arith) (r.0 k (omega (arith, h)))

stop : (days : List ℕ) (d : ℕ) → has d days ≡ false → IsRun days d 0
stop days d e = (
  (λ k h. absurd (omega (arith, h))),
  (λ h. moved days (d - 0) d false (omega arith) e),
  omega arith,
)

first_day : (days : List ℕ) → has 0 days ≡ true → IsRun days 0 1
first_day days e = (inside, (λ h. absurd (omega (arith, h))), omega arith)
  where
    inside : (k : ℕ) → k < 1 → has (0 - k) days ≡ true
    inside zero h = e
    inside (suc k) h = absurd (omega (arith, h))

count_back-IsRun : (days : List ℕ) (d : ℕ) → IsRun days d (count_back days d)
unfolding count_back
count_back-IsRun days zero = elim (Bool-cases (has 0 days)) [
  | inl e ↦ rw (e, count_back) (first_day days e)
  | inr e ↦ rw (e, count_back) (stop days 0 e)
]
count_back-IsRun days (suc d) = elim (Bool-cases (has (suc d) days)) [
  | inl e ↦ rw (e, count_back) (extend days d (count_back days d) e (count_back-IsRun days d))
  | inr e ↦ rw (e, count_back) (stop days (suc d) e)
]

-- The streak starts today where today has an answer, and yesterday otherwise; it counts a run of days
-- with answers that ends there and cannot be made longer.
pub streak_lem :
    (now user : ℕ) (answers : List Answer) (d : ℕ)
    → day_of now ≡ suc d
    → IsRun
        (days_of user answers)
        (if has (suc d) (days_of user answers) then suc d else d)
        (streak now user answers)
unfolding streak start
streak_lem now user answers d h = elim (Bool-cases (has (suc d) (days_of user answers))) [
  | inl e ↦ rw (h, streak) (rw e (count_back-IsRun (days_of user answers) (suc d)))
  | inr e ↦ rw (h, streak) (rw e (count_back-IsRun (days_of user answers) d))
]

first-upsert :
    (admin question : ℕ) (date : Text) (rows : List DailyChallenge)
    → (c : DailyChallenge) × (first
          (λ (x : DailyChallenge). text_eq x.date date)
          (upsert_challenge admin date question rows)
        ≡ some c)
      × (c.question_id ≡ question)
unfolding upsert_challenge
first-upsert admin question date rows =
    elim (Bool-cases (any (λ (x : DailyChallenge). text_eq x.date date) rows)) [
      | inl e ↦ rw (e, upsert_challenge) (rewritten rows e)
      | inr e ↦
          rw (e, upsert_challenge)
            (
              record { date = date; question_id = question; created_by = admin },
              appended rows e,
              refl,
            )
    ]
  where
    rewritten :
        (rows : List DailyChallenge)
        → any (λ (x : DailyChallenge). text_eq x.date date) rows ≡ true
        → (c : DailyChallenge) × (first
              (λ (x : DailyChallenge). text_eq x.date date)
              (update
                (λ (x : DailyChallenge). text_eq x.date date)
                (λ (x : DailyChallenge). record x { question_id = question })
                rows)
            ≡ some c)
          × (c.question_id ≡ question)
    rewritten [] h = absurd (ground (arith, h))
    rewritten (x ∷ xs) h = elim (Bool-cases (text_eq x.date date)) [
      | inl e ↦ rw e (rw e (record x { question_id = question }, refl, refl))
      | inr e ↦ rw e (rw e (rewritten xs (ground (arith, h, e))))
    ]

    appended :
        (rows : List DailyChallenge)
        → any (λ (x : DailyChallenge). text_eq x.date date) rows ≡ false
        → first
            (λ (x : DailyChallenge). text_eq x.date date)
            (rows ++ record { date = date; question_id = question; created_by = admin } ∷ [])
          ≡ some (record { date = date; question_id = question; created_by = admin })
    appended [] h = rw (text_eq_refl date) refl
    appended (x ∷ xs) h = ground (arith, appended xs)

-- Where pinning a question for a day returns, that question is shown on that day, whatever is drawn.
pub get_today-pin :
    (admin draw question : ℕ) (q : Question) (date : Text) (db : Db)
    → is_date date ≡ true
    → first (λ (x : Question). x.id == question) db.questions ≡ some q
    → value (get_today draw date (after (pin_challenge admin date question db))) ≡ some q
unfolding get_today pin_challenge
get_today-pin admin draw question q date db d h =
    let u = first-upsert admin question date db.daily_challenges in
    rw (d, pin_challenge)
      (rw (h, pin_challenge) (rw (u.1, get_today) (rw (u.2, get_today) (rw (h, get_today) refl))))
