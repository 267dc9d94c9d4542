-- ===== src/Simulations/Scoring/Counts.antt =====
-- The counts, points and percentile that grading computes.
use native.Mathlib.Nat.{div-lt_iff_lt-mul}
use package.ayo_snbt_backend.Common.{
  ℕ, zero, ◌/◌, ◌+◌, ◌*◌, ◌≤◌, ◌<◌, ◌≡◌, inl, inr, Bool, true, false, Option, none, some, List, [],
  ◌∷◌, arith, length, select, ltb, ◌==◌, All, Bool-cases, map, any, Option-cases, not, ◌&&◌,
}
use package.ayo_snbt_backend.Simulations.Data.{Weights, SimulationAnswer, QuestionOption}
use package.ayo_snbt_backend.Simulations.Scoring.{
  Tally, tally, count_mark, no_marks, points, add_points, percentile_of, mark, is_right,
}

pub tally_total_lem :
    (ms : List (Option Bool)) (t : Tally)
    → ((tally ms t).correct + (tally ms t).wrong) + (tally ms t).blank
      ≡ ((t.correct + t.wrong) + t.blank) + length ms
unfolding tally count_mark
tally_total_lem [] t = omega arith
tally_total_lem (none ∷ ms) t = omega (arith, tally_total_lem ms (count_mark none t))
tally_total_lem (some true ∷ ms) t = omega (arith, tally_total_lem ms (count_mark (some true) t))
tally_total_lem (some false ∷ ms) t = omega (arith, tally_total_lem ms (count_mark (some false) t))

-- The counts of correct, wrong and blank answers that grading stores add up to the number of
-- answers.
pub tally_total :
    (ms : List (Option Bool))
    → ((tally ms no_marks).correct + (tally ms no_marks).wrong) + (tally ms no_marks).blank
      ≡ length ms
tally_total ms = omega (arith, tally_total_lem ms no_marks)

abbrev pub is_blank : SimulationAnswer → Bool
is_blank a = elim a.selected_option_id [ none ↦ true | some option ↦ false ]

-- The option that the answer selects is a correct one of its question.
abbrev pub is_correctly_answered : List QuestionOption → SimulationAnswer → Bool
is_correctly_answered options a = elim a.selected_option_id [
  | none ↦ false
  | some option ↦
      any (λ o. (o.question_id == a.question_id) && o.is_correct && (o.id == option)) options
]

abbrev pub is_wrongly_answered : List QuestionOption → SimulationAnswer → Bool
is_wrongly_answered options a = not (is_blank a) && not (is_correctly_answered options a)

-- The tally `t`, and beyond it the answers of each kind.
abbrev Counts : List QuestionOption → List SimulationAnswer → Tally → Tally → Type 0
Counts options rows t t' =
    (t'.correct ≡ t.correct + length (select (is_correctly_answered options) rows))
    × (t'.wrong ≡ t.wrong + length (select (is_wrongly_answered options) rows))
    × (t'.blank ≡ t.blank + length (select is_blank rows))

tally_counts_lem :
    (options : List QuestionOption) (rows : List SimulationAnswer) (t : Tally)
    → Counts options rows t (tally (map (mark options) rows) t)
unfolding tally mark count_mark is_right
tally_counts_lem options [] t = (omega arith, omega arith, omega arith)
tally_counts_lem options (a ∷ rows) t = elim (Option-cases a.selected_option_id) [
  | inl e ↦
      rw (e, tally, mark, is_blank, is_correctly_answered)
        (grind (arith, tally_counts_lem options rows (count_mark none t)))
  | inr (option, e) ↦ elim (Bool-cases (is_right options a.question_id option)) [
    | inl r ↦
        rw (e, tally)
          (rw (r, tally) (grind (arith, tally_counts_lem options rows (count_mark (some true) t))))
    | inr r ↦
        rw (e, tally)
          (rw (r, tally) (grind (arith, tally_counts_lem options rows (count_mark (some false) t))))
  ]
]

-- The tally of the marks of some answers counts those that select a correct option of their
-- question, those that select another one, and the blank ones.
pub tally_counts :
    (options : List QuestionOption) (rows : List SimulationAnswer)
    → ((tally (map (mark options) rows) no_marks).correct
        ≡ length (select (is_correctly_answered options) rows))
      × ((tally (map (mark options) rows) no_marks).wrong
          ≡ length (select (is_wrongly_answered options) rows))
      × ((tally (map (mark options) rows) no_marks).blank ≡ length (select is_blank rows))
tally_counts options rows =
    let h = tally_counts_lem options rows no_marks in
    (omega (arith, h.0), omega (arith, h.1), omega (arith, h.2))

-- No weight of the three exceeds that of a correct answer.
abbrev pub IsCapped : Weights × Option Bool → Type 0
IsCapped a = ((a.0).wrong ≤ (a.0).correct) × ((a.0).blank ≤ (a.0).correct)

points-le-correct : (w : Weights) (m : Option Bool) → IsCapped (w, m) → points w m ≤ w.correct
unfolding points
points-le-correct w none c = c.1
points-le-correct w (some true) c = omega arith
points-le-correct w (some false) c = c.0

add_points-le_lem :
    (xs : List (Weights × Option Bool)) (p : ℕ × ℕ)
    → All IsCapped xs
    → p.0 ≤ p.1
    → (add_points xs p).0 ≤ (add_points xs p).1
unfolding add_points
add_points-le_lem [] p c h = h
add_points-le_lem (x ∷ xs) p c h =
    add_points-le_lem xs (p.0 + points x.0 x.1, p.1 + (x.0).correct) c.1
      (omega (arith, points-le-correct x.0 x.1 c.0))

-- Where neither a wrong nor a blank answer weighs more than a correct one, the score of a session is
-- at most its highest score, whatever weights its categories have.
pub score-le-max_score :
    (xs : List (Weights × Option Bool))
    → All IsCapped xs
    → (add_points xs (0, 0)).0 ≤ (add_points xs (0, 0)).1
score-le-max_score xs c = add_points-le_lem xs (0, 0) c (omega arith)

lower_equal :
    (score : ℕ) (ps : List ℕ)
    → length (select (λ p. ltb p score) ps) + length (select (λ p. p == score) ps) ≤ length ps
lower_equal score [] = omega arith
lower_equal score (p ∷ ps) = ground (arith, lower_equal score ps)

rounded-le :
    (a b n : ℕ) → a + b ≤ n → zero < n → (2 * (1_000 * (2 * a + b)) + 2 * n) / (2 * (2 * n)) ≤ 1_000
rounded-le a b n h pos = omega (
  arith,
  (div-lt_iff_lt-mul {k = 2 * (2 * n)} {x = 2 * (1_000 * (2 * a + b)) + 2 * n} {y = 1_001}
        (omega arith)).1
      (omega arith),
)

-- A percentile is at most 100 %, whatever the peers' scores are.
pub percentile_of-le : (peers : List ℕ) (score : ℕ) → percentile_of peers score ≤ 1_000
unfolding percentile_of
percentile_of-le peers score = elim (Bool-cases (length peers == 0)) [
  | inl e ↦ rw e (omega arith)
  | inr e ↦ rw e (
      rounded-le (length (select (λ p. ltb p score) peers))
        (length (select (λ p. p == score) peers)) (length peers) (lower_equal score peers)
        (ground arith))
]
