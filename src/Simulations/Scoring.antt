-- ===== src/Simulations/Scoring.antt =====
-- The computations of `gradeSession` of modules/simulations/service.ts: marks, counts, points and
-- the percentile.
pub mod Counts
use package.ayo_snbt_backend.Common.{
  ℕ, ◌+◌, ◌*◌, ◌/◌, Bool, true, false, ◌&&◌, Option, none, some, List, [], ◌∷◌, ◌==◌, ltb,
  if◌then◌else◌, or_else, any, first, select, length,
}
use package.ayo_snbt_backend.Common.Keys.{by}
use package.ayo_snbt_backend.Simulations.Data.{
  Weights, PackageScoring, SimulationSession, SimulationAnswer, Question, QuestionOption,
}

-- `correctIds.includes(selectedOptionId)`.
unfoldable pub is_right : List QuestionOption → ℕ → ℕ → Bool
is_right options question option =
    any (λ o. (o.question_id == question) && o.is_correct && (o.id == option)) options

-- The mark of an answer: none for a blank.
unfoldable pub mark : List QuestionOption → SimulationAnswer → Option Bool
unfolding is_right
mark options a = elim a.selected_option_id [
  | none ↦ none
  | some option ↦ some (is_right options a.question_id option)
]

pub record Tally : Type 0 where
  pub correct : ℕ
  pub wrong : ℕ
  pub blank : ℕ

unfoldable pub count_mark : Option Bool → Tally → Tally
count_mark none t = record t { blank = t.blank + 1 }
count_mark (some true) t = record t { correct = t.correct + 1 }
count_mark (some false) t = record t { wrong = t.wrong + 1 }

unfoldable pub tally : List (Option Bool) → Tally → Tally
unfolding count_mark
tally [] t = t
tally (m ∷ ms) t = tally ms (count_mark m t)

abbrev pub no_marks : Tally
no_marks = record { correct = 0; wrong = 0; blank = 0 }

abbrev category_key : ℕ × Weights → ℕ
category_key e = e.0

-- `perCategory?.[cat] ?? scoring`.
unfoldable pub weights_of : PackageScoring → ℕ → Weights
weights_of scoring category = elim (first (by category_key category) scoring.per_category) [
  | none ↦ scoring.base
  | some e ↦ e.1
]

-- `categoryByQuestion.get(id) ?? ""`; the empty category is 0.
unfoldable pub category_of : List Question → ℕ → ℕ
category_of questions id = elim (first (by (λ (q : Question). q.id) id) questions) [
  | none ↦ 0
  | some q ↦ q.category
]

unfoldable pub points : Weights → Option Bool → ℕ
points w none = w.blank
points w (some true) = w.correct
points w (some false) = w.wrong

-- The score and the highest score, an answer as its weights and its mark.
unfoldable pub add_points : List (Weights × Option Bool) → ℕ × ℕ → ℕ × ℕ
unfolding points
add_points [] p = p
add_points (a ∷ others) p = add_points others (p.0 + points a.0 a.1, p.1 + (a.0).correct)

-- The score of a session, `score ?? 0`.
abbrev pub score_of : SimulationSession → ℕ
score_of s = or_else s.score 0

-- `Number((((lower + 0.5 * equal) / total) * 100).toFixed(1))` in tenths of a percent, by exact
-- arithmetic where the source computes with floating-point numbers.
unfoldable pub percentile_of : List ℕ → ℕ → ℕ
percentile_of peers score =
    let lower = length (select (λ p. ltb p score) peers) in
    let equal = length (select (λ p. p == score) peers) in
    let total = length peers in
    if total == 0
    then 1_000
    else (2 * (1_000 * (2 * lower + equal)) + 2 * total) / (2 * (2 * total))
