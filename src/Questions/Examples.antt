-- ===== src/Questions/Examples.antt =====
-- Two rows of which one is valid, and a tagged question.
use package.ayo_snbt_backend.Common.{
  ℕ, ◌+◌, ◌≡◌, refl, Bool, true, false, none, some, List, [], ◌∷◌, first, zero, suc, map,
}
use package.ayo_snbt_backend.Common.Action.{value, after, throws, other_error}
use package.ayo_snbt_backend.Common.Keys.{by}
use package.ayo_snbt_backend.Common.Text.{Text, trim}
use package.ayo_snbt_backend.Questions.Data.{Question, Db, AuthUser, medium, draft, question_key}
use package.ayo_snbt_backend.Questions.Tags.{names_of, normalize_tags}
use package.ayo_snbt_backend.Questions.Import.{
  ImportQuestionRow, OptionInput, ImportReport, import_questions,
}
use package.ayo_snbt_backend.Questions.Import.Repeat.{import_questions_again}
use package.ayo_snbt_backend.Questions.Bank.{remove, restore, set_deleted}
use package.ayo_snbt_backend.Questions.Bank.Removal.{remove-restore_loses_tags}

-- A stand-in for the hash.
abbrev sum : Text → ℕ
sum [] = 0
sum (c ∷ s) = c + sum s

abbrev choice : ℕ → Bool → OptionInput
choice c b = record { text = c ∷ []; is_correct = b }

abbrev row : Text → ImportQuestionRow
row text = record {
  text = text;
  category = none;
  difficulty = none;
  tags = some ((77 ∷ []) ∷ []);
  options = choice 65 true ∷ choice 66 false ∷ [];
  explanation = none;
  source = none;
  review_status = none;
}

abbrev rows : List ImportQuestionRow
rows = row (81 ∷ []) ∷ row (32 ∷ []) ∷ row (32 ∷ 81 ∷ []) ∷ []

abbrev question : Question
question = record {
  id = 1;
  text = 80 ∷ [];
  explanation = none;
  difficulty = medium;
  category = none;
  content_hash = some 80;
  source = none;
  review_status = draft;
  created_by = some 3;
  deleted_at = none;
  updated_at = 0;
}

abbrev bank : Db
bank = record {
  questions = question ∷ [];
  question_options = [];
  tags = record { id = 2; name = 77 ∷ [] } ∷ [];
  question_tags = record { question_id = 1; tag_id = 2 } ∷ [];
  events = [];
  cache_version = 1;
  next_id = 5;
}

abbrev administrator : AuthUser
administrator = record { id = 9; is_admin = true }

import_questions_again_example :
    (r : ImportReport) × (value (
        import_questions sum 10 administrator false rows
          (after (import_questions sum 10 administrator false rows bank)))
      ≡ some r)
    × (r.imported ≡ 0)
    × ((after (
          import_questions sum 10 administrator false rows
            (after (import_questions sum 10 administrator false rows bank)))).questions
        ≡ (after (import_questions sum 10 administrator false rows bank)).questions)
unfolding normalize_tags trim
import_questions_again_example = import_questions_again sum 10 administrator rows bank refl refl

remove-restore_loses_tags_example :
    (first
        (by question_key 1)
        (after (restore 12 administrator 1 (after (remove 11 administrator 1 bank)))).questions
      ≡ some (set_deleted none 12 question))
    × ((after
          (restore 12 administrator 1 (after (remove 11 administrator 1 bank)))).question_options
        ≡ bank.question_options)
    × (names_of 1
          (after (restore 12 administrator 1 (after (remove 11 administrator 1 bank)))).tags
          (after
            (restore 12 administrator 1 (after (remove 11 administrator 1 bank)))).question_tags
        ≡ [])
unfolding remove
remove-restore_loses_tags_example =
    remove-restore_loses_tags 11 12 administrator 1 question bank refl refl refl

abbrev letters : ℕ → Text
letters zero = []
letters (suc n) = 97 ∷ letters n

-- A tag of 51 characters fails the whole import.
long_tag :
    import_questions sum 10 administrator false
      (map (λ (q : ImportQuestionRow). record q { tags = some (letters 51 ∷ []) }) rows)
      bank
    ≡ throws other_error bank
unfolding import_questions normalize_tags trim
long_tag = refl
