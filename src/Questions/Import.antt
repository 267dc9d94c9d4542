-- ===== src/Questions/Import.antt =====
-- `importQuestions` of modules/questions/service.ts. SHA-256 is a parameter. The transaction throws
-- at a text that is longer than its column, and then leaves the tables as they were.
pub mod Loop
pub mod Repeat
use package.ayo_snbt_backend.Common.{
  ℕ, zero, suc, ◌+◌, Bool, true, false, not, ◌&&◌, ◌||◌, Option, none, some, List, [], ◌∷◌, ◌++◌,
  ltb, leb, all, if◌then◌else◌, any, select, map, length, or_else,
}
use package.ayo_snbt_backend.Common.Action.{
  Action, pure, throw, throw_if, modify, gets, ◌>>=◌, ◌>>◌, bad_request_error, bad_request,
  import_too_large, other_error,
}
use package.ayo_snbt_backend.Common.Text.{Text, trim, is_truthy, text_eq}
use package.ayo_snbt_backend.Questions.Data.{
  Source, Question, QuestionOption, QuestionEvent, question_created, Db, AuthUser, holds_hash, easy,
  medium, hard, draft, in_review, published,
}
use package.ayo_snbt_backend.Questions.Tags.{normalize_tags, sync_question_tags}

pub record OptionInput : Type 0 where
  pub text : Text
  pub is_correct : Bool

-- `ImportQuestionRow`.
pub record ImportQuestionRow : Type 0 where
  pub text : Text
  pub category : Option Text
  pub difficulty : Option Text
  pub tags : Option (List Text)
  pub options : List OptionInput
  pub explanation : Option Text
  pub source : Option Source
  pub review_status : Option Text

pub data RowError : Type 0 where
  text_required two_options_required correct_required : RowError
  bad_difficulty bad_review_status bad_origin : RowError

abbrev pub error_if : Bool → RowError → List RowError
error_if true e = e ∷ []
error_if false e = []

-- The options with their texts trimmed, without the empty ones.
unfoldable pub clean_options : List OptionInput → List OptionInput
clean_options os =
    select (λ (o : OptionInput). is_truthy o.text)
      (map (λ (o : OptionInput). record o { text = trim o.text }) os)

-- `value && !allowed.has(value)`.
unfoldable pub is_outside : List Text → Option Text → Bool
is_outside allowed none = false
is_outside allowed (some v) = is_truthy v && not (any (text_eq v) allowed)

unfoldable pub option_errors : List OptionInput → List RowError
option_errors options =
    if ltb (length options) 2
    then two_options_required ∷ []
    else error_if (not (any (λ (o : OptionInput). o.is_correct) options)) correct_required

-- The errors of a row.
unfoldable pub row_errors : ImportQuestionRow → List RowError
unfolding clean_options is_outside option_errors
row_errors q =
    error_if (not (is_truthy (trim q.text))) text_required
    ++ option_errors (clean_options q.options)
    ++ error_if (is_outside (easy ∷ medium ∷ hard ∷ []) q.difficulty) bad_difficulty
    ++ error_if (is_outside (draft ∷ in_review ∷ published ∷ []) q.review_status) bad_review_status
    ++ error_if (elim q.source [ none ↦ false | some s ↦ not (is_truthy (trim s.origin)) ])
        bad_origin

pub record FailedRow : Type 0 where
  pub row : ℕ
  pub errors : List RowError

-- The entry of `valid`; `tags` is empty where the source has none.
pub record ValidRow : Type 0 where
  pub row : ℕ
  pub data_row : ImportQuestionRow
  pub tags : List Text
  pub hash : ℕ

abbrev pub Checked : Type 0
Checked = List FailedRow × List ValidRow

abbrev pub has_errors : List RowError → Bool
has_errors [] = false
has_errors (e ∷ es) = true

module _ (sha256 : Text → ℕ) where
  unfoldable pub valid_row : ℕ → ImportQuestionRow → ValidRow
  unfolding clean_options
  valid_row n q = record {
    row = n;
    data_row = record q { text = trim q.text; options = clean_options q.options };
    tags = normalize_tags q.tags;
    hash = sha256 (trim q.text);
  }

  -- The `forEach`; `n` is the number of the first row.
  unfoldable pub check_rows : ℕ → List ImportQuestionRow → Checked
  unfolding row_errors valid_row
  check_rows n [] = ([], [])
  check_rows n (q ∷ qs) =
      let rest = check_rows (suc n) qs in
      if has_errors (row_errors q)
      then (record { row = n; errors = row_errors q } ∷ rest.0, rest.1)
      else (rest.0, valid_row n q ∷ rest.1)

-- Where the loop of the transaction stands.
pub record Progress : Type 0 where
  pub db : Db
  pub imported : ℕ
  pub skipped : List ℕ

-- The rows of `questionOptions`, numbered from `n`.
unfoldable pub option_rows : ℕ → ℕ → List OptionInput → List QuestionOption
option_rows question n [] = []
option_rows question n (o ∷ os) =
    record { question_id = question; text = o.text; is_correct = o.is_correct; sort_order = n }
    ∷ option_rows question (suc n) os

abbrev pub new_question : ℕ → ℕ → ℕ → ValidRow → Question
new_question id user now v = record {
  id = id;
  text = v.data_row.text;
  explanation = v.data_row.explanation;
  difficulty = or_else v.data_row.difficulty medium;
  category = v.data_row.category;
  content_hash = some v.hash;
  source = v.data_row.source;
  review_status = or_else v.data_row.review_status draft;
  created_by = some user;
  deleted_at = none;
  updated_at = now;
}

-- The inserts of a row that is not there yet.
unfoldable pub insert_imported : ℕ → ℕ → ValidRow → Db → Db
unfolding option_rows
insert_imported user now v db =
    let id : ℕ = db.next_id in
    let added : Db = record db {
      questions = db.questions ++ new_question id user now v ∷ [];
      question_options = db.question_options ++ option_rows id 0 v.data_row.options;
      next_id = suc id;
    } in
    let tagged : Db = elim v.tags [ [] ↦ added | (_ ∷ _) ↦ sync_question_tags id v.tags added ] in
    record tagged { events = tagged.events ++ question_created id ∷ [] }

-- A turn of the loop: the insert with `onConflictDoNothing`, and what follows it.
unfoldable pub import_row : ℕ → ℕ → ValidRow → Progress → Progress
unfolding insert_imported
import_row user now v p =
    if any (holds_hash v.hash) p.db.questions
    then record p { skipped = p.skipped ++ v.row ∷ [] }
    else record p { db = insert_imported user now v p.db; imported = suc p.imported }

unfoldable pub import_rows : ℕ → ℕ → List ValidRow → Progress → Progress
unfolding import_row
import_rows user now [] p = p
import_rows user now (v ∷ vs) p = import_rows user now vs (import_row user now v p)

-- `category` holds 100 characters and the name of a tag 50.
abbrev pub fits_category : Option Text → Bool
fits_category none = true
fits_category (some c) = leb (length c) 100

abbrev pub fits_tags : List Text → Bool
fits_tags = all (λ (t : Text). leb (length t) 50)

-- The turn throws: the category is inserted, even where the row is there, and the tags are inserted
-- with a row that is not there yet.
unfoldable pub breaks_column : ValidRow → Db → Bool
breaks_column v db =
    not (fits_category v.data_row.category)
    || (not (any (holds_hash v.hash) db.questions) && not (fits_tags v.tags))

unfoldable pub breaks_columns : ℕ → ℕ → List ValidRow → Progress → Bool
unfolding breaks_column import_row
breaks_columns user now [] p = false
breaks_columns user now (v ∷ vs) p =
    breaks_column v p.db || breaks_columns user now vs (import_row user now v p)

pub record ImportReport : Type 0 where
  pub dry_run : Bool
  pub would_import : ℕ
  pub imported : ℕ
  pub skipped : List ℕ
  pub failed : List FailedRow

abbrev pub bump : List ValidRow → Db → Db
bump [] db = db
bump (v ∷ vs) db = record db { cache_version = suc db.cache_version }

module _ (sha256 : Text → ℕ) where
  -- `importQuestions`.
  unfoldable pub import_questions :
      ℕ → AuthUser → Bool → List ImportQuestionRow → Action Db ImportReport
  unfolding check_rows import_rows breaks_columns
  import_questions now user dry_run questions db =
      let checked = check_rows sha256 1 questions in
      let begun : Progress = record { db = db; imported = 0; skipped = [] } in
      let p = import_rows user.id now checked.1 begun in
      if ltb 2_000 (length questions)
      then throw (bad_request_error import_too_large) db
      else (if dry_run
          then pure
              (record {
                dry_run = true;
                would_import = length checked.1;
                imported = 0;
                skipped = [];
                failed = checked.0;
              })
              db
          else (if breaks_columns user.id now checked.1 begun
              then throw other_error db
              else pure
                  (record {
                    dry_run = false;
                    would_import = 0;
                    imported = p.imported;
                    skipped = p.skipped;
                    failed = checked.0;
                  })
                  (bump checked.1 p.db)))
