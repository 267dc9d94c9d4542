-- ===== src/Questions/Bank.antt =====
-- `create`, `getById`, `update`, `remove` and `restore` of modules/questions/service.ts. Audit lines
-- are left out; a transaction that throws leaves the tables as they were.
pub mod Removal
use package.ayo_snbt_backend.Common.{
  ℕ, suc, ◌+◌, Bool, true, false, not, ◌&&◌, Option, none, some, List, [], ◌∷◌, ◌++◌, ◌==◌, any,
  first, select, update, if◌then◌else◌, or_else, is_some,
}
use package.ayo_snbt_backend.Common.Action.{
  Action, pure, throw, throw_if, or_throw, gets, modify, ◌>>=◌, ◌>>◌, forbidden_error,
  not_found_error, other_error, forbidden,
}
use package.ayo_snbt_backend.Common.Keys.{by}
use package.ayo_snbt_backend.Common.Text.{Text}
use package.ayo_snbt_backend.Questions.Data.{
  Source, Question, QuestionOption, QuestionTag, QuestionEvent, question_created, question_updated,
  question_deleted, Db, AuthUser, question_key, is_live, holds_hash, medium, draft,
}
use package.ayo_snbt_backend.Questions.Tags.{
  normalize_tags, sync_question_tags, drop_links, names_of,
}
use package.ayo_snbt_backend.Questions.Import.{OptionInput, option_rows}

-- `QuestionInput`: what is none is undefined; an inner none is null.
pub record QuestionInput : Type 0 where
  pub text : Option Text
  pub explanation : Option Text
  pub difficulty : Option Text
  pub category : Option Text
  pub options : Option (List OptionInput)
  pub tags : Option (List Text)
  pub source : Option (Option Source)
  pub review_status : Option (Option Text)

-- `assertCanManage`: the question may be deleted.
unfoldable pub assert_can_manage : AuthUser → ℕ → Action Db Question
assert_can_manage user id = do
  row ← gets (λ db. first (by question_key id) db.questions)
  q ← or_throw row not_found_error
  throw_if (not user.is_admin && not (elim q.created_by [ none ↦ false | some c ↦ c == user.id ]))
      (forbidden_error forbidden)
  pure q

abbrev pub bump_cache_version : Action Db (Unit {0})
bump_cache_version = modify (λ db. record db { cache_version = suc db.cache_version })

abbrev pub emit : QuestionEvent → Action Db (Unit {0})
emit e = modify (λ db. record db { events = db.events ++ e ∷ [] })

-- `if (tagNames.length > 0) await syncQuestionTags(…)`
abbrev pub sync_given : ℕ → List Text → Db → Db
sync_given id [] db = db
sync_given id (n ∷ ns) db = sync_question_tags id (n ∷ ns) db

-- `create`, whose text is given; it returns the id.
unfoldable pub create : ℕ → ℕ → Text → QuestionInput → Action Db ℕ
unfolding normalize_tags option_rows
create now user_id text input = do
  id ← gets (λ db. db.next_id)
  let row : Question = record {
    id = id;
    text = text;
    explanation = input.explanation;
    difficulty = or_else input.difficulty medium;
    category = input.category;
    content_hash = none;
    source = or_else input.source none;
    review_status = or_else (or_else input.review_status none) draft;
    created_by = some user_id;
    deleted_at = none;
    updated_at = now;
  }
  modify (λ db. record db {
    questions = db.questions ++ row ∷ [];
    question_options = db.question_options ++ option_rows id 0 (or_else input.options []);
    next_id = suc id;
  })
  modify (sync_given id (normalize_tags input.tags))
  bump_cache_version
  pure id

-- `getById`: the question, its options before the order, and its tags.
unfoldable pub get_by_id : ℕ → Action Db (Question × List QuestionOption × List Text)
unfolding names_of
get_by_id id = do
  row ← gets (λ db. first (λ (q : Question). (q.id == id) && is_live q) db.questions)
  q ← or_throw row not_found_error
  options ← gets (λ db. select (λ (o : QuestionOption). o.question_id == id) db.question_options)
  tags ← gets (λ db. names_of id db.tags db.question_tags)
  pure (q, options, tags)

-- The `set` of `update`; the content hash is not among its columns.
unfoldable pub apply_input : QuestionInput → ℕ → Question → Question
apply_input input now q = record q {
  text = or_else input.text q.text;
  explanation = elim input.explanation [ none ↦ q.explanation | some e ↦ some e ];
  difficulty = or_else input.difficulty q.difficulty;
  category = elim input.category [ none ↦ q.category | some c ↦ some c ];
  source = or_else input.source q.source;
  review_status = elim input.review_status [ none ↦ q.review_status | some r ↦ or_else r draft ];
  updated_at = now;
}

-- `Object.keys(set).length > 1`
abbrev pub has_columns : QuestionInput → Bool
has_columns input = not (
    not (is_some input.text)
    && not (is_some input.explanation)
    && not (is_some input.difficulty)
    && not (is_some input.category)
    && not (is_some input.source)
    && not (is_some input.review_status))

abbrev pub replace_options : ℕ → List OptionInput → Db → Db
replace_options id options db = record db {
  question_options =
      select (λ (o : QuestionOption). not (o.question_id == id)) db.question_options
      ++ option_rows id 0 options;
}

-- `update`; what it returns is left out.
unfoldable pub update_question : ℕ → AuthUser → ℕ → QuestionInput → Action Db (Unit {0})
unfolding assert_can_manage apply_input normalize_tags option_rows
update_question now user id input = do
  _ ← assert_can_manage user id
  modify (λ db.
      if has_columns input
      then record db {
        questions = update (by question_key id) (apply_input input now) db.questions;
      }
      else db)
  modify (λ db. elim input.options [ none ↦ db | some os ↦ replace_options id os db ])
  modify (λ db. elim input.tags [
    | none ↦ db
    | some ts ↦ sync_question_tags id (normalize_tags (some ts)) db
  ])
  bump_cache_version
  emit (question_updated id)

abbrev pub set_deleted : Option ℕ → ℕ → Question → Question
set_deleted at now q = record q { deleted_at = at; updated_at = now }

-- `remove`.
unfoldable pub remove : ℕ → AuthUser → ℕ → Action Db (Unit {0})
unfolding assert_can_manage
remove now user id = do
  _ ← assert_can_manage user id
  modify (λ db. record db {
    questions = update (by question_key id) (set_deleted (some now) now) db.questions;
  })
  modify (drop_links id)
  bump_cache_version
  emit (question_deleted id)

-- The partial unique index refuses that a question becomes active beside another with its hash.
abbrev pub breaks_index : Question → List Question → Bool
breaks_index q rows = elim q.content_hash [
  | none ↦ false
  | some h ↦ any (λ (o : Question). holds_hash h o && not (o.id == q.id)) rows
]

-- `restore`.
unfoldable pub restore : ℕ → AuthUser → ℕ → Action Db (Unit {0})
unfolding assert_can_manage
restore now user id = do
  q ← assert_can_manage user id
  broken ← gets (λ db. breaks_index q db.questions)
  throw_if broken other_error
  modify (λ db. record db {
    questions = update (by question_key id) (set_deleted none now) db.questions;
  })
  bump_cache_version
