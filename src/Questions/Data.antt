-- ===== src/Questions/Data.antt =====
-- The tables of the question bank that modules/questions/service.ts writes
-- (shared/db/schema/questions.ts, tags.ts). Images, videos and the question type are left out; texts
-- are lists of character codes.
use package.ayo_snbt_backend.Common.{
  ℕ, Bool, false, not, ◌&&◌, Option, none, some, List, [], ◌∷◌, ◌==◌, is_some,
}
use package.ayo_snbt_backend.Common.Text.{Text}

pub record Source : Type 0 where
  pub origin : Text
  pub year : Option ℕ

pub record Question : Type 0 where
  pub id : ℕ
  pub text : Text
  pub explanation : Option Text
  pub difficulty : Text
  pub category : Option Text
  pub content_hash : Option ℕ
  pub source : Option Source
  pub review_status : Text
  pub created_by : Option ℕ
  pub deleted_at : Option ℕ
  pub updated_at : ℕ

pub record QuestionOption : Type 0 where
  pub question_id : ℕ
  pub text : Text
  pub is_correct : Bool
  pub sort_order : ℕ

pub record Tag : Type 0 where
  pub id : ℕ
  pub name : Text

pub record QuestionTag : Type 0 where
  pub question_id : ℕ
  pub tag_id : ℕ

pub data QuestionEvent : Type 0 where
  question_created question_updated question_deleted : ℕ → QuestionEvent

-- `next_id` is the id that the next row gets.
pub record Db : Type 0 where
  pub questions : List Question
  pub question_options : List QuestionOption
  pub tags : List Tag
  pub question_tags : List QuestionTag
  pub events : List QuestionEvent
  pub cache_version : ℕ
  pub next_id : ℕ

pub record AuthUser : Type 0 where
  pub id : ℕ
  pub is_admin : Bool

abbrev pub is_live : Question → Bool
is_live q = not (is_some q.deleted_at)

abbrev pub question_key : Question → ℕ
question_key q = q.id

abbrev pub same_hash : ℕ → Option ℕ → Bool
same_hash h none = false
same_hash h (some k) = k == h

-- A row that the partial unique index on `content_hash` would hold against a new one.
abbrev pub holds_hash : ℕ → Question → Bool
holds_hash h q = same_hash h q.content_hash && is_live q

-- `medium`, `draft`, and the values that the import accepts.
abbrev pub easy : Text
easy = 101 ∷ 97 ∷ 115 ∷ 121 ∷ []

abbrev pub medium : Text
medium = 109 ∷ 101 ∷ 100 ∷ 105 ∷ 117 ∷ 109 ∷ []

abbrev pub hard : Text
hard = 104 ∷ 97 ∷ 114 ∷ 100 ∷ []

abbrev pub draft : Text
draft = 100 ∷ 114 ∷ 97 ∷ 102 ∷ 116 ∷ []

abbrev pub in_review : Text
in_review = 105 ∷ 110 ∷ 95 ∷ 114 ∷ 101 ∷ 118 ∷ 105 ∷ 101 ∷ 119 ∷ []

abbrev pub published : Text
published = 112 ∷ 117 ∷ 98 ∷ 108 ∷ 105 ∷ 115 ∷ 104 ∷ 101 ∷ 100 ∷ []
