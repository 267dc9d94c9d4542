-- ===== src/Questions/Tags.antt =====
-- `normalizeTags`, `syncQuestionTags` and `tagsByQuestion` of modules/questions/service.ts.
use package.ayo_snbt_backend.Common.{
  ℕ, suc, Bool, not, ◌&&◌, Option, none, some, List, [], ◌∷◌, ◌++◌, ◌==◌, any, first, select, map,
  if◌then◌else◌,
}
use package.ayo_snbt_backend.Common.Text.{Text, trim, to_lower, is_truthy, text_eq}
use package.ayo_snbt_backend.Questions.Data.{Tag, QuestionTag, Db}

-- `[...new Set(list)]`: `seen` are the entries before.
unfoldable pub distinct : List Text → List Text → List Text
distinct seen [] = []
distinct seen (t ∷ ts) =
    if any (text_eq t) seen then distinct seen ts else t ∷ distinct (seen ++ t ∷ []) ts

-- `normalizeTags`.
unfoldable pub normalize_tags : Option (List Text) → List Text
unfolding distinct
normalize_tags none = []
normalize_tags (some list) = distinct [] (select is_truthy (map (λ t. map to_lower (trim t)) list))

-- The insert of a tag with `onConflictDoNothing`.
unfoldable pub insert_tag : Text → Db → Db
insert_tag name db = if any (λ (t : Tag). text_eq t.name name) db.tags then db else record db {
  tags = db.tags ++ record { id = db.next_id; name = name } ∷ [];
  next_id = suc db.next_id;
}

abbrev pub is_link : ℕ → ℕ → QuestionTag → Bool
is_link question tag l = (l.question_id == question) && (l.tag_id == tag)

unfoldable pub insert_link : ℕ → ℕ → List QuestionTag → List QuestionTag
insert_link question tag links =
    if any (is_link question tag) links
    then links
    else links ++ record { question_id = question; tag_id = tag } ∷ []

-- A turn of the loop of `syncQuestionTags`.
unfoldable pub link_tag : ℕ → Text → Db → Db
unfolding insert_tag insert_link
link_tag question name db =
    let next = insert_tag name db in
    elim (first (λ (t : Tag). text_eq t.name name) next.tags) [
      | none ↦ next
      | some t ↦ record next { question_tags = insert_link question t.id next.question_tags }
    ]

unfoldable pub link_tags : ℕ → List Text → Db → Db
unfolding link_tag
link_tags question [] db = db
link_tags question (n ∷ ns) db = link_tags question ns (link_tag question n db)

abbrev pub drop_links : ℕ → Db → Db
drop_links question db = record db {
  question_tags = select (λ (l : QuestionTag). not (l.question_id == question)) db.question_tags;
}

-- `syncQuestionTags`.
unfoldable pub sync_question_tags : ℕ → List Text → Db → Db
unfolding link_tags
sync_question_tags question names db = link_tags question names (drop_links question db)

-- The entry of `tagsByQuestion` for one question.
unfoldable pub names_of : ℕ → List Tag → List QuestionTag → List Text
names_of question tags [] = []
names_of question tags (l ∷ ls) =
    let rest = names_of question tags ls in
    if l.question_id == question
    then elim (first (λ (t : Tag). t.id == l.tag_id) tags) [ none ↦ rest | some t ↦ t.name ∷ rest ]
    else rest
