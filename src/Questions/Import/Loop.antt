-- ===== src/Questions/Import/Loop.antt =====
-- What the loop of an import does to the questions, and what it counts.
use package.ayo_snbt_backend.Common.{
  ℕ, suc, ◌+◌, ◌≡◌, refl, ◌∙◌, inl, inr, Bool, true, List, [], ◌∷◌, ◌++◌, arith, any, any-append,
  length, length-append, All, Bool-cases, ==_refl, Option-cases, first,
}
use package.ayo_snbt_backend.Common.Text.{Text, text_eq}
use package.ayo_snbt_backend.Questions.Data.{Db, holds_hash, Tag}
use package.ayo_snbt_backend.Questions.Tags.{
  insert_tag, link_tag, link_tags, sync_question_tags, drop_links,
}
use package.ayo_snbt_backend.Questions.Import.{
  ImportQuestionRow, ValidRow, Progress, check_rows, option_rows, new_question, insert_imported,
  import_row, import_rows,
}

insert_tag-questions : (name : Text) (db : Db) → (insert_tag name db).questions ≡ db.questions
unfolding insert_tag
insert_tag-questions name db = elim (Bool-cases (any (λ (t : Tag). text_eq t.name name) db.tags)) [
  | inl e ↦ rw e refl
  | inr e ↦ rw e refl
]

link_tag-questions : (q : ℕ) (name : Text) (db : Db) → (link_tag q name db).questions ≡ db.questions
unfolding link_tag
link_tag-questions q name db =
    elim (Option-cases (first (λ (t : Tag). text_eq t.name name) (insert_tag name db).tags)) [
      | inl e ↦ rw (e, link_tag) (insert_tag-questions name db)
      | inr (x, e) ↦ rw (e, link_tag) (insert_tag-questions name db)
    ]

link_tags-questions :
    (q : ℕ) (ns : List Text) (db : Db) → (link_tags q ns db).questions ≡ db.questions
unfolding link_tags
link_tags-questions q [] db = refl
link_tags-questions q (n ∷ ns) db =
    link_tags-questions q ns (link_tag q n db) ∙ link_tag-questions q n db

insert_imported-questions :
    (user now : ℕ) (v : ValidRow) (db : Db)
    → (insert_imported user now v db).questions
      ≡ db.questions ++ new_question db.next_id user now v ∷ []
unfolding insert_imported sync_question_tags
insert_imported-questions user now v db = tagged v.tags
  where
    added : Db
    added = record db {
      questions = db.questions ++ new_question db.next_id user now v ∷ [];
      question_options = db.question_options ++ option_rows db.next_id 0 v.data_row.options;
      next_id = suc db.next_id;
    }

    tagged :
        (ts : List Text)
        → (elim ts as (λ x. Db) [
          | [] ↦ added
          | (_ ∷ _) ↦ sync_question_tags db.next_id v.tags added
        ]).questions
          ≡ added.questions
    tagged [] = refl
    tagged (x ∷ xs) = link_tags-questions db.next_id v.tags (drop_links db.next_id added)

abbrev pub has : ℕ → Db → Bool
has h db = any (holds_hash h) db.questions

import_row-has :
    (user now : ℕ) (v : ValidRow) (p : Progress) → has v.hash (import_row user now v p).db ≡ true
unfolding import_row
import_row-has user now v p = elim (Bool-cases (has v.hash p.db)) [
  | inl e ↦ rw e e
  | inr e ↦ rw e (
      rw (insert_imported-questions user now v p.db) (
        rw
          (any-append (holds_hash v.hash) p.db.questions
            (new_question p.db.next_id user now v ∷ []))
          (ground (arith, ==_refl v.hash))))
]

import_row-keeps :
    (user now h : ℕ) (v : ValidRow) (p : Progress)
    → has h p.db ≡ true
    → has h (import_row user now v p).db ≡ true
unfolding import_row
import_row-keeps user now h v p k = elim (Bool-cases (has v.hash p.db)) [
  | inl e ↦ rw e k
  | inr e ↦ rw e (
      rw (insert_imported-questions user now v p.db) (
        rw (any-append (holds_hash h) p.db.questions (new_question p.db.next_id user now v ∷ []))
          (rw k refl)))
]

import_rows-keeps :
    (user now h : ℕ) (vs : List ValidRow) (p : Progress)
    → has h p.db ≡ true
    → has h (import_rows user now vs p).db ≡ true
unfolding import_rows
import_rows-keeps user now h [] p k = k
import_rows-keeps user now h (v ∷ vs) p k =
    import_rows-keeps user now h vs _ (import_row-keeps user now h v p k)

pub import_rows-All :
    (user now : ℕ) (vs : List ValidRow) (p : Progress)
    → All (λ (v : ValidRow). has v.hash (import_rows user now vs p).db ≡ true) vs
unfolding import_rows
import_rows-All user now [] p = tt
import_rows-All user now (v ∷ vs) p = (
  import_rows-keeps user now v.hash vs (import_row user now v p) (import_row-has user now v p),
  import_rows-All user now vs (import_row user now v p),
)

import_row-known :
    (user now : ℕ) (v : ValidRow) (p : Progress)
    → has v.hash p.db ≡ true
    → import_row user now v p ≡ record p { skipped = p.skipped ++ v.row ∷ [] }
unfolding import_row
import_row-known user now v p e = rw e refl

import_row-length :
    (user now : ℕ) (v : ValidRow) (p : Progress)
    → (import_row user now v p).imported + length (import_row user now v p).skipped
      ≡ suc (p.imported + length p.skipped)
unfolding import_row
import_row-length user now v p = elim (Bool-cases (has v.hash p.db)) [
  | inl e ↦ rw (e, import_row) (omega (arith, length-append p.skipped (v.row ∷ [])))
  | inr e ↦ rw (e, import_row) (omega arith)
]

-- Rows that are all there change nothing.
pub import_rows-known :
    (user now : ℕ) (vs : List ValidRow) (p : Progress)
    → All (λ (v : ValidRow). has v.hash p.db ≡ true) vs
    → ((import_rows user now vs p).imported ≡ p.imported) × ((import_rows user now vs p).db ≡ p.db)
unfolding import_rows
import_rows-known user now [] p a = (refl, refl)
import_rows-known user now (v ∷ vs) p a =
    rw (import_row-known user now v p a.0, import_rows)
      (import_rows-known user now vs (record p { skipped = p.skipped ++ v.row ∷ [] }) a.1)

pub check_rows-length :
    (sha256 : Text → ℕ) (n : ℕ) (qs : List ImportQuestionRow)
    → length (check_rows sha256 n qs).0 + length (check_rows sha256 n qs).1 ≡ length qs
unfolding check_rows
check_rows-length sha256 n [] = refl
check_rows-length sha256 n (q ∷ qs) = ground (arith, check_rows-length sha256 (suc n) qs)

pub import_rows-length :
    (user now : ℕ) (vs : List ValidRow) (p : Progress)
    → (import_rows user now vs p).imported + length (import_rows user now vs p).skipped
      ≡ p.imported + length p.skipped + length vs
unfolding import_rows
import_rows-length user now [] p = omega arith
import_rows-length user now (v ∷ vs) p = omega (
  arith,
  import_rows-length user now vs (import_row user now v p),
  import_row-length user now v p,
)
