-- ===== src/Questions/Import/Repeat.antt =====
-- Every row of an import is reported once, and an import that is repeated imports nothing.
use package.ayo_snbt_backend.Common.{
  ℕ, suc, ◌+◌, ◌≡◌, refl, ap, ◌∙◌, Bool, true, false, some, List, [], ◌∷◌, arith, ltb, all, ◌&&◌,
  length, All,
}
use package.ayo_snbt_backend.Common.Action.{value, after, Outcome, returns}
use package.ayo_snbt_backend.Common.Text.{Text}
use package.ayo_snbt_backend.Questions.Data.{Db, AuthUser}
use package.ayo_snbt_backend.Questions.Tags.{normalize_tags}
use package.ayo_snbt_backend.Questions.Import.{
  ImportQuestionRow, ValidRow, ImportReport, Progress, check_rows, import_row, import_rows,
  import_questions, bump, fits_category, fits_tags, breaks_columns, breaks_column, valid_row,
}
use package.ayo_snbt_backend.Questions.Import.Loop.{
  has, import_rows-All, import_rows-known, check_rows-length, import_rows-length,
}

-- The texts of a row fit in their columns: a category in 100 characters, a tag in 50.
abbrev pub fits : ImportQuestionRow → Bool
fits q = fits_category q.category && fits_tags (normalize_tags q.tags)

abbrev fits_valid : ValidRow → Bool
fits_valid v = fits_category v.data_row.category && fits_tags v.tags

check_rows-fits :
    (sha256 : Text → ℕ) (n : ℕ) (qs : List ImportQuestionRow)
    → all fits qs ≡ true
    → all fits_valid (check_rows sha256 n qs).1 ≡ true
unfolding check_rows valid_row
check_rows-fits sha256 n [] h = refl
check_rows-fits sha256 n (q ∷ qs) h = ground (arith, check_rows-fits sha256 (suc n) qs)

fits-breaks_columns :
    (user now : ℕ) (vs : List ValidRow) (p : Progress)
    → all fits_valid vs ≡ true
    → breaks_columns user now vs p ≡ false
unfolding breaks_columns breaks_column
fits-breaks_columns user now [] p h = refl
fits-breaks_columns user now (v ∷ vs) p h =
    ground (arith, fits-breaks_columns user now vs (import_row user now v p))

bump-questions : (vs : List ValidRow) (db : Db) → (bump vs db).questions ≡ db.questions
bump-questions [] db = refl
bump-questions (v ∷ vs) db = refl

-- The number of the rows that a report gives as imported, skipped or failed.
abbrev pub reported : ImportReport → ℕ
reported r = r.imported + length r.skipped + length r.failed

module _ (sha256 : Text → ℕ) (now : ℕ) (user : AuthUser) (rows : List ImportQuestionRow) where
  abbrev run : Bool → Db → Outcome Db ImportReport
  run dry_run db = import_questions sha256 now user dry_run rows db

  abbrev first_state : Db → Progress
  first_state db = record { db = db; imported = 0; skipped = [] }

  abbrev loop : Db → Progress
  loop db = import_rows user.id now (check_rows sha256 1 rows).1 (first_state db)

  abbrev report : Db → ImportReport
  report db = record {
    dry_run = false;
    would_import = 0;
    imported = (loop db).imported;
    skipped = (loop db).skipped;
    failed = (check_rows sha256 1 rows).0;
  }

  abbrev vs : List ValidRow
  vs = (check_rows sha256 1 rows).1

  run-returns :
      (db : Db)
      → ltb 2_000 (length rows) ≡ false
      → all fits rows ≡ true
      → run false db ≡ returns (report db) (bump vs (loop db).db)
  unfolding import_questions
  run-returns db h f = rw h (
      rw (fits-breaks_columns user.id now vs (first_state db) (check_rows-fits sha256 1 rows f))
        refl)

  known : (db : Db) → All (λ (v : ValidRow). has v.hash (bump vs (loop db).db) ≡ true) vs
  known db = bumped vs
    where
      bumped :
          (ws : List ValidRow) → All (λ (v : ValidRow). has v.hash (bump ws (loop db).db) ≡ true) vs
      bumped [] = import_rows-All user.id now vs (first_state db)
      bumped (w ∷ ws) = import_rows-All user.id now vs (first_state db)

  -- An import of at most 2,000 rows, whose categories and tags fit in their columns, returns a report that counts each row once, as imported, skipped
  -- or failed.
  pub import_questions-reported :
      (db : Db)
      → ltb 2_000 (length rows) ≡ false
      → all fits rows ≡ true
      → (r : ImportReport) × (value (run false db) ≡ some r) × (reported r ≡ length rows)
  import_questions-reported db h f = (
    report db,
    ap value (run-returns db h f),
    omega (
      arith,
      import_rows-length user.id now (check_rows sha256 1 rows).1 (first_state db),
      check_rows-length sha256 1 rows,
    ),
  )

  -- An import of at most 2,000 rows, with categories of at most 100 characters and tags of at most 50,
  -- that is repeated returns and imports no row, and leaves the questions as the first one left
  -- them.
  pub import_questions_again :
      (db : Db)
      → ltb 2_000 (length rows) ≡ false
      → all fits rows ≡ true
      → (r : ImportReport) × (value (run false (after (run false db))) ≡ some r)
        × (r.imported ≡ 0)
        × ((after (run false (after (run false db)))).questions ≡ (after (run false db)).questions)
  import_questions_again db h f =
      let next : Db = bump vs (loop db).db in
      let again = import_rows-known user.id now vs (first_state next) (known db) in
      rw (run-returns db h f) (
        report next,
        ap value (run-returns next h f),
        again.0,
        ap (λ (o : Outcome Db ImportReport). (after o).questions) (run-returns next h f)
            ∙ (bump-questions vs (loop next).db ∙ ap (λ (d : Db). d.questions) again.1),
      )
