-- ===== src/Questions/Csv/Printed.antt =====
-- A printer for `parseCsv`, and its loop on printed texts.
use package.ayo_snbt_backend.Common.{
  ℕ, ◌≡◌, ◌∙◌, sym, ap, inl, inr, List, [], ◌∷◌, ◌++◌, ◌==◌, if◌then◌else◌, Bool-cases, ==_iff, map,
  append_assoc, append_nil,
}
use package.ayo_snbt_backend.Questions.Csv.{
  quote, comma, line_feed, plain, quoted, quote_seen, read_plain, read_char, scan,
}

-- A field in quotes, its own quotes doubled, without the quote it begins with.
unfoldable pub escape : List ℕ → List ℕ
escape [] = quote ∷ []
escape (c ∷ cs) = if c == quote then quote ∷ quote ∷ escape cs else c ∷ escape cs

-- A row, of a first field and others, and the text after it: quoted fields, a comma after each but
-- the last, and a line feed.
unfoldable pub print_row : List ℕ → List (List ℕ) → List ℕ → List ℕ
unfolding escape
print_row f [] rest = quote ∷ (escape f ++ line_feed ∷ rest)
print_row f (g ∷ gs) rest = quote ∷ (escape f ++ comma ∷ print_row g gs rest)

unfoldable pub print_rows : List (List ℕ × List (List ℕ)) → List ℕ
unfolding print_row
print_rows [] = []
print_rows (r ∷ rs) = print_row r.0 r.1 (print_rows rs)

-- The loop through a quoted field.
scan-escape :
    (f rest : List ℕ) (rows : List (List (List ℕ))) (row : List (List ℕ)) (field : List ℕ)
    → scan (escape f ++ rest) (record { rows = rows; row = row; field = field; mode = quoted })
      ≡ scan rest (record { rows = rows; row = row; field = field ++ f; mode = quote_seen })
unfolding scan read_char escape
scan-escape [] rest rows row field =
    ap (λ k. scan rest (record { rows = rows; row = row; field = k; mode = quote_seen }))
      (sym (append_nil field))
scan-escape (c ∷ cs) rest rows row field = elim (Bool-cases (c == quote)) [
  | inl e ↦ rw e (
      scan-escape cs rest rows row (field ++ quote ∷ [])
      ∙ ap (λ k. scan rest (record { rows = rows; row = row; field = k; mode = quote_seen }))
          (append_assoc field (quote ∷ []) cs
            ∙ ap (λ k. field ++ k ∷ cs) (sym ((==_iff c quote).0 e))))
  | inr e ↦ rw e (
      rw (e, scan)
        (scan-escape cs rest rows row (field ++ c ∷ [])
          ∙ ap (λ k. scan rest (record { rows = rows; row = row; field = k; mode = quote_seen }))
              (append_assoc field (c ∷ []) cs)))
]

scan_row :
    (f : List ℕ) (gs : List (List ℕ)) (rest : List ℕ) (rows : List (List (List ℕ)))
    (row : List (List ℕ))
    → scan (print_row f gs rest) (record { rows = rows; row = row; field = []; mode = plain })
      ≡ scan rest
          (record { rows = rows ++ (row ++ f ∷ gs) ∷ []; row = []; field = []; mode = plain })
unfolding scan read_char read_plain print_row
scan_row f [] rest rows row = scan-escape f (line_feed ∷ rest) rows row []
scan_row f (g ∷ gs) rest rows row =
    scan-escape f (comma ∷ print_row g gs rest) rows row []
    ∙ scan_row g gs rest rows (row ++ f ∷ [])
    ∙ ap (λ k. scan rest (record { rows = rows ++ k ∷ []; row = []; field = []; mode = plain }))
        (append_assoc row (f ∷ []) (g ∷ gs))

pub scan_rows :
    (rs : List (List ℕ × List (List ℕ))) (rows : List (List (List ℕ)))
    → scan (print_rows rs) (record { rows = rows; row = []; field = []; mode = plain })
      ≡ record { rows = rows ++ map (λ r. r.0 ∷ r.1) rs; row = []; field = []; mode = plain }
unfolding scan print_rows
scan_rows [] rows =
    ap (λ k. record { rows = k; row = []; field = []; mode = plain }) (sym (append_nil rows))
scan_rows (r ∷ rs) rows =
    scan_row r.0 r.1 (print_rows rs) rows []
    ∙ scan_rows rs (rows ++ (r.0 ∷ r.1) ∷ [])
    ∙ ap (λ k. record { rows = k; row = []; field = []; mode = plain })
        (append_assoc rows ((r.0 ∷ r.1) ∷ []) (map (λ x. x.0 ∷ x.1) rs))
