-- ===== src/Questions/Csv/RoundTrip.antt =====
-- Reading a printed text back.
use package.ayo_snbt_backend.Common.{
  ℕ, ◌≡◌, ◌∙◌, sym, ap, refl, inl, inr, false, List, [], ◌∷◌, ◌++◌, ◌==◌, if◌then◌else◌, Bool-cases,
  ==_iff, map, subst, arith, ◌&&◌,
}
use package.ayo_snbt_backend.Questions.Csv.{
  quote, comma, line_feed, carriage_return, normalize_lines, finish, parse_csv,
}
use package.ayo_snbt_backend.Questions.Csv.Printed.{escape, print_row, print_rows, scan_rows}

-- A line feed for every carriage return, and before that: without the carriage returns that stand
-- directly before a line feed.
abbrev pub to_line_feed : ℕ → ℕ
to_line_feed c = if c == carriage_return then line_feed else c

unfoldable pub join_returns : List ℕ → List ℕ
join_returns [] = []
join_returns (c ∷ []) = c ∷ []
join_returns (c ∷ d ∷ cs) =
    let rest = join_returns (d ∷ cs) in
    if (c == carriage_return) && (d == line_feed) then rest else c ∷ rest

abbrev pub unix_lines : List ℕ → List ℕ
unix_lines f = map to_line_feed (join_returns f)

-- Line ends inside the fields of a row.
abbrev pub normalize_fields : List ℕ × List (List ℕ) → List ℕ × List (List ℕ)
normalize_fields r = (normalize_lines r.0, map normalize_lines r.1)

normalize_other :
    (c : ℕ) (cs : List ℕ)
    → (c == carriage_return) ≡ false
    → normalize_lines (c ∷ cs) ≡ c ∷ normalize_lines cs
unfolding normalize_lines
normalize_other c [] h = rw h refl
normalize_other c (d ∷ ds) h = rw h refl

normalize_return :
    (d : ℕ) (ds : List ℕ)
    → (d == line_feed) ≡ false
    → normalize_lines (carriage_return ∷ d ∷ ds) ≡ line_feed ∷ normalize_lines (d ∷ ds)
unfolding normalize_lines
normalize_return d ds h = rw h refl

-- The two replacements in the printed field `f`.
abbrev Normalizes : List ℕ → List ℕ → Type 0
Normalizes f rest =
    normalize_lines (escape f ++ rest) ≡ escape (normalize_lines f) ++ normalize_lines rest

other-Normalizes :
    (c : ℕ) (cs rest : List ℕ)
    → (c == carriage_return) ≡ false
    → Normalizes cs rest
    → Normalizes (c ∷ cs) rest
unfolding escape
other-Normalizes c cs rest h ih = rw (normalize_other c cs h) (elim (Bool-cases (c == quote)) [
  | inl q ↦
      rw (q, escape)
        (normalize_other quote (quote ∷ (escape cs ++ rest)) refl
          ∙ ap (λ k. quote ∷ k)
              (normalize_other quote (escape cs ++ rest) refl ∙ ap (λ k. quote ∷ k) ih))
  | inr q ↦ rw (q, escape) (normalize_other c (escape cs ++ rest) h ∙ ap (λ k. c ∷ k) ih)
])

return_end-Normalizes : (rest : List ℕ) → Normalizes (carriage_return ∷ []) rest
unfolding escape normalize_lines
return_end-Normalizes rest = ap (λ k. line_feed ∷ k) (normalize_other quote rest refl)

return_feed-Normalizes :
    (ds rest : List ℕ)
    → Normalizes (line_feed ∷ ds) rest
    → Normalizes (carriage_return ∷ line_feed ∷ ds) rest
unfolding escape normalize_lines
return_feed-Normalizes ds rest ih = ih

normalize_return_escape :
    (d : ℕ) (ds rest : List ℕ)
    → (d == line_feed) ≡ false
    → normalize_lines (carriage_return ∷ (escape (d ∷ ds) ++ rest))
      ≡ line_feed ∷ normalize_lines (escape (d ∷ ds) ++ rest)
unfolding escape
normalize_return_escape d ds rest h = elim (Bool-cases (d == quote)) [
  | inl q ↦ rw (q, escape) (normalize_return quote (quote ∷ (escape ds ++ rest)) refl)
  | inr q ↦ rw (q, escape) (normalize_return d (escape ds ++ rest) h)
]

return-Normalizes :
    (d : ℕ) (ds rest : List ℕ)
    → (d == line_feed) ≡ false
    → Normalizes (d ∷ ds) rest
    → Normalizes (carriage_return ∷ d ∷ ds) rest
unfolding escape
return-Normalizes d ds rest h ih =
    rw (normalize_return d ds h) (normalize_return_escape d ds rest h ∙ ap (λ k. line_feed ∷ k) ih)

return_cases-Normalizes :
    (cs rest : List ℕ) → Normalizes cs rest → Normalizes (carriage_return ∷ cs) rest
return_cases-Normalizes [] rest ih = return_end-Normalizes rest
return_cases-Normalizes (d ∷ ds) rest ih = elim (Bool-cases (d == line_feed)) [
  | inl e ↦
      let p : d ≡ line_feed = (==_iff d line_feed).0 e in
      subst (λ k. Normalizes (carriage_return ∷ k ∷ ds) rest) (sym p)
        (return_feed-Normalizes ds rest (subst (λ k. Normalizes (k ∷ ds) rest) p ih))
  | inr e ↦ return-Normalizes d ds rest e ih
]

escape-Normalizes : (f rest : List ℕ) → Normalizes f rest
unfolding escape normalize_lines
escape-Normalizes [] rest = normalize_other quote rest refl
escape-Normalizes (c ∷ cs) rest = elim (Bool-cases (c == carriage_return)) [
  | inl e ↦
      subst (λ k. Normalizes (k ∷ cs) rest) (sym ((==_iff c carriage_return).0 e))
        (return_cases-Normalizes cs rest (escape-Normalizes cs rest))
  | inr e ↦ other-Normalizes c cs rest e (escape-Normalizes cs rest)
]

normalize-print_row :
    (f : List ℕ) (gs : List (List ℕ)) (rest : List ℕ)
    → normalize_lines (print_row f gs rest)
      ≡ print_row (normalize_lines f) (map normalize_lines gs) (normalize_lines rest)
unfolding print_row
normalize-print_row f [] rest =
    normalize_other quote (escape f ++ line_feed ∷ rest) refl
    ∙ ap (λ k. quote ∷ k)
        (escape-Normalizes f (line_feed ∷ rest)
          ∙ ap (λ k. escape (normalize_lines f) ++ k) (normalize_other line_feed rest refl))
normalize-print_row f (g ∷ gs) rest =
    normalize_other quote (escape f ++ comma ∷ print_row g gs rest) refl
    ∙ ap (λ k. quote ∷ k)
        (escape-Normalizes f (comma ∷ print_row g gs rest)
          ∙ ap (λ k. escape (normalize_lines f) ++ k)
              (normalize_other comma (print_row g gs rest) refl
                ∙ ap (λ k. comma ∷ k) (normalize-print_row g gs rest)))

normalize-print_rows :
    (rs : List (List ℕ × List (List ℕ)))
    → normalize_lines (print_rows rs) ≡ print_rows (map normalize_fields rs)
unfolding print_rows normalize_lines
normalize-print_rows [] = refl
normalize-print_rows (r ∷ rs) =
    normalize-print_row r.0 r.1 (print_rows rs)
    ∙ ap (print_row (normalize_lines r.0) (map normalize_lines r.1)) (normalize-print_rows rs)

normalize-unix_lines : (f : List ℕ) → normalize_lines f ≡ unix_lines f
unfolding normalize_lines join_returns
normalize-unix_lines [] = refl
normalize-unix_lines (c ∷ []) = refl
normalize-unix_lines (c ∷ d ∷ cs) = ground (arith, normalize-unix_lines (d ∷ cs))

normalize-all : (gs : List (List ℕ)) → map normalize_lines gs ≡ map unix_lines gs
normalize-all [] = refl
normalize-all (g ∷ gs) = rw (normalize-unix_lines g) (ap (λ k. unix_lines g ∷ k) (normalize-all gs))

map-map :
    (rs : List (List ℕ × List (List ℕ)))
    → map (λ r. r.0 ∷ r.1) (map normalize_fields rs)
      ≡ map (λ r. unix_lines r.0 ∷ map unix_lines r.1) rs
map-map [] = refl
map-map (r ∷ rs) =
    rw (normalize-unix_lines r.0)
      (rw (normalize-all r.1) (ap (λ k. (unix_lines r.0 ∷ map unix_lines r.1) ∷ k) (map-map rs)))

-- `parseCsv` of a printed text, every field of which is quoted with its quotes doubled, whose rows
-- have each at least one field: the rows that were printed, in their order, and the fields as they
-- were, commas, quotes and line feeds included, but for CRLF and CR, which are LF also in quotes.
pub parse_csv-print_rows :
    (rs : List (List ℕ × List (List ℕ)))
    → parse_csv (print_rows rs) ≡ map (λ r. unix_lines r.0 ∷ map unix_lines r.1) rs
unfolding parse_csv finish
parse_csv-print_rows rs =
    rw (normalize-print_rows rs) (rw (scan_rows (map normalize_fields rs) []) (map-map rs))
