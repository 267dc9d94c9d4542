-- ===== src/Questions/Rows.antt =====
-- `csvToImportRows` of modules/questions/csv.ts.
use package.ayo_snbt_backend.Common.{
  ℕ, suc, ◌+◌, ◌-◌, ◌*◌, Bool, ◌&&◌, Option, none, some, List, [], ◌∷◌, ◌==◌, leb, if◌then◌else◌,
  any, select, map, get_elem?, or_else,
}
use package.ayo_snbt_backend.Common.Text.{Text, trim, to_lower, text_eq, is_truthy}
use package.ayo_snbt_backend.Questions.Data.{Source}
use package.ayo_snbt_backend.Questions.Import.{OptionInput, ImportQuestionRow}

abbrev text_column : Text
text_column = 116 ∷ 101 ∷ 120 ∷ 116 ∷ []

abbrev category_column : Text
category_column = 99 ∷ 97 ∷ 116 ∷ 101 ∷ 103 ∷ 111 ∷ 114 ∷ 121 ∷ []

abbrev difficulty_column : Text
difficulty_column = 100 ∷ 105 ∷ 102 ∷ 102 ∷ 105 ∷ 99 ∷ 117 ∷ 108 ∷ 116 ∷ 121 ∷ []

abbrev tags_column : Text
tags_column = 116 ∷ 97 ∷ 103 ∷ 115 ∷ []

abbrev option1_column : Text
option1_column = 111 ∷ 112 ∷ 116 ∷ 105 ∷ 111 ∷ 110 ∷ 49 ∷ []

abbrev option2_column : Text
option2_column = 111 ∷ 112 ∷ 116 ∷ 105 ∷ 111 ∷ 110 ∷ 50 ∷ []

abbrev option3_column : Text
option3_column = 111 ∷ 112 ∷ 116 ∷ 105 ∷ 111 ∷ 110 ∷ 51 ∷ []

abbrev option4_column : Text
option4_column = 111 ∷ 112 ∷ 116 ∷ 105 ∷ 111 ∷ 110 ∷ 52 ∷ []

abbrev correct_column : Text
correct_column = 99 ∷ 111 ∷ 114 ∷ 114 ∷ 101 ∷ 99 ∷ 116 ∷ []

abbrev explanation_column : Text
explanation_column = 101 ∷ 120 ∷ 112 ∷ 108 ∷ 97 ∷ 110 ∷ 97 ∷ 116 ∷ 105 ∷ 111 ∷ 110 ∷ []

abbrev source_origin_column : Text
source_origin_column =
    115 ∷ 111 ∷ 117 ∷ 114 ∷ 99 ∷ 101 ∷ 95 ∷ 111 ∷ 114 ∷ 105 ∷ 103 ∷ 105 ∷ 110 ∷ []

abbrev source_year_column : Text
source_year_column = 115 ∷ 111 ∷ 117 ∷ 114 ∷ 99 ∷ 101 ∷ 95 ∷ 121 ∷ 101 ∷ 97 ∷ 114 ∷ []

abbrev review_status_column : Text
review_status_column =
    114 ∷ 101 ∷ 118 ∷ 105 ∷ 101 ∷ 119 ∷ 95 ∷ 115 ∷ 116 ∷ 97 ∷ 116 ∷ 117 ∷ 115 ∷ []

-- `CSV_COLUMNS`.
unfoldable pub csv_columns : List Text
csv_columns =
    text_column ∷ category_column ∷ difficulty_column ∷ tags_column ∷ option1_column
    ∷ option2_column ∷ option3_column ∷ option4_column ∷ correct_column ∷ explanation_column
    ∷ source_origin_column ∷ source_year_column ∷ review_status_column ∷ []

-- `names.indexOf(name)`.
unfoldable pub index_of : Text → List Text → Option ℕ
index_of name [] = none
index_of name (n ∷ ns) =
    let rest = index_of name ns in
    if text_eq n name then some 0 else elim rest [ none ↦ none | some i ↦ some (suc i) ]

-- `(raw[i] ?? "").trim()`, and the empty text for a column that is not there; `columns` is the header
-- or the canonical order.
unfoldable pub cell : List Text → List Text → Text → Text
unfolding index_of
cell columns raw name = elim (index_of name columns) [
  | none ↦ []
  | some i ↦ trim (or_else (get_elem? raw i) [])
]

-- `text.split(c)`.
unfoldable pub split : ℕ → Text → List Text
split c [] = [] ∷ []
split c (x ∷ xs) =
    let rest = split c xs in
    if x == c then [] ∷ rest else elim rest [ [] ↦ (x ∷ []) ∷ [] | (f ∷ fs) ↦ (x ∷ f) ∷ fs ]

abbrev is_digit : ℕ → Bool
is_digit c = leb 48 c && leb c 57

-- The digits at the front of a text, after those that were read.
unfoldable pub digits : Option ℕ → Text → Option ℕ
digits value [] = value
digits value (c ∷ cs) =
    let rest = digits (some (10 * or_else value 0 + (c - 48))) cs in
    if is_digit c then rest else value

-- `parseInt(text, 10)` where it is positive: none for no number, and for a negative one.
unfoldable pub parse_positive : Text → Option ℕ
unfolding digits
parse_positive [] = none
parse_positive (c ∷ cs) = digits none (if c == 43 then cs else c ∷ cs)

-- The options that are filled, before they are marked.
unfoldable pub filled : (Text → Text) → List Text → List Text
filled at [] = []
filled at (n ∷ ns) = let rest = filled at ns in if is_truthy (at n) then at n ∷ rest else rest

-- The marks, by the place among the filled options from `i` on.
unfoldable pub mark_options : List ℕ → ℕ → List Text → List OptionInput
mark_options correct i [] = []
mark_options correct i (t ∷ ts) =
    record { text = t; is_correct = any (λ n. n == i) correct } ∷ mark_options correct (suc i) ts

-- `correctSet`, in the order of the spec.
unfoldable pub correct_numbers : List Text → List ℕ
unfolding parse_positive
correct_numbers [] = []
correct_numbers (s ∷ ss) =
    let rest = correct_numbers ss in
    elim (parse_positive (trim s)) [ none ↦ rest | some n ↦ if leb 1 n then n ∷ rest else rest ]

abbrev given : Text → Option Text
given [] = none
given (c ∷ cs) = some (c ∷ cs)

abbrev given_tags : List Text → Option (List Text)
given_tags [] = none
given_tags (t ∷ ts) = some (t ∷ ts)

-- `sourceYear ? { year } : {}`: a year that is 0 or no number is left out; a negative one too.
abbrev given_year : Option ℕ → Option ℕ
given_year none = none
given_year (some y) = if y == 0 then none else some y

unfoldable pub source_of : Text → Text → Option Source
unfolding parse_positive
source_of [] year = none
source_of (c ∷ cs) year = some (record { origin = c ∷ cs; year = given_year (parse_positive year) })

-- A turn of the loop.
unfoldable pub import_row_of : (Text → Text) → ImportQuestionRow
unfolding split filled mark_options correct_numbers source_of
import_row_of at = record {
  text = at text_column;
  category = given (at category_column);
  difficulty = given (at difficulty_column);
  tags = given_tags (select is_truthy (map trim (split 59 (at tags_column))));
  options =
      mark_options (correct_numbers (split 44 (at correct_column))) 1
        (filled at (option1_column ∷ option2_column ∷ option3_column ∷ option4_column ∷ []));
  explanation = given (at explanation_column);
  source = source_of (at source_origin_column) (at source_year_column);
  review_status = given (at review_status_column);
}

-- The first row is a header where a cell of it reads `text`.
abbrev header : List Text → List Text
header row = map (λ c. map to_lower (trim c)) row

-- `csvToImportRows`.
unfoldable pub csv_to_import_rows : List (List Text) → List ImportQuestionRow
unfolding csv_columns cell import_row_of
csv_to_import_rows [] = []
csv_to_import_rows (row ∷ rows) =
    if any (text_eq text_column) (header row)
    then map (λ raw. import_row_of (cell (header row) raw)) rows
    else map (λ raw. import_row_of (cell csv_columns raw)) (row ∷ rows)
