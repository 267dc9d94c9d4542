-- ===== src/Questions/Csv/Examples.antt =====
-- The parser at two rows, with a quote, a comma and a carriage return in the fields.
use package.ayo_snbt_backend.Common.{ℕ, ◌≡◌, refl, List, [], ◌∷◌}
use package.ayo_snbt_backend.Questions.Csv.{parse_csv}
use package.ayo_snbt_backend.Questions.Csv.Printed.{print_rows}
use package.ayo_snbt_backend.Questions.Csv.RoundTrip.{join_returns, parse_csv-print_rows}

abbrev field : List ℕ
field = 65 ∷ 34 ∷ 44 ∷ []

abbrev two_rows : List (List ℕ × List (List ℕ))
two_rows = (field, (66 ∷ 10 ∷ []) ∷ []) ∷ (67 ∷ 13 ∷ 10 ∷ 68 ∷ [], []) ∷ []

-- Without quotes, and without a line feed at the end.
unquoted :
    parse_csv (65 ∷ 44 ∷ 66 ∷ 13 ∷ 67 ∷ []) ≡ ((65 ∷ []) ∷ (66 ∷ []) ∷ []) ∷ ((67 ∷ []) ∷ []) ∷ []
unfolding parse_csv
unquoted = refl

parse_csv-print_rows_example :
    parse_csv (print_rows two_rows)
    ≡ (field ∷ (66 ∷ 10 ∷ []) ∷ []) ∷ ((67 ∷ 10 ∷ 68 ∷ []) ∷ []) ∷ []
unfolding join_returns
parse_csv-print_rows_example = parse_csv-print_rows two_rows
