-- ===== src/Questions/Csv.antt =====
-- `parseCsv` of modules/questions/csv.ts. Characters are their codes.
pub mod Printed
pub mod RoundTrip
mod Examples
use package.ayo_snbt_backend.Common.{
  ℕ, ◌≡◌, ◌∙◌, sym, ap, refl, inl, inr, Bool, true, false, not, ◌&&◌, ◌||◌, List, [], ◌∷◌, ◌++◌,
  arith, ◌==◌, if◌then◌else◌, Bool-cases, ==_iff,
}

abbrev pub quote : ℕ
quote = 34

abbrev pub comma : ℕ
comma = 44

abbrev pub line_feed : ℕ
line_feed = 10

abbrev pub carriage_return : ℕ
carriage_return = 13

-- The two replacements: CRLF, and then CR, by LF.
unfoldable pub normalize_lines : List ℕ → List ℕ
normalize_lines [] = []
normalize_lines (c ∷ []) = (if c == carriage_return then line_feed else c) ∷ []
normalize_lines (c ∷ d ∷ cs) =
    let rest = normalize_lines (d ∷ cs) in
    if c == carriage_return then (if d == line_feed then rest else line_feed ∷ rest) else c ∷ rest

-- Where the loop stands: the rows, the row and the field so far, and whether it is in quotes, with a
-- quote in quotes read before it is known whether another one follows.
pub data Mode : Type 0 where
  plain quoted quote_seen : Mode

pub record Parser : Type 0 where
  pub rows : List (List (List ℕ))
  pub row : List (List ℕ)
  pub field : List ℕ
  pub mode : Mode

abbrev pub add_char : ℕ → Parser → Parser
add_char c p = record p { field = p.field ++ c ∷ [] }

abbrev pub end_field : Parser → Parser
end_field p = record p { row = p.row ++ p.field ∷ []; field = [] }

abbrev pub end_row : Parser → Parser
end_row p = record p { rows = p.rows ++ p.row ∷ []; row = [] }

-- A character outside quotes.
unfoldable pub read_plain : ℕ → Parser → Parser
read_plain c p =
    if c == quote
    then record p { mode = quoted }
    else (if c == comma
        then end_field p
        else (if c == line_feed then end_row (end_field p) else add_char c p))

unfoldable pub read_char : ℕ → Mode → Parser → Parser
unfolding read_plain
read_char c plain p = read_plain c p
read_char c quoted p = if c == quote then record p { mode = quote_seen } else add_char c p
read_char c quote_seen p =
    if c == quote
    then add_char c (record p { mode = quoted })
    else read_plain c (record p { mode = plain })

-- The loop.
unfoldable pub scan : List ℕ → Parser → Parser
unfolding read_char
scan [] p = p
scan (c ∷ cs) p = scan cs (read_char c p.mode p)

abbrev pub is_empty {ℓ} : {A : Type ℓ} → List A → Bool
is_empty [] = true
is_empty (x ∷ xs) = false

-- The last field and row, without a line feed at the end.
unfoldable pub finish : Parser → List (List (List ℕ))
finish p =
    if not (is_empty p.field) || not (is_empty p.row)
    then p.rows ++ (p.row ++ p.field ∷ []) ∷ []
    else p.rows

abbrev pub start : Parser
start = record { rows = []; row = []; field = []; mode = plain }

unfoldable pub parse_csv : List ℕ → List (List (List ℕ))
unfolding normalize_lines scan finish
parse_csv text = finish (scan (normalize_lines text) start)
