-- ===== src/Paging.antt =====
-- shared/pagination.ts: limits, the keyset condition and the pages of a listing. Times are
-- microseconds, as PostgreSQL keeps them; a cursor keeps milliseconds, as a JavaScript date does.
-- The condition, which the source writes as SQL text, is modelled by what it says of a row.
pub mod Keyset
pub mod Traversal
mod Examples
use package.ayo_snbt_backend.Common.{
  ℕ, zero, suc, ◌*◌, ◌/◌, min, Bool, true, false, ◌&&◌, ◌||◌, Option, none, some, List, [], ◌∷◌,
  ◌++◌, ◌==◌, ltb, if◌then◌else◌, all, take, select, length,
}
use package.ayo_snbt_backend.Common.Action.{Action, pure, throw, bad_request_error, invalid_limit}

-- `parseLimit` of a number that is given, or of none; the number is natural.
unfoldable pub parse_limit : {S : Type 0} → Option ℕ → ℕ → Action S ℕ
parse_limit none fallback =
    if ltb fallback 1 then throw (bad_request_error invalid_limit) else pure (min fallback 100)
parse_limit (some n) fallback =
    if ltb n 1 then throw (bad_request_error invalid_limit) else pure (min n 100)

pub data OrderDir : Type 0 where
  asc desc : OrderDir

-- A column of the condition at a row: the row's value, the cursor's, and the direction.
pub record Column : Type 0 where
  pub value : ℕ
  pub bound : ℕ
  pub dir : OrderDir

-- `c = v`, and `c < v` or `c > v` by the direction.
abbrev pub is_equal : Column → Bool
is_equal c = c.value == c.bound

abbrev pub compares : OrderDir → ℕ → ℕ → Bool
compares desc value bound = ltb value bound
compares asc value bound = ltb bound value

abbrev pub is_beyond : Column → Bool
is_beyond c = compares c.dir c.value c.bound

-- The loop over the columns: `earlier` are those before the one that it is at.
unfoldable pub any_clause : List Column → List Column → Bool
any_clause earlier [] = false
any_clause earlier (c ∷ cs) =
    (all is_equal earlier && is_beyond c) || any_clause (earlier ++ c ∷ []) cs

-- `keysetCondition`.
unfoldable pub keyset_condition : List Column → Bool
unfolding any_clause
keyset_condition [] = true
keyset_condition (c ∷ cs) = any_clause [] (c ∷ cs)

-- A row by its ordering keys, and a cursor.
pub record Row : Type 0 where
  pub created_at : ℕ
  pub id : ℕ

pub record Cursor : Type 0 where
  pub created_at : ℕ
  pub id : ℕ

-- `encodeCursor` of the last row and `decodeCursor`: the date loses its microseconds.
unfoldable pub encode_cursor : Row → Cursor
encode_cursor r = record { created_at = r.created_at / 1_000 * 1_000; id = r.id }

abbrev pub last? {ℓ} : {A : Type ℓ} → List A → Option A
last? [] = none
last? (x ∷ []) = some x
last? (x ∷ y ∷ xs) = last? (y ∷ xs)

pub record PageResult : Type 0 where
  pub rows : List Row
  pub next_cursor : Option Cursor

-- `buildPage`.
unfoldable pub build_page : List Row → ℕ → PageResult
unfolding encode_cursor
build_page rows limit = record {
  rows = rows;
  next_cursor =
      if length rows == limit
      then elim (last? rows) [ none ↦ none | some r ↦ some (encode_cursor r) ]
      else none;
}

-- The condition of the listings: `(created_at, id)`, both descending.
unfoldable pub is_after : Cursor → Row → Bool
unfolding keyset_condition
is_after c r = keyset_condition (
    record { value = r.created_at; bound = c.created_at; dir = desc }
    ∷ record { value = r.id; bound = c.id; dir = desc }
    ∷ [])

unfoldable pub rows_after : Option Cursor → List Row → List Row
unfolding is_after
rows_after none rows = rows
rows_after (some c) rows = select (is_after c) rows

-- A listing: `table` is in the order of the query.
unfoldable pub list_page : Option Cursor → ℕ → List Row → PageResult
unfolding rows_after build_page
list_page cursor limit table = build_page (take limit (rows_after cursor table)) limit

-- A client that follows the cursors, at most `fuel` pages far.
unfoldable pub follow : ℕ → Option Cursor → ℕ → List Row → List Row
unfolding list_page
follow zero cursor limit table = []
follow (suc fuel) cursor limit table =
    let page = list_page cursor limit table in
    page.rows ++ elim page.next_cursor [ none ↦ [] | some c ↦ follow fuel (some c) limit table ]
