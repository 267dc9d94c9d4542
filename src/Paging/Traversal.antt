-- ===== src/Paging/Traversal.antt =====
-- Following the cursors of a listing.
use package.ayo_snbt_backend.Common.{
  ℕ, zero, suc, ◌*◌, ◌/◌, ◌≤◌, ◌<◌, ◌≡◌, ◌∙◌, ap, sym, refl, subst, inl, inr, Bool, true, false,
  ◌&&◌, ◌||◌, Option, none, some, List, [], ◌∷◌, ◌++◌, arith, ◌==◌, ltb, ==_iff, take, select,
  length, All, Bool-cases, append_assoc, append_nil,
}
use package.ayo_snbt_backend.Paging.{
  Row, Cursor, encode_cursor, last?, build_page, is_after, keyset_condition, any_clause, rows_after,
  list_page, follow,
}

-- The row comes before the other in the order of the listing: later, or at the same time with the
-- greater id.
abbrev pub precedes : Row → Row → Bool
precedes r s = ltb s.created_at r.created_at || ((s.created_at == r.created_at) && ltb s.id r.id)

abbrev pub IsSorted : List Row → Type 0
IsSorted [] = Unit
IsSorted (r ∷ rs) = All (λ s. precedes r s ≡ true) rs × IsSorted rs

-- The row's time is a whole number of milliseconds.
abbrev pub IsWhole : Row → Type 0
IsWhole r = r.created_at / 1_000 * 1_000 ≡ r.created_at

is_after_lem : (r s : Row) → IsWhole r → is_after (encode_cursor r) s ≡ precedes r s
unfolding is_after keyset_condition any_clause encode_cursor
is_after_lem r s w = rw w (ground arith)

none_before :
    (r : Row) (xs zs : List Row)
    → IsWhole r
    → IsSorted (xs ++ r ∷ zs)
    → select (is_after (encode_cursor r)) (xs ++ r ∷ zs) ≡ select (is_after (encode_cursor r)) zs
none_before r [] zs w s = rw (is_after_lem r r w) (ground arith)
none_before r (x ∷ xs) zs w s =
    rw (is_after_lem r x w) (ground (arith, before xs s.0, none_before r xs zs w s.1))
  where
    before : (ys : List Row) → All (λ t. precedes x t ≡ true) (ys ++ r ∷ zs) → precedes x r ≡ true
    before [] a = a.0
    before (y ∷ ys) a = before ys a.1

All-after :
    (r : Row) (zs : List Row)
    → IsWhole r
    → All (λ s. precedes r s ≡ true) zs
    → select (is_after (encode_cursor r)) zs ≡ zs
All-after r [] w a = refl
All-after r (z ∷ zs) w a =
    rw (is_after_lem r z w) (rw (a.0) (ap (λ t. z ∷ t) (All-after r zs w a.1)))

sorted_tail :
    (xs : List Row) (r : Row) (zs : List Row)
    → IsSorted (xs ++ r ∷ zs)
    → All (λ s. precedes r s ≡ true) zs
sorted_tail [] r zs s = s.0
sorted_tail (x ∷ xs) r zs s = sorted_tail xs r zs s.1

-- The rows after a row's cursor are those that stand after it.
rows_after_row :
    (xs : List Row) (r : Row) (zs : List Row)
    → IsWhole r
    → IsSorted (xs ++ r ∷ zs)
    → rows_after (some (encode_cursor r)) (xs ++ r ∷ zs) ≡ zs
unfolding rows_after
rows_after_row xs r zs w s = none_before r xs zs w s ∙ All-after r zs w (sorted_tail xs r zs s)

abbrev drop : ℕ → List Row → List Row
drop zero xs = xs
drop (suc n) [] = []
drop (suc n) (x ∷ xs) = drop n xs

-- A page that is full ends in a row, and the table splits there.
record Split (n : ℕ) (ys : List Row) : Type 0 where
  front : List Row
  last : Row
  is_last : last? (take n ys) ≡ some last
  page : take n ys ++ drop n ys ≡ ys
  split : ys ≡ front ++ last ∷ drop n ys
  left : length (drop n ys) < length ys

Split-at : (n : ℕ) (ys : List Row) → length (take (suc n) ys) ≡ suc n → Split (suc n) ys
Split-at n [] e = absurd (omega arith)
Split-at zero (y ∷ ys) e = record {
  front = [];
  last = y;
  is_last = refl;
  page = refl;
  split = refl;
  left = omega arith;
}
Split-at (suc n) (y ∷ []) e = absurd (omega arith)
Split-at (suc n) (y ∷ z ∷ ys) e =
    let s = Split-at n (z ∷ ys) (omega arith) in
    record {
      front = y ∷ s.front;
      last = s.last;
      is_last = s.is_last;
      page = ap (λ t. y ∷ t) s.page;
      split = ap (λ t. y ∷ t) s.split;
      left = omega (arith, s.left);
    }

short_page : (n : ℕ) (ys : List Row) → (length (take n ys) == n) ≡ false → take n ys ≡ ys
short_page zero ys e = cc
short_page (suc n) [] e = refl
short_page (suc n) (y ∷ ys) e = ap (λ t. y ∷ t) (short_page n ys (ground arith))

IsWhole-at : (xs : List Row) (r : Row) (zs : List Row) → All IsWhole (xs ++ r ∷ zs) → IsWhole r
IsWhole-at [] r zs a = a.0
IsWhole-at (x ∷ xs) r zs a = IsWhole-at xs r zs a.1

module _ (n : ℕ) (table : List Row) (sorted : IsSorted table) (whole : All IsWhole table) where
  left_after :
      (front : List Row) (r : Row) (zs : List Row)
      → table ≡ front ++ r ∷ zs
      → rows_after (some (encode_cursor r)) table ≡ zs
  left_after front r zs e =
      subst (λ k. rows_after (some (encode_cursor r)) k ≡ zs) (sym e)
        (rows_after_row front r zs (IsWhole-at front r zs (subst (All IsWhole) e whole))
          (subst IsSorted e sorted))

  -- From a cursor after which `ys` are left, following it gives `ys`.
  follow_rest :
      (fuel : ℕ) (cursor : Option Cursor) (xs ys : List Row)
      → table ≡ xs ++ ys
      → rows_after cursor table ≡ ys
      → length ys < fuel
      → follow fuel cursor (suc n) table ≡ ys
  unfolding follow list_page build_page
  follow_rest zero cursor xs ys t e h = absurd (omega arith)
  follow_rest (suc fuel) cursor xs ys t e h =
      rw e (elim (Bool-cases (length (take (suc n) ys) == suc n)) [
        | inr short ↦ rw short (append_nil (take (suc n) ys) ∙ short_page (suc n) ys short)
        | inl full ↦
            let s = Split-at n ys ((==_iff _ _).0 full) in
            let whole_table : table ≡ (xs ++ s.front) ++ s.last ∷ drop (suc n) ys =
              t
              ∙ ap (λ k. xs ++ k) s.split
              ∙ sym (append_assoc xs s.front (s.last ∷ drop (suc n) ys)) in
            rw full (
              rw (s.is_last) (
                ap (λ k. take (suc n) ys ++ k)
                  (follow_rest fuel (some (encode_cursor s.last)) ((xs ++ s.front) ++ s.last ∷ [])
                    (drop (suc n) ys)
                    (whole_table
                      ∙ sym (append_assoc (xs ++ s.front) (s.last ∷ []) (drop (suc n) ys)))
                    (left_after (xs ++ s.front) s.last (drop (suc n) ys) whole_table)
                    (omega (arith, s.left)))
                ∙ s.page))
      ])

-- A client that follows the cursors of a listing with a positive limit gets every row of the table
-- once, in order, within one page more than the table has rows, where the rows are sorted and their
-- times are whole milliseconds.
pub follow-All :
    (n : ℕ) (table : List Row)
    → IsSorted table
    → All IsWhole table
    → follow (suc (length table)) none (suc n) table ≡ table
unfolding rows_after
follow-All n table sorted whole =
    follow_rest n table sorted whole (suc (length table)) none [] table refl refl (omega arith)

not_after_lem :
    (r t : Row) → r.created_at / 1_000 * 1_000 < t.created_at → is_after (encode_cursor r) t ≡ false
unfolding is_after keyset_condition any_clause encode_cursor
not_after_lem r t k = ground arith

-- Two rows in order, the second later than the first one's millisecond: on pages of one row, a client
-- that follows the cursors never gets the second, however many pages it asks for.
pub lost_row :
    (fuel : ℕ) (r s : Row)
    → precedes r s ≡ true
    → r.created_at / 1_000 * 1_000 < s.created_at
    → follow (suc (suc fuel)) none 1 (r ∷ s ∷ []) ≡ r ∷ []
unfolding follow list_page build_page rows_after
lost_row fuel r s p h =
    rw (not_after_lem r r (omega (arith, later))) (rw (not_after_lem r s h) refl)
  where
    later : s.created_at ≤ r.created_at
    later = ground arith
