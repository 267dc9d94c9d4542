-- ===== src/Paging/Keyset.antt =====
-- The keyset condition is the strict lexicographic order of its columns.
use package.ayo_snbt_backend.Common.{◌≡◌, Bool, false, ◌&&◌, ◌||◌, List, [], ◌∷◌, ◌++◌, arith, all}
use package.ayo_snbt_backend.Paging.{Column, is_equal, is_beyond, any_clause, keyset_condition}

-- The order that the listings are in: beyond in the first column, or equal there and beyond in the
-- rest.
abbrev pub is_beyond_all : List Column → Bool
is_beyond_all [] = false
is_beyond_all (c ∷ cs) = is_beyond c || (is_equal c && is_beyond_all cs)

all-snoc :
    (xs : List Column) (c : Column) → all is_equal (xs ++ c ∷ []) ≡ (all is_equal xs && is_equal c)
all-snoc [] c = ground arith
all-snoc (x ∷ xs) c = ground (arith, all-snoc xs c)

any_clause_lem :
    (earlier cs : List Column) → any_clause earlier cs ≡ (all is_equal earlier && is_beyond_all cs)
unfolding any_clause
any_clause_lem earlier [] = ground arith
any_clause_lem earlier (c ∷ cs) =
    ground (arith, any_clause_lem (earlier ++ c ∷ []) cs, all-snoc earlier c)

-- For one column or more, in any directions, the condition of `keysetCondition` holds exactly of the
-- rows that lie beyond the cursor in the lexicographic order of the columns.
pub keyset_condition_lem :
    (c : Column) (cs : List Column) → keyset_condition (c ∷ cs) ≡ is_beyond_all (c ∷ cs)
unfolding keyset_condition
keyset_condition_lem c cs = any_clause_lem [] (c ∷ cs)
