-- ===== src/Paging/Examples.antt =====
-- Listings of two rows.
use package.ayo_snbt_backend.Common.{◌≡◌, refl, none, [], ◌∷◌, arith}
use package.ayo_snbt_backend.Paging.{Column, desc, asc, Row, keyset_condition, follow}
use package.ayo_snbt_backend.Paging.Keyset.{is_beyond_all, keyset_condition_lem}
use package.ayo_snbt_backend.Paging.Traversal.{follow-All, lost_row}

abbrev by_time : Column
by_time = record { value = 5; bound = 5; dir = desc }

abbrev by_id : Column
by_id = record { value = 2; bound = 3; dir = asc }

keyset_condition_lem_example :
    keyset_condition (by_time ∷ by_id ∷ []) ≡ is_beyond_all (by_time ∷ by_id ∷ [])
keyset_condition_lem_example = keyset_condition_lem by_time (by_id ∷ [])

abbrev newer : Row
newer = record { created_at = 7_000; id = 1 }

abbrev older : Row
older = record { created_at = 4_000; id = 2 }

follow-All_example : follow 3 none 1 (newer ∷ older ∷ []) ≡ newer ∷ older ∷ []
follow-All_example = follow-All 0 (newer ∷ older ∷ []) ((refl, tt), (tt, tt)) (refl, (refl, tt))

abbrev late : Row
late = record { created_at = 7_456; id = 1 }

abbrev early : Row
early = record { created_at = 7_123; id = 2 }

lost_row_example : follow 9 none 1 (late ∷ early ∷ []) ≡ late ∷ []
lost_row_example = lost_row 7 late early refl (omega arith)
