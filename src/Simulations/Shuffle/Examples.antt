-- ===== src/Simulations/Shuffle/Examples.antt =====
-- Four options shuffled by a seed of three characters.
use mathlib.Core.List.{Perm}
use package.ayo_snbt_backend.Common.{ℕ, List, [], ◌∷◌}
use package.ayo_snbt_backend.Simulations.Shuffle.{seeded_shuffle}
use package.ayo_snbt_backend.Simulations.Shuffle.Permutes.{seeded_shuffle-perm}

abbrev options : List ℕ
options = 10 ∷ 20 ∷ 30 ∷ 40 ∷ []

seeded_shuffle-perm_example : Perm (seeded_shuffle options (115 ∷ 58 ∷ 113 ∷ [])) options
seeded_shuffle-perm_example = seeded_shuffle-perm options (115 ∷ 58 ∷ 113 ∷ [])
