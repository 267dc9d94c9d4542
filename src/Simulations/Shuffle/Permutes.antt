-- ===== src/Simulations/Shuffle/Permutes.antt =====
-- The shuffle rearranges its input.
use mathlib.Core.List.{Perm}
use mathlib.Core.List.Perm
use package.ayo_snbt_backend.Common.{
  ℕ, zero, suc, ◌≡◌, refl, inl, inr, some, List, [], ◌∷◌, get_elem?, set, length, ◌-◌, Option-cases,
}
use package.ayo_snbt_backend.Simulations.Shuffle.{swap, shuffle_from, seeded_shuffle, hash_seed}

module _ {A : Type 0} where
  -- A write trades the old entry for the new one.
  set-perm :
      (xs : List A) (i : ℕ) (a v : A) → get_elem? xs i ≡ some a → Perm (a ∷ set xs i v) (v ∷ xs)
  set-perm [] i a v h = cc
  set-perm (x ∷ xs) zero a v h = rw (same x a h) (Perm.swap v a xs)
    where
      same : (x a : A) → some x ≡ some a → x ≡ a
      same x a h = cc
  set-perm (x ∷ xs) (suc i) a v h =
      Perm.trans (Perm.swap x a _)
        (Perm.trans (Perm.cons x (set-perm xs i a v h)) (Perm.swap v x xs))

  get_elem?-set :
      (xs : List A) (i j : ℕ) (b : A) → get_elem? xs j ≡ some b → get_elem? (set xs i b) j ≡ some b
  get_elem?-set [] i j b h = h
  get_elem?-set (x ∷ xs) zero zero b h = refl
  get_elem?-set (x ∷ xs) zero (suc j) b h = h
  get_elem?-set (x ∷ xs) (suc i) zero b h = h
  get_elem?-set (x ∷ xs) (suc i) (suc j) b h = get_elem?-set xs i j b h

  swap-perm : (xs : List A) (i j : ℕ) → Perm (swap xs i j) xs
  unfolding swap
  swap-perm xs i j = elim (Option-cases (get_elem? xs i)) [
    | inl e ↦ rw (e, swap) (Perm.refl xs)
    | inr (a, e) ↦ elim (Option-cases (get_elem? xs j)) [
      | inl f ↦ rw (e, swap) (rw f (Perm.refl xs))
      | inr (b, f) ↦
          rw (e, swap)
            (rw f (
              Perm.cons_inv (
                Perm.trans (set-perm (set xs i b) j b a (get_elem?-set xs i j b f))
                  (set-perm xs i a b e))))
    ]
  ]

  shuffle_from-perm : (i state : ℕ) (xs : List A) → Perm (shuffle_from i state xs) xs
  unfolding shuffle_from
  shuffle_from-perm zero state xs = Perm.refl xs
  shuffle_from-perm (suc i) state xs =
      Perm.trans (shuffle_from-perm i _ (swap xs (suc i) _)) (swap-perm xs (suc i) _)

  -- Whatever the seed is, the shuffled options are the question's options in some order: none is
  -- lost, none doubled.
  pub seeded_shuffle-perm : (xs : List A) (seed : List ℕ) → Perm (seeded_shuffle xs seed) xs
  unfolding seeded_shuffle
  seeded_shuffle-perm xs seed = shuffle_from-perm (length xs - 1) (hash_seed seed) xs
