-- ===== src/Simulations/Shuffle.antt =====
-- modules/simulations/shuffle.ts: the seeded shuffle of a question's options. The 32-bit words of the
-- generator are natural numbers below 2 ^ 32; a seed is the list of its character codes.
pub mod Permutes
mod Examples
use Prim.Native.Nat.{bit_or, bit_xor}
use package.ayo_snbt_backend.Common.{
  ℕ, zero, suc, ◌+◌, ◌-◌, ◌*◌, ◌/◌, ◌%◌, ◌^◌, Option, none, some, List, [], ◌∷◌, get_elem?, set,
  length,
}

abbrev word : ℕ
word = 2 ^ 32

-- `Math.imul`.
unfoldable pub imul : ℕ → ℕ → ℕ
imul a b = a * b % word

-- `x >>> k`.
abbrev shr : ℕ → ℕ → ℕ
shr x k = x / 2 ^ k

-- The loop of `hashSeed`.
unfoldable pub hash_from : ℕ → List ℕ → ℕ
unfolding imul
hash_from h [] = h
hash_from h (c ∷ cs) = hash_from (imul (bit_xor h c) 16_777_619) cs

unfoldable pub hash_seed : List ℕ → ℕ
unfolding hash_from
hash_seed input = hash_from 2_166_136_261 input

-- One call of the generator of `mulberry32`: its word before the division by 2 ^ 32, and the state.
unfoldable pub next_word : ℕ → ℕ × ℕ
unfolding imul
next_word state =
    let a : ℕ = (state + 0x6d2b_79f5) % word in
    let t : ℕ = imul (bit_xor a (shr a 15)) (bit_or 1 a) in
    let u : ℕ = bit_xor ((t + imul (bit_xor t (shr t 7)) (bit_or 61 t)) % word) t in
    (bit_xor u (shr u 14), a)

-- `Math.floor(rand() * (i + 1))` of the word.
unfoldable pub pick_below : ℕ → ℕ → ℕ
pick_below w n = w * n / word

module _ {A : Type 0} where
  -- The exchange of two entries; where one is missing the loop goes on.
  unfoldable pub swap : List A → ℕ → ℕ → List A
  swap arr i j = elim (get_elem? arr i) [
    | none ↦ arr
    | some a ↦ elim (get_elem? arr j) [ none ↦ arr | some b ↦ set (set arr i b) j a ]
  ]

  -- The loop from `i` down to 1.
  unfoldable pub shuffle_from : ℕ → ℕ → List A → List A
  unfolding next_word pick_below swap
  shuffle_from zero state arr = arr
  shuffle_from (suc i) state arr =
      shuffle_from i (next_word state).1
        (swap arr (suc i) (pick_below (next_word state).0 (suc i + 1)))

  -- `seededShuffle`.
  unfoldable pub seeded_shuffle : List A → List ℕ → List A
  unfolding hash_seed shuffle_from
  seeded_shuffle input seed = shuffle_from (length input - 1) (hash_seed seed) input
