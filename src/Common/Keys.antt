-- ===== src/Common/Keys.antt =====
-- Tables whose rows are told apart by a numeric key: a primary key or a unique column.
use package.ayo_snbt_backend.Common.{
  ℕ, ◌≡◌, refl, inl, inr, Bool, true, false, none, some, List, [], ◌∷◌, ◌++◌, arith, ◌==◌,
  if◌then◌else◌, Bool-cases, any, any-append, All, first, update,
}

module _ {ℓ} {A : Type ℓ} (key : A → ℕ) where
  -- `eq(table.key, k)`.
  abbrev pub by : ℕ → A → Bool
  by k x = key x == k

  -- No two rows share the key.
  abbrev pub Distinct : List A → Type 0
  Distinct [] = Unit
  Distinct (x ∷ xs) = (any (by (key x)) xs ≡ false) × Distinct xs

module _ {ℓ} {A : Type ℓ} (key : A → ℕ) where
  pub any_of_first :
      (q : A → Bool) (xs : List A) (o : A) → first q xs ≡ some o → any (by key (key o)) xs ≡ true
  any_of_first q [] o h = cc
  any_of_first q (x ∷ xs) o h = elim (Bool-cases (q x)) [
    | inl e ↦ ground arith
    | inr e ↦ ground (arith, any_of_first q xs o)
  ]

  -- Whatever a row was found by, it is also the one found by its key.
  pub first-by_key :
      (q : A → Bool) (xs : List A) (o : A)
      → Distinct key xs
      → first q xs ≡ some o
      → first (by key (key o)) xs ≡ some o
  first-by_key q [] o d h = cc
  first-by_key q (x ∷ xs) o d h = elim (Bool-cases (q x)) [
    | inl e ↦ ground arith
    | inr e ↦ ground (arith, first-by_key q xs o d.1, any_of_first q xs o)
  ]

  pub any-by-update :
      (p : A → Bool) (f : A → A) (k : ℕ) (xs : List A)
      → ((x : A) → key (f x) ≡ key x)
      → any (by key k) (update p f xs) ≡ any (by key k) xs
  any-by-update p f k [] h = refl
  any-by-update p f k (x ∷ xs) h = ground (arith, h x, any-by-update p f k xs h)

  pub Distinct-update :
      (p : A → Bool) (f : A → A) (xs : List A)
      → ((x : A) → key (f x) ≡ key x)
      → Distinct key xs
      → Distinct key (update p f xs)
  Distinct-update p f [] h d = tt
  Distinct-update p f (x ∷ xs) h d = elim (Bool-cases (p x)) [
    | inl e ↦ rw e (rw (h x, any-by-update p f (key x) xs h) d.0, Distinct-update p f xs h d.1)
    | inr e ↦ rw e (rw (any-by-update p f (key x) xs h) d.0, Distinct-update p f xs h d.1)
  ]

  -- `INSERT` of a row with a new key.
  pub Distinct-append :
      (xs : List A) (a : A)
      → any (by key (key a)) xs ≡ false
      → Distinct key xs
      → Distinct key (xs ++ a ∷ [])
  Distinct-append [] a h d = (refl, tt)
  Distinct-append (x ∷ xs) a h d = (
    ground (arith, any-append (by key (key x)) xs (a ∷ [])),
    Distinct-append xs a (ground arith) d.1,
  )

  pub first-by-append :
      (k : ℕ) (xs : List A) (a : A)
      → any (by key (key a)) xs ≡ false
      → first (by key k) (xs ++ a ∷ []) ≡ (if key a == k then some a else first (by key k) xs)
  first-by-append k [] a h = refl
  first-by-append k (x ∷ xs) a h = ground (arith, first-by-append k xs a)

  -- `UPDATE … SET … WHERE key = j`, as a lookup by key sees it.
  pub first-by-update :
      (j k : ℕ) (f : A → A) (xs : List A)
      → ((x : A) → key (f x) ≡ key x)
      → first (by key k) (update (by key j) f xs)
        ≡ elim (first (by key k) xs) [ none ↦ none | some a ↦ some (if k == j then f a else a) ]
  first-by-update j k f [] h = refl
  first-by-update j k f (x ∷ xs) h = ground (arith, h x, first-by-update j k f xs h)

  -- A row that is found is the only one with its key.
  pub only_by_key :
      (q : A → Bool) (xs : List A) (o : A)
      → Distinct key xs
      → first q xs ≡ some o
      → All (λ x. (key x == key o) ≡ true → x ≡ o) xs
  only_by_key q [] o d h = tt
  only_by_key q (x ∷ xs) o d h = elim (Bool-cases (q x)) [
    | inl e ↦ (λ t. ground arith, others (key o) xs (ground arith))
    | inr e ↦ (λ t. ground (arith, any_of_first q xs o), only_by_key q xs o d.1 (ground arith))
  ]
    where
      others :
          (k : ℕ) (ys : List A)
          → any (by key k) ys ≡ false
          → All (λ y. (key y == k) ≡ true → y ≡ o) ys
      others k [] h = tt
      others k (y ∷ ys) h = (λ t. ground arith, others k ys (ground arith))
