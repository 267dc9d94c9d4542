-- ===== src/Simulations/Attempts.antt =====
-- The attempt policy of a package.
use package.ayo_snbt_backend.Common.{
  ℕ, ◌+◌, ◌≤◌, ◌≡◌, refl, sym, subst, inl, inr, Bool, true, false, not, ◌&&◌, Option, none, some,
  List, [], ◌∷◌, ◌++◌, arith, first, first-holds, select, length, ◌==◌, Bool-cases, ==_refl,
  length-append,
}
use package.ayo_snbt_backend.Common.Action.{
  after, value, returns, throws, Outcome, after-and_then, Action, and_then,
}
use package.ayo_snbt_backend.Simulations.Data.{SimulationPackage, SimulationSession, Db}
use package.ayo_snbt_backend.Simulations.Grading.{get_package}
use package.ayo_snbt_backend.Simulations.Start.{
  RandomOrder, NewSession, start_session, check_start, insert_session, new_session, attempts_of,
  is_attempt, pick, is_used_up, breaks_index, answer_rows,
}

select-append {ℓ} :
    {A : Type ℓ} (p : A → Bool) (xs ys : List A) → select p (xs ++ ys) ≡ select p xs ++ select p ys
select-append p [] ys = refl
select-append p (x ∷ xs) ys = ground (arith, select-append p xs ys)

abbrev pub IsWithin : Option ℕ → ℕ → Type 0
IsWithin none n = Unit
IsWithin (some m) n = n ≤ m

used_up_lem : (limit : Option ℕ) (n : ℕ) → is_used_up limit n ≡ false → IsWithin limit (n + 1)
unfolding is_used_up
used_up_lem none n h = tt
used_up_lem (some m) n h = ground arith

check_start-used :
    (fresh : NewSession) (attempts : List SimulationSession) (p : SimulationPackage) (db : Db)
    → is_used_up p.max_attempts (length attempts) ≡ true
    → (value (check_start fresh attempts p db) ≡ none)
      × (after (check_start fresh attempts p db) ≡ db)
unfolding check_start
check_start-used fresh attempts p db h = ground arith

after-stopped :
    {S A B : Type 0} (o : Outcome S A) (f : A → Action S B)
    → value o ≡ none
    → after (and_then o f) ≡ after o
after-stopped (returns a s) f h = cc
after-stopped (throws e s) f h = refl

insert_session-sessions :
    (fresh : NewSession) (user : ℕ) (p : SimulationPackage) (picked : List ℕ) (db : Db)
    → (after (insert_session fresh user p picked db)).sessions
      ≡ db.sessions ++ new_session fresh user p ∷ []
unfolding insert_session
insert_session-sessions fresh user p picked db =
    elim (Bool-cases (breaks_index db.answers (answer_rows fresh picked 0))) [
      | inl e ↦ rw (e, insert_session) refl
      | inr e ↦ rw (e, insert_session) refl
    ]

-- The user's attempts at the package are within its limit.
abbrev pub IsWithinPolicy : SimulationPackage → ℕ → Db → Type 0
IsWithinPolicy p user db = IsWithin p.max_attempts (length (attempts_of user p.id db.sessions))

-- The session that an attempt writes counts as one more attempt at the package.
pub attempts_of-new_session :
    (fresh : NewSession) (user : ℕ) (p : SimulationPackage) (sessions : List SimulationSession)
    → length (attempts_of user p.id (sessions ++ new_session fresh user p ∷ []))
      ≡ length (attempts_of user p.id sessions) + 1
unfolding new_session
attempts_of-new_session fresh user p sessions =
    rw (select-append (is_attempt user p.id) sessions (new_session fresh user p ∷ [])) (
      rw
        (length-append (select (is_attempt user p.id) sessions)
          (select (is_attempt user p.id) (new_session fresh user p ∷ [])))
        (rw (==_refl user) (rw (==_refl p.id) refl)))

insert_session-IsWithinPolicy :
    (fresh : NewSession) (user : ℕ) (p : SimulationPackage) (picked : List ℕ) (db : Db)
    → is_used_up p.max_attempts (length (attempts_of user p.id db.sessions)) ≡ false
    → IsWithinPolicy p user (after (insert_session fresh user p picked db))
insert_session-IsWithinPolicy fresh user p picked db h =
    rw (insert_session-sessions fresh user p picked db) (
      rw (attempts_of-new_session fresh user p db.sessions)
        (used_up_lem p.max_attempts (length (attempts_of user p.id db.sessions)) h))

check_start-after :
    (fresh : NewSession) (attempts : List SimulationSession) (p : SimulationPackage) (db : Db)
    → after (check_start fresh attempts p db) ≡ db
unfolding check_start
check_start-after fresh attempts p db = ground arith

start_found :
    (random : RandomOrder) (fresh : NewSession) (user : ℕ) (p : SimulationPackage) (db : Db)
    → first (λ (x : SimulationPackage). (x.id == p.id) && not x.is_deleted) db.packages ≡ some p
    → IsWithinPolicy p user db
    → IsWithinPolicy p user (after (start_session random fresh user p.id db))
unfolding start_session get_package
start_found random fresh user p db e h =
    rw (e, start_session)
      (elim (Bool-cases (is_used_up p.max_attempts (length (attempts_of user p.id db.sessions)))) [
        | inl u ↦
            rw
              (after-stopped (check_start fresh (attempts_of user p.id db.sessions) p db) _
                (check_start-used fresh (attempts_of user p.id db.sessions) p db u).0)
              (rw (check_start-after fresh (attempts_of user p.id db.sessions) p db) h)
        | inr u ↦
            after-and_then (λ t. t ≡ db) (IsWithinPolicy p user)
              (check_start fresh (attempts_of user p.id db.sessions) p db) _
              (check_start-after fresh (attempts_of user p.id db.sessions) p db) (λ t l. rw l h)
              (λ v t l.
                rw l (elim (Bool-cases (length (pick random db.questions p.question_counts) == 0)) [
                  | inl z ↦ rw z h
                  | inr z ↦ rw z (
                      insert_session-IsWithinPolicy fresh user p
                        (pick random db.questions p.question_counts) db u)
                ]))
      ])

-- Where the package is found and the user's attempts at it are within its limit, they are within it
-- after `startSession` too, whatever the random order, and whether it returns or throws.
pub start_session-IsWithinPolicy :
    (random : RandomOrder) (fresh : NewSession) (user pkg : ℕ) (p : SimulationPackage) (db : Db)
    → first (λ (x : SimulationPackage). (x.id == pkg) && not x.is_deleted) db.packages ≡ some p
    → IsWithinPolicy p user db
    → IsWithinPolicy p user (after (start_session random fresh user pkg db))
start_session-IsWithinPolicy random fresh user pkg p db e h =
    subst (λ k. IsWithinPolicy p user (after (start_session random fresh user k db))) same
      (start_found random fresh user p db
        (subst
          (λ k.
            first (λ (x : SimulationPackage). (x.id == k) && not x.is_deleted) db.packages ≡ some p)
          (sym same) e)
        h)
  where
    found : ((p.id == pkg) && not p.is_deleted) ≡ true
    found = first-holds _ db.packages p e

    same : p.id ≡ pkg
    same = ground (arith, found)
