-- ===== src/Simulations/Overlap.antt =====
-- A try-out whose package picks one question for two of its keys.
use package.ayo_snbt_backend.Common.{
  ℕ, suc, ◌+◌, ◌≡◌, refl, inl, inr, true, false, not, ◌&&◌, ◌||◌, some, List, [], ◌∷◌, ◌++◌, arith,
  first, any, ◌==◌, Bool-cases, any-append, ==_refl, subst, sym, ==_iff, length, first-holds,
  append_assoc,
}
use package.ayo_snbt_backend.Common.Action.{after, returns, throws, other_error}
use package.ayo_snbt_backend.Simulations.Data.{
  SimulationPackage, SimulationAnswer, CountKey, Question, Db, is_answer_to,
}
use package.ayo_snbt_backend.Simulations.Grading.{get_package}
use package.ayo_snbt_backend.Simulations.Start.{
  RandomOrder, NewSession, start_session, check_start, attempts_of, insert_session, new_session,
  answer_rows, breaks_index, pick, pick_key,
}
use package.ayo_snbt_backend.Simulations.Attempts.{attempts_of-new_session}

-- A question that is picked again further on.
abbrev Repeats : ℕ → List ℕ → List ℕ → Type 0
Repeats q xs ys = (any (λ x. x == q) xs ≡ true) × (any (λ x. x == q) ys ≡ true)

row_of :
    (fresh : NewSession) (q : ℕ) (qs : List ℕ) (i : ℕ)
    → any (λ x. x == q) qs ≡ true
    → any (is_answer_to fresh.id q) (answer_rows fresh qs i) ≡ true
unfolding answer_rows
row_of fresh q [] i h = cc
row_of fresh q (x ∷ xs) i h = ground (arith, ==_refl fresh.id, row_of fresh q xs (suc i))

repeated-breaks_index :
    (fresh : NewSession) (q : ℕ) (xs ys : List ℕ) (i : ℕ) (table : List SimulationAnswer)
    → Repeats q xs ys
    → breaks_index table (answer_rows fresh (xs ++ ys) i) ≡ true
unfolding breaks_index answer_rows
repeated-breaks_index fresh q [] ys i table h = cc (h.0)
repeated-breaks_index fresh q (x ∷ xs) ys i table h = elim (Bool-cases (x == q)) [
  | inl e ↦
      ground
        (arith, row_of fresh x (xs ++ ys) (suc i) (rw (any-append (λ k. k == x) xs ys) (again e)))
  | inr e ↦
      ground (arith, repeated-breaks_index fresh q xs ys (suc i) table (ground (arith, h.0), h.1))
]
  where
    again : (x == q) ≡ true → (any (λ k. k == x) xs || any (λ k. k == x) ys) ≡ true
    again e =
        subst (λ k. (any (λ j. j == k) xs || any (λ j. j == k) ys) ≡ true) (sym ((==_iff x q).0 e))
          (ground (arith, h.1))

pick-append :
    (random : RandomOrder) (questions : List Question) (es fs : List (CountKey × ℕ))
    → pick random questions (es ++ fs) ≡ pick random questions es ++ pick random questions fs
unfolding pick
pick-append random questions [] fs = refl
pick-append random questions (e ∷ es) fs = rw (pick-append random questions es fs) (
    sym (
      append_assoc (pick_key random questions e) (pick random questions es)
        (pick random questions fs)))

some_picked :
    (q : ℕ) (xs ys : List ℕ) → any (λ x. x == q) xs ≡ true → (length (xs ++ ys) == 0) ≡ false
some_picked q [] ys h = cc
some_picked q (x ∷ xs) ys h = ground arith

insert_repeated :
    (fresh : NewSession) (user : ℕ) (p : SimulationPackage) (q : ℕ) (xs ys : List ℕ) (db : Db)
    → Repeats q xs ys
    → insert_session fresh user p (xs ++ ys) db
      ≡ throws other_error (record db { sessions = db.sessions ++ new_session fresh user p ∷ [] })
unfolding insert_session
insert_repeated fresh user p q xs ys db h =
    rw (repeated-breaks_index fresh q xs ys 0 db.answers h) refl

-- `startSession` of a package that is found and not deleted, whose checks pass, and whose keys
-- split in two parts, for each of which one question is picked, such as by its category and by one
-- of its tags: the insert of the answers throws. The session stays, with no answers and no delayed
-- job, and it counts as one of the user's attempts at the package.
pub overlap_loses_attempt :
    (random : RandomOrder) (fresh : NewSession) (user pkg q : ℕ) (p : SimulationPackage)
    (es fs : List (CountKey × ℕ)) (db : Db)
    → first (λ x. (x.id == pkg) && not x.is_deleted) db.packages ≡ some p
    → check_start fresh (attempts_of user pkg db.sessions) p db ≡ returns tt db
    → p.question_counts ≡ es ++ fs
    → any (λ x. x == q) (pick random db.questions es) ≡ true
    → any (λ x. x == q) (pick random db.questions fs) ≡ true
    → (start_session random fresh user pkg db
        ≡ throws other_error
            (record db { sessions = db.sessions ++ new_session fresh user p ∷ [] }))
      × (length (attempts_of user pkg (after (start_session random fresh user pkg db)).sessions)
          ≡ length (attempts_of user pkg db.sessions) + 1)
unfolding start_session get_package
overlap_loses_attempt random fresh user pkg q p es fs db found passes keys h k = rw started (
  refl,
  subst
      (λ i.
        length (attempts_of user i (db.sessions ++ new_session fresh user p ∷ []))
        ≡ length (attempts_of user i db.sessions) + 1)
      same (attempts_of-new_session fresh user p db.sessions),
)
  where
    started :
        start_session random fresh user pkg db
        ≡ throws other_error (record db { sessions = db.sessions ++ new_session fresh user p ∷ [] })
    started =
        rw (found, start_session)
          (rw (passes, start_session)
            (rw (keys, start_session)
              (rw (pick-append random db.questions es fs, start_session)
                (rw
                  (
                    some_picked q (pick random db.questions es) (pick random db.questions fs) h,
                    start_session,
                  )
                  (insert_repeated fresh user p q (pick random db.questions es)
                    (pick random db.questions fs) db (h, k))))))

    same : p.id ≡ pkg
    same =
        (==_iff p.id pkg).0
          (ground (arith, first-holds (λ x. (x.id == pkg) && not x.is_deleted) db.packages p found))
