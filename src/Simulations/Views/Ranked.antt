-- ===== src/Simulations/Views/Ranked.antt =====
-- Practice sessions on the leaderboard.
use package.ayo_snbt_backend.Common.{
  ℕ, ◌≡◌, inl, inr, Bool, true, not, ◌&&◌, none, some, List, [], ◌∷◌, arith, ◌==◌, any, first,
  select, update, Bool-cases, ==_refl, sym, subst, ◌∙◌, any-select,
}
use package.ayo_snbt_backend.Common.Action.{after}
use package.ayo_snbt_backend.Simulations.Data.{
  SimulationPackage, SimulationSession, Db, is_practice, is_in_progress,
}
use package.ayo_snbt_backend.Simulations.Grading.{get_package}
use package.ayo_snbt_backend.Simulations.Sessions.{
  get_owned_session, is_owned, finish_practice, practice_weights, set_finished,
}
use package.ayo_snbt_backend.Simulations.Views.{is_ranked}

-- The row of a practice session among the ranked ones.
abbrev pub is_practice_row : ℕ → SimulationSession → Bool
is_practice_row id s = (s.id == id) && is_practice s.type

head_is :
    (user id : ℕ) (x s : SimulationSession) (xs : List SimulationSession)
    → is_owned user id x ≡ true
    → first (is_owned user id) (x ∷ xs) ≡ some s
    → x ≡ s
head_is user id x s xs e h = same (rw (e, first) at h)
  where
    same : some x ≡ some s → x ≡ s
    same k = cc

ranked-update :
    (user id pkg a b c d : ℕ) (s : SimulationSession) (rows : List SimulationSession)
    → first (is_owned user id) rows ≡ some s
    → is_practice s.type ≡ true
    → s.package_id ≡ some pkg
    → any
        (λ x. is_ranked pkg none [] x && is_practice_row id x)
        (update (λ (x : SimulationSession). x.id == id) (set_finished a b c d) rows)
      ≡ true
unfolding is_ranked
ranked-update user id pkg a b c d s [] h t p = cc
ranked-update user id pkg a b c d s (x ∷ xs) h t p = elim (Bool-cases (is_owned user id x)) [
  | inl e ↦
      let q : x ≡ s = head_is user id x s xs e h in
      let k : (s.id == id) ≡ true =
        subst (λ (y : SimulationSession). (y.id == id) ≡ true) q (ground (arith, e)) in
      subst
        (λ (y : SimulationSession).
          any (λ x. is_ranked pkg none [] x && is_practice_row id x)
            (update (λ (x : SimulationSession). x.id == id) (set_finished a b c d) (y ∷ xs))
          ≡ true)
        (sym q) (rw k (rw p (ground (arith, t, k, ==_refl pkg))))
  | inr e ↦ ground (arith, ranked-update user id pkg a b c d s xs (ground (arith, h, e)) t p)
]

-- A practice session of a package, in progress, that its user finishes is among the sessions that the
-- leaderboard of the package ranks over all time, although its answers were shown at once.
pub finish_practice-ranked :
    (user id pkg : ℕ) (s : SimulationSession) (p : SimulationPackage) (db : Db)
    → first (is_owned user id) db.sessions ≡ some s
    → is_practice s.type ≡ true
    → is_in_progress s.status ≡ true
    → s.package_id ≡ some pkg
    → first (λ (x : SimulationPackage). (x.id == pkg) && not x.is_deleted) db.packages ≡ some p
    → any
        (is_practice_row id)
        (select (is_ranked pkg none []) (after (finish_practice user id db)).sessions)
      ≡ true
unfolding finish_practice get_owned_session practice_weights get_package
finish_practice-ranked user id pkg s p db h t g k f =
    rw (h, finish_practice)
      (rw (t, finish_practice)
        (rw (g, finish_practice)
          (rw (k, finish_practice)
            (rw (f, finish_practice)
              (any-select (is_ranked pkg none []) (is_practice_row id) _
                ∙ ranked-update user id pkg _ _ _ _ s db.sessions h t k)))))
