-- ===== src/Simulations/Packages.antt =====
-- `createPackage`, `updatePackage`, `removePackage` and `restorePackage` of
-- modules/simulations/service.ts. Titles, the audit line, the cache and the events are left out.
use package.ayo_snbt_backend.Common.{
  ℕ, ◌≡◌, refl, inl, inr, Bool, true, false, not, ◌&&◌, Option, none, some, List, [], ◌∷◌, ◌++◌,
  ◌==◌, if◌then◌else◌, any, first, update, or_else, Bool-cases,
}
use package.ayo_snbt_backend.Common.Action.{
  Action, pure, throw_if, gets, modify, ◌>>=◌, ◌>>◌, forbidden_error, not_found_error, forbidden,
  after, value, error,
}
use package.ayo_snbt_backend.Common.Keys.{by}
use package.ayo_snbt_backend.Simulations.Data.{SimulationPackage, Db, CountKey, PackageScoring}
use package.ayo_snbt_backend.Simulations.Grading.{default_scoring, get_package}
use package.ayo_snbt_backend.Simulations.Start.{validate_attempt_policy}

-- The input of a creation, with its default duration, and of a change: what is none stays.
pub record PackageInput : Type 0 where
  pub is_published : Option Bool
  pub duration_minutes : Option ℕ
  pub question_counts : Option (List (CountKey × ℕ))
  pub scoring : Option PackageScoring
  pub max_attempts : Option (Option ℕ)
  pub retake_cooldown_minutes : Option (Option ℕ)
  pub scheduled_at : Option (Option ℕ)
  pub closes_at : Option (Option ℕ)

abbrev pub package_id : SimulationPackage → ℕ
package_id p = p.id

unfoldable pub create_package : ℕ → PackageInput → Action Db SimulationPackage
unfolding validate_attempt_policy
create_package id input = do
  validate_attempt_policy (or_else input.max_attempts none)
  let row : SimulationPackage = record {
    id = id;
    is_published = or_else input.is_published false;
    is_deleted = false;
    duration_minutes = or_else input.duration_minutes 120;
    question_counts = or_else input.question_counts [];
    scoring = or_else input.scoring default_scoring;
    max_attempts = or_else input.max_attempts none;
    retake_cooldown_minutes = or_else input.retake_cooldown_minutes none;
    scheduled_at = or_else input.scheduled_at none;
    closes_at = or_else input.closes_at none;
  }
  modify (λ db. record db { packages = db.packages ++ row ∷ [] })
  pure row

unfoldable pub apply_input : PackageInput → SimulationPackage → SimulationPackage
apply_input input p = record p {
  is_published = or_else input.is_published p.is_published;
  duration_minutes = or_else input.duration_minutes p.duration_minutes;
  question_counts = or_else input.question_counts p.question_counts;
  scoring = or_else input.scoring p.scoring;
  max_attempts = or_else input.max_attempts p.max_attempts;
  retake_cooldown_minutes = or_else input.retake_cooldown_minutes p.retake_cooldown_minutes;
  scheduled_at = or_else input.scheduled_at p.scheduled_at;
  closes_at = or_else input.closes_at p.closes_at;
}

-- `updatePackage`: it also changes a package that is deleted.
unfoldable pub update_package : ℕ → PackageInput → Action Db (Unit {0})
unfolding validate_attempt_policy apply_input
update_package id input = do
  validate_attempt_policy (or_else input.max_attempts none)
  found ← gets (λ db. any (by package_id id) db.packages)
  modify (λ db. record db { packages = update (by package_id id) (apply_input input) db.packages })
  throw_if (not found) not_found_error

abbrev pub set_deleted : Bool → SimulationPackage → SimulationPackage
set_deleted b p = record p { is_deleted = b }

-- `removePackage`.
unfoldable pub remove_package : Bool → Bool → ℕ → Action Db (Unit {0})
unfolding get_package
remove_package is_admin is_mentor id = do
  throw_if (not is_admin && not is_mentor) (forbidden_error forbidden)
  _ ← get_package id
  modify (λ db. record db { packages = update (by package_id id) (set_deleted true) db.packages })

abbrev pub is_live : ℕ → SimulationPackage → Bool
is_live id p = (p.id == id) && not p.is_deleted

-- `restorePackage`: whether the package was active already.
unfoldable pub restore_package : Bool → ℕ → Action Db Bool
restore_package is_admin id = do
  throw_if (not is_admin) (forbidden_error forbidden)
  is_active ← gets (λ db. any (is_live id) db.packages)
  if is_active then pure true else (do
    found ← gets (λ db. any (by package_id id) db.packages)
    throw_if (not found) not_found_error
    modify
        (λ db. record db { packages = update (by package_id id) (set_deleted false) db.packages })
    pure false)

removed :
    (id : ℕ) (ps : List SimulationPackage)
    → first
        (λ (p : SimulationPackage). (p.id == id) && not p.is_deleted)
        (update (by package_id id) (set_deleted true) ps)
      ≡ none
removed id [] = refl
removed id (p ∷ ps) = elim (Bool-cases (p.id == id)) [
  | inl e ↦ rw e (rw e (removed id ps))
  | inr e ↦ rw e (rw e (removed id ps))
]

-- Where an administrator or mentor removes a package that is found, the call returns, and the package
-- is not found afterwards.
pub remove_package_lem :
    (is_admin is_mentor : Bool) (id : ℕ) (p : SimulationPackage) (db : Db)
    → (not is_admin && not is_mentor) ≡ false
    → first (λ (p : SimulationPackage). (p.id == id) && not p.is_deleted) db.packages ≡ some p
    → (value (remove_package is_admin is_mentor id db) ≡ some tt)
      × (error (get_package id (after (remove_package is_admin is_mentor id db)))
          ≡ some not_found_error)
unfolding remove_package get_package
remove_package_lem is_admin is_mentor id p db h e =
    rw (h, remove_package)
      (rw (e, remove_package) (refl, rw (removed id db.packages, get_package) refl))
