-- ===== src/Questions/Bank/Removal.antt =====
-- What a removal takes from a question that its restoration does not give back.
use package.ayo_snbt_backend.Common.{
  ℕ, ◌≡◌, refl, inl, inr, true, false, not, none, some, List, [], ◌∷◌, ◌++◌, suc, subst, ◌==◌,
  first, select, update, Bool-cases, ==_refl,
}
use package.ayo_snbt_backend.Common.Action.{after, returns, Outcome}
use package.ayo_snbt_backend.Common.Keys.{by, first-by-update}
use package.ayo_snbt_backend.Questions.Data.{
  Question, QuestionTag, Tag, Db, question_deleted, AuthUser, question_key,
}
use package.ayo_snbt_backend.Questions.Tags.{names_of, drop_links}
use package.ayo_snbt_backend.Questions.Bank.{
  assert_can_manage, remove, restore, set_deleted, breaks_index,
}

names_of-dropped :
    (id : ℕ) (tags : List Tag) (links : List QuestionTag)
    → names_of id tags (select (λ (l : QuestionTag). not (l.question_id == id)) links) ≡ []
unfolding names_of
names_of-dropped id tags [] = refl
names_of-dropped id tags (l ∷ ls) = elim (Bool-cases (l.question_id == id)) [
  | inl e ↦ rw e (names_of-dropped id tags ls)
  | inr e ↦ rw e (rw e (names_of-dropped id tags ls))
]

first-by-written :
    (id : ℕ) (f : Question → Question) (q : Question) (xs : List Question)
    → ((x : Question) → question_key (f x) ≡ question_key x)
    → first (by question_key id) xs ≡ some q
    → first (by question_key id) (update (by question_key id) f xs) ≡ some (f q)
first-by-written id f q xs k h =
    rw (first-by-update question_key id id f xs k) (rw (h, ==_refl id) refl)

abbrev removed : ℕ → ℕ → Db → Db
removed t id db =
    let next : Db = drop_links id (record db {
      questions = update (by question_key id) (set_deleted (some t) t) db.questions;
    }) in
    record next {
      cache_version = suc db.cache_version;
      events = db.events ++ question_deleted id ∷ [];
    }

remove-returns :
    (t : ℕ) (user : AuthUser) (id : ℕ) (q : Question) (db : Db)
    → user.is_admin ≡ true
    → first (by question_key id) db.questions ≡ some q
    → remove t user id db ≡ returns tt (removed t id db)
unfolding remove assert_can_manage
remove-returns t user id q db a h = rw (h, remove) (rw (a, remove) refl)

restore-returns :
    (t : ℕ) (user : AuthUser) (id : ℕ) (q : Question) (db : Db)
    → user.is_admin ≡ true
    → first (by question_key id) db.questions ≡ some q
    → breaks_index q db.questions ≡ false
    → restore t user id db
      ≡ returns tt (record db {
        questions = update (by question_key id) (set_deleted none t) db.questions;
        cache_version = suc db.cache_version;
      })
unfolding restore assert_can_manage
restore-returns t user id q db a h b = rw (h, restore) (rw (a, restore) (rw (b, restore) refl))

-- A question that an administrator removes and restores, where no other active question has its hash
-- by then, is active again with its text and options, but without any of its tags.
pub remove-restore_loses_tags :
    (t later : ℕ) (user : AuthUser) (id : ℕ) (q : Question) (db : Db)
    → user.is_admin ≡ true
    → first (by question_key id) db.questions ≡ some q
    → breaks_index q (after (remove t user id db)).questions ≡ false
    → (first
          (by question_key id)
          (after (restore later user id (after (remove t user id db)))).questions
        ≡ some (set_deleted none later q))
      × ((after (restore later user id (after (remove t user id db)))).question_options
          ≡ db.question_options)
      × (names_of id
            (after (restore later user id (after (remove t user id db)))).tags
            (after (restore later user id (after (remove t user id db)))).question_tags
          ≡ [])
remove-restore_loses_tags t later user id q db a h b =
    let next : Db = removed t id db in
    let k = first-by-written id (set_deleted (some t) t) q db.questions (λ x. refl) h in
    let c : breaks_index q next.questions ≡ false =
      subst (λ (o : Outcome Db (Unit {0})). breaks_index q (after o).questions ≡ false)
        (remove-returns t user id q db a h) b in
    rw (remove-returns t user id q db a h) (
      rw (restore-returns later user id (set_deleted (some t) t q) next a k c) (
        first-by-written id (set_deleted none later) (set_deleted (some t) t q) next.questions
            (λ x. refl) k,
        refl,
        names_of-dropped id db.tags db.question_tags,
      ))
