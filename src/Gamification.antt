-- ===== src/Gamification.antt =====
-- modules/gamification/service.ts: points for events, and badges for points. Events other than the
-- six that give points are one; the row that fails to be written and its log line are left out.
mod Examples
use package.ayo_snbt_backend.Common.{
  ℕ, ◌+◌, ◌≡◌, refl, inl, inr, Bool, true, false, not, ◌&&◌, ◌||◌, List, [], ◌∷◌, ◌++◌, arith, ◌==◌,
  leb, if◌then◌else◌, any, any-append, All, Bool-cases, ==_refl, ==_iff,
}

pub data Event : Type 0 where
  user_registered user_email_verified simulation_started simulation_graded : Event
  results_viewed order_paid other_event : Event

-- `POINTS[event]`, with 0 for none.
unfoldable pub points_for : Event → ℕ
points_for user_registered = 10
points_for user_email_verified = 20
points_for simulation_started = 5
points_for simulation_graded = 50
points_for results_viewed = 2
points_for order_paid = 30
points_for other_event = 0

pub record PointsEvent : Type 0 where
  pub user_id : ℕ
  pub event : Event
  pub points : ℕ

pub record Badge : Type 0 where
  pub id : ℕ
  pub points_required : ℕ

pub record UserBadge : Type 0 where
  pub user_id : ℕ
  pub badge_id : ℕ

pub record Db : Type 0 where
  pub points_events : List PointsEvent
  pub badges : List Badge
  pub user_badges : List UserBadge

-- `COALESCE(SUM(points), 0)` of the user's rows.
unfoldable pub total_points : ℕ → List PointsEvent → ℕ
total_points user [] = 0
total_points user (e ∷ es) = (if e.user_id == user then e.points else 0) + total_points user es

abbrev pub has_badge : ℕ → ℕ → UserBadge → Bool
has_badge user badge b = (b.user_id == user) && (b.badge_id == badge)

-- The insert with `onConflictDoNothing`.
unfoldable pub insert_badge : ℕ → ℕ → List UserBadge → List UserBadge
insert_badge user badge rows =
    if any (has_badge user badge) rows
    then rows
    else rows ++ record { user_id = user; badge_id = badge } ∷ []

-- The loop of `checkBadges`; `earned` are the rows that were read before it.
unfoldable pub grant_badges : ℕ → ℕ → List UserBadge → List Badge → List UserBadge → List UserBadge
unfolding insert_badge
grant_badges user total earned [] rows = rows
grant_badges user total earned (b ∷ bs) rows = grant_badges user total earned bs (
    if leb b.points_required total && not (any (has_badge user b.id) earned)
    then insert_badge user b.id rows
    else rows)

-- `checkBadges`.
unfoldable pub check_badges : ℕ → Db → Db
unfolding total_points grant_badges
check_badges user db = record db {
  user_badges =
      grant_badges user (total_points user db.points_events) db.user_badges db.badges
        db.user_badges;
}

abbrev pub add_points_event : ℕ → Event → Db → Db
add_points_event user event db = record db {
  points_events =
      db.points_events ++ record { user_id = user; event = event; points = points_for event } ∷ [];
}

-- `award`.
unfoldable pub award : ℕ → Event → Db → Db
unfolding points_for check_badges
award user event db =
    if points_for event == 0 then db else check_badges user (add_points_event user event db)

insert_badge-any :
    (user badge k : ℕ) (rows : List UserBadge)
    → any (has_badge user k) rows ≡ true
    → any (has_badge user k) (insert_badge user badge rows) ≡ true
unfolding insert_badge
insert_badge-any user badge k rows h = elim (Bool-cases (any (has_badge user badge) rows)) [
  | inl e ↦ rw e h
  | inr e ↦ rw e (
      rw (any-append (has_badge user k) rows (record { user_id = user; badge_id = badge } ∷ []))
        (rw h refl))
]

insert_badge-has :
    (user badge : ℕ) (rows : List UserBadge)
    → any (has_badge user badge) (insert_badge user badge rows) ≡ true
unfolding insert_badge
insert_badge-has user badge rows = elim (Bool-cases (any (has_badge user badge) rows)) [
  | inl e ↦ rw e e
  | inr e ↦ rw e (
      rw (any-append (has_badge user badge) rows (record { user_id = user; badge_id = badge } ∷ []))
        (ground (arith, ==_refl user, ==_refl badge)))
]

-- One turn of the loop.
abbrev turn :
    (user total : ℕ) (earned : List UserBadge) (b : Badge) (rows : List UserBadge) → List UserBadge
turn user total earned b rows =
    if leb b.points_required total && not (any (has_badge user b.id) earned)
    then insert_badge user b.id rows
    else rows

turn-any :
    (user total k : ℕ) (earned : List UserBadge) (b : Badge) (rows : List UserBadge)
    → any (has_badge user k) rows ≡ true
    → any (has_badge user k) (turn user total earned b rows) ≡ true
turn-any user total k earned b rows h =
    elim (Bool-cases (leb b.points_required total && not (any (has_badge user b.id) earned))) [
      | inl e ↦ rw e (insert_badge-any user b.id k rows h)
      | inr e ↦ rw e h
    ]

grant_badges-any :
    (user total k : ℕ) (earned : List UserBadge) (bs : List Badge) (rows : List UserBadge)
    → any (has_badge user k) rows ≡ true
    → any (has_badge user k) (grant_badges user total earned bs rows) ≡ true
unfolding grant_badges
grant_badges-any user total k earned [] rows h = h
grant_badges-any user total k earned (b ∷ bs) rows h =
    grant_badges-any user total k earned bs (turn user total earned b rows)
      (turn-any user total k earned b rows h)

turn-has :
    (user total : ℕ) (earned : List UserBadge) (b : Badge) (rows : List UserBadge)
    → (any (has_badge user b.id) earned ≡ true → any (has_badge user b.id) rows ≡ true)
    → leb b.points_required total ≡ true
    → any (has_badge user b.id) (turn user total earned b rows) ≡ true
turn-has user total earned b rows inc h = elim (Bool-cases (any (has_badge user b.id) earned)) [
  | inl e ↦ rw (h, turn) (rw (e, turn) (inc e))
  | inr e ↦ rw (h, turn) (rw (e, turn) (insert_badge-has user b.id rows))
]

grants :
    (user total : ℕ) (earned : List UserBadge) (bs : List Badge) (rows : List UserBadge)
    → ((k : ℕ) → any (has_badge user k) earned ≡ true → any (has_badge user k) rows ≡ true)
    → All
        (λ b.
          leb b.points_required total ≡ true
          → any (has_badge user b.id) (grant_badges user total earned bs rows) ≡ true)
        bs
unfolding grant_badges
grants user total earned [] rows inc = tt
grants user total earned (b ∷ bs) rows inc = (
  λ h.
      grant_badges-any user total b.id earned bs (turn user total earned b rows)
        (turn-has user total earned b rows (inc b.id) h),
  grants user total earned bs (turn user total earned b rows)
      (λ k e. turn-any user total k earned b rows (inc k e)),
)

total_points-append :
    (user : ℕ) (es : List PointsEvent) (e : PointsEvent)
    → e.user_id ≡ user
    → total_points user (es ++ e ∷ []) ≡ total_points user es + e.points
unfolding total_points
total_points-append user [] e h = rw ((==_iff e.user_id user).1 h) (omega arith)
total_points-append user (x ∷ xs) e h = omega (arith, total_points-append user xs e h)

-- An event that gives points adds them to the user's total, and afterwards the user has every badge
-- whose points the new total reaches.
pub award_lem :
    (user : ℕ) (event : Event) (db : Db)
    → (points_for event == 0) ≡ false
    → (total_points user (award user event db).points_events
        ≡ total_points user db.points_events + points_for event)
      × All
          (λ b.
            leb b.points_required (total_points user (award user event db).points_events) ≡ true
            → any (has_badge user b.id) (award user event db).user_badges ≡ true)
          db.badges
unfolding award check_badges
award_lem user event db h =
    rw (h, award)
      (
        total_points-append user db.points_events _ refl,
        grants user _ db.user_badges db.badges db.user_badges (λ k e. e),
      )
