-- ===== src/Gamification/Examples.antt =====
-- The award of points at a user who reaches a badge.
use package.ayo_snbt_backend.Common.{◌≡◌, ◌+◌, refl, true, [], ◌∷◌, leb, any, All}
use package.ayo_snbt_backend.Gamification.{
  order_paid, simulation_graded, points_for, total_points, has_badge, award, award_lem, Db,
}

abbrev table : Db
table = record {
  points_events = record { user_id = 1; event = simulation_graded; points = 50 } ∷ [];
  badges = record { id = 4; points_required = 70 } ∷ [];
  user_badges = [];
}

award_lem_example :
    (total_points 1 (award 1 order_paid table).points_events
      ≡ total_points 1 table.points_events + points_for order_paid)
    × All
        (λ b.
          leb b.points_required (total_points 1 (award 1 order_paid table).points_events) ≡ true
          → any (has_badge 1 b.id) (award 1 order_paid table).user_badges ≡ true)
        table.badges
unfolding points_for
award_lem_example = award_lem 1 order_paid table refl
