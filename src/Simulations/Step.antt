-- ===== src/Simulations/Step.antt =====
-- The calls on sessions that a deployment makes, as one step and as a run of steps.
use package.ayo_snbt_backend.Common.{ℕ, Bool, List, [], ◌∷◌}
use package.ayo_snbt_backend.Common.Action.{after}
use package.ayo_snbt_backend.Simulations.Data.{GradingJob, Db}
use package.ayo_snbt_backend.Simulations.Grading.{process_grading_job}
use package.ayo_snbt_backend.Simulations.Sessions.{
  submit_session, save_answer, flag_answer, practice_answer, finish_practice,
}
use package.ayo_snbt_backend.Simulations.Start.{RandomOrder, NewSession, start_session}

pub data Call : Type 0 where
  starts : NewSession → ℕ → ℕ → Call
  saves : ℕ → ℕ → ℕ → ℕ → ℕ → Call
  flags : ℕ → ℕ → ℕ → Bool → Call
  submits : ℕ → ℕ → ℕ → Call
  practices : ℕ → ℕ → ℕ → ℕ → ℕ → Call
  finishes : ℕ → ℕ → Call
  processes : GradingJob → ℕ → Call

unfoldable pub step : RandomOrder → Db → Call → Db
unfolding start_session save_answer flag_answer submit_session practice_answer finish_practice
    process_grading_job
step random db (starts fresh user pkg) = after (start_session random fresh user pkg db)
step random db (saves user session question option now) =
    after (save_answer user session question option now db)
step random db (flags user session question is_flagged) =
    after (flag_answer user session question is_flagged db)
step random db (submits user session now) = after (submit_session user session now db)
step random db (practices user session question option now) =
    after (practice_answer user session question option now db)
step random db (finishes user session) = after (finish_practice user session db)
step random db (processes job now) = after (process_grading_job job now db)

unfoldable pub run : RandomOrder → Db → List Call → Db
unfolding step
run random db [] = db
run random db (c ∷ cs) = run random (step random db c) cs
