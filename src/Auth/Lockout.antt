-- ===== src/Auth/Lockout.antt =====
-- shared/auth/lockout.ts. Redis is not modelled: what it answers to the increment of the counter is
-- an argument, none where it fails.
use package.ayo_snbt_backend.Common.{
  ℕ, ◌-◌, Bool, true, false, Option, none, some, leb, if◌then◌else◌,
}

pub record LockoutStatus : Type 0 where
  pub locked : Bool
  pub remaining_attempts : ℕ
  pub lock_duration_ms : ℕ

-- `computeLockoutStatus`.
unfoldable pub compute_lockout_status : ℕ → LockoutStatus
compute_lockout_status count =
    if leb 15 count
    then record { locked = true; remaining_attempts = 0; lock_duration_ms = 3_600_000 }
    else (if leb 10 count
        then record { locked = true; remaining_attempts = 0; lock_duration_ms = 900_000 }
        else (if leb 5 count
            then record { locked = true; remaining_attempts = 0; lock_duration_ms = 300_000 }
            else record { locked = false; remaining_attempts = 5 - count; lock_duration_ms = 0 }))

-- `recordFailed`: where Redis fails, nobody is locked out.
unfoldable pub record_failed : Option ℕ → LockoutStatus
unfolding compute_lockout_status
record_failed none = record { locked = false; remaining_attempts = 5; lock_duration_ms = 0 }
record_failed (some count) = compute_lockout_status count
