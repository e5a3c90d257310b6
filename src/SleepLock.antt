-- ===== src/SleepLock.antt =====
-- XV6 Scheduler/xv6-riscv/kernel/sleeplock.c. The spin lock inside is left out: each function is one
-- step, and `acquiresleep` one step for each test of its loop.
pub mod Exclusion
mod Tests
use cs.Common.{ℕ, Bool, true, false, ◌&&◌, Option, none, some, ◌==◌, if◌then◌else◌}

-- `struct sleeplock`
pub record SleepLock : Type 0 where
  pub locked : Bool
  pub pid : ℕ

unfoldable pub init_sleep_lock : SleepLock
init_sleep_lock = record { locked = false; pid = 0 }

-- One test of the loop of `acquiresleep`, and the rest of it; `none` where the process sleeps.
pub acquire_sleep : (pid : ℕ) → SleepLock → Option SleepLock
acquire_sleep pid lk = if lk.locked then none else some (record { locked = true; pid = pid })

unfoldable pub release_sleep : SleepLock → SleepLock
release_sleep lk = record { locked = false; pid = 0 }

unfoldable pub holding_sleep : (pid : ℕ) → SleepLock → Bool
holding_sleep pid lk = lk.locked && (lk.pid == pid)
