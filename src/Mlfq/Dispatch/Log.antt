-- ===== src/Mlfq/Dispatch/Log.antt =====
-- The log of context switches that `dequeue` writes in
-- XV6 Multilevel feedback queue/xv6-riscv/kernel/proc.c.
use cs.Common.{ℕ, ◌+◌, ◌≤◌, ◌<◌, ◌≡◌, ◌≢◌, if◌then◌else◌, arith, Bool-cases, inl, inr}
use cs.Mlfq.Kernel.{Proc, Kernel, log_size}
use cs.Mlfq.Dispatch.{should_log, log_run, switch_back}

-- The log fits its array, two entries in a row are of different processes, and the times of the
-- entries do not fall and are not in the future.
pub record LogOk (k : Kernel) : Type 0 where
  pub fits : k.num_logged ≤ log_size
  pub changes : (n : ℕ) → n + 1 < k.num_logged → (k.schedlog n).pid ≢ (k.schedlog (n + 1)).pid
  pub ordered : (n : ℕ) → n + 1 < k.num_logged → (k.schedlog n).time ≤ (k.schedlog (n + 1)).time
  pub past : (n : ℕ) → n < k.num_logged → (k.schedlog n).time ≤ k.time

log_run-LogOk : (k : Kernel) (p : Proc) → LogOk k → LogOk (log_run k p)
unfolding log_run should_log
log_run-LogOk k p v = elim (Bool-cases (should_log k p)) [
  | inl e ↦ rw e (record {
    fits = ground arith;
    changes = λ n lt. ground (arith, v.changes n);
    ordered = λ n lt. ground (arith, v.ordered n, v.past n);
    past = λ n lt. ground (arith, v.past n);
  })
  | inr e ↦ rw e v
]

-- A context switch away from process `i` keeps the log in order; it adds an entry for `i` exactly if
-- logging is on, the log is not full and the last entry is not of `i`'s pid, and else it leaves the
-- log alone.
switch_back-LogOk :
    (i : ℕ) (k : Kernel)
    → LogOk k
    → LogOk (switch_back i k)
      × ((switch_back i k).num_logged ≡ k.num_logged + (if should_log k (k.procs i) then 1 else 0))
      × ((n : ℕ) → n < k.num_logged → (switch_back i k).schedlog n ≡ k.schedlog n)
unfolding switch_back log_run
switch_back-LogOk i k v = (
  (let v' = log_run-LogOk k (k.procs i) v in
      record { fits = v'.fits; changes = v'.changes; ordered = v'.ordered; past = v'.past }),
  ground arith,
  λ n lt. ground arith,
)
