-- ===== src/RoundRobin/Log.antt =====
-- The log of the round robin scheduler of XV6 Scheduler/xv6-riscv/kernel/proc.c.
use cs.Common.{
  ℕ, suc, ◌+◌, ◌<◌, ◌≤◌, ◌≡◌, ◌≢◌, refl, ◌&&◌, not, inl, inr, ◌==◌, ltb, if◌then◌else◌, arith,
  Bool-cases,
}
use cs.Mlfq.Kernel.{log_size}
use cs.RoundRobin.{Scheduler, log_dispatch, run}

-- The entries are in bounds, no two in a row name the same process, and the last one names
-- `lastProcessId`.
pub record LogOk (k : Scheduler) : Type 0 where
  pub bound : k.num_log ≤ log_size
  pub last : (n : ℕ) → k.num_log ≡ suc n → (k.schedlog n).pid ≡ k.last_process_id
  pub changes : (n : ℕ) → suc n < k.num_log → (k.schedlog n).pid ≢ (k.schedlog (suc n)).pid

-- Running a process keeps the log in order; it adds an entry for it exactly if the log is not full and
-- the last entry is of another process.
run-LogOk :
    (i : ℕ) (k : Scheduler)
    → LogOk k
    → LogOk (run i k)
      × ((run i k).num_log ≡ (
          if ltb k.num_log log_size && not (k.last_process_id == (k.procs i).pid)
          then k.num_log + 1
          else k.num_log))
unfolding run log_dispatch
run-LogOk i k v =
    elim (Bool-cases (ltb k.num_log log_size && not (k.last_process_id == (k.procs i).pid))) [
      | inl e ↦ rw (e) (
        record {
          bound = ground (arith, e);
          last = λ n h. ground (arith, h);
          changes = λ n h. ground (arith, e, v.changes n, v.last n);
        },
        refl,
      )
      | inr e ↦ rw (e) (record { bound = v.bound; last = v.last; changes = v.changes }, refl)
    ]
