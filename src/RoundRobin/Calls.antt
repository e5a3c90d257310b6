-- ===== src/RoundRobin/Calls.antt =====
-- The system calls of XV6 Scheduler/xv6-riscv/kernel/proc.c on the log and on nice values.
use cs.Common.{ℕ, suc, ◌≡◌, ◌≢◌, true, ◌==◌, arith}
use cs.Common.Int.{ℤ, pos, negsuc, ltb_ℤ, ◌≤ℤ◌, ◌+ℤ◌}
use cs.RoundRobin.{Scheduler, sys_startlog, sys_nice}

-- `sys_startlog` changes nothing, and it succeeds exactly while the log is empty.
pub sys_startlog_lem : (k : Scheduler) → sys_startlog k ≡ (k.num_log == 0, k)
unfolding sys_startlog
sys_startlog_lem k = ground arith

-- `sys_nice` bounds the increment and not the sum: a process with the greatest nice value that is
-- raised again leaves the range.
sys_nice_escapes :
    (i : ℕ) (n : ℕ) (k : Scheduler)
    → (k.procs i).nice ≡ pos 19
    → ltb_ℤ (pos 19) (sys_nice i (pos (suc n)) k).0 ≡ true
unfolding sys_nice ◌+ℤ◌
sys_nice_escapes i n k e = rw (e) (ground arith)

-- It changes the nice value by the increment, cut off at 19 above and at -20 below, and nothing else.
sys_nice-change :
    (i : ℕ) (inc : ℤ) (k : Scheduler)
    → (sys_nice i inc k).0 ≤ℤ (k.procs i).nice +ℤ pos 19
      × ((k.procs i).nice +ℤ negsuc 19 ≤ℤ (sys_nice i inc k).0)
      × ((((sys_nice i inc k).1).procs i).nice ≡ (sys_nice i inc k).0)
      × ((j : ℕ) → j ≢ i → ((sys_nice i inc k).1).procs j ≡ k.procs j)
unfolding sys_nice ◌+ℤ◌
sys_nice-change i inc k = (ground arith, ground arith, ground arith, λ j ne. ground arith)
