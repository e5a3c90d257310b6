-- ===== src/RoundRobin.antt =====
-- The scheduler of XV6 Scheduler/xv6-riscv/kernel/proc.c with its log, `yield`, and the system calls
-- `sys_startlog`, `sys_getlog` and `sys_nice`, for one CPU. The scan of the process table is cut at
-- the context switch. The state of a process is that of proc.h, which the two kernels share.
pub mod Fair
pub mod Log
pub mod Calls
pub mod Life
pub mod System
pub mod Inv
pub mod Safety
pub mod Killing
mod Tests
use cs.Common.{
  ℕ, zero, suc, ◌+◌, ◌-◌, Bool, true, false, ◌&&◌, not, Option, none, some, ◌==◌, ltb,
  if◌then◌else◌, update,
}
use cs.Common.Int.{ℤ, pos, negsuc, ltb_ℤ, ◌+ℤ◌}
use cs.Mlfq.Table.{nproc}
use cs.Mlfq.Kernel.{ProcState, Chan, is_runnable, LogEntry, log_size}

-- `struct proc`, without memory, files and names. A pointer to another process is its index.
pub record Task : Type 0 where
  pub state : ProcState
  pub pid : ℕ
  pub nice : ℤ
  pub chan : Chan
  pub killed : Bool
  pub xstate : ℤ
  pub parent : Option ℕ

-- The process table, the CPU's process, the variables of the log, the index of `initproc`, and
-- `nextpid`, an int, as its bit pattern.
pub record Scheduler : Type 0 where
  pub procs : ℕ → Task
  pub cur : Option ℕ
  pub schedlog : ℕ → LogEntry
  pub num_log : ℕ
  pub last_process_id : ℕ
  pub timer : ℕ
  pub initproc : ℕ
  pub next_pid : ℕ

abbrev pub set_task : Scheduler → ℕ → Task → Scheduler
set_task k i p = record k { procs = update k.procs i p }

-- The log entry that `scheduler` makes before it switches to `p`.
pub log_dispatch : Scheduler → Task → Scheduler
log_dispatch k p =
    if ltb k.num_log log_size && not (k.last_process_id == p.pid)
    then record k {
      schedlog = update k.schedlog k.num_log (record { pid = p.pid; time = k.timer });
      last_process_id = p.pid;
      num_log = k.num_log + 1;
    }
    else k

-- What `scheduler` does for a runnable process, up to `swtch`.
unfoldable pub run : ℕ → Scheduler → Scheduler
run i k =
    let k' = set_task k i (record (k.procs i) { state = ProcState.running }) in
    log_dispatch (record k' { cur = some i }) (k.procs i)

-- The rest of one pass of the loop over the table: the next runnable process.
pub scan : (rest : ℕ) → Scheduler → Option ℕ
scan zero k = none
scan (suc rest) k =
    let i = nproc - suc rest in
    let further = scan rest k in if is_runnable (k.procs i).state then some i else further

-- From place `at` in the table to the next context switch, or to the end of the pass, after which the
-- next pass begins. The result holds the place where the loop goes on.
pub schedule : (at : ℕ) → Scheduler → ℕ × Scheduler
schedule at k = elim (scan (nproc - at) k) [ none ↦ (0, k) | some i ↦ (i + 1, run i k) ]

-- `yield`, called by the running process `i`, and `c->proc = 0` behind it.
unfoldable pub yield : ℕ → Scheduler → Scheduler
yield i k = record (set_task k i (record (k.procs i) { state = ProcState.runnable })) { cur = none }

-- The rest of `yield`, when the process runs again.
unfoldable yield_resume : Scheduler → Scheduler
yield_resume k = record k { timer = k.timer + 1 }

-- `sys_startlog`; `false` stands for -1.
unfoldable pub sys_startlog : Scheduler → Bool × Scheduler
sys_startlog k = if not (k.num_log == 0) then (false, k) else (true, record k { num_log = 0 })

-- `sys_getlog`; `copied` says whether `copyout` succeeds.
pub sys_getlog : (copied : Bool) → Scheduler → Option ℕ
sys_getlog copied k = if not copied then none else some k.num_log

-- `sys_nice` of the running process `i`.
unfoldable pub sys_nice : ℕ → (inc : ℤ) → Scheduler → ℤ × Scheduler
sys_nice i inc k =
    let p = k.procs i in
    let nice' =
      if ltb_ℤ (pos 19) inc
      then p.nice +ℤ pos 19
      else if ltb_ℤ inc (negsuc 19)
      then p.nice +ℤ negsuc 19
      else p.nice +ℤ inc in
    (nice', set_task k i (record p { nice = nice' }))
