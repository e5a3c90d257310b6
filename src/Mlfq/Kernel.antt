-- ===== src/Mlfq/Kernel.antt =====
-- The process table and the scheduler's variables of
-- XV6 Multilevel feedback queue/xv6-riscv/kernel/proc.h, proc.c and log.h, for one CPU.
-- Spin locks are left out: with one CPU and interrupts off while a lock is held, the code between
-- `acquire` and `release` is not interleaved with other code. Memory (page tables, trap frames,
-- kernel stacks, names, open files, directories) is left out too.
use cs.Common.{ℕ, Bool, true, false, Option, none, some, ◌==◌, update}
use cs.Common.Int.{ℤ}
use cs.Mlfq.Table.{Qtable}

-- `enum procstate`
pub data ProcState : Type 0 where
  unused used sleeping runnable running zombie : ProcState

abbrev pub is_runnable : ProcState → Bool
is_runnable ProcState.runnable = true
is_runnable _ = false

abbrev pub is_running : ProcState → Bool
is_running ProcState.running = true
is_running _ = false

abbrev pub is_sleeping : ProcState → Bool
is_sleeping ProcState.sleeping = true
is_sleeping _ = false

abbrev pub is_unused : ProcState → Bool
is_unused ProcState.unused = true
is_unused _ = false

abbrev pub is_zombie : ProcState → Bool
is_zombie ProcState.zombie = true
is_zombie _ = false

-- The addresses that a process sleeps on: none, `&proc[i]`, or another address.
pub data Chan : Type 0 where
  null : Chan
  proc_addr : ℕ → Chan
  addr : ℕ → Chan

abbrev pub chan_eq : Chan → Chan → Bool
chan_eq Chan.null Chan.null = true
chan_eq (Chan.proc_addr i) (Chan.proc_addr j) = i == j
chan_eq (Chan.addr a) (Chan.addr b) = a == b
chan_eq _ _ = false

-- `struct proc`. A pointer to another process is its index.
pub record Proc : Type 0 where
  pub state : ProcState
  pub chan : Chan
  pub killed : Bool
  pub xstate : ℤ
  pub pid : ℕ
  pub parent : Option ℕ
  pub nice : ℤ
  pub quanta : ℕ
  pub queue : ℕ

-- `struct logentry`
pub record LogEntry : Type 0 where
  pub pid : ℕ
  pub time : ℕ

abbrev pub log_size : ℕ
log_size = 100

-- The global variables, with `c->proc` of the CPU (`cur`) and the index of `initproc`.
pub record Kernel : Type 0 where
  pub procs : ℕ → Proc
  pub qtable : Qtable
  pub cur : Option ℕ
  pub initproc : ℕ
  pub next_pid : ℕ
  pub queue_is_setup : Bool
  pub since_boost : ℕ
  pub schedlog : ℕ → LogEntry
  pub num_logged : ℕ
  pub is_logging : Bool
  pub time : ℕ
  pub ticks : ℕ

-- The process at index `i` is given anew.
abbrev pub set_proc : Kernel → ℕ → Proc → Kernel
set_proc k i p = record k { procs = update k.procs i p }

abbrev pub cur_is : Option ℕ → ℕ → Bool
cur_is none i = false
cur_is (some j) i = j == i
