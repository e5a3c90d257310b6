-- ===== src/RoundRobin/System.antt =====
-- The kernel of XV6 Scheduler/xv6-riscv/kernel as a state machine: the operations of proc.c, in any
-- order in which one CPU can run them.
use cs.Common.{ℕ, ◌+◌, ◌≡◌, Bool, false, none, some}
use cs.Common.Int.{ℤ, pos}
use cs.Mlfq.Kernel.{ProcState, Chan}
use cs.RoundRobin.{Task, Scheduler, schedule, yield, sys_startlog, sys_nice}
use cs.RoundRobin.Life.{userinit, fork, wakeup, sleep, sleep_resume, kill, exit, wait}

abbrev pub zero_task : Task
zero_task = record {
  state = ProcState.unused;
  pid = 0;
  nice = pos 0;
  chan = Chan.null;
  killed = false;
  xstate = pos 0;
  parent = none;
}

-- Zeroed memory, as the kernel starts.
abbrev pub zero_scheduler : Scheduler
zero_scheduler = record {
  procs = λ _. zero_task;
  cur = none;
  schedlog = λ _. record { pid = 0; time = 0 };
  num_log = 0;
  last_process_id = 0;
  timer = 0;
  initproc = 0;
  next_pid = 1;
}

-- One operation; `at` is the place of the scan of `scheduler`.
pub data Step (k : Scheduler) : Scheduler → Type 0 where
  schedule_step : (at : ℕ) → k.cur ≡ none → Step k (schedule at k).1
  wakeup_step : (c : Chan) → Step k (wakeup c k)
  yield_step : (i : ℕ) → k.cur ≡ some i → Step k (yield i k)
  sleep_step : (i : ℕ) (c : Chan) → k.cur ≡ some i → Step k (sleep i c k)
  resume_step : (i : ℕ) → k.cur ≡ some i → Step k (sleep_resume i k)
  kill_step : (pid : ℕ) → Step k (kill pid k).1
  fork_step : (i : ℕ) (memory copied : Bool) → k.cur ≡ some i → Step k (fork i memory copied k).1
  exit_step :
      (i : ℕ) (status : ℤ) {k' : Scheduler} → k.cur ≡ some i → exit i status k ≡ some k' → Step k k'
  wait_step : (i : ℕ) (copied : Bool) → k.cur ≡ some i → Step k (wait i copied k).1
  nice_step : (i : ℕ) (inc : ℤ) → k.cur ≡ some i → Step k (sys_nice i inc k).1
  startlog_step : Step k (sys_startlog k).1

pub data Reach : Scheduler → Type 0 where
  boot : Reach (userinit zero_scheduler)
  next : {k k' : Scheduler} → Reach k → Step k k' → Reach k'

-- 1 for a call of `fork`.
abbrev pub is_fork : {k k' : Scheduler} → Step k k' → ℕ
is_fork (Step.schedule_step at idle) = 0
is_fork (Step.wakeup_step c) = 0
is_fork (Step.yield_step i on) = 0
is_fork (Step.sleep_step i c on) = 0
is_fork (Step.resume_step i on) = 0
is_fork (Step.kill_step pid) = 0
is_fork (Step.fork_step i memory copied on) = 1
is_fork (Step.exit_step i status on e) = 0
is_fork (Step.wait_step i copied on) = 0
is_fork (Step.nice_step i inc on) = 0
is_fork Step.startlog_step = 0

-- How many times `fork` was called on the way.
abbrev pub forks : {k : Scheduler} → Reach k → ℕ
forks Reach.boot = 0
forks (Reach.next r step) = forks r + is_fork step
