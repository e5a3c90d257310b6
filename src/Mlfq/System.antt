-- ===== src/Mlfq/System.antt =====
-- The scheduler of XV6 Multilevel feedback queue/xv6-riscv/kernel as a state machine: the operations
-- of proc.c, in any order in which one CPU can run them. A round of `scheduler` is two steps, the priority
-- boost and `dequeue` up to the context switch. Interrupts come between steps and not inside one. For
-- these two the code does not see to that, as `scheduler` holds no lock and runs with interrupts on;
-- Dispatch.Interrupted is about an interrupt inside the boost.
pub mod Safety
use cs.Common.{ℕ, zero, suc, ◌+◌, ◌<◌, ◌≡◌, Bool, true, false, Option, none, some}
use cs.Common.Int.{ℤ, pos}
use cs.Mlfq.Table.{Qentry, nproc}
use cs.Mlfq.Kernel.{Proc, ProcState, Chan, Kernel}
use cs.Mlfq.Dispatch.{boost, dispatch}
use cs.Mlfq.Sleep.{yield, sleep, sleep_resume, wakeup, kill, set_killed}
use cs.Mlfq.Life.{userinit, fork, exit, wait}
use cs.Mlfq.Trap.{clockintr, user_timer, kernel_timer}
use cs.Mlfq.Calls.{sys_startlog, sys_nice, temp_queue, clamp_nice, is_level}

-- Zeroed memory, as the kernel starts.
abbrev pub zero_proc : Proc
zero_proc = record {
  state = ProcState.unused;
  chan = Chan.null;
  killed = false;
  xstate = pos 0;
  pid = 0;
  parent = none;
  nice = pos 0;
  quanta = 0;
  queue = 0;
}

abbrev pub zero_kernel : Kernel
zero_kernel = record {
  procs = λ _. zero_proc;
  qtable = λ _. record { queue = 0; prev = 0; next = 0 };
  cur = none;
  initproc = 0;
  next_pid = 1;
  queue_is_setup = false;
  since_boost = 0;
  schedlog = λ _. record { pid = 0; time = 0 };
  num_logged = 0;
  is_logging = false;
  time = 0;
  ticks = 0;
}

-- One operation. `sys_nice` is left out; Nice is about it.
pub data Step (k : Kernel) : Kernel → Type 0 where
  boost_step : k.cur ≡ none → Step k (boost k)
  dispatch_step : k.cur ≡ none → Step k (dispatch k)
  idle_interrupt : (c : Chan) → Step k (wakeup c k)
  idle_clock : (c : Chan) → k.cur ≡ none → Step k (clockintr c k)
  yield_step : (i : ℕ) → k.cur ≡ some i → Step k (yield i k)
  sleep_step : (i : ℕ) (c : Chan) → k.cur ≡ some i → Step k (sleep i c k)
  resume_step : (i : ℕ) → k.cur ≡ some i → Step k (sleep_resume i k)
  kill_step : (pid : ℕ) → Step k (kill pid k).1
  fault_step : (i : ℕ) → k.cur ≡ some i → Step k (set_killed i k)
  fork_step : (i : ℕ) (memory copied : Bool) → k.cur ≡ some i → Step k (fork i memory copied k).1
  exit_step :
      (i : ℕ) (status : ℤ) {k' : Kernel} → k.cur ≡ some i → exit i status k ≡ some k' → Step k k'
  wait_step : (i : ℕ) (copied : Bool) → k.cur ≡ some i → Step k (wait i copied k).1
  user_timer_step :
      (i : ℕ) (c : Chan) {k' : Kernel} → k.cur ≡ some i → user_timer i c k ≡ some k' → Step k k'
  kernel_timer_step : (i : ℕ) (c : Chan) → k.cur ≡ some i → Step k (kernel_timer i c k)
  startlog_step : Step k (sys_startlog k).1

pub data Reach : Kernel → Type 0 where
  boot : Reach (userinit zero_kernel)
  next : {k k' : Kernel} → Reach k → Step k k' → Reach k'
