-- ===== src/RoundRobin/Tests.antt =====
-- The theorems about the round robin scheduler on a concrete process table.
use cs.Common.{◌+◌, ◌≡◌, refl, true, false, ◌==◌, if◌then◌else◌, arith, none, some}
use cs.Common.Int.{pos}
use cs.Mlfq.Kernel.{ProcState, Chan}
use cs.RoundRobin.{Task, Scheduler, run, schedule, sys_startlog, sys_nice}
use cs.RoundRobin.Fair.{runs_within, runs_within-turns}
use cs.RoundRobin.Log.{LogOk}
use cs.RoundRobin.Life.{userinit, alloc_proc, alloc_at, find_unused, kill, kill_from}
use cs.RoundRobin.System.{zero_scheduler, Step, Reach}
use cs.RoundRobin.Inv.{Inv}
use cs.RoundRobin.Safety.{Reach-Inv}
use cs.RoundRobin.Killing.{KillOk, kill-KillOk, kill_zero_marks}

-- Processes 2 and 5 are runnable, with pids 3 and 6 and nice value 19.
abbrev two_tasks : Scheduler
two_tasks = record {
  procs = λ i. record {
    state =
        if i == 2
        then ProcState.runnable
        else if i == 5
        then ProcState.runnable
        else ProcState.unused;
    pid = i + 1;
    nice = pos 19;
    chan = Chan.null;
    killed = false;
    xstate = pos 0;
    parent = none;
  };
  cur = none;
  schedlog = λ _. record { pid = 0; time = 0 };
  num_log = 0;
  last_process_id = 0;
  timer = 0;
  initproc = 2;
  next_pid = 65;
}

two-LogOk : LogOk two_tasks
two-LogOk = record {
  bound = omega arith;
  last = λ n h. absurd (omega (arith, h));
  changes = λ n h. absurd (omega (arith, h));
}

first_is_two : (schedule 0 two_tasks).0 ≡ 3
unfolding schedule cs.RoundRobin.scan
first_is_two = refl

runs_within-turns_example : runs_within 68 3 2 (λ k. k) two_tasks ≡ true
runs_within-turns_example =
    runs_within-turns (λ k. k) 2 (λ k r. r) (omega arith) 68 3 two_tasks (omega arith) refl
      (omega arith)

-- The kernel after `userinit`, with its first process at index 0.
abbrev started : Scheduler
started = userinit zero_scheduler

idle : started.cur ≡ none
unfolding userinit alloc_proc alloc_at find_unused
idle = refl

abbrev first_runs : Reach (schedule 0 started).1
first_runs = Reach.next Reach.boot (Step.schedule_step 0 idle)

Reach-Inv_example : Inv (schedule 0 started).1
Reach-Inv_example = Reach-Inv first_runs (omega arith)

kill-KillOk_example : KillOk 1 started (kill 1 started)
kill-KillOk_example = kill-KillOk 1 started

-- The process that is allocated after `kill 0`.
abbrev next_task : Scheduler
next_task = (alloc_proc true (kill 0 started).1).1

next_allocated : alloc_proc true (kill 0 started).1 ≡ (some 1, next_task)
unfolding kill kill_from userinit alloc_proc alloc_at find_unused
next_allocated = refl

kill_zero_marks_example : (next_task.procs 1).killed ≡ true
kill_zero_marks_example =
    kill_zero_marks started next_task 1 (Reach-Inv Reach.boot (omega arith)) next_allocated
