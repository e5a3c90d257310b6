-- ===== src/Mlfq/Dispatch.antt =====
-- `dequeue` and `scheduler` of XV6 Multilevel feedback queue/xv6-riscv/kernel/proc.c, cut at the
-- context switch: `dispatch` is what runs before `swtch`, `switch_back` what runs after it.
pub mod Log
pub mod Interrupted
use cs.Common.{
  ℕ, zero, suc, ◌+◌, ◌-◌, Bool, true, false, ◌&&◌, ◌||◌, not, Option, none, some, ◌==◌, ltb,
  if◌then◌else◌, update,
}
use cs.Mlfq.Table.{
  Qtable, setup_queue, remove_from_queue, nproc, head_q0, tail_q0, head_q1, tail_q1, head_q2,
  tail_q2,
}
use cs.Mlfq.Kernel.{Proc, ProcState, is_runnable, Kernel, set_proc, log_size}
use cs.Mlfq.Enqueue.{enqueue}

-- The first process of the highest queue that is not empty.
unfoldable pub first_process : Qtable → Option ℕ
first_process t =
    if not ((t head_q0).next == tail_q0)
    then some (t head_q0).next
    else if not ((t head_q1).next == tail_q1)
    then some (t head_q1).next
    else if not ((t head_q2).next == tail_q2)
    then some (t head_q2).next
    else none

-- `dequeue` up to `swtch`: the process leaves its queue and runs.
unfoldable pub dispatch : Kernel → Kernel
dispatch k = elim (first_process k.qtable) [
  | none ↦ k
  | some i ↦
      let k' = record k { qtable = remove_from_queue i k.qtable } in
      record (set_proc k' i (record (k.procs i) { state = ProcState.running })) { cur = some i }
]

-- The test under which `dequeue` writes a log entry for `p`.
unfoldable pub should_log : Kernel → Proc → Bool
should_log k p =
    k.is_logging
    && (k.num_logged == 0 || not ((k.schedlog (k.num_logged - 1)).pid == p.pid))
    && ltb k.num_logged log_size

unfoldable pub log_run : Kernel → Proc → Kernel
log_run k p =
    if should_log k p
    then record k {
      schedlog = update k.schedlog k.num_logged (record { pid = p.pid; time = k.time });
      num_logged = k.num_logged + 1;
    }
    else k

-- `dequeue` after `swtch`, for the process `i` that has just given up the CPU.
unfoldable pub switch_back : ℕ → Kernel → Kernel
unfolding log_run should_log
switch_back i k = record (log_run k (k.procs i)) { cur = none }

-- The round of the priority boost's loop for process `n`.
abbrev pub boost_round : ℕ → Kernel → Kernel
boost_round n k = if is_runnable (k.procs n).state then enqueue n k else k

-- The loop of the priority boost, over the first `n` processes.
unfoldable pub enqueue_runnable : ℕ → Kernel → Kernel
enqueue_runnable zero k = k
enqueue_runnable (suc n) k = let k' = enqueue_runnable n k in boost_round n k'

-- The priority boost of `scheduler`.
unfoldable pub boost : Kernel → Kernel
boost k =
    if ltb 60 k.since_boost
    then record (enqueue_runnable nproc (record k { qtable = setup_queue k.qtable })) {
      since_boost = 0;
    }
    else k
