-- ===== src/Mlfq/Tests.antt =====
-- The theorems about XV6 Multilevel feedback queue/xv6-riscv/kernel at concrete inputs.
use cs.Common.{
  none, ℕ, ◌≤◌, ◌<◌, ◌≡◌, refl, true, List, [], ◌∷◌, ◌++◌, some, update, arith, ◌==◌, Bool-cases,
  inl, inr,
}
use cs.Common.Int.{pos, ◌+ℤ◌}
use cs.Mlfq.Table.{
  Qtable, setup_queue, clear_queues, append_to, append_to-queue_self, remove_from_queue,
}
use cs.Mlfq.Table.Repr.{Repr, tail_of, setup_queue-Repr, append_to-Repr, remove_from_queue-Repr}
use cs.Mlfq.Kernel.{Proc, ProcState, Chan, Kernel}
use cs.Mlfq.Enqueue.{enter, enqueue, ensure_setup}
use cs.Mlfq.Enqueue.Levels.{enter_rule}
use cs.Mlfq.Dispatch.Interrupted.{Loops, boost_interrupted}
use cs.Mlfq.Dispatch.{boost_round, dispatch, should_log, log_run, switch_back}
use cs.Mlfq.Dispatch.Log.{LogOk}
use cs.Mlfq.Sleep.{yield, wakeup}
use cs.Mlfq.Life.{userinit, find_unused, fork, find_zombie, wait, free_proc}
use cs.Mlfq.Life.Reuse.{fork_reused_slot}
use cs.Mlfq.Calls.{clamp_nice, temp_queue, sys_nice}
use cs.Mlfq.Calls.Nice.{sys_nice-breaks}
use cs.Mlfq.Invariant.Defs.{Inv, Good}
use cs.Mlfq.Invariant.Wake.{yield-Inv}
use cs.Mlfq.Invariant.Dispatch.{dispatch_priority}
use cs.Mlfq.System.{zero_proc, zero_kernel, boot}
use cs.Mlfq.System.Safety.{Reach-Good}

abbrev fresh_table : Qtable
fresh_table = setup_queue zero_kernel.qtable

abbrev one_table : Qtable
one_table = append_to (tail_of 1) 1 5 fresh_table

abbrev one_queues : ℕ → List ℕ
one_queues = update (λ _. []) 1 (5 ∷ [])

append_to-Repr_example : Repr one_table one_queues
unfolding setup_queue clear_queues
append_to-Repr_example =
    append_to-Repr (setup_queue-Repr zero_kernel.qtable) 1 5 (omega arith) (omega arith)
      (omega arith)

one-Repr : Repr one_table one_queues
unfolding setup_queue clear_queues
one-Repr =
    append_to-Repr (setup_queue-Repr zero_kernel.qtable) 1 5 (omega arith) (omega arith)
      (omega arith)

remove_from_queue-Repr_example : Repr (remove_from_queue 5 one_table) (update one_queues 1 [])
remove_from_queue-Repr_example =
    remove_from_queue-Repr one-Repr 1 5 (omega arith) (omega arith)
      (append_to-queue_self 67 1 5 fresh_table)

abbrev tired : Proc
tired = record zero_proc { nice = pos 15; quanta = 16 }

enter_rule_example : enter tired ≡ (1, record tired { quanta = 0; queue = 1 })
enter_rule_example = enter_rule tired (omega arith)

Reach-Good_example : Good (userinit zero_kernel)
Reach-Good_example = Reach-Good boot

-- Process 0 runs and nothing waits.
abbrev busy : Kernel
busy = record zero_kernel {
  procs = update zero_kernel.procs 0 (record zero_proc { state = ProcState.running; pid = 1 });
  qtable = fresh_table;
  queue_is_setup = true;
  cur = some 0;
}

busy-Inv : Inv busy (λ _. [])
busy-Inv = record {
  repr = setup_queue-Repr zero_kernel.qtable;
  setup = refl;
  settled = λ j lt. elim (Bool-cases (0 == j)) [
    | inl e ↦ rw e (
        ground (
          arith,
          r.member 0 j (omega arith),
          r.member 1 j (omega arith),
          r.member 2 j (omega arith),
        ))
    | inr e ↦ rw e (
        ground (
          arith,
          r.member 0 j (omega arith),
          r.member 1 j (omega arith),
          r.member 2 j (omega arith),
        ))
  ];
  cur_in = λ j h. ground arith;
}
  where
    r : Repr fresh_table (λ _. [])
    r = setup_queue-Repr zero_kernel.qtable

yielded-Inv : Inv (yield 0 busy) (
    let level = (enter (record zero_proc { state = ProcState.runnable; pid = 1; quanta = 1 })).0 in
    update (λ _. []) level ([] ++ 0 ∷ []))
yielded-Inv = yield-Inv busy-Inv 0 refl

dispatch_priority_example :
    (j : ℕ) × ((dispatch (yield 0 busy)).cur ≡ some j)
    × (((yield 0 busy).procs j).state ≡ ProcState.runnable)
    × (((yield 0 busy).procs j).queue ≤ ((yield 0 busy).procs 0).queue)
unfolding yield switch_back log_run should_log enqueue enter ensure_setup
dispatch_priority_example = dispatch_priority yielded-Inv refl 0 (omega arith) refl

sys_nice-breaks_example :
    let k' = (sys_nice 0 (pos 1) busy).1 in
    ((k'.procs 0).state ≡ ProcState.running) × ((k'.qtable 0).queue < 3) × (¬ Good k')
unfolding temp_queue clamp_nice ◌+ℤ◌
sys_nice-breaks_example = sys_nice-breaks 0 (pos 1) busy-Inv refl refl

zero_log : LogOk zero_kernel
zero_log = record {
  fits = omega arith;
  changes = λ n lt. absurd (omega arith);
  ordered = λ n lt. absurd (omega arith);
  past = λ n lt. absurd (omega arith);
}

-- Process 1, a child of process 0, has used 12 quanta of queue 0 and called `exit`.
abbrev dead_child : Kernel
dead_child = record busy {
  procs =
      update busy.procs 1
        (record zero_proc { state = ProcState.zombie; pid = 2; parent = some 0; quanta = 12 });
}

fork_reused_slot_example :
    (((fork 0 true true (wait 0 true dead_child).1).1.procs 1).queue ≡ 2)
    × (((fork 0 true true (wait 0 true dead_child).1).1.procs 1).quanta ≡ 0)
unfolding find_unused find_zombie wait free_proc
fork_reused_slot_example =
    fork_reused_slot 0 1 dead_child refl refl refl (omega arith) (omega arith)

-- The boost has emptied the queues, and process 1 waits for the clock.
abbrev boosting : Kernel
boosting = record busy {
  procs =
      update zero_kernel.procs 1
        (record zero_proc { state = ProcState.sleeping; chan = Chan.addr 8; pid = 2 });
  cur = none;
}

boost_interrupted_example : Loops 1 (boost_round 1 (wakeup (Chan.addr 8) boosting))
boost_interrupted_example =
    boost_interrupted 1 (Chan.addr 8) boosting (omega arith) refl refl refl
      (λ j a b. ground (arith, a)) refl
