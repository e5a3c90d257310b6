-- ===== src/Mlfq/System/Safety.antt =====
-- Every reachable state of the scheduler keeps the invariant.
use cs.Common.{
  ℕ, ◌+◌, ◌<◌, ◌≡◌, refl, ◌∙◌, true, [], some, arith, subst, ◌⊎◌, Bool-cases, inl, inr, update, ap,
}
use cs.Common.Int.{negsuc}
use cs.Mlfq.Table.{nproc, setup_queue}
use cs.Mlfq.Table.Repr.{Repr, setup_queue-Repr}
use cs.Mlfq.Kernel.{Proc, ProcState, is_running, Chan, Kernel}
use cs.Mlfq.Enqueue.{enqueue}
use cs.Mlfq.Enqueue.Levels.{ensure_setup_first}
use cs.Mlfq.Sleep.{yield}
use cs.Mlfq.Life.{userinit, alloc_proc, start_proc, exit}
use cs.Mlfq.Trap.{clockintr, user_timer, kernel_timer}
use cs.Mlfq.Calls.{sys_startlog}
use cs.Mlfq.Invariant.Defs.{Pending, Good}
use cs.Mlfq.Invariant.Enqueue.{enqueue-Inv_at}
use cs.Mlfq.Invariant.Wake.{
  wakeup-Good, kill-Good, sleep-Inv, yield-Inv, sleep_resume-Good, set_killed-Good,
}
use cs.Mlfq.Invariant.Dispatch.{dispatch-Good}
use cs.Mlfq.Invariant.Boost.{boost-Good}
use cs.Mlfq.Invariant.Life.{wakeup-cur, fork-Good, exit-Good, wait-Good}
use cs.Mlfq.System.{
  zero_proc, zero_kernel, Step, boost_step, dispatch_step, idle_interrupt, idle_clock, yield_step,
  sleep_step, resume_step, kill_step, fault_step, fork_step, exit_step, wait_step, user_timer_step,
  kernel_timer_step, startlog_step, Reach, boot, next,
}

clockintr-Good :
    (c : Chan) (k : Kernel) → Good k → Good (clockintr c k) × ((clockintr c k).cur ≡ k.cur)
unfolding clockintr
clockintr-Good c k (q, v) = (
  wakeup-Good c _
      (q, record { repr = v.repr; setup = v.setup; settled = v.settled; cur_in = v.cur_in }),
  wakeup-cur c _,
)

tick-Good : (k : Kernel) (n : ℕ) → Good k → Good (record k { time = n })
tick-Good k n (q, v) =
    (q, record { repr = v.repr; setup = v.setup; settled = v.settled; cur_in = v.cur_in })

yield-Good : (k : Kernel) (i : ℕ) → k.cur ≡ some i → Good k → Good (yield i k)
yield-Good k i on (q, v) = (_, yield-Inv v i on)

-- The timer interrupts keep the invariant.
kernel_timer-Good :
    (i : ℕ) (c : Chan) (k : Kernel) → k.cur ≡ some i → Good k → Good (kernel_timer i c k)
unfolding kernel_timer
kernel_timer-Good i c k on g =
    let (g1, same) = clockintr-Good c k g in
    elim (Bool-cases (is_running ((clockintr c k).procs i).state)) [
      | inl e ↦ rw e (yield-Good _ i (same ∙ on) (tick-Good _ _ g1))
      | inr e ↦ rw e (tick-Good _ _ g1)
    ]

user_timer_eq :
    (i : ℕ) (c : Chan) (k k' : Kernel)
    → user_timer i c k ≡ some k'
    → let k1 = clockintr c k in
      (exit i (negsuc 0) k1 ≡ some k') ⊎ (yield i (record k1 { time = k1.time + 1 }) ≡ k')
unfolding user_timer
user_timer_eq i c k k' e = ground arith

user_timer-Good :
    (i : ℕ) (c : Chan) (k k' : Kernel)
    → k.cur ≡ some i
    → Good k
    → user_timer i c k ≡ some k'
    → Good k'
user_timer-Good i c k k' on g e =
    let (g1, same) = clockintr-Good c k g in
    elim (user_timer_eq i c k k' e) [
      | inl f ↦ exit-Good i (negsuc 0) (clockintr c k) k' (same ∙ on) g1 f
      | inr f ↦ subst Good f (yield-Good _ i (same ∙ on) (tick-Good _ _ g1))
    ]

startlog-Good : (k : Kernel) → Good k → Good (sys_startlog k).1
unfolding sys_startlog
startlog-Good k (q, v) = elim (Bool-cases k.is_logging) [
  | inl e ↦
      rw (e, sys_startlog)
        (q, record { repr = v.repr; setup = v.setup; settled = v.settled; cur_in = v.cur_in })
  | inr e ↦
      rw (e, sys_startlog)
        (q, record { repr = v.repr; setup = v.setup; settled = v.settled; cur_in = v.cur_in })
]

cur_lt : {k : Kernel} → Good k → (i : ℕ) → k.cur ≡ some i → i < nproc
cur_lt (q, v) i on = v.cur_in i (ground arith)

-- Every operation of the scheduler keeps the invariant.
Step-Good : {k k' : Kernel} → Step k k' → Good k → Good k'
Step-Good (boost_step off) g = boost-Good _ g
Step-Good (dispatch_step off) g = dispatch-Good _ off g
Step-Good (idle_interrupt c) g = wakeup-Good c _ g
Step-Good (idle_clock c off) g = (clockintr-Good c _ g).0
Step-Good (yield_step i on) g = yield-Good _ i on g
Step-Good (sleep_step i c on) (q, v) = (q, sleep-Inv v i on c)
Step-Good (resume_step i on) g = sleep_resume-Good _ i (cur_lt g i on) g
Step-Good (kill_step pid) g = kill-Good pid _ g
Step-Good (fault_step i on) g = set_killed-Good _ i (cur_lt g i on) g
Step-Good (fork_step i memory copied on) g = fork-Good i memory copied _ g
Step-Good (exit_step i status on e) g = exit-Good i status _ _ on g e
Step-Good (wait_step i copied on) g = wait-Good i copied _ on g
Step-Good (user_timer_step i c on e) g = user_timer-Good i c _ _ on g e
Step-Good (kernel_timer_step i c on) g = kernel_timer-Good i c _ on g
Step-Good startlog_step g = startlog-Good _ g

-- The first process, as `userinit` is about to enqueue it.
abbrev first_proc : Proc
first_proc = record zero_proc { state = ProcState.runnable; pid = 1 }

abbrev first_kernel : Kernel
first_kernel = record zero_kernel {
  procs =
      update (update zero_kernel.procs 0 (record zero_proc { state = ProcState.used; pid = 1 })) 0
        first_proc;
  qtable = setup_queue zero_kernel.qtable;
  queue_is_setup = true;
  next_pid = 2;
}

first-Pending : Pending first_kernel (λ _. []) 0
first-Pending = record {
  repr = r;
  setup = refl;
  settled = λ j lt ne. rw ne (
      ground (
        arith,
        r.member 0 j (omega arith),
        r.member 1 j (omega arith),
        r.member 2 j (omega arith),
      ));
  cur_in = λ j h. cc;
  bound = omega arith;
  ready = refl;
  out =
      ground
        (arith, r.member 0 0 (omega arith), r.member 1 0 (omega arith), r.member 2 0 (omega arith));
  idle = refl;
}
  where
    r : Repr (setup_queue zero_kernel.qtable) (λ _. [])
    r = setup_queue-Repr zero_kernel.qtable

userinit_eq : userinit zero_kernel ≡ enqueue 0 first_kernel
unfolding userinit start_proc alloc_proc
userinit_eq = ap (enqueue 0) (ensure_setup_first _ refl)

-- Every state that one CPU reaches after `userinit` by priority boosts, `dequeue`, interrupts, sleeping,
-- killing, forking, exiting and waiting in any order, where no interrupt comes inside a boost or inside
-- `dequeue`, satisfies the invariant: the table stands for three lists of distinct processes, their members
-- are exactly the RUNNABLE processes, and at most the process on the CPU is RUNNING.
pub Reach-Good : {k : Kernel} → Reach k → Good k
Reach-Good boot = rw userinit_eq (_, enqueue-Inv_at first-Pending first_proc refl)
Reach-Good (next r st) = Step-Good st (Reach-Good r)
