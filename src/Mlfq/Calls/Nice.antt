-- ===== src/Mlfq/Calls/Nice.antt =====
-- `sys_nice` of XV6 Multilevel feedback queue/xv6-riscv/kernel/proc.c: the range of nice values, the
-- queue that it compares with, and what it does to the queues when the caller is running.
use cs.Common.{
  ℕ, ◌+◌, ◌<◌, ◌≡◌, ◌∙◌, Bool, true, false, ◌&&◌, ◌||◌, not, List, some, arith, update_self, ap,
  subst, ==_refl,
}
use cs.Common.Int.{ℤ, pos, negsuc, ltb_ℤ, ◌≤ℤ◌, ◌+ℤ◌}
use cs.Mlfq.Table.{nproc, append_to, append_to-self_loop, remove_from_queue}
use cs.Mlfq.Table.Repr.{tail_of}
use cs.Mlfq.Kernel.{Proc, ProcState, Kernel, set_proc}
use cs.Mlfq.Enqueue.{nice_above, enter, enqueue}
use cs.Mlfq.Enqueue.Levels.{
  base, enter_bounds, enter-state, enqueue_eq, ensure_setup_lem, enqueue_self,
}
use cs.Mlfq.Dispatch.{switch_back}
use cs.Mlfq.Sleep.{yield}
use cs.Mlfq.Calls.{clamp_nice, temp_queue, is_level, sys_nice}
use cs.Mlfq.Invariant.Defs.{Inv, Good}

-- Nice values stay between -20 and 19.
clamp_nice_bounds : (n : ℤ) → (negsuc 19 ≤ℤ clamp_nice n) × (clamp_nice n ≤ℤ pos 19)
unfolding clamp_nice
clamp_nice_bounds n = ground arith

abbrev pub is_minus_ten : ℤ → Bool
is_minus_ten n = not (ltb_ℤ n (negsuc 9)) && not (ltb_ℤ (negsuc 9) n)

-- `sys_nice` compares with the queue that `enqueue` goes by only for nice values above 10 and for
-- nice -10.
temp_queue-base :
    (p : Proc) → is_level (temp_queue p) (base p) ≡ (nice_above p (pos 10) || is_minus_ten p.nice)
unfolding temp_queue
temp_queue-base p = ground arith

-- The process as `sys_nice` leaves it before it looks at the queues.
abbrev reniced : Kernel → ℕ → ℤ → Proc
reniced k i inc = record (k.procs i) { nice = clamp_nice ((k.procs i).nice +ℤ inc) }

sys_nice_eq :
    (k : Kernel) (i : ℕ) (inc : ℤ)
    → is_level (temp_queue (reniced k i inc)) (k.procs i).queue ≡ false
    → (sys_nice i inc k).1
      ≡ enqueue i
          (record (set_proc k i (reniced k i inc)) { qtable = remove_from_queue i k.qtable })
unfolding sys_nice
sys_nice_eq k i inc h = rw (h, sys_nice)

abbrev moved : Kernel → ℕ → ℤ → Kernel
moved k i inc = record (set_proc k i (reniced k i inc)) { qtable = remove_from_queue i k.qtable }

moved_lem : (k : Kernel) (i : ℕ) (inc : ℤ) → (moved k i inc).procs i ≡ reniced k i inc
moved_lem k i inc = update_self k.procs i (reniced k i inc)

switch_back_table : (i : ℕ) (k : Kernel) → (switch_back i k).qtable ≡ k.qtable
unfolding switch_back
switch_back_table i k = ground arith

yield_table :
    (i : ℕ) (k : Kernel)
    → k.queue_is_setup ≡ true
    → let p = k.procs i in
      let level = (enter (record p { state = ProcState.runnable; quanta = p.quanta + 1 })).0 in
      (yield i k).qtable ≡ append_to (tail_of level) level i k.qtable
unfolding yield
yield_table i k h =
    rw (ensure_setup_lem (set_proc k i (record (k.procs i) { state = ProcState.runnable })) h)
      (rw (switch_back_table, enqueue_eq) (rw (==_refl i)))

module _ {k : Kernel} {q : ℕ → List ℕ} (i : ℕ) (inc : ℤ) (v : Inv k q) (on : k.cur ≡ some i)
    (h : is_level (temp_queue (reniced k i inc)) (k.procs i).queue ≡ false) where
  k1 : Kernel
  k1 = (sys_nice i inc k).1

  level : ℕ
  level = (enter (reniced k i inc)).0

  i_lt : i < nproc
  i_lt = v.cur_in i (ground arith)

  level_lt : level < 3
  unfolding level
  level_lt = omega (arith, enter_bounds (reniced k i inc))

  k1_lem : k1 ≡ enqueue i (moved k i inc)
  unfolding k1
  k1_lem = sys_nice_eq k i inc h

  k1-proc : k1.procs i ≡ (enter (reniced k i inc)).1
  k1-proc =
      rw k1_lem ((enqueue_self i (moved k i inc)).1 ∙ ap (λ p. (enter p).1) (moved_lem k i inc))

  k1-queue : (k1.qtable i).queue ≡ level
  unfolding level
  k1-queue =
      rw k1_lem ((enqueue_self i (moved k i inc)).0 ∙ ap (λ p. (enter p).0) (moved_lem k i inc))

  k1-last : (k1.qtable (tail_of level)).prev ≡ i
  unfolding level
  k1-last = rw k1_lem (
      subst (λ p. ((enqueue i (moved k i inc)).qtable (tail_of (enter p).0)).prev ≡ i)
        (moved_lem k i inc) ((enqueue_self i (moved k i inc)).2))

  k1-running : (k1.procs i).state ≡ ProcState.running
  k1-running = rw k1-proc (enter-state (reniced k i inc) ∙ (ground (arith, v.settled i i_lt)))

  k1-level : (k1.qtable i).queue < 3
  unfolding level
  k1-level = ground (arith, k1-queue, enter_bounds (reniced k i inc))

  k1-not : ¬ Good k1
  k1-not (q', v') = ground (arith, v'.settled i i_lt, k1-running, k1-level)

  -- Wherever `sys_nice` requeues the running caller, the caller is in a queue while it runs, which no
  -- reachable state of the other operations allows.
  pub sys_nice-breaks :
      let k' = (sys_nice i inc k).1 in
      ((k'.procs i).state ≡ ProcState.running) × ((k'.qtable i).queue < 3) × (¬ Good k')
  unfolding k1
  sys_nice-breaks = (k1-running, k1-level, k1-not)

  k1-setup : k1.queue_is_setup ≡ true
  k1-setup = rw (k1_lem, enqueue_eq) v.setup

  -- If the caller then yields, and the quantum that it has used does not change its queue, its table
  -- entry points to itself both ways: the queue no longer leads to its tail, and what stands behind
  -- the caller is lost.
  pub sys_nice-yield_loops :
      let k' = (sys_nice i inc k).1 in
      let p = k'.procs i in
      (enter (record p { state = ProcState.runnable; quanta = p.quanta + 1 })).0
        ≡ (k'.qtable i).queue
      → (((yield i k').qtable i).next ≡ i) × (((yield i k').qtable i).prev ≡ i)
  unfolding k1
  sys_nice-yield_loops same =
      rw (yield_table i k1 k1-setup, same, k1-queue)
        (append_to-self_loop (tail_of level) level i k1.qtable (omega (arith, i_lt))
          (omega (arith, i_lt, level_lt)) k1-last)
