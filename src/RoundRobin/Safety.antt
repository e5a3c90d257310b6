-- ===== src/RoundRobin/Safety.antt =====
-- Every operation of the round robin kernel keeps its invariant.
use cs.Common.{
  ℕ, zero, suc, ◌+◌, ◌-◌, ◌%◌, ◌^◌, ◌<◌, ◌≤◌, ◌≡◌, refl, sym, ap, ◌∙◌, subst, Bool, true, false,
  ◌||◌, not, inl, inr, Option, none, some, ◌==◌, if◌then◌else◌, arith, Bool-cases, Option-cases,
  IfSome, IfSome-map,
}
use mathlib.Core.Option.{some-injective}
use cs.Common.Int.{ℤ}
use cs.Mlfq.Table.{nproc}
use cs.Mlfq.Kernel.{ProcState, is_unused, is_running, is_runnable, is_zombie, Chan, cur_is}
use cs.RoundRobin.{
  Task, Scheduler, set_task, schedule, scan, run, log_dispatch, yield, sys_startlog, sys_nice,
}
use cs.RoundRobin.Fair.{scan-Found}
use cs.RoundRobin.Life.{
  free_proc, find_unused, alloc_at, alloc_proc, init_at, userinit, fork_at, fork, wakeup, sleep,
  sleep_resume, kill, reparent, chan_of, leave, exit, find_zombie, wait_at, wait,
}
use cs.RoundRobin.Calls.{sys_startlog_lem}
use cs.RoundRobin.System.{zero_scheduler, Step, Reach, is_fork, forks}
use cs.RoundRobin.Inv.{
  Inv, Inv-Quiet, set_task-Quiet, wakeup_below-Quiet, reparent_below-Quiet, kill_from-Quiet,
  Quiet-trans,
}

run-Inv :
    (i : ℕ) (k : Scheduler)
    → k.cur ≡ none
    → is_runnable (k.procs i).state ≡ true
    → Inv k
    → Inv (run i k)
unfolding run log_dispatch
run-Inv i k idle ready v = record {
  one_running = λ j. ground (arith, v.one_running j, idle, ready);
  free_pid = λ j. ground (arith, v.free_pid j, v.free_pid i, ready);
  pid_bound = λ j. ground (arith, v.pid_bound j, v.pid_bound i);
  pid_once = λ a b ne e. ground (arith, v.pid_once a b ne, e);
}

schedule-Inv : (at : ℕ) (k : Scheduler) → k.cur ≡ none → Inv k → Inv (schedule at k).1
unfolding schedule
schedule-Inv at k idle v = elim (Option-cases (scan (nproc - at) k)) [
  | inl e ↦ rw (e, schedule) v
  | inr (i, e) ↦
      rw (e, schedule)
        (run-Inv i k idle
          (subst (λ o. IfSome (λ i. is_runnable (k.procs i).state ≡ true) o) e
            (IfSome-map (scan (nproc - at) k) (λ i f. f.ready)
              (scan-Found (nproc - at) k (omega arith))))
          v)
]

-- The process leaves the CPU, for a state that is neither RUNNING nor UNUSED.
off_cpu-Inv :
    (i : ℕ) (p : Task) (k : Scheduler)
    → k.cur ≡ some i
    → p.pid ≡ (k.procs i).pid
    → is_running p.state ≡ false
    → is_unused p.state ≡ false
    → Inv k
    → Inv (record (set_task k i p) { cur = none })
off_cpu-Inv i p k on e r u v = record {
  one_running = λ j. ground (arith, v.one_running j, on, r);
  free_pid = λ j. ground (arith, v.free_pid j, v.free_pid i, v.one_running i, on, e, u);
  pid_bound = λ j. ground (arith, v.pid_bound j, v.pid_bound i, e);
  pid_once = λ a b ne same. ground (arith, v.pid_once a b ne, same, e);
}

find_unused_lem :
    (rest : ℕ) (k : Scheduler)
    → IfSome (λ i. is_unused (k.procs i).state ≡ true) (find_unused rest k)
unfolding find_unused
find_unused_lem zero k = tt
find_unused_lem (suc rest) k = elim (Bool-cases (is_unused (k.procs (nproc - suc rest)).state)) [
  | inl e ↦ rw (e) e
  | inr e ↦ rw (e) (find_unused_lem rest k)
]

-- An allocated process is USED and has the next pid; the process on the CPU is as before.
abbrev Allocated : Scheduler → Option ℕ × Scheduler → Type 0
Allocated k (none, k') = Inv k' × (k'.cur ≡ k.cur)
Allocated k (some i, k') =
    Inv k'
    × (k'.cur ≡ k.cur)
    × (is_unused (k'.procs i).state ≡ false)
    × (is_running (k'.procs i).state ≡ false)

free_proc-Inv :
    (i : ℕ) (k : Scheduler) → is_running (k.procs i).state ≡ false → Inv k → Inv (free_proc i k)
unfolding free_proc
free_proc-Inv i k idle v = record {
  one_running = λ j. ground (arith, v.one_running j, idle);
  free_pid = λ j. ground (arith, v.free_pid j);
  pid_bound = λ j. ground (arith, v.pid_bound j, v.pid_bound i);
  pid_once = λ a b ne same. ground (arith, v.pid_once a b ne, same);
}

abbrev claimed : ℕ → Scheduler → Scheduler
claimed i k =
    record (set_task k i (record (k.procs i) { pid = k.next_pid; state = ProcState.used })) {
      next_pid = (k.next_pid + 1) % 2 ^ 32;
    }

-- `nextpid` can be counted up without an overflow.
abbrev Room : Scheduler → Type 0
Room k = k.next_pid + 1 < 2 ^ 31

claimed-Inv :
    (i : ℕ) (k : Scheduler)
    → Room k
    → Inv k
    → is_unused (k.procs i).state ≡ true
    → Inv (claimed i k)
claimed-Inv i k room v f = record {
  one_running = λ j. ground (arith, v.one_running j, v.one_running i, f);
  free_pid = λ j. ground (arith, v.free_pid j, v.pid_bound i);
  pid_bound = λ j. ground (arith, v.pid_bound j, room);
  pid_once =
      λ a b ne same. ground (arith, v.pid_once a b ne, same, v.pid_bound a, v.pid_bound b, ne);
}

alloc_at-Allocated :
    (memory : Bool) (o : Option ℕ) (k : Scheduler)
    → Room k
    → Inv k
    → IfSome (λ i. is_unused (k.procs i).state ≡ true) o
    → Allocated k (alloc_at memory o k)
unfolding alloc_at free_proc
alloc_at-Allocated memory none k room v f = (v, refl)
alloc_at-Allocated true (some i) k room v f =
    (claimed-Inv i k room v f, refl, ground arith, ground arith)
alloc_at-Allocated false (some i) k room v f =
    (free_proc-Inv i (claimed i k) (ground arith) (claimed-Inv i k room v f), refl)

alloc_proc-Allocated :
    (memory : Bool) (k : Scheduler) → Room k → Inv k → Allocated k (alloc_proc memory k)
unfolding alloc_proc
alloc_proc-Allocated memory k room v =
    alloc_at-Allocated memory (find_unused nproc k) k room v (find_unused_lem nproc k)

-- A used process becomes RUNNABLE, with the same pid.
ready-Inv :
    (i : ℕ) (p : Task) (k : Scheduler)
    → p.pid ≡ (k.procs i).pid
    → p.state ≡ ProcState.runnable
    → is_unused (k.procs i).state ≡ false
    → is_running (k.procs i).state ≡ false
    → Inv k
    → Inv (set_task k i p)
ready-Inv i p k e r u n v =
    Inv-Quiet k (set_task k i p) v
      (set_task-Quiet k i p e (ground (arith, r, u)) (ground (arith, r, n)))

fork_at-Inv :
    (i : ℕ) (copied : Bool) (k : Scheduler) (r : Option ℕ × Scheduler)
    → Allocated k r
    → Inv (fork_at i copied r).1
unfolding fork_at
fork_at-Inv i copied k (none, k') a = a.0
fork_at-Inv i true k (some j, k') (v, same, used, idle) =
    ready-Inv j (record (k'.procs j) { parent = some i; state = ProcState.runnable }) k' refl refl
      used idle v
fork_at-Inv i false k (some j, k') (v, same, used, idle) = free_proc-Inv j k' idle v

fork-Inv :
    (i : ℕ) (memory copied : Bool) (k : Scheduler) → Room k → Inv k → Inv (fork i memory copied k).1
unfolding fork
fork-Inv i memory copied k room v =
    fork_at-Inv i copied k (alloc_proc memory k) (alloc_proc-Allocated memory k room v)

leave-Inv : (i : ℕ) (status : ℤ) (k : Scheduler) → k.cur ≡ some i → Inv k → Inv (leave i status k)
unfolding leave
leave-Inv i status k on v =
    let k1 = reparent i k in
    let c = chan_of (k1.procs i).parent in
    let k2 = wakeup c k1 in
    let q = Quiet-trans k k1 k2 (reparent_below-Quiet nproc i k) (wakeup_below-Quiet nproc c k1) in
    off_cpu-Inv i (record (k2.procs i) { xstate = status; state = ProcState.zombie }) k2
      (q.same_cur ∙ on) refl refl refl (Inv-Quiet k k2 v q)

find_zombie_lem :
    (rest i : ℕ) (k : Scheduler)
    → IfSome (λ j. is_zombie (k.procs j).state ≡ true) (find_zombie rest i k).1
unfolding find_zombie
find_zombie_lem zero i k = tt
find_zombie_lem (suc rest) i k =
    let j = nproc - suc rest in
    elim (Bool-cases (cur_is (k.procs j).parent i)) [
      | inr e ↦ rw (e) (find_zombie_lem rest i k)
      | inl e ↦ elim (Bool-cases (is_zombie (k.procs j).state)) [
        | inl z ↦ rw (e, z) z
        | inr z ↦ rw (e, z) (find_zombie_lem rest i k)
      ]
    ]

sleep-Inv : (i : ℕ) (c : Chan) (k : Scheduler) → k.cur ≡ some i → Inv k → Inv (sleep i c k)
unfolding sleep
sleep-Inv i c k on v =
    off_cpu-Inv i (record (k.procs i) { chan = c; state = ProcState.sleeping }) k on refl refl refl
      v

wait_at-Inv :
    (i : ℕ) (copied : Bool) (kids : Bool) (o : Option ℕ) (k : Scheduler)
    → k.cur ≡ some i
    → IfSome (λ j. is_zombie (k.procs j).state ≡ true) o
    → Inv k
    → Inv (wait_at i copied (kids, o) k).1
wait_at-Inv i copied kids none k on z v = elim (Bool-cases (not kids || (k.procs i).killed)) [
  | inl e ↦ rw (e) v
  | inr e ↦ rw (e) (sleep-Inv i (Chan.proc_addr i) k on v)
]
wait_at-Inv i true kids (some j) k on z v = free_proc-Inv j k (ground (arith, z)) v
wait_at-Inv i false kids (some j) k on z v = v

sys_nice-Inv : (i : ℕ) (inc : ℤ) (k : Scheduler) → Inv k → Inv (sys_nice i inc k).1
unfolding sys_nice
sys_nice-Inv i inc k v = record {
  one_running = λ j. ground (arith, v.one_running j);
  free_pid = λ j. ground (arith, v.free_pid j);
  pid_bound = λ j. ground (arith, v.pid_bound j, v.pid_bound i);
  pid_once = λ a b ne same. ground (arith, v.pid_once a b ne, same);
}

exit-Inv :
    (i : ℕ) (status : ℤ) (k k' : Scheduler)
    → k.cur ≡ some i
    → exit i status k ≡ some k'
    → Inv k
    → Inv k'
unfolding exit
exit-Inv i status k k' on e v = elim (Bool-cases (i == k.initproc)) [
  | inl init ↦ absurd (ground (arith, init, e))
  | inr other ↦
      subst Inv
        (some-injective (leave i status k) k'
          (subst (λ b. (if b then none else some (leave i status k)) ≡ some k') other e))
        (leave-Inv i status k on v)
]

Step-Inv : (k k' : Scheduler) (step : Step k k') → (is_fork step ≡ 1 → Room k) → Inv k → Inv k'
unfolding yield sleep_resume kill wait sys_startlog
Step-Inv k k' (Step.schedule_step at idle) room v = schedule-Inv at k idle v
Step-Inv k k' (Step.wakeup_step c) room v =
    Inv-Quiet k (wakeup c k) v (wakeup_below-Quiet nproc c k)
Step-Inv k k' (Step.yield_step i on) room v =
    off_cpu-Inv i (record (k.procs i) { state = ProcState.runnable }) k on refl refl refl v
Step-Inv k k' (Step.sleep_step i c on) room v = sleep-Inv i c k on v
Step-Inv k k' (Step.resume_step i on) room v =
    Inv-Quiet k (sleep_resume i k) v
      (set_task-Quiet k i (record (k.procs i) { chan = Chan.null }) refl refl refl)
Step-Inv k k' (Step.kill_step pid) room v =
    Inv-Quiet k (kill pid k).1 v (kill_from-Quiet nproc pid k)
Step-Inv k k' (Step.fork_step i memory copied on) room v = fork-Inv i memory copied k (room refl) v
Step-Inv k k' (Step.exit_step i status on e) room v = exit-Inv i status k k' on e v
Step-Inv k k' (Step.wait_step i copied on) room v =
    wait_at-Inv i copied (find_zombie nproc i k).0 (find_zombie nproc i k).1 k on
      (find_zombie_lem nproc i k) v
Step-Inv k k' (Step.nice_step i inc on) room v = sys_nice-Inv i inc k v
Step-Inv k k' Step.startlog_step room v = subst Inv (sym (ap (λ r. r.1) (sys_startlog_lem k))) v

init_at-Inv : (k : Scheduler) (r : Option ℕ × Scheduler) → Allocated k r → Inv (init_at r)
init_at-Inv k (none, k') a = a.0
init_at-Inv k (some i, k') (v, same, used, idle) =
    ready-Inv i (record (k'.procs i) { state = ProcState.runnable }) (record k' { initproc = i })
      refl refl used idle
      (record {
        one_running = v.one_running;
        free_pid = v.free_pid;
        pid_bound = v.pid_bound;
        pid_once = v.pid_once;
      })

boot-Inv : Inv (userinit zero_scheduler)
unfolding userinit
boot-Inv = init_at-Inv zero_scheduler (alloc_proc true zero_scheduler) (
    alloc_proc-Allocated true zero_scheduler (omega arith) (record {
      one_running = λ i. refl;
      free_pid = λ i. refl;
      pid_bound = λ i. omega arith;
      pid_once = λ i j ne e. refl;
    }))

alloc_at-next :
    (memory : Bool) (o : Option ℕ) (k : Scheduler)
    → (alloc_at memory o k).1.next_pid ≤ k.next_pid + 1
unfolding alloc_at free_proc
alloc_at-next memory none k = omega arith
alloc_at-next true (some i) k = omega arith
alloc_at-next false (some i) k = omega arith

fork_at-next :
    (i : ℕ) (copied : Bool) (r : Option ℕ × Scheduler)
    → (fork_at i copied r).1.next_pid ≡ r.1.next_pid
unfolding fork_at free_proc
fork_at-next i copied (none, k) = refl
fork_at-next i true (some j, k) = refl
fork_at-next i false (some j, k) = refl

schedule-next : (at : ℕ) (k : Scheduler) → (schedule at k).1.next_pid ≡ k.next_pid
unfolding schedule run log_dispatch
schedule-next at k = elim (Option-cases (scan (nproc - at) k)) [
  | inl e ↦ rw (e, schedule) refl
  | inr (i, e) ↦ rw (e, schedule) (ground arith)
]

exit-next :
    (i : ℕ) (status : ℤ) (k k' : Scheduler) → exit i status k ≡ some k' → k'.next_pid ≡ k.next_pid
unfolding exit leave
exit-next i status k k' e =
    let k1 = reparent i k in
    ground (
      arith,
      e,
      (reparent_below-Quiet nproc i k).same_next,
      (wakeup_below-Quiet nproc (chan_of (k1.procs i).parent) k1).same_next,
    )

wait_at-next :
    (i : ℕ) (copied kids : Bool) (o : Option ℕ) (k : Scheduler)
    → (wait_at i copied (kids, o) k).1.next_pid ≡ k.next_pid
unfolding sleep free_proc
wait_at-next i copied kids none k = ground arith
wait_at-next i true kids (some j) k = refl
wait_at-next i false kids (some j) k = refl

-- Only `fork` counts `nextpid` up.
Step-next : (k k' : Scheduler) (step : Step k k') → k'.next_pid ≤ k.next_pid + is_fork step
unfolding yield sleep sleep_resume kill wait sys_nice fork alloc_proc
Step-next k k' (Step.schedule_step at idle) = omega (arith, schedule-next at k)
Step-next k k' (Step.wakeup_step c) = omega (arith, (wakeup_below-Quiet nproc c k).same_next)
Step-next k k' (Step.yield_step i on) = omega arith
Step-next k k' (Step.sleep_step i c on) = omega arith
Step-next k k' (Step.resume_step i on) = omega arith
Step-next k k' (Step.kill_step pid) = omega (arith, (kill_from-Quiet nproc pid k).same_next)
Step-next k k' (Step.fork_step i memory copied on) = omega (
  arith,
  fork_at-next i copied (alloc_at memory (find_unused nproc k) k),
  alloc_at-next memory (find_unused nproc k) k,
)
Step-next k k' (Step.exit_step i status on e) = omega (arith, exit-next i status k k' e)
Step-next k k' (Step.wait_step i copied on) =
    omega (arith, wait_at-next i copied (find_zombie nproc i k).0 (find_zombie nproc i k).1 k)
Step-next k k' (Step.nice_step i inc on) = omega arith
Step-next k k' Step.startlog_step = omega (arith, ap (λ r. r.1.next_pid) (sys_startlog_lem k))

boot-next : (userinit zero_scheduler).next_pid ≡ 2
unfolding userinit alloc_proc alloc_at find_unused
boot-next = refl

Reach-next : {k : Scheduler} (r : Reach k) → k.next_pid ≤ forks r + 2
Reach-next Reach.boot = omega (arith, boot-next)
Reach-next (Reach.next {k = k} {k' = k'} r step) = omega (arith, Step-next k k' step, Reach-next r)

-- In every state that the kernel reaches after `userinit` by fewer than 2^31 - 2 calls of `fork`, so that
-- `nextpid` does not overflow, in whatever order one CPU runs its operations, the process on the CPU and
-- no other is RUNNING, a process is UNUSED exactly if its pid is 0, and no two processes share a pid
-- that is not 0.
pub Reach-Inv : {k : Scheduler} (r : Reach k) → forks r < 2 ^ 31 - 2 → Inv k
Reach-Inv Reach.boot few = boot-Inv
Reach-Inv (Reach.next {k = k} {k' = k'} r step) few =
    Step-Inv k k' step (λ e. omega (arith, e, few, Reach-next r)) (Reach-Inv r (omega (arith, few)))
