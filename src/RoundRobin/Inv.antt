-- ===== src/RoundRobin/Inv.antt =====
-- What holds in every state that the round robin kernel reaches: pids are unique, and the process on
-- the CPU is the one that is RUNNING.
use cs.Common.{
  ℕ, zero, suc, ◌-◌, ◌<◌, ◌≡◌, ◌≢◌, refl, sym, ◌∙◌, true, false, ◌&&◌, not, inl, inr, some, ◌==◌,
  arith, Bool-cases,
}
use cs.Mlfq.Table.{nproc}
use cs.Mlfq.Kernel.{ProcState, is_unused, is_running, is_sleeping, Chan, chan_eq, cur_is}
use cs.RoundRobin.{Task, Scheduler, set_task}
use cs.RoundRobin.Life.{set_state, wakeup_below, wakeup, kill_from, killed_task, reparent_below}

pub record Inv (k : Scheduler) : Type 0 where
  pub one_running : (i : ℕ) → is_running (k.procs i).state ≡ cur_is k.cur i
  pub free_pid : (i : ℕ) → is_unused (k.procs i).state ≡ ((k.procs i).pid == 0)
  pub pid_bound : (i : ℕ) → (k.procs i).pid < k.next_pid
  pub pid_once : (i j : ℕ) → i ≢ j → (k.procs i).pid ≡ (k.procs j).pid → (k.procs i).pid ≡ 0

-- Nothing that the invariant is about has changed.
pub record Quiet (k k' : Scheduler) : Type 0 where
  pub same_cur : k'.cur ≡ k.cur
  pub same_next : k'.next_pid ≡ k.next_pid
  pub same_pid : (i : ℕ) → (k'.procs i).pid ≡ (k.procs i).pid
  pub same_unused : (i : ℕ) → is_unused (k'.procs i).state ≡ is_unused (k.procs i).state
  pub same_running : (i : ℕ) → is_running (k'.procs i).state ≡ is_running (k.procs i).state

Quiet-refl : (k : Scheduler) → Quiet k k
Quiet-refl k = record {
  same_cur = refl;
  same_next = refl;
  same_pid = λ i. refl;
  same_unused = λ i. refl;
  same_running = λ i. refl;
}

pub Quiet-trans : (k k' k'' : Scheduler) → Quiet k k' → Quiet k' k'' → Quiet k k''
Quiet-trans k k' k'' p q = record {
  same_cur = q.same_cur ∙ p.same_cur;
  same_next = q.same_next ∙ p.same_next;
  same_pid = λ i. q.same_pid i ∙ p.same_pid i;
  same_unused = λ i. q.same_unused i ∙ p.same_unused i;
  same_running = λ i. q.same_running i ∙ p.same_running i;
}

pub Inv-Quiet : (k k' : Scheduler) → Inv k → Quiet k k' → Inv k'
Inv-Quiet k k' v q = record {
  one_running = λ i. ground (arith, q.same_running i, v.one_running i, q.same_cur);
  free_pid = λ i. ground (arith, q.same_unused i, v.free_pid i, q.same_pid i);
  pid_bound = λ i. ground (arith, q.same_pid i, v.pid_bound i, q.same_next);
  pid_once = λ i j ne e. ground (arith, q.same_pid i, q.same_pid j, v.pid_once i j ne, e);
}

-- Process `i` is given anew, with its pid, and in no other of the two kinds of state.
pub set_task-Quiet :
    (k : Scheduler) (i : ℕ) (p : Task)
    → p.pid ≡ (k.procs i).pid
    → is_unused p.state ≡ is_unused (k.procs i).state
    → is_running p.state ≡ is_running (k.procs i).state
    → Quiet k (set_task k i p)
set_task-Quiet k i p e u r = record {
  same_cur = refl;
  same_next = refl;
  same_pid = λ j. ground (arith, e);
  same_unused = λ j. ground (arith, u);
  same_running = λ j. ground (arith, r);
}

woken : (p : ProcState) → is_sleeping p ≡ true → (is_unused p ≡ false) × (is_running p ≡ false)
woken p h = ground (arith, h)

pub wakeup_below-Quiet : (n : ℕ) (c : Chan) (k : Scheduler) → Quiet k (wakeup_below n c k)
unfolding wakeup_below
wakeup_below-Quiet zero c k = Quiet-refl k
wakeup_below-Quiet (suc n) c k =
    let k' = wakeup_below n c k in
    let p = k'.procs n in
    elim (Bool-cases (not (cur_is k'.cur n) && is_sleeping p.state && chan_eq p.chan c)) [
      | inl e ↦
          let asleep = woken p.state (ground (arith, e)) in
          rw (e) (
            Quiet-trans k k' (set_state n ProcState.runnable k') (wakeup_below-Quiet n c k) (
              set_task-Quiet k' n (record p { state = ProcState.runnable }) refl (sym asleep.0)
                (sym asleep.1)))
      | inr e ↦ rw (e) (wakeup_below-Quiet n c k)
    ]

pub reparent_below-Quiet : (n i : ℕ) (k : Scheduler) → Quiet k (reparent_below n i k)
unfolding reparent_below
reparent_below-Quiet zero i k = Quiet-refl k
reparent_below-Quiet (suc n) i k =
    let k' = reparent_below n i k in
    let k1 = set_task k' n (record (k'.procs n) { parent = some k'.initproc }) in
    elim (Bool-cases (cur_is (k'.procs n).parent i)) [
      | inl e ↦ rw (e) (
          Quiet-trans k k' (wakeup (Chan.proc_addr k'.initproc) k1) (reparent_below-Quiet n i k) (
            Quiet-trans k' k1 (wakeup (Chan.proc_addr k'.initproc) k1)
              (set_task-Quiet k' n (record (k'.procs n) { parent = some k'.initproc }) refl refl
                refl)
              (wakeup_below-Quiet nproc (Chan.proc_addr k'.initproc) k1)))
      | inr e ↦ rw (e) (reparent_below-Quiet n i k)
    ]

pub kill_from-Quiet : (rest pid : ℕ) (k : Scheduler) → Quiet k (kill_from rest pid k).1
unfolding kill_from
kill_from-Quiet zero pid k = Quiet-refl k
kill_from-Quiet (suc rest) pid k =
    let i = nproc - suc rest in
    elim (Bool-cases ((k.procs i).pid == pid)) [
      | inl e ↦
          rw (e) (set_task-Quiet k i (killed_task (k.procs i)) refl (ground arith) (ground arith))
      | inr e ↦ rw (e) (kill_from-Quiet rest pid k)
    ]
