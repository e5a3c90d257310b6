-- ===== src/RoundRobin/Killing.antt =====
-- What `kill` of XV6 Scheduler/xv6-riscv/kernel/proc.c does, and what it does for the pid 0.
use cs.Common.{
  ℕ, zero, suc, ◌-◌, ◌<◌, ◌≤◌, ◌≡◌, ◌≢◌, refl, sym, ◌∙◌, Bool, true, false, inl, inr, ◌⊎◌, Option,
  none, some, ◌==◌, ==_iff, if◌then◌else◌, update_self, ap, IfSome, arith, Bool-cases,
}
use mathlib.Core.Option.{some-injective, none-ne-some}
use cs.Mlfq.Table.{nproc}
use cs.Mlfq.Kernel.{ProcState, is_sleeping, is_unused}
use cs.RoundRobin.{Task, Scheduler, set_task}
use cs.RoundRobin.Life.{killed_task, kill_from, kill, find_unused, alloc_at, alloc_proc}
use cs.RoundRobin.Inv.{Inv, kill_from-Quiet}

-- A sleeper wakes up.
abbrev pub woken : ProcState → ProcState
woken ProcState.unused = ProcState.unused
woken ProcState.used = ProcState.used
woken ProcState.sleeping = ProcState.runnable
woken ProcState.runnable = ProcState.runnable
woken ProcState.running = ProcState.running
woken ProcState.zombie = ProcState.zombie

woken_lem : (st : ProcState) → (if is_sleeping st then ProcState.runnable else st) ≡ woken st
woken_lem ProcState.unused = refl
woken_lem ProcState.used = refl
woken_lem ProcState.sleeping = refl
woken_lem ProcState.runnable = refl
woken_lem ProcState.running = refl
woken_lem ProcState.zombie = refl

-- What `kill` of a pid may have done: it found a process with the pid and killed it, or there is none.
abbrev pub KillOk : (pid : ℕ) → Scheduler → Bool × Scheduler → Type 0
KillOk pid k (r, k') =
    (r ≡ true)
      × ((i : ℕ) × (i < nproc)
          × ((k.procs i).pid ≡ pid)
          × (k'.procs i ≡ record (k.procs i) { killed = true; state = woken (k.procs i).state })
          × ((j : ℕ) → j ≢ i → k'.procs j ≡ k.procs j)
          × (k' ≡ record k { procs = k'.procs })
          × ((j : ℕ) → j < i → (k.procs j).pid ≢ pid))
    ⊎ (r ≡ false) × (k' ≡ k) × ((j : ℕ) → j < nproc → (k.procs j).pid ≢ pid)

killed_task_lem : (p : Task) → killed_task p ≡ record p { killed = true; state = woken p.state }
killed_task_lem p = ap (λ st. record p { killed = true; state = st }) (woken_lem p.state)

kill_from-KillOk :
    (rest pid : ℕ) (k : Scheduler)
    → rest ≤ nproc
    → ((j : ℕ) → j < nproc - rest → (k.procs j).pid ≢ pid)
    → KillOk pid k (kill_from rest pid k)
unfolding kill_from
kill_from-KillOk zero pid k le before = inr (refl, refl, λ j lt. before j lt)
kill_from-KillOk (suc rest) pid k le before =
    let i = nproc - suc rest in
    elim (Bool-cases ((k.procs i).pid == pid)) [
      | inl e ↦ rw (e) (
          inl (
            refl,
            (
              i,
              omega (arith, le),
              (==_iff (k.procs i).pid pid).0 e,
              update_self k.procs i (killed_task (k.procs i)) ∙ killed_task_lem (k.procs i),
              λ j ne. ground (arith, ne),
              refl,
              before,
            ),
          ))
      | inr e ↦ rw (e) (
          kill_from-KillOk rest pid k (omega (arith, le)) (λ j lt z. elim (Bool-cases (j == i)) [
            | inl same ↦ ground (arith, e, (==_iff j i).0 same, z)
            | inr other ↦ before j (ground (arith, other, lt, le)) z
          ]))
    ]

-- `kill` marks the first process with the pid as killed, makes it RUNNABLE if it is SLEEPING, and
-- changes nothing else of it, of the other processes and of the scheduler; it fails and changes nothing
-- exactly if no process has the pid.
pub kill-KillOk : (pid : ℕ) (k : Scheduler) → KillOk pid k (kill pid k)
unfolding kill
kill-KillOk pid k = kill_from-KillOk nproc pid k (omega arith) (λ j lt. absurd (omega (arith, lt)))

at_once :
    (i : ℕ) (k : Scheduler)
    → is_unused (killed_task (k.procs i)).state ≡ true
    → (rest : ℕ)
    → IfSome
        (λ j. ((set_task k i (killed_task (k.procs i))).procs j).killed ≡ true)
        (if is_unused ((set_task k i (killed_task (k.procs i))).procs i).state
          then some i
          else find_unused rest (set_task k i (killed_task (k.procs i))))
at_once i k free rest =
    rw (update_self k.procs i (killed_task (k.procs i)), free)
      (ap (λ p. p.killed) (update_self k.procs i (killed_task (k.procs i))))

first_unused :
    (rest : ℕ) (k : Scheduler)
    → Inv k
    → IfSome
        (λ i. ((kill_from rest 0 k).1.procs i).killed ≡ true)
        (find_unused rest (kill_from rest 0 k).1)
unfolding find_unused kill_from
first_unused zero k v = tt
first_unused (suc rest) k v =
    let i = nproc - suc rest in
    elim (Bool-cases ((k.procs i).pid == 0)) [
      | inl e ↦
          let free : is_unused (killed_task (k.procs i)).state ≡ true =
            ground (arith, v.free_pid i, e) in
          rw (e) (at_once i k free rest)
      | inr e ↦
          let k' = (kill_from rest 0 k).1 in
          let used : is_unused (k'.procs i).state ≡ false =
            ground (arith, (kill_from-Quiet rest 0 k).same_unused i, v.free_pid i, e) in
          rw (e, used) (first_unused rest k v)
    ]

alloc_killed :
    (o : Option ℕ) (k k' : Scheduler) (i : ℕ)
    → IfSome (λ j. (k.procs j).killed ≡ true) o
    → alloc_at true o k ≡ (some i, k')
    → (k'.procs i).killed ≡ true
unfolding alloc_at
alloc_killed none k k' i h e = absurd (none-ne-some i (ap (λ r. r.0) e))
alloc_killed (some j) k k' i h e =
    let same : j ≡ i = some-injective j i (ap (λ r. r.0) e) in
    ap (λ q. (q.procs i).killed) (sym (ap (λ r. r.1) e)) ∙ ground (arith, same, h)

-- The pid 0 is that of the unused entries: `kill` of it marks the first of them, and the process that
-- is allocated next starts out killed, since `allocproc` does not reset the mark.
pub kill_zero_marks :
    (k k' : Scheduler) (i : ℕ)
    → Inv k
    → alloc_proc true (kill 0 k).1 ≡ (some i, k')
    → (k'.procs i).killed ≡ true
unfolding kill alloc_proc
kill_zero_marks k k' i v e =
    alloc_killed (find_unused nproc (kill_from nproc 0 k).1) (kill_from nproc 0 k).1 k' i
      (first_unused nproc k v) e
