-- ===== src/Mlfq/Invariant/Life.antt =====
-- `fork`, `exit`, `wait` and the first process keep the invariant.
use cs.Common.{
  subst, ℕ, zero, suc, ◌+◌, ◌%◌, ◌^◌, ◌≤◌, ◌<◌, ◌≡◌, refl, Bool, true, false, ◌&&◌, ◌||◌, ◌∙◌, not,
  Option, some, update, update_self, if◌then◌else◌, arith, Bool-cases, Option-cases, inl, inr,
}
use cs.Common.Int.{ℤ}
use cs.Mlfq.Table.{nproc}
use cs.Mlfq.Kernel.{
  Proc, ProcState, is_runnable, is_running, is_sleeping, is_unused, is_zombie, Chan, chan_eq,
  Kernel, cur_is, set_proc,
}
use cs.Mlfq.Enqueue.{make_runnable}
use cs.Mlfq.Enqueue.Levels.{ensure_setup_lem, make_runnable-cur}
use cs.Mlfq.Sleep.{wakeup, wakeup_below}
use cs.Mlfq.Life.{
  free_proc, find_unused, alloc_proc, start_proc, fork, reparent, reparent_below, leave, exit,
  find_zombie, wait, chan_of,
}
use cs.Mlfq.Invariant.Defs.{Good}
use cs.Mlfq.Invariant.Enqueue.{enqueue-Inv_at, put-Inv, pend}
use cs.Mlfq.Invariant.Wake.{put-Good, wakeup-Good, switch_back-Inv, leave-Inv, sleep-Inv}

-- A process that is neither runnable nor running.
abbrev IsParked : Kernel → ℕ → Type 0
IsParked k i = (is_runnable (k.procs i).state ≡ false) × (is_running (k.procs i).state ≡ false)

pub park-Good :
    (k : Kernel) (i : ℕ) (p : Proc)
    → i < nproc
    → IsParked k i
    → is_runnable p.state ≡ false
    → is_running p.state ≡ false
    → p.queue ≡ (k.procs i).queue
    → p.quanta ≡ (k.procs i).quanta
    → Good k
    → Good (set_proc k i p)
park-Good k i p lt parked a b c d (q, v) = (q, put-Inv v i lt p (ground (arith, v.settled i lt)))

free_proc-Good : (k : Kernel) (i : ℕ) → i < nproc → IsParked k i → Good k → Good (free_proc i k)
unfolding free_proc
free_proc-Good k i lt parked g = park-Good k i _ lt parked refl refl refl refl g

find_unused_lem :
    (rest : ℕ) (k : Kernel) (i : ℕ)
    → rest ≤ nproc
    → find_unused rest k ≡ some i
    → (i < nproc) × (is_unused (k.procs i).state ≡ true)
unfolding find_unused
find_unused_lem zero k i le h = cc
find_unused_lem (suc rest) k i le h = ground (arith, find_unused_lem rest k i)

-- What `allocproc` returns: nothing, or a process that is neither runnable nor running.
record Allocated (r : Option ℕ × Kernel) : Type 0 where
  good : Good r.1
  parked : (i : ℕ) → r.0 ≡ some i → (i < nproc) × ((r.1.procs i).state ≡ ProcState.used)

used_lem :
    (ps : ℕ → Proc) (i j : ℕ) (p : Proc)
    → p.state ≡ ProcState.used
    → i < nproc
    → some i ≡ some j
    → (j < nproc) × ((update ps i p j).state ≡ ProcState.used)
used_lem ps i j p u lt e = ground arith

used-Good :
    (k : Kernel) (i n : ℕ)
    → i < nproc
    → is_unused (k.procs i).state ≡ true
    → Good k
    → Good
        (record (set_proc k i (record (k.procs i) { pid = k.next_pid; state = ProcState.used })) {
          next_pid = n;
        })
used-Good k i n lt u g =
    let (q, v) =
      park-Good k i (record (k.procs i) { pid = k.next_pid; state = ProcState.used }) lt
        (ground arith, ground arith) refl refl refl refl g in
    (q, record { repr = v.repr; setup = v.setup; settled = v.settled; cur_in = v.cur_in })

alloc_proc-Allocated : (memory : Bool) (k : Kernel) → Good k → Allocated (alloc_proc memory k)
unfolding alloc_proc
alloc_proc-Allocated true k g = elim (Option-cases (find_unused nproc k)) [
  | inl e ↦ rw (e, alloc_proc) (record { good = g; parked = λ i h. cc })
  | inr (i, e) ↦
      rw (e, alloc_proc)
        (record {
          good =
              used-Good k i ((k.next_pid + 1) % 2 ^ 32)
                (find_unused_lem nproc k i (omega arith) e).0
                (find_unused_lem nproc k i (omega arith) e).1 g;
          parked =
              λ j h. used_lem k.procs i j _ refl (find_unused_lem nproc k i (omega arith) e).0 h;
        })
]
alloc_proc-Allocated false k g = elim (Option-cases (find_unused nproc k)) [
  | inl e ↦ rw (e, alloc_proc) (record { good = g; parked = λ i h. cc })
  | inr (i, e) ↦
      rw (e, alloc_proc)
        (record {
          good =
              free_proc-Good _ i (find_unused_lem nproc k i (omega arith) e).0
                (rw (update_self k.procs i _), rw (update_self k.procs i _))
                (used-Good k i ((k.next_pid + 1) % 2 ^ 32)
                  (find_unused_lem nproc k i (omega arith) e).0
                  (find_unused_lem nproc k i (omega arith) e).1 g);
          parked = λ j h. cc;
        })
]

-- A new process enters its first queue.
start_proc-Good : (k : Kernel) (i : ℕ) → i < nproc → IsParked k i → Good k → Good (start_proc i k)
unfolding start_proc
start_proc-Good k i lt parked (q, v) =
    rw (ensure_setup_lem (set_proc k i (record (k.procs i) { state = ProcState.runnable })) v.setup)
      (
        _,
        enqueue-Inv_at
            (pend v i lt (record (k.procs i) { state = ProcState.runnable }) parked.0 parked.1 refl)
            _ (update_self k.procs i _),
      )

fork_copied-Good :
    (i : ℕ) (r : Option ℕ × Kernel)
    → Allocated r
    → (j : ℕ) → r.0 ≡ some j
    → Good (start_proc j (set_proc r.1 j (record (r.1.procs j) { parent = some i })))
      × Good (free_proc j r.1)
fork_copied-Good i r a j e = (
  start_proc-Good _ j lt (ground (arith, a.parked j e), ground (arith, a.parked j e))
      (put-Good r.1 j (record (r.1.procs j) { parent = some i }) lt refl refl refl a.good),
  free_proc-Good r.1 j lt (ground (arith, a.parked j e), ground (arith, a.parked j e)) a.good,
)
  where
    lt : j < nproc
    lt = (a.parked j e).0

-- `fork` keeps the invariant, whether its allocations succeed or not.
pub fork-Good :
    (i : ℕ) (memory copied : Bool) (k : Kernel) → Good k → Good (fork i memory copied k).1
unfolding fork
fork-Good i memory true k g = elim (Option-cases (alloc_proc memory k).0) [
  | inl e ↦ rw (e, fork) (alloc_proc-Allocated memory k g).good
  | inr (j, e) ↦
      rw (e, fork)
        (fork_copied-Good i (alloc_proc memory k) (alloc_proc-Allocated memory k g) j e).0
]
fork-Good i memory false k g = elim (Option-cases (alloc_proc memory k).0) [
  | inl e ↦ rw (e, fork) (alloc_proc-Allocated memory k g).good
  | inr (j, e) ↦
      rw (e, fork)
        (fork_copied-Good i (alloc_proc memory k) (alloc_proc-Allocated memory k g) j e).1
]

-- The scan of `wait` finds a zombie.
find_zombie_lem :
    (rest i : ℕ) (k : Kernel) (j : ℕ)
    → rest ≤ nproc
    → (find_zombie rest i k).1 ≡ some j
    → (j < nproc) × (is_zombie (k.procs j).state ≡ true)
unfolding find_zombie
find_zombie_lem zero i k j le h = cc
find_zombie_lem (suc rest) i k j le h = ground (arith, find_zombie_lem rest i k j)

zombie_free-Good :
    (k : Kernel) (j : ℕ)
    → (j < nproc) × (is_zombie (k.procs j).state ≡ true)
    → Good k
    → Good (free_proc j k)
zombie_free-Good k j z g = free_proc-Good k j z.0 (ground arith, ground arith) g

-- `wait` of the running process keeps the invariant, on each of its outcomes.
pub wait-Good :
    (i : ℕ) (copied : Bool) (k : Kernel) → k.cur ≡ some i → Good k → Good (wait i copied k).1
unfolding wait
wait-Good i copied k on (q, v) = elim (Option-cases (find_zombie nproc i k).1) [
  | inl e ↦ elim (Bool-cases (not (find_zombie nproc i k).0 || (k.procs i).killed)) [
    | inl f ↦ rw (e, wait) (rw f (q, v))
    | inr f ↦ rw (e, wait) (rw f (q, sleep-Inv v i on (Chan.proc_addr i)))
  ]
  | inr (j, e) ↦ elim (Bool-cases copied) [
    | inl f ↦
        rw (e, wait)
          (rw f (zombie_free-Good k j (find_zombie_lem nproc i k j (omega arith) e) (q, v)))
    | inr f ↦ rw (e, wait) (rw f (q, v))
  ]
]

wake_one-cur :
    (c : Chan) (k : Kernel) (n : ℕ)
    → (if not (cur_is k.cur n) && is_sleeping (k.procs n).state && chan_eq (k.procs n).chan c
        then make_runnable n k
        else k).cur
      ≡ k.cur
wake_one-cur c k n =
    elim (Bool-cases
      (not (cur_is k.cur n) && is_sleeping (k.procs n).state && chan_eq (k.procs n).chan c)) [
        | inl e ↦ rw e (make_runnable-cur n k)
        | inr e ↦ rw e
      ]

wakeup_below-cur : (n : ℕ) (c : Chan) (k : Kernel) → (wakeup_below n c k).cur ≡ k.cur
unfolding wakeup_below
wakeup_below-cur zero c k = refl
wakeup_below-cur (suc n) c k = wake_one-cur c (wakeup_below n c k) n ∙ wakeup_below-cur n c k

pub wakeup-cur : (c : Chan) (k : Kernel) → (wakeup c k).cur ≡ k.cur
unfolding wakeup
wakeup-cur c k = wakeup_below-cur nproc c k

reparent_one :
    (n i : ℕ) (k : Kernel)
    → n < nproc
    → Good k
    → let k' =
        (if cur_is (k.procs n).parent i
          then wakeup
              (Chan.proc_addr k.initproc)
              (set_proc k n (record (k.procs n) { parent = some k.initproc }))
          else k) in
      Good k' × (k'.cur ≡ k.cur)
reparent_one n i k lt g = elim (Bool-cases (cur_is (k.procs n).parent i)) [
  | inl e ↦ rw e (
    wakeup-Good _ _
        (put-Good k n (record (k.procs n) { parent = some k.initproc }) lt refl refl refl g),
    wakeup-cur _ _,
  )
  | inr e ↦ rw e (g, refl)
]

reparent_below-Good :
    (n i : ℕ) (k : Kernel)
    → n ≤ nproc
    → Good k
    → Good (reparent_below n i k) × ((reparent_below n i k).cur ≡ k.cur)
unfolding reparent_below
reparent_below-Good zero i k le g = (g, refl)
reparent_below-Good (suc n) i k le g =
    let (ih, same) = reparent_below-Good n i k (omega arith) g in
    let (good, kept) = reparent_one n i (reparent_below n i k) le ih in (good, kept ∙ same)

leave-Good : (i : ℕ) (status : ℤ) (k : Kernel) → k.cur ≡ some i → Good k → Good (leave i status k)
unfolding leave reparent
leave-Good i status k on g =
    let (g1, same) = reparent_below-Good nproc i k (omega arith) g in
    let (q, v) = wakeup-Good (chan_of ((reparent_below nproc i k).procs i).parent) _ g1 in
    (q, switch_back-Inv i _ (leave-Inv v i (wakeup-cur _ _ ∙ same ∙ on) _ refl refl refl refl))

exit_eq : (i : ℕ) (status : ℤ) (k k' : Kernel) → exit i status k ≡ some k' → leave i status k ≡ k'
unfolding exit
exit_eq i status k k' e = ground arith

-- `exit` of the running process keeps the invariant.
pub exit-Good :
    (i : ℕ) (status : ℤ) (k k' : Kernel)
    → k.cur ≡ some i
    → Good k
    → exit i status k ≡ some k'
    → Good k'
exit-Good i status k k' on g e = subst Good (exit_eq i status k k' e) (leave-Good i status k on g)
