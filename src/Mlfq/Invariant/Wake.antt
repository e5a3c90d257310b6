-- ===== src/Mlfq/Invariant/Wake.antt =====
-- The operations of a running process and of interrupts keep the invariant.
use cs.Common.{
  ℕ, zero, suc, ◌+◌, ◌-◌, ◌≤◌, ◌<◌, ◌≡◌, refl, true, false, ◌&&◌, not, List, [], ◌∷◌, ◌++◌, none,
  some, ◌==◌, update, if◌then◌else◌, arith, Bool-cases, inl, inr,
}
use cs.Mlfq.Table.{nproc}
use cs.Mlfq.Kernel.{
  Proc, ProcState, is_runnable, is_running, is_sleeping, Chan, chan_eq, Kernel, cur_is, set_proc,
}
use cs.Mlfq.Enqueue.{enter, enqueue, make_runnable}
use cs.Mlfq.Enqueue.Levels.{ensure_setup_lem, enqueue_eq}
use cs.Mlfq.Dispatch.{switch_back, should_log}
use cs.Mlfq.Sleep.{yield, sleep, sleep_resume, wakeup, wakeup_below, kill, kill_from, set_killed}
use cs.Mlfq.Invariant.Defs.{Inv, Pending, Good}
use cs.Mlfq.Invariant.Enqueue.{enqueue-Inv_at, put-Inv, make_runnable-Inv}

pub make_runnable-Good :
    (k : Kernel) (i : ℕ)
    → i < nproc
    → is_sleeping (k.procs i).state ≡ true
    → Good k
    → Good (make_runnable i k)
make_runnable-Good k i lt h (q, v) = (_, make_runnable-Inv v i lt (ground arith) (ground arith))

-- A change of a process that leaves its state, queue and quanta alone.
pub put-Good :
    (k : Kernel) (i : ℕ) (p : Proc)
    → i < nproc
    → p.state ≡ (k.procs i).state
    → p.queue ≡ (k.procs i).queue
    → p.quanta ≡ (k.procs i).quanta
    → Good k
    → Good (set_proc k i p)
put-Good k i p lt a b c (q, v) = (q, put-Inv v i lt p (ground (arith, v.settled i lt)))

wake_one-Good :
    (c : Chan) (k : Kernel) (n : ℕ)
    → n < nproc
    → Good k
    → Good (
        if not (cur_is k.cur n) && is_sleeping (k.procs n).state && chan_eq (k.procs n).chan c
        then make_runnable n k
        else k)
wake_one-Good c k n lt g =
    elim (Bool-cases
      (not (cur_is k.cur n) && is_sleeping (k.procs n).state && chan_eq (k.procs n).chan c)) [
        | inl e ↦ rw e (make_runnable-Good k n lt (ground arith) g)
        | inr e ↦ rw e g
      ]

wakeup_below-Good : (n : ℕ) (c : Chan) (k : Kernel) → n ≤ nproc → Good k → Good (wakeup_below n c k)
unfolding wakeup_below
wakeup_below-Good zero c k le g = g
wakeup_below-Good (suc n) c k le g =
    wake_one-Good c (wakeup_below n c k) n le (wakeup_below-Good n c k (omega arith) g)

-- `wakeup` keeps the invariant.
pub wakeup-Good : (c : Chan) (k : Kernel) → Good k → Good (wakeup c k)
unfolding wakeup
wakeup-Good c k g = wakeup_below-Good nproc c k (omega arith) g

-- One process that `kill` finds.
kill_one-Good :
    (k : Kernel) (i : ℕ)
    → i < nproc
    → Good k
    → Good (
        let k' = set_proc k i (record (k.procs i) { killed = true }) in
        if is_sleeping (k.procs i).state then make_runnable i k' else k')
kill_one-Good k i lt g = elim (Bool-cases (is_sleeping (k.procs i).state)) [
  | inl e ↦ rw e (make_runnable-Good _ i lt (ground arith) killed)
  | inr e ↦ rw e killed
]
  where
    killed : Good (set_proc k i (record (k.procs i) { killed = true }))
    killed = put-Good k i (record (k.procs i) { killed = true }) lt refl refl refl g

kill_from-Good : (rest pid : ℕ) (k : Kernel) → rest ≤ nproc → Good k → Good (kill_from rest pid k).1
unfolding kill_from
kill_from-Good zero pid k le g = g
kill_from-Good (suc rest) pid k le g = elim (Bool-cases ((k.procs (nproc - suc rest)).pid == pid)) [
  | inl e ↦ rw e (kill_one-Good k (nproc - suc rest) (omega arith) g)
  | inr e ↦ rw e (kill_from-Good rest pid k (omega arith) g)
]

-- `kill` keeps the invariant.
pub kill-Good : (pid : ℕ) (k : Kernel) → Good k → Good (kill pid k).1
unfolding kill
kill-Good pid k g = kill_from-Good nproc pid k (omega arith) g

-- The log does not matter, and the CPU is free.
pub switch_back-Inv :
    (i : ℕ) (k : Kernel) {q : ℕ → List ℕ}
    → Inv (record k { cur = none }) q
    → Inv (switch_back i k) q
unfolding switch_back
switch_back-Inv i k v = elim (Bool-cases (should_log k (k.procs i))) [
  | inl e ↦ rw e (record { repr = v.repr; setup = v.setup; settled = v.settled; cur_in = v.cur_in })
  | inr e ↦ rw e (record { repr = v.repr; setup = v.setup; settled = v.settled; cur_in = v.cur_in })
]

enqueue_off :
    (i : ℕ) (k : Kernel) → record (enqueue i k) { cur = none } ≡ enqueue i (record k { cur = none })
enqueue_off i k = rw (enqueue_eq i k, enqueue_eq i (record k { cur = none }))

module _ {k : Kernel} {q : ℕ → List ℕ} (v : Inv k q) (i : ℕ) (on : k.cur ≡ some i) where
  i_lt : i < nproc
  i_lt = v.cur_in i (ground arith)

  -- The running process gives up the CPU and is runnable.
  pend_running :
      (ps : ℕ → Proc) (boosted : ℕ)
      → (ps i).state ≡ ProcState.runnable
      → ((j : ℕ) → (i == j) ≡ false → ps j ≡ k.procs j)
      → Pending (record k { procs = ps; cur = none; since_boost = boosted }) q i
  pend_running ps boosted ready same = record {
    repr = v.repr;
    setup = v.setup;
    settled = λ j lt ne. rw (same j ne) (ground (arith, v.settled j lt));
    cur_in = λ j h. cc;
    bound = i_lt;
    ready = ready;
    out = ground (arith, v.settled i i_lt);
    idle = refl;
  }

  -- The running process stops, neither runnable nor running.
  pub leave-Inv :
      (p : Proc)
      → is_runnable p.state ≡ false
      → is_running p.state ≡ false
      → p.queue ≡ (k.procs i).queue
      → p.quanta ≡ (k.procs i).quanta
      → Inv (record (set_proc k i p) { cur = none }) q
  leave-Inv p r0 n0 a b = record {
    repr = v.repr;
    setup = v.setup;
    settled = λ j lt. elim (Bool-cases (i == j)) [
      | inl e ↦ rw e (ground (arith, v.settled j lt))
      | inr e ↦ rw e (ground (arith, v.settled j lt))
    ];
    cur_in = λ j h. cc;
  }

  -- `sleep` leaves the queues as they are.
  pub sleep-Inv : (c : Chan) → Inv (sleep i c k) q
  unfolding sleep
  sleep-Inv c = switch_back-Inv i _ (leave-Inv _ refl refl refl refl)

  -- `yield` sends the running process to the end of the queue that `enter` chooses with one more
  -- quantum used.
  pub yield-Inv :
      let p = record (k.procs i) { state = ProcState.runnable; quanta = (k.procs i).quanta + 1 } in
      let level = (enter p).0 in Inv (yield i k) (update q level (q level ++ i ∷ []))
  unfolding yield
  yield-Inv =
      rw
        (ensure_setup_lem (set_proc k i (record (k.procs i) { state = ProcState.runnable }))
          v.setup)
        (switch_back-Inv i _ (
          rw enqueue_off (
            enqueue-Inv_at
              (pend_running _ (k.since_boost + 1) (ground arith) (λ j ne. ground arith)) p
              (ground arith))))
    where
      p : Proc
      p = record (k.procs i) { state = ProcState.runnable; quanta = (k.procs i).quanta + 1 }

-- The running process resumes after `sleep`.
pub sleep_resume-Good : (k : Kernel) (i : ℕ) → i < nproc → Good k → Good (sleep_resume i k)
unfolding sleep_resume
sleep_resume-Good k i lt g =
    put-Good k i (record (k.procs i) { chan = Chan.null }) lt refl refl refl g

pub set_killed-Good : (k : Kernel) (i : ℕ) → i < nproc → Good k → Good (set_killed i k)
unfolding set_killed
set_killed-Good k i lt g = put-Good k i (record (k.procs i) { killed = true }) lt refl refl refl g
