-- ===== src/Mlfq/Dispatch/Interrupted.antt =====
-- An interrupt inside the priority boost of `scheduler`, XV6 Multilevel feedback
-- queue/xv6-riscv/kernel/proc.c, which runs without a lock and with interrupts on.
use cs.Common.{
  ℕ, zero, suc, ◌≤◌, ◌<◌, ◌≡◌, refl, sym, ap, ◌∙◌, subst, true, false, ◌&&◌, not, ◌==◌, ==_iff,
  Bool, none, arith, Bool-cases, inl, inr, update_self,
}
use cs.Mlfq.Table.{nproc, append_to-self_loop}
use cs.Mlfq.Table.Repr.{tail_of}
use cs.Mlfq.Kernel.{
  Proc, ProcState, is_runnable, is_sleeping, Chan, chan_eq, Kernel, set_proc, cur_is,
}
use cs.Mlfq.Enqueue.{enter, enqueue, make_runnable}
use cs.Mlfq.Enqueue.Levels.{enter-state, enqueue_eq, ensure_setup_lem, enqueue_self}
use cs.Mlfq.Sleep.{wakeup, wakeup_below}
use cs.Mlfq.Dispatch.{boost_round}

-- Whether the process sleeps on the channel.
abbrev sleeps_on : Proc → Chan → Bool
sleeps_on p c = is_sleeping p.state && chan_eq p.chan c

-- A process that has used no quanta enters the same queue a second time.
enter_again : (p : Proc) → p.quanta ≡ 0 → (enter (enter p).1).0 ≡ (enter p).0
unfolding enter
enter_again p h = ground arith

make_runnable_eq :
    (i : ℕ) (k : Kernel)
    → k.queue_is_setup ≡ true
    → make_runnable i k
      ≡ enqueue i (set_proc k i (record (k.procs i) { state = ProcState.runnable }))
unfolding make_runnable
make_runnable_eq i k h =
    ap (enqueue i)
      (ensure_setup_lem (set_proc k i (record (k.procs i) { state = ProcState.runnable })) h)

-- What `make_runnable` leaves alone.
record Kept (j : ℕ) (k k' : Kernel) : Type 0 where
  proc : k'.procs j ≡ k.procs j
  setup : k'.queue_is_setup ≡ true
  cur : k'.cur ≡ none

make_runnable-Kept :
    (i j : ℕ) (k : Kernel)
    → i < j
    → k.queue_is_setup ≡ true
    → k.cur ≡ none
    → Kept j k (make_runnable i k)
make_runnable-Kept i j k lt h off =
    rw (make_runnable_eq i k h, enqueue_eq)
      (record { proc = ground (arith, lt); setup = h; cur = off })

wakeup_below-Kept :
    (n j : ℕ) (c : Chan) (k : Kernel)
    → n ≤ j
    → k.queue_is_setup ≡ true
    → k.cur ≡ none
    → Kept j k (wakeup_below n c k)
unfolding wakeup_below
wakeup_below-Kept zero j c k le h off = record { proc = refl; setup = h; cur = off }
wakeup_below-Kept (suc n) j c k le h off =
    let k' = wakeup_below n c k in
    let w = wakeup_below-Kept n j c k (omega (arith, le)) h off in
    elim (Bool-cases
      (not (cur_is k'.cur n) && is_sleeping (k'.procs n).state && chan_eq (k'.procs n).chan c)) [
        | inl e ↦
            let m = make_runnable-Kept n j k' (omega (arith, le)) w.setup w.cur in
            rw (e) (record { proc = m.proc ∙ w.proc; setup = m.setup; cur = m.cur })
        | inr e ↦ rw (e) w
      ]

module _ (n : ℕ) (c : Chan) (k : Kernel) (setup : k.queue_is_setup ≡ true) (idle : k.cur ≡ none)
    (asleep : sleeps_on (k.procs n) c ≡ true) where
  abbrev before : Kernel
  before = wakeup_below n c k

  here : wakeup_below (suc n) c k ≡ make_runnable n before
  unfolding wakeup_below
  here =
      let w = wakeup_below-Kept n n c k (omega arith) setup idle in
      ground (arith, w.cur, w.proc, asleep)

  -- The rounds of `wakeup` behind process `n` wake nobody.
  last_woken :
      (m : ℕ)
      → n < m
      → ((j : ℕ) → n < j → j < m → sleeps_on (k.procs j) c ≡ false)
      → wakeup_below m c k ≡ make_runnable n before
  unfolding wakeup_below
  last_woken zero lt alone = absurd (omega (arith, lt))
  last_woken (suc j) lt alone =
      let w = wakeup_below-Kept j j c k (omega arith) setup idle in
      elim (Bool-cases (n == j)) [
        | inl e ↦
            let same : n ≡ j = (==_iff n j).0 e in
            subst (λ i. wakeup_below (suc i) c k ≡ make_runnable n before) same here
        | inr e ↦
            let behind : n < j = ground (arith, e, lt) in
            ground (
              arith,
              w.cur,
              w.proc,
              alone j behind (omega arith),
              last_woken j behind (λ i a b. alone i a (omega (arith, b))),
            )
      ]

-- The entry points to itself.
abbrev pub Loops : ℕ → Kernel → Type 0
Loops n k = ((k.qtable n).next ≡ n) × ((k.qtable n).prev ≡ n)

-- A runnable process that has just been enqueued is enqueued again.
twice-Loops :
    (n : ℕ) (k : Kernel)
    → n < nproc
    → is_runnable (k.procs n).state ≡ true
    → (k.procs n).quanta ≡ 0
    → Loops n (boost_round n (enqueue n k))
twice-Loops n k lt ready fresh =
    let (_, proc, last) = enqueue_self n k in
    let again : (enter ((enqueue n k).procs n)).0 ≡ (enter (k.procs n)).0 =
      ap (λ p. (enter p).0) proc ∙ enter_again (k.procs n) fresh in
    let still : is_runnable ((enqueue n k).procs n).state ≡ true =
      ground (arith, proc, enter-state (k.procs n), ready) in
    rw (still) (
      rw (enqueue_eq n (enqueue n k)) (
        rw (again) (
          append_to-self_loop (tail_of (enter (k.procs n)).0) (enter (k.procs n)).0 n
            (enqueue n k).qtable (omega (arith, lt)) (omega (arith, lt)) last)))

-- If an interrupt comes inside the priority boost, when the loop stands before process `n`, and wakes that
-- process and none behind it, and the process has used no quanta, then after the round of the loop for it
-- the table entry of the process points to itself both ways.
pub boost_interrupted :
    (n : ℕ) (c : Chan) (k : Kernel)
    → n < nproc
    → k.queue_is_setup ≡ true
    → k.cur ≡ none
    → sleeps_on (k.procs n) c ≡ true
    → ((j : ℕ) → n < j → j < nproc → sleeps_on (k.procs j) c ≡ false)
    → (k.procs n).quanta ≡ 0
    → Loops n (boost_round n (wakeup c k))
unfolding wakeup
boost_interrupted n c k lt setup idle asleep alone fresh =
    let w = wakeup_below-Kept n n c k (omega arith) setup idle in
    let k1 = wakeup_below n c k in
    let ready = set_proc k1 n (record (k1.procs n) { state = ProcState.runnable }) in
    let self = update_self k1.procs n (record (k1.procs n) { state = ProcState.runnable }) in
    subst (λ k'. Loops n (boost_round n k'))
      (sym (last_woken n c k setup idle asleep nproc lt alone ∙ make_runnable_eq n k1 w.setup))
      (twice-Loops n ready lt (ap (λ p. is_runnable p.state) self)
        (ap (λ p. p.quanta) self ∙ ap (λ p. p.quanta) w.proc ∙ fresh))
