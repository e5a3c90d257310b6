-- ===== src/Mlfq/Invariant/Enqueue.antt =====
-- `enqueue` and its callers keep the invariant.
use cs.Common.{
  ==_iff, subst, update_self, ℕ, ◌<◌, ◌≡◌, refl, false, List, [], ◌∷◌, ◌++◌, ◌==◌, update, arith,
  Bool-cases, inl, inr,
}
use cs.Mlfq.Table.{nproc, append_to}
use cs.Mlfq.Table.Repr.{tail_of, append_to-Repr, append-queue}
use cs.Mlfq.Kernel.{Proc, ProcState, is_runnable, is_running, Kernel, cur_is, set_proc}
use cs.Mlfq.Enqueue.{enter, enqueue, make_runnable}
use cs.Mlfq.Enqueue.Levels.{enter_bounds, enter-state, enqueue_eq, ensure_setup_lem}
use cs.Mlfq.Invariant.Defs.{Settled, SettledAt, Inv, Pending}

module _ {k : Kernel} {q : ℕ → List ℕ} {i : ℕ} (b : Pending k q i) where
  abbrev level : ℕ
  level = (enter (k.procs i)).0

  level_lt : level < 3
  level_lt = omega (arith, enter_bounds (k.procs i))

  abbrev result : Kernel
  result = record (set_proc k i (enter (k.procs i)).1) {
    qtable = append_to (tail_of level) level i k.qtable;
  }

  here : SettledAt result i
  here = record {
    queued = ground (
      arith,
      level_lt,
      append-queue b.repr level i level_lt b.bound b.out i,
      b.ready,
      enter-state (k.procs i),
    );
    placed = ground (
      arith,
      level_lt,
      append-queue b.repr level i level_lt b.bound b.out i,
      enter_bounds (k.procs i),
    );
    on_cpu = ground (arith, b.ready, enter-state (k.procs i), b.idle);
    level = ground (arith, enter_bounds (k.procs i));
    spent = ground (arith, enter_bounds (k.procs i));
  }

  settled-result : (j : ℕ) → j < nproc → SettledAt result j
  settled-result j lt = elim (Bool-cases (i == j)) [
    | inl e ↦ rw (← (==_iff i j).0 e) here
    | inr e ↦ record {
      queued =
          ground (
            arith,
            b.settled j lt e,
            level_lt,
            append-queue b.repr level i level_lt b.bound b.out j,
          );
      placed =
          ground (
            arith,
            b.settled j lt e,
            level_lt,
            append-queue b.repr level i level_lt b.bound b.out j,
          );
      on_cpu = ground (arith, b.settled j lt e);
      level = ground (arith, b.settled j lt e);
      spent = ground (arith, b.settled j lt e);
    }
  ]

  -- The process goes to the end of the queue that `enter` chooses.
  pub enqueue-Inv : Inv (enqueue i k) (update q level (q level ++ i ∷ []))
  enqueue-Inv = rw enqueue_eq (record {
    repr = append_to-Repr b.repr level i level_lt b.bound b.out;
    setup = b.setup;
    settled = settled-result;
    cur_in = b.cur_in;
  })

  pub enqueue-Inv_at :
      (p : Proc)
      → k.procs i ≡ p
      → Inv (enqueue i k) (update q (enter p).0 (q (enter p).0 ++ i ∷ []))
  enqueue-Inv_at p e =
      subst (λ p. Inv (enqueue i k) (update q (enter p).0 (q (enter p).0 ++ i ∷ []))) e enqueue-Inv

module _ {k : Kernel} {q : ℕ → List ℕ} (v : Inv k q) (i : ℕ) (lt : i < nproc) where
  -- A process is given anew, as its queue and the CPU have it.
  pub put-Inv : (p : Proc) → Settled (k.qtable i).queue p (cur_is k.cur i) → Inv (set_proc k i p) q
  put-Inv p h = record {
    repr = v.repr;
    setup = v.setup;
    settled = λ j j_lt. elim (Bool-cases (i == j)) [
      | inl e ↦ rw (e, ← (==_iff i j).0 e) h
      | inr e ↦ rw e (v.settled j j_lt)
    ];
    cur_in = v.cur_in;
  }

  -- A process that neither waits in a queue nor runs is about to be enqueued.
  pub pend :
      (p : Proc)
      → is_runnable (k.procs i).state ≡ false
      → is_running (k.procs i).state ≡ false
      → p.state ≡ ProcState.runnable
      → Pending (set_proc k i p) q i
  pend p r0 n0 ready = record {
    repr = v.repr;
    setup = v.setup;
    settled = λ j j_lt ne. rw ne (v.settled j j_lt);
    cur_in = v.cur_in;
    bound = lt;
    ready = ground arith;
    out = ground (arith, v.settled i lt);
    idle = ground (arith, v.settled i lt);
  }

  -- A process that is woken goes to the end of the queue that `enter` chooses.
  pub make_runnable-Inv :
      is_runnable (k.procs i).state ≡ false
      → is_running (k.procs i).state ≡ false
      → let level = (enter (record (k.procs i) { state = ProcState.runnable })).0 in
        Inv (make_runnable i k) (update q level (q level ++ i ∷ []))
  unfolding make_runnable
  make_runnable-Inv r0 n0 =
      rw
        (ensure_setup_lem (set_proc k i (record (k.procs i) { state = ProcState.runnable }))
          v.setup)
        (enqueue-Inv_at (pend (record (k.procs i) { state = ProcState.runnable }) r0 n0 refl) _
          (update_self k.procs i _))
