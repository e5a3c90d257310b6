-- ===== src/Mlfq/Invariant/Boost.antt =====
-- The priority boost of `scheduler` keeps the invariant: every runnable process is enqueued anew.
use cs.Common.{
  ℕ, zero, suc, ◌≤◌, ◌<◌, ◌≡◌, refl, Bool, true, false, List, [], ◌∷◌, ◌++◌, ltb, ◌==◌, ==_iff,
  update, if◌then◌else◌, arith, Bool-cases, inl, inr,
}
use cs.Mlfq.Table.{nproc, setup_queue, append_to}
use cs.Mlfq.Table.Repr.{Repr, setup_queue-Repr, append_to-Repr, append-queue, tail_of}
use cs.Mlfq.Kernel.{Proc, is_runnable, is_running, Kernel, cur_is, set_proc}
use cs.Mlfq.Enqueue.{enter, enqueue}
use cs.Mlfq.Enqueue.Levels.{allotment, enter_bounds, enter-state, enqueue_eq, enqueue-cur}
use cs.Mlfq.Dispatch.{boost, enqueue_runnable}
use cs.Mlfq.Invariant.Defs.{SettledAt, Good}

-- What is known of a process that the loop has not reached.
record Unreached (tag : ℕ) (p : Proc) (on : Bool) : Type 0 where
  out : 3 ≤ tag
  on_cpu : is_running p.state ≡ on
  level : p.queue < 3
  spent : p.quanta ≤ allotment p.queue

abbrev UnreachedAt : Kernel → ℕ → Type 0
UnreachedAt k i = Unreached (k.qtable i).queue (k.procs i) (cur_is k.cur i)

-- The loop has enqueued the runnable processes below `n`.
record Boosting (k : Kernel) (q : ℕ → List ℕ) (n : ℕ) : Type 0 where
  repr : Repr k.qtable q
  setup : k.queue_is_setup ≡ true
  settled : (j : ℕ) → j < n → SettledAt k j
  unreached : (j : ℕ) → n ≤ j → j < nproc → UnreachedAt k j
  cur_in : (j : ℕ) → cur_is k.cur j ≡ true → j < nproc

module _ {k : Kernel} {q : ℕ → List ℕ} {n : ℕ} (b : Boosting k q n) (lt : n < nproc) where
  skip-Boosting : is_runnable (k.procs n).state ≡ false → Boosting k q (suc n)
  skip-Boosting r0 = record {
    repr = b.repr;
    setup = b.setup;
    settled = λ j j_lt. elim (Bool-cases (n == j)) [
      | inl e ↦ rw (← (==_iff n j).0 e) (ground (arith, b.unreached n))
      | inr e ↦ b.settled j (ground arith)
    ];
    unreached = λ j le j_lt. b.unreached j (omega arith) j_lt;
    cur_in = b.cur_in;
  }

  abbrev level : ℕ
  level = (enter (k.procs n)).0

  level_lt : level < 3
  level_lt = omega (arith, enter_bounds (k.procs n))

  abbrev result : Kernel
  result = record (set_proc k n (enter (k.procs n)).1) {
    qtable = append_to (tail_of level) level n k.qtable;
  }

  out : 3 ≤ (k.qtable n).queue
  out = ground (arith, b.unreached n)

  here : is_runnable (k.procs n).state ≡ true → SettledAt result n
  here r1 = record {
    queued =
        ground
          (arith, level_lt, append-queue b.repr level n level_lt lt out n, enter-state (k.procs n));
    placed =
        ground (
          arith,
          level_lt,
          append-queue b.repr level n level_lt lt out n,
          enter_bounds (k.procs n),
        );
    on_cpu = ground (arith, b.unreached n, enter-state (k.procs n));
    level = ground (arith, enter_bounds (k.procs n));
    spent = ground (arith, enter_bounds (k.procs n));
  }

  elsewhere :
      (j : ℕ)
      → (n == j) ≡ false
      → (append_to (tail_of level) level n k.qtable j).queue ≡ (k.qtable j).queue
  elsewhere j ne = ground (arith, append-queue b.repr level n level_lt lt out j)

  enqueue-Boosting :
      is_runnable (k.procs n).state ≡ true
      → Boosting (enqueue n k) (update q level (q level ++ n ∷ [])) (suc n)
  enqueue-Boosting r1 = rw enqueue_eq (record {
    repr = append_to-Repr b.repr level n level_lt lt out;
    setup = b.setup;
    settled = λ j j_lt. elim (Bool-cases (n == j)) [
      | inl e ↦ rw (← (==_iff n j).0 e) (here r1)
      | inr e ↦ rw (e, elsewhere j e) (b.settled j (ground arith))
    ];
    unreached = λ j le j_lt.
        let e : (n == j) ≡ false = ground arith in
        rw (e, elsewhere j e) (b.unreached j (omega arith) j_lt);
    cur_in = b.cur_in;
  })

step-Boosting :
    (k : Kernel) (n : ℕ)
    → n < nproc
    → (q : ℕ → List ℕ) × Boosting k q n
    → (q : ℕ → List ℕ) × Boosting
        (if is_runnable (k.procs n).state then enqueue n k else k)
        q
        (suc n)
step-Boosting k n lt (q, b) = elim (Bool-cases (is_runnable (k.procs n).state)) [
  | inl e ↦ rw e (_, enqueue-Boosting b lt e)
  | inr e ↦ rw e (q, skip-Boosting b lt e)
]

loop-Boosting :
    (n : ℕ) (k : Kernel)
    → n ≤ nproc
    → (q : ℕ → List ℕ) × Boosting k q 0
    → (q : ℕ → List ℕ) × Boosting (enqueue_runnable n k) q n
unfolding enqueue_runnable
loop-Boosting zero k le g = g
loop-Boosting (suc n) k le g =
    step-Boosting (enqueue_runnable n k) n le (loop-Boosting n k (omega arith) g)

-- The priority boost keeps the invariant.
pub boost-Good : (k : Kernel) → Good k → Good (boost k)
unfolding boost
boost-Good k (q, v) = elim (Bool-cases (ltb 60 k.since_boost)) [
  | inl e ↦ rw e (
      let (q', b) = loop-Boosting nproc _ (omega arith) (_, emptied) in
      (q', record { repr = b.repr; setup = b.setup; settled = b.settled; cur_in = b.cur_in }))
  | inr e ↦ rw e (q, v)
]
  where
    r : Repr (setup_queue k.qtable) (λ _. [])
    r = setup_queue-Repr k.qtable

    emptied : Boosting (record k { qtable = setup_queue k.qtable }) (λ _. []) 0
    emptied = record {
      repr = r;
      setup = v.setup;
      settled = λ j j_lt. absurd (omega arith);
      unreached = λ j le j_lt. record {
        out = ground (
          arith,
          r.member 0 j (omega arith),
          r.member 1 j (omega arith),
          r.member 2 j (omega arith),
        );
        on_cpu = (v.settled j j_lt).on_cpu;
        level = (v.settled j j_lt).level;
        spent = (v.settled j j_lt).spent;
      };
      cur_in = v.cur_in;
    }

enqueue_runnable-cur : (n : ℕ) (k : Kernel) → (enqueue_runnable n k).cur ≡ k.cur
unfolding enqueue_runnable
enqueue_runnable-cur zero k = refl
enqueue_runnable-cur (suc n) k =
    ground (arith, enqueue_runnable-cur n k, enqueue-cur n (enqueue_runnable n k))

pub boost-cur : (k : Kernel) → (boost k).cur ≡ k.cur
unfolding boost
boost-cur k =
    ground (arith, enqueue_runnable-cur nproc (record k { qtable = setup_queue k.qtable }))
