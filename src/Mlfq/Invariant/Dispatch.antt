-- ===== src/Mlfq/Invariant/Dispatch.antt =====
-- `dequeue` and the priority boost keep the invariant, and what they choose.
use cs.Common.{
  subst, sym, Option-cases, ℕ, ◌≤◌, ◌<◌, ◌≡◌, refl, ◌≢◌, true, not, List, [], ◌∷◌, ◌++◌, Option,
  none, some, ◌==◌, update, if◌then◌else◌, arith, Bool-cases, inl, inr, has,
}
use cs.Mlfq.Table.{nproc, Qtable, remove_from_queue}
use cs.Mlfq.Table.Links.{Links, erase}
use cs.Mlfq.Table.Repr.{
  Repr, remove_from_queue-Repr, remove-queue, head_of, tail_of, next_of, prev_of,
}
use cs.Mlfq.Kernel.{ProcState, Kernel, set_proc}
use cs.Mlfq.Dispatch.{first_process, dispatch}
use cs.Mlfq.Invariant.Defs.{SettledAt, Inv, Good}

-- The first process of the highest list that is not empty.
abbrev first_of : List ℕ → Option ℕ → Option ℕ
first_of [] other = other
first_of (x ∷ xs) other = some x

abbrev pub highest : (ℕ → List ℕ) → Option ℕ
highest q = first_of (q 0) (first_of (q 1) (first_of (q 2) none))

module _ {t : Qtable} {q : ℕ → List ℕ} (r : Repr t q) where
  head-link :
      (k : ℕ) (xs : List ℕ)
      → k < 3
      → q k ≡ xs
      → Links (next_of t) (prev_of t) (head_of k) (xs ++ tail_of k ∷ [])
  head-link k xs lt e = rw e at (r.links k lt)

  first_bound : (k x : ℕ) (xs : List ℕ) → k < 3 → q k ≡ x ∷ xs → (x < nproc) × ((t x).queue ≡ k)
  first_bound k x xs lt e = ground (arith, r.member k x lt, e)

  -- What the head entry of a list leads to.
  head-next :
      (k : ℕ) (xs : List ℕ) (other : Option ℕ)
      → k < 3
      → q k ≡ xs
      → (if not ((t (head_of k)).next == tail_of k) then some (t (head_of k)).next else other)
        ≡ first_of xs other
  head-next k [] other lt e = ground (arith, head-link k [] lt e)
  head-next k (x ∷ xs) other lt e =
      ground (arith, head-link k (x ∷ xs) lt e, first_bound k x xs lt e)

  -- `dequeue` chooses the first process of the highest queue that is not empty.
  pub first_process-highest : first_process t ≡ highest q
  unfolding first_process
  first_process-highest = rw (
    head-next 0 (q 0) _ (omega arith) refl,
    head-next 1 (q 1) _ (omega arith) refl,
    head-next 2 (q 2) _ (omega arith) refl,
  )

  highest_in_cases :
      (a b c : List ℕ)
      → q 0 ≡ a
      → q 1 ≡ b
      → q 2 ≡ c
      → (i : ℕ) → first_of a (first_of b (first_of c none)) ≡ some i
      → (i < nproc) × ((t i).queue < 3)
  highest_in_cases (x ∷ a) b c ea eb ec i h = ground (arith, first_bound 0 x a (omega arith) ea)
  highest_in_cases [] (x ∷ b) c ea eb ec i h = ground (arith, first_bound 1 x b (omega arith) eb)
  highest_in_cases [] [] (x ∷ c) ea eb ec i h = ground (arith, first_bound 2 x c (omega arith) ec)
  highest_in_cases [] [] [] ea eb ec i h = cc

  pub highest_in : (i : ℕ) → highest q ≡ some i → (i < nproc) × ((t i).queue < 3)
  highest_in i h = highest_in_cases (q 0) (q 1) (q 2) refl refl refl i h

module _ {k : Kernel} {q : ℕ → List ℕ} (v : Inv k q) (idle : k.cur ≡ none) where
  -- With no process in the queues, `dequeue` does nothing.
  pub dispatch-none : highest q ≡ none → dispatch k ≡ k
  unfolding dispatch
  dispatch-none h = rw (first_process-highest v.repr, h, dispatch)

  module _ (i : ℕ) (h : highest q ≡ some i) where
    abbrev level : ℕ
    level = (k.qtable i).queue

    ran : Kernel
    ran = record (set_proc k i (record (k.procs i) { state = ProcState.running })) {
      qtable = remove_from_queue i k.qtable;
      cur = some i;
    }

    ran_lem : dispatch k ≡ ran
    unfolding dispatch ran
    ran_lem = rw (first_process-highest v.repr, h, dispatch)

    ran-settled : (j : ℕ) → j < nproc → SettledAt ran j
    unfolding ran
    ran-settled j lt = elim (Bool-cases (i == j)) [
      | inl e ↦ rw e (
          ground (
            arith,
            v.settled j lt,
            highest_in v.repr i h,
            remove-queue v.repr level i (highest_in v.repr i h).1 (highest_in v.repr i h).0 refl j,
          ))
      | inr e ↦ rw e (
          ground (
            arith,
            v.settled j lt,
            highest_in v.repr i h,
            remove-queue v.repr level i (highest_in v.repr i h).1 (highest_in v.repr i h).0 refl j,
          ))
    ]

    ran-Inv : Inv ran (update q level (erase i (q level)))
    unfolding ran
    ran-Inv = record {
      repr =
          remove_from_queue-Repr v.repr level i (highest_in v.repr i h).1 (highest_in v.repr i h).0
            refl;
      setup = v.setup;
      settled = ran-settled;
      cur_in = λ j e. ground (arith, highest_in v.repr i h);
    }

    placed : (k.procs i).queue ≡ level
    placed = ground (arith, v.settled i, highest_in v.repr i h)

    -- Otherwise the first process of the highest queue that is not empty, which was runnable, leaves
    -- that queue and runs.
    pub dispatch-some :
        ((k.procs i).state ≡ ProcState.runnable)
        × ((dispatch k).cur ≡ some i)
        × Inv (dispatch k) (update q (k.procs i).queue (erase i (q (k.procs i).queue)))
    unfolding ran
    dispatch-some = (
      ground (arith, v.settled i, highest_in v.repr i h),
      rw ran_lem,
      rw (placed, ran_lem) ran-Inv,
    )

module _ {t : Qtable} {q : ℕ → List ℕ} (r : Repr t q) (i level : ℕ) where
  not-has-nil : (xs : List ℕ) → q level ≡ xs → has i (q level) ≡ true → xs ≢ []
  not-has-nil xs e h empty = ground arith

  highest_cases :
      (a b c : List ℕ)
      → q 0 ≡ a
      → q 1 ≡ b
      → q 2 ≡ c
      → level < 3
      → has i (q level) ≡ true
      → (j : ℕ) × (first_of a (first_of b (first_of c none)) ≡ some j) × ((t j).queue ≤ level)
  highest_cases (x ∷ a) b c ea eb ec lt h =
      (x, refl, ground (arith, first_bound r 0 x a (omega arith) ea))
  highest_cases [] (x ∷ b) c ea eb ec lt h =
      (x, refl, ground (arith, first_bound r 1 x b (omega arith) eb, not-has-nil []))
  highest_cases [] [] (x ∷ c) ea eb ec lt h =
      (x, refl, ground (arith, first_bound r 2 x c (omega arith) ec, not-has-nil []))
  highest_cases [] [] [] ea eb ec lt h = ground (arith, not-has-nil [])

-- While any process is runnable the CPU gets one, and from a queue at least as high as that of every
-- runnable process.
pub dispatch_priority :
    {k : Kernel} {q : ℕ → List ℕ}
    → Inv k q
    → k.cur ≡ none
    → (i : ℕ) → i < nproc
    → (k.procs i).state ≡ ProcState.runnable
    → (j : ℕ) × ((dispatch k).cur ≡ some j)
      × ((k.procs j).state ≡ ProcState.runnable)
      × ((k.procs j).queue ≤ (k.procs i).queue)
dispatch_priority {k} {q} v idle i lt ready =
    let (j, first, low) = found in
    (
      j,
      (dispatch-some v idle j first).1,
      (dispatch-some v idle j first).0,
      ground (arith, placed v idle j first),
    )
  where
    level_i : (k.qtable i).queue ≡ (k.procs i).queue
    level_i = ground (arith, v.settled i lt)

    found : (j : ℕ) × (highest q ≡ some j) × ((k.qtable j).queue ≤ (k.procs i).queue)
    found =
        highest_cases v.repr i (k.procs i).queue (q 0) (q 1) (q 2) refl refl refl
          (ground (arith, v.settled i lt))
          (ground (arith, v.repr.member (k.procs i).queue i, level_i, v.settled i lt))

pub dispatch-Good : (k : Kernel) → k.cur ≡ none → Good k → Good (dispatch k)
dispatch-Good k idle (q, v) = elim (Option-cases (highest q)) [
  | inl e ↦ subst Good (sym (dispatch-none v idle e)) (q, v)
  | inr (i, e) ↦ (_, (dispatch-some v idle i e).2)
]
