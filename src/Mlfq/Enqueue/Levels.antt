-- ===== src/Mlfq/Enqueue/Levels.antt =====
-- How `enqueue` chooses a queue.
use cs.Common.{ℕ, ◌+◌, ◌≤◌, ◌<◌, ◌≡◌, true, false, ◌==◌, ltb, if◌then◌else◌, arith, update_self}
use cs.Common.Int.{pos, negsuc}
use cs.Mlfq.Kernel.{Proc, Kernel, set_proc}
use cs.Mlfq.Table.{append_to, setup_queue, append_to-queue_self, append_to-last}
use cs.Mlfq.Table.Repr.{tail_of}
use cs.Mlfq.Enqueue.{nice_above, enter, enqueue, ensure_setup, make_runnable}

-- The quanta that a queue lets a process keep.
abbrev pub allotment : ℕ → ℕ
allotment level = if level == 0 then 15 else if level == 1 then 10 else 1

-- Every process enters one of the three queues, with no more quanta than that queue allows.
pub enter_bounds :
    (p : Proc)
    → let (level, p') = enter p in (level < 3) × (p'.queue ≡ level) × (p'.quanta ≤ allotment level)
unfolding enter
enter_bounds p = ground arith

-- A process with nice above 10 that has used up the allotment of queue 0 leaves for queue 1, and is
-- back in queue 0 the next time that it is enqueued, whatever it has used by then.
demotion_lasts_once :
    (p : Proc) (used : ℕ)
    → nice_above p (pos 10) ≡ true
    → p.queue ≡ 0
    → 15 < p.quanta
    → let (first, p1) = enter p in
      let (second, p2) = enter (record p1 { quanta = used }) in
      (first ≡ 1) × (second ≡ 0) × (p2.quanta ≡ 0)
unfolding enter
demotion_lasts_once p used n q h = ground arith

-- The queue by the nice value alone.
abbrev pub base : Proc → ℕ
base p = if nice_above p (pos 10) then 0 else if nice_above p (negsuc 9) then 1 else 2

-- The rule of `enqueue`: a process of a lower queue than its nice value gives moves up and starts
-- afresh; else one that has used more than the allotment moves down one queue, but not below
-- queue 2, and starts afresh; else it goes to the queue of its nice value and keeps its quanta.
pub enter_rule :
    (p : Proc)
    → p.queue < 3
    → enter p ≡ (
        if ltb (base p) p.queue
        then (base p, record p { quanta = 0; queue = base p })
        else if ltb (allotment (base p)) p.quanta
        then (
          if ltb (base p) 2 then base p + 1 else 2,
          record p { quanta = 0; queue = if ltb (base p) 2 then base p + 1 else 2 },
        )
        else (base p, record p { queue = base p }))
unfolding enter
enter_rule p h = ground arith

pub enter-state : (p : Proc) → (enter p).1.state ≡ p.state
unfolding enter
enter-state p = ground arith

-- `enqueue` gives the process anew and appends it to the list of its level.
pub enqueue_eq :
    (i : ℕ) (k : Kernel)
    → let (level, p) = enter (k.procs i) in
      enqueue i k ≡ record (set_proc k i p) { qtable = append_to (tail_of level) level i k.qtable }
unfolding enqueue
enqueue_eq i k = ground (arith, enter_bounds (k.procs i))

pub ensure_setup_lem : (k : Kernel) → k.queue_is_setup ≡ true → ensure_setup k ≡ k
unfolding ensure_setup
ensure_setup_lem k h = ground arith

pub make_runnable-cur : (i : ℕ) (k : Kernel) → (make_runnable i k).cur ≡ k.cur
unfolding make_runnable ensure_setup
make_runnable-cur i k = rw enqueue_eq (ground arith)

pub enqueue-cur : (i : ℕ) (k : Kernel) → (enqueue i k).cur ≡ k.cur
enqueue-cur i k = rw enqueue_eq

pub ensure_setup_first :
    (k : Kernel)
    → k.queue_is_setup ≡ false
    → ensure_setup k ≡ record k { qtable = setup_queue k.qtable; queue_is_setup = true }
unfolding ensure_setup
ensure_setup_first k h = ground arith

pub enter_used_up :
    (p : Proc)
    → p.nice ≡ pos 0
    → p.queue ≤ 1
    → 10 < p.quanta
    → ((enter p).1.queue ≡ 2) × ((enter p).1.quanta ≡ 0)
unfolding enter
enter_used_up p n q u = ground arith

pub enqueue_self :
    (i : ℕ) (k : Kernel)
    → (((enqueue i k).qtable i).queue ≡ (enter (k.procs i)).0)
      × ((enqueue i k).procs i ≡ (enter (k.procs i)).1)
      × (((enqueue i k).qtable (tail_of (enter (k.procs i)).0)).prev ≡ i)
enqueue_self i k = (
  rw enqueue_eq
      (append_to-queue_self (tail_of (enter (k.procs i)).0) (enter (k.procs i)).0 i k.qtable),
  rw enqueue_eq (update_self k.procs i _),
  rw enqueue_eq (append_to-last (tail_of (enter (k.procs i)).0) (enter (k.procs i)).0 i k.qtable),
)
