-- ===== src/Mlfq/Enqueue.antt =====
-- `enqueue` of XV6 Multilevel feedback queue/xv6-riscv/kernel/proc.c: which of the three queues a
-- process goes to, and the insertion there.
pub mod Levels
use cs.Common.{ℕ, ◌+◌, Bool, ◌&&◌, ◌==◌, ltb, if◌then◌else◌, not}
use cs.Common.Int.{ℤ, pos, negsuc, ltb_ℤ}
use cs.Mlfq.Table.{setup_queue, append_to, tail_q0, tail_q1, tail_q2}
use cs.Mlfq.Kernel.{Proc, ProcState, Kernel, set_proc}

-- `p->nice > n`
abbrev pub nice_above : Proc → ℤ → Bool
nice_above p n = ltb_ℤ n p.nice

-- The first tests of `enqueue`: the queue by the nice value, and a reset of the quanta of a process
-- that moves up.
by_nice : Proc → ℕ × Proc
by_nice p =
    if nice_above p (pos 10)
    then (0, if ltb 0 p.queue then record p { quanta = 0 } else p)
    else if not (nice_above p (pos 10)) && nice_above p (negsuc 9)
    then (1, if ltb 1 p.queue then record p { quanta = 0 } else p)
    else (2, p)

-- The tests of the quanta, and the last correction of the queue.
by_quanta : ℕ × Proc → ℕ × Proc
by_quanta (level, p) =
    let (level', p') =
      if ltb 15 p.quanta && (level == 0)
      then (level + 1, record p { quanta = 0 })
      else if ltb 10 p.quanta && (level == 1)
      then (level + 1, record p { quanta = 0 })
      else if ltb 1 p.quanta && (level == 2)
      then (level, record p { quanta = 0 })
      else (level, p) in
    (if ltb 2 level' then 2 else level', p')

-- What `enqueue` makes of the process itself: its queue and its quanta.
unfoldable pub enter : Proc → ℕ × Proc
unfolding by_nice by_quanta
enter p = let (level, p') = by_quanta (by_nice p) in (level, record p' { queue = level })

-- `enqueue(&proc[i])`
unfoldable pub enqueue : ℕ → Kernel → Kernel
enqueue i k =
    let (level, p) = enter (k.procs i) in
    let k' = set_proc k i p in
    if level == 0
    then record k' { qtable = append_to tail_q0 0 i k'.qtable }
    else if level == 1
    then record k' { qtable = append_to tail_q1 1 i k'.qtable }
    else record k' { qtable = append_to tail_q2 2 i k'.qtable }

-- `if(isQueueSetup == 0){ setupQueue(); isQueueSetup = 1; }`
unfoldable pub ensure_setup : Kernel → Kernel
ensure_setup k =
    if k.queue_is_setup
    then k
    else record k { qtable = setup_queue k.qtable; queue_is_setup = Bool.true }

-- `p->state = RUNNABLE` and the insertion that follows it in `wakeup` and `kill`.
unfoldable pub make_runnable : ℕ → Kernel → Kernel
make_runnable i k =
    let k' = set_proc k i (record (k.procs i) { state = ProcState.runnable }) in
    enqueue i (ensure_setup k')
