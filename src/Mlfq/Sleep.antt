-- ===== src/Mlfq/Sleep.antt =====
-- `yield`, `sleep`, `wakeup`, `kill` and `setkilled` of
-- XV6 Multilevel feedback queue/xv6-riscv/kernel/proc.c.
use cs.Common.{ℕ, zero, suc, ◌+◌, ◌-◌, Bool, true, false, ◌&&◌, not, ◌==◌, if◌then◌else◌}
use cs.Mlfq.Table.{nproc}
use cs.Mlfq.Kernel.{ProcState, is_sleeping, Chan, chan_eq, Kernel, set_proc, cur_is}
use cs.Mlfq.Enqueue.{enqueue, ensure_setup, make_runnable}
use cs.Mlfq.Dispatch.{switch_back}

-- `yield`, called by the running process `i`, up to the switch to the scheduler.
unfoldable pub yield : ℕ → Kernel → Kernel
yield i k =
    let k1 = ensure_setup (set_proc k i (record (k.procs i) { state = ProcState.runnable })) in
    let p = k1.procs i in
    let k2 = set_proc k1 i (record p { quanta = p.quanta + 1 }) in
    switch_back i (enqueue i (record k2 { since_boost = k2.since_boost + 1 }))

-- `sleep`, called by the running process `i`, up to the switch to the scheduler.
unfoldable pub sleep : ℕ → Chan → Kernel → Kernel
sleep i c k =
    switch_back i (set_proc k i (record (k.procs i) { chan = c; state = ProcState.sleeping }))

-- The rest of `sleep`, when the process runs again.
unfoldable pub sleep_resume : ℕ → Kernel → Kernel
sleep_resume i k = set_proc k i (record (k.procs i) { chan = Chan.null })

-- The loop of `wakeup`, over the first `n` processes.
unfoldable pub wakeup_below : ℕ → Chan → Kernel → Kernel
wakeup_below zero c k = k
wakeup_below (suc n) c k =
    let k' = wakeup_below n c k in
    let p = k'.procs n in
    if not (cur_is k'.cur n) && is_sleeping p.state && chan_eq p.chan c
    then make_runnable n k'
    else k'

unfoldable pub wakeup : Chan → Kernel → Kernel
wakeup c k = wakeup_below nproc c k

-- The loop of `kill`, with `rest` processes left to look at; `true` stands for a return of 0.
unfoldable pub kill_from : (rest : ℕ) → ℕ → Kernel → Bool × Kernel
kill_from zero pid k = (false, k)
kill_from (suc rest) pid k =
    let i = nproc - suc rest in
    let further = kill_from rest pid k in
    if (k.procs i).pid == pid
    then (let k' = set_proc k i (record (k.procs i) { killed = true }) in
        (true, if is_sleeping (k.procs i).state then make_runnable i k' else k'))
    else further

unfoldable pub kill : ℕ → Kernel → Bool × Kernel
kill pid k = kill_from nproc pid k

unfoldable pub set_killed : ℕ → Kernel → Kernel
set_killed i k = set_proc k i (record (k.procs i) { killed = true })
