-- ===== src/RoundRobin/Life.antt =====
-- The life of a process in XV6 Scheduler/xv6-riscv/kernel/proc.c: `allocproc`, `freeproc`, `userinit`,
-- `fork`, `exit`, `wait`, `sleep`, `wakeup` and `kill`. Whether memory can be had, is copied or is
-- mapped are Boolean arguments.
use cs.Common.{
  ℕ, zero, suc, ◌+◌, ◌-◌, ◌%◌, ◌^◌, Bool, true, false, ◌&&◌, ◌||◌, not, Option, none, some, ◌==◌,
  if◌then◌else◌,
}
use cs.Common.Int.{ℤ, pos}
use cs.Mlfq.Table.{nproc}
use cs.Mlfq.Kernel.{ProcState, is_unused, is_zombie, is_sleeping, Chan, chan_eq, cur_is}
use cs.RoundRobin.{Task, Scheduler, set_task}

unfoldable pub free_proc : ℕ → Scheduler → Scheduler
free_proc i k = set_task k i (record (k.procs i) {
  pid = 0;
  parent = none;
  chan = Chan.null;
  killed = false;
  xstate = pos 0;
  state = ProcState.unused;
  nice = pos 0;
})

-- The loop of `allocproc`: the first unused process, with `rest` left to look at.
unfoldable pub find_unused : (rest : ℕ) → Scheduler → Option ℕ
find_unused zero k = none
find_unused (suc rest) k =
    let i = nproc - suc rest in
    let further = find_unused rest k in if is_unused (k.procs i).state then some i else further

-- `allocproc` and `allocpid` in it; `memory` says whether the trap frame and the page table are
-- allocated.
unfoldable pub alloc_at : (memory : Bool) → Option ℕ → Scheduler → Option ℕ × Scheduler
alloc_at memory none k = (none, k)
alloc_at memory (some i) k =
    let k1 =
      record (set_task k i (record (k.procs i) { pid = k.next_pid; state = ProcState.used })) {
        next_pid = (k.next_pid + 1) % 2 ^ 32;
      } in
    if memory then (some i, k1) else (none, free_proc i k1)

unfoldable pub alloc_proc : (memory : Bool) → Scheduler → Option ℕ × Scheduler
alloc_proc memory k = alloc_at memory (find_unused nproc k) k

abbrev pub set_state : ℕ → ProcState → Scheduler → Scheduler
set_state i st k = set_task k i (record (k.procs i) { state = st })

-- `userinit`, where the allocation gives process `i`.
abbrev pub init_at : Option ℕ × Scheduler → Scheduler
init_at (none, k) = k
init_at (some i, k) = set_state i ProcState.runnable (record k { initproc = i })

unfoldable pub userinit : Scheduler → Scheduler
userinit k = init_at (alloc_proc true k)

-- `fork` of process `i`, when `allocproc` has given its result; `copied` says whether `uvmcopy`
-- succeeds. `none` stands for -1.
unfoldable pub fork_at : ℕ → (copied : Bool) → Option ℕ × Scheduler → Option ℕ × Scheduler
fork_at i copied (none, k) = (none, k)
fork_at i copied (some j, k) =
    if copied
    then (
      some (k.procs j).pid,
      set_task k j (record (k.procs j) { parent = some i; state = ProcState.runnable }),
    )
    else (none, free_proc j k)

unfoldable pub fork : ℕ → (memory copied : Bool) → Scheduler → Option ℕ × Scheduler
fork i memory copied k = fork_at i copied (alloc_proc memory k)

-- The loop of `wakeup`, over the first `n` processes.
unfoldable pub wakeup_below : ℕ → Chan → Scheduler → Scheduler
wakeup_below zero c k = k
wakeup_below (suc n) c k =
    let k' = wakeup_below n c k in
    let p = k'.procs n in
    if not (cur_is k'.cur n) && is_sleeping p.state && chan_eq p.chan c
    then set_state n ProcState.runnable k'
    else k'

abbrev pub wakeup : Chan → Scheduler → Scheduler
wakeup c k = wakeup_below nproc c k

-- `sleep`, called by the running process `i`, with `c->proc = 0` behind the switch.
unfoldable pub sleep : ℕ → Chan → Scheduler → Scheduler
sleep i c k = record (set_task k i (record (k.procs i) { chan = c; state = ProcState.sleeping })) {
  cur = none;
}

-- The rest of `sleep`, when the process runs again.
unfoldable pub sleep_resume : ℕ → Scheduler → Scheduler
sleep_resume i k = set_task k i (record (k.procs i) { chan = Chan.null })

-- What `kill` does to the process that it finds.
abbrev pub killed_task : Task → Task
killed_task p = record p {
  killed = true;
  state = (if is_sleeping p.state then ProcState.runnable else p.state);
}

-- The loop of `kill`, with `rest` processes left to look at; `true` stands for a return of 0.
unfoldable pub kill_from : (rest : ℕ) → (pid : ℕ) → Scheduler → Bool × Scheduler
kill_from zero pid k = (false, k)
kill_from (suc rest) pid k =
    let i = nproc - suc rest in
    let further = kill_from rest pid k in
    if (k.procs i).pid == pid then (true, set_task k i (killed_task (k.procs i))) else further

unfoldable pub kill : (pid : ℕ) → Scheduler → Bool × Scheduler
kill pid k = kill_from nproc pid k

-- The loop of `reparent`, over the first `n` processes.
unfoldable pub reparent_below : ℕ → ℕ → Scheduler → Scheduler
reparent_below zero i k = k
reparent_below (suc n) i k =
    let k' = reparent_below n i k in
    if cur_is (k'.procs n).parent i
    then wakeup (Chan.proc_addr k'.initproc)
        (set_task k' n (record (k'.procs n) { parent = some k'.initproc }))
    else k'

abbrev pub reparent : ℕ → Scheduler → Scheduler
reparent i k = reparent_below nproc i k

-- The address of a process that may be missing.
abbrev pub chan_of : Option ℕ → Chan
chan_of none = Chan.null
chan_of (some i) = Chan.proc_addr i

-- `exit` behind the closing of files, up to the switch to the scheduler and `c->proc = 0`.
unfoldable pub leave : ℕ → (status : ℤ) → Scheduler → Scheduler
leave i status k =
    let k1 = reparent i k in
    let k2 = wakeup (chan_of (k1.procs i).parent) k1 in
    record (set_task k2 i (record (k2.procs i) { xstate = status; state = ProcState.zombie })) {
      cur = none;
    }

-- `exit`, called by the running process `i`; `none` is the panic "init exiting".
unfoldable pub exit : ℕ → (status : ℤ) → Scheduler → Option Scheduler
exit i status k = if i == k.initproc then none else some (leave i status k)

-- The scan of `wait`, with `rest` processes left to look at: whether there are children, and the
-- first child that is a zombie.
unfoldable pub find_zombie : (rest : ℕ) → ℕ → Scheduler → Bool × Option ℕ
find_zombie zero i k = (false, none)
find_zombie (suc rest) i k =
    let j = nproc - suc rest in
    let further = find_zombie rest i k in
    if cur_is (k.procs j).parent i
    then (true, if is_zombie (k.procs j).state then some j else further.1)
    else further

pub data Waited : Type 0 where
  reaped : (pid : ℕ) (xstate : ℤ) → Waited
  copy_failed : Waited
  no_children : Waited
  waiting : Waited

-- One round of the loop of `wait` behind the scan; `copied` says whether the exit status reaches the
-- caller's memory (`addr` is 0 or `copyout` succeeds).
abbrev pub wait_at : ℕ → (copied : Bool) → Bool × Option ℕ → Scheduler → Waited × Scheduler
wait_at i copied (kids, none) k =
    if not kids || (k.procs i).killed
    then (Waited.no_children, k)
    else (Waited.waiting, sleep i (Chan.proc_addr i) k)
wait_at i copied (kids, some j) k =
    if copied
    then (Waited.reaped (k.procs j).pid (k.procs j).xstate, free_proc j k)
    else (Waited.copy_failed, k)

unfoldable pub wait : ℕ → (copied : Bool) → Scheduler → Waited × Scheduler
wait i copied k = wait_at i copied (find_zombie nproc i k) k
