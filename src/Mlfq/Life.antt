-- ===== src/Mlfq/Life.antt =====
-- The life of a process in XV6 Multilevel feedback queue/xv6-riscv/kernel/proc.c: `allocproc`,
-- `freeproc`, `userinit`, `fork`, `exit` and `wait`. Memory allocation succeeds or fails as a
-- Boolean argument says.
pub mod Reuse
use cs.Common.{
  ℕ, zero, suc, ◌+◌, ◌-◌, ◌%◌, ◌^◌, Bool, true, false, ◌&&◌, ◌||◌, not, Option, none, some, ◌==◌,
  if◌then◌else◌,
}
use cs.Common.Int.{ℤ, pos}
use cs.Mlfq.Table.{nproc}
use cs.Mlfq.Kernel.{
  Proc, ProcState, is_unused, is_zombie, is_running, Chan, Kernel, set_proc, cur_is,
}
use cs.Mlfq.Enqueue.{enqueue, ensure_setup, make_runnable}
use cs.Mlfq.Dispatch.{switch_back}
use cs.Mlfq.Sleep.{sleep, wakeup, yield}

-- `freeproc`: `quanta` and `queue` keep what they held.
unfoldable pub free_proc : ℕ → Kernel → Kernel
free_proc i k = set_proc k i (record (k.procs i) {
  pid = 0;
  parent = none;
  chan = Chan.null;
  killed = false;
  xstate = pos 0;
  state = ProcState.unused;
  nice = pos 0;
})

-- The loop of `allocproc`: the first unused process, with `rest` left to look at.
unfoldable pub find_unused : (rest : ℕ) → Kernel → Option ℕ
find_unused zero k = none
find_unused (suc rest) k =
    let i = nproc - suc rest in
    let further = find_unused rest k in if is_unused (k.procs i).state then some i else further

-- `allocproc`; `memory` says whether the trap frame and the page table are allocated.
unfoldable pub alloc_proc : (memory : Bool) → Kernel → Option ℕ × Kernel
unfolding find_unused free_proc
alloc_proc memory k = elim (find_unused nproc k) [
  | none ↦ (none, k)
  | some i ↦
      let k1 =
        record (set_proc k i (record (k.procs i) { pid = k.next_pid; state = ProcState.used })) {
          next_pid = (k.next_pid + 1) % 2 ^ 32;
        } in
      if memory then (some i, k1) else (none, free_proc i k1)
]

-- The end of `userinit` and of `fork`: the new process becomes runnable.
unfoldable pub start_proc : ℕ → Kernel → Kernel
start_proc i k =
    enqueue i (ensure_setup (set_proc k i (record (k.procs i) { state = ProcState.runnable })))

-- `userinit`, where the allocation succeeds.
unfoldable pub userinit : Kernel → Kernel
userinit k =
    let (found, k1) = alloc_proc true k in
    elim found [ none ↦ k1 | some i ↦ start_proc i (record k1 { initproc = i }) ]

-- `fork`, called by process `i`; `copied` says whether `uvmcopy` succeeds. `none` stands for -1.
unfoldable pub fork : ℕ → (memory copied : Bool) → Kernel → Option ℕ × Kernel
fork i memory copied k =
    let (found, k1) = alloc_proc memory k in
    elim found [
      | none ↦ (none, k1)
      | some j ↦
          if copied
          then (
            some (k1.procs j).pid,
            start_proc j (set_proc k1 j (record (k1.procs j) { parent = some i })),
          )
          else (none, free_proc j k1)
    ]

-- The loop of `reparent`, over the first `n` processes.
unfoldable pub reparent_below : ℕ → ℕ → Kernel → Kernel
reparent_below zero i k = k
reparent_below (suc n) i k =
    let k' = reparent_below n i k in
    if cur_is (k'.procs n).parent i
    then wakeup (Chan.proc_addr k'.initproc)
        (set_proc k' n (record (k'.procs n) { parent = some k'.initproc }))
    else k'

unfoldable pub reparent : ℕ → Kernel → Kernel
reparent i k = reparent_below nproc i k

-- The address of a process that may be missing.
abbrev pub chan_of : Option ℕ → Chan
chan_of none = Chan.null
chan_of (some i) = Chan.proc_addr i

-- `exit` after its first test, up to the switch to the scheduler.
unfoldable pub leave : ℕ → (status : ℤ) → Kernel → Kernel
leave i status k =
    let k1 = reparent i k in
    let k2 = wakeup (chan_of (k1.procs i).parent) k1 in
    switch_back i
      (set_proc k2 i (record (k2.procs i) { xstate = status; state = ProcState.zombie }))

-- `exit`, called by the running process `i`. `none` is the panic "init exiting".
unfoldable pub exit : ℕ → (status : ℤ) → Kernel → Option Kernel
exit i status k = if i == k.initproc then none else some (leave i status k)

-- The scan of `wait`, with `rest` processes left to look at: whether there are children, and the
-- first child that is a zombie.
unfoldable pub find_zombie : (rest : ℕ) → ℕ → Kernel → Bool × Option ℕ
find_zombie zero i k = (false, none)
find_zombie (suc rest) i k =
    let j = nproc - suc rest in
    let (kids, z) = find_zombie rest i k in
    if cur_is (k.procs j).parent i
    then (true, if is_zombie (k.procs j).state then some j else z)
    else (kids, z)

pub data Waited : Type 0 where
  reaped : (pid : ℕ) (xstate : ℤ) → Waited
  copy_failed : Waited
  no_children : Waited
  waiting : Waited

-- One round of the loop of `wait`, called by the running process `i`; `copied` says whether the
-- exit status reaches the caller's memory (`addr` is 0 or `copyout` succeeds).
unfoldable pub wait : ℕ → (copied : Bool) → Kernel → Waited × Kernel
wait i copied k =
    let (kids, z) = find_zombie nproc i k in
    elim z [
      | none ↦
          if not kids || (k.procs i).killed
          then (Waited.no_children, k)
          else (Waited.waiting, sleep i (Chan.proc_addr i) k)
      | some j ↦
          if copied
          then (Waited.reaped (k.procs j).pid (k.procs j).xstate, free_proc j k)
          else (Waited.copy_failed, k)
    ]
