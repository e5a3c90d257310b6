-- ===== src/Mlfq/Life/Reuse.antt =====
-- What a process inherits from the last user of its slot in the process table of
-- XV6 Multilevel feedback queue/xv6-riscv/kernel/proc.c.
use cs.Common.{ℕ, ◌+◌, ◌%◌, ◌^◌, ◌≤◌, ◌<◌, ◌≡◌, refl, true, some, arith, update_self, ap, ◌∙◌}
use cs.Common.Int.{pos}
use cs.Mlfq.Table.{nproc}
use cs.Mlfq.Kernel.{ProcState, Kernel, set_proc}
use cs.Mlfq.Enqueue.{enter}
use cs.Mlfq.Enqueue.Levels.{enter_used_up, enqueue_eq, ensure_setup_lem}
use cs.Mlfq.Life.{find_unused, alloc_proc, start_proc, fork, free_proc, find_zombie, wait}

start_proc_self :
    (j : ℕ) (k : Kernel)
    → k.queue_is_setup ≡ true
    → (start_proc j k).procs j ≡ (enter (record (k.procs j) { state = ProcState.runnable })).1
unfolding start_proc
start_proc_self j k h =
    rw (ensure_setup_lem (set_proc k j (record (k.procs j) { state = ProcState.runnable })) h) (
      rw enqueue_eq (
        update_self (set_proc k j (record (k.procs j) { state = ProcState.runnable })).procs j _
        ∙ ap (λ p. (enter p).1) (update_self k.procs j _)))

alloc_proc_found :
    (k : Kernel) (j : ℕ)
    → find_unused nproc k ≡ some j
    → alloc_proc true k ≡ (
      some j,
      record (set_proc k j (record (k.procs j) { pid = k.next_pid; state = ProcState.used })) {
        next_pid = (k.next_pid + 1) % 2 ^ 32;
      },
    )
unfolding alloc_proc
alloc_proc_found k j e = rw (e, alloc_proc)

-- The kernel as `fork` has filled slot `j`.
abbrev child : ℕ → ℕ → Kernel → Kernel
child i j k =
    let k1 =
      record (set_proc k j (record (k.procs j) { pid = k.next_pid; state = ProcState.used })) {
        next_pid = (k.next_pid + 1) % 2 ^ 32;
      } in
    set_proc k1 j (record (k1.procs j) { parent = some i })

fork_started :
    (i j : ℕ) (k : Kernel)
    → find_unused nproc k ≡ some j
    → (fork i true true k).1 ≡ start_proc j (child i j k)
unfolding fork
fork_started i j k e = ground (arith, alloc_proc_found k j e)

wait_frees :
    (i j : ℕ) (k : Kernel)
    → find_zombie nproc i k ≡ (true, some j)
    → (wait i true k).1 ≡ free_proc j k
unfolding wait
wait_frees i j k e = rw (e, wait) refl

started_low :
    (i j : ℕ) (k : Kernel)
    → k.queue_is_setup ≡ true
    → find_unused nproc k ≡ some j
    → (k.procs j).nice ≡ pos 0
    → (k.procs j).queue ≤ 1
    → 10 < (k.procs j).quanta
    → (((fork i true true k).1.procs j).queue ≡ 2) × (((fork i true true k).1.procs j).quanta ≡ 0)
started_low i j k setup found nice queue quanta = rw (fork_started i j k found) (
    rw (start_proc_self j (child i j k) setup) (
      enter_used_up (record ((child i j k).procs j) { state = ProcState.runnable }) (ground arith)
        (ground arith) (ground arith)))

-- The `wait` of a process whose first zombie child `j` died in queue 0 or 1 with more than 10 quanta used
-- frees the slot of that child, and if the next `fork` finds that slot first, the new process starts in
-- the lowest queue: `freeproc` and `allocproc` leave `quanta` and `queue` alone.
pub fork_reused_slot :
    (i j : ℕ) (k : Kernel)
    → k.queue_is_setup ≡ true
    → find_zombie nproc i k ≡ (true, some j)
    → find_unused nproc (wait i true k).1 ≡ some j
    → (k.procs j).queue ≤ 1
    → 10 < (k.procs j).quanta
    → (((fork i true true (wait i true k).1).1.procs j).queue ≡ 2)
      × (((fork i true true (wait i true k).1).1.procs j).quanta ≡ 0)
unfolding free_proc
fork_reused_slot i j k setup zombie found queue quanta =
    let freed = wait_frees i j k zombie in
    rw (freed) (
      started_low i j (free_proc j k) (ground (arith, setup)) (rw freed at found) (ground arith)
        (ground (arith, queue)) (ground (arith, quanta)))
