-- ===== src/Mlfq/Invariant/Defs.antt =====
-- The invariant of the scheduler.
use cs.Common.{ℕ, ◌≤◌, ◌<◌, ◌≡◌, Bool, true, false, List, ltb, ◌==◌}
use cs.Mlfq.Table.{nproc}
use cs.Mlfq.Table.Repr.{Repr}
use cs.Mlfq.Kernel.{Proc, ProcState, is_runnable, is_running, Kernel, cur_is}
use cs.Mlfq.Enqueue.Levels.{allotment}

-- What a process says of itself, where `tag` is the `queue` field of its table entry and `on` says
-- whether the CPU runs it.
pub record Settled (tag : ℕ) (p : Proc) (on : Bool) : Type 0 where
  pub queued : ltb tag 3 ≡ is_runnable p.state
  pub placed : is_runnable p.state ≡ true → tag ≡ p.queue
  pub on_cpu : is_running p.state ≡ on
  pub level : p.queue < 3
  pub spent : p.quanta ≤ allotment p.queue

abbrev pub SettledAt : Kernel → ℕ → Type 0
SettledAt k i = Settled (k.qtable i).queue (k.procs i) (cur_is k.cur i)

-- The queues `q` are those of the table; a process is in a queue, the one that its `queue` field
-- names, exactly if it is runnable; it is running exactly if the CPU runs it; and it has not used
-- more quanta than its queue allows.
pub record Inv (k : Kernel) (q : ℕ → List ℕ) : Type 0 where
  pub repr : Repr k.qtable q
  pub setup : k.queue_is_setup ≡ true
  pub settled : (i : ℕ) → i < nproc → SettledAt k i
  pub cur_in : (i : ℕ) → cur_is k.cur i ≡ true → i < nproc

-- The same, but for process `i`, which is runnable and in no queue yet.
pub record Pending (k : Kernel) (q : ℕ → List ℕ) (i : ℕ) : Type 0 where
  pub repr : Repr k.qtable q
  pub setup : k.queue_is_setup ≡ true
  pub settled : (j : ℕ) → j < nproc → (i == j) ≡ false → SettledAt k j
  pub cur_in : (j : ℕ) → cur_is k.cur j ≡ true → j < nproc
  pub bound : i < nproc
  pub ready : (k.procs i).state ≡ ProcState.runnable
  pub out : 3 ≤ (k.qtable i).queue
  pub idle : cur_is k.cur i ≡ false

abbrev pub Good : Kernel → Type 0
Good k = (q : ℕ → List ℕ) × Inv k q
