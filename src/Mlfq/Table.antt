-- ===== src/Mlfq/Table.antt =====
-- `struct qentry` and `qtable` of XV6 Multilevel feedback queue/xv6-riscv/kernel/proc.c: three
-- doubly linked lists threaded through one array, with a head and a tail entry for each list.
pub mod Links
pub mod Repr
use cs.Common.{ℕ, zero, suc, ◌+◌, ◌-◌, ◌%◌, ◌^◌, ◌<◌, ◌≡◌, ◌≢◌, arith, update}

-- `struct qentry`; the fields are uint64.
pub record Qentry : Type 0 where
  pub queue : ℕ
  pub prev : ℕ
  pub next : ℕ

-- `qtable`, by index. The code reads and writes entries below 70 only.
abbrev pub Qtable : Type 0
Qtable = ℕ → Qentry

abbrev pub nproc : ℕ
nproc = 64

-- `EMPTY`: -1 stored in a uint64.
abbrev pub empty : ℕ
empty = 2 ^ 64 - 1

abbrev pub head_q0 : ℕ
head_q0 = 64

abbrev pub tail_q0 : ℕ
tail_q0 = 65

abbrev pub head_q1 : ℕ
head_q1 = 66

abbrev pub tail_q1 : ℕ
tail_q1 = 67

abbrev pub head_q2 : ℕ
head_q2 = 68

abbrev pub tail_q2 : ℕ
tail_q2 = 69

-- Assignments to one field of one entry.
abbrev set_queue : Qtable → ℕ → ℕ → Qtable
set_queue t i v = update t i (record (t i) { queue = v })

abbrev pub set_prev : Qtable → ℕ → ℕ → Qtable
set_prev t i v = update t i (record (t i) { prev = v })

abbrev pub set_next : Qtable → ℕ → ℕ → Qtable
set_next t i v = update t i (record (t i) { next = v })

-- `int oldTail = ...`: a uint64 stored in an int keeps its low 32 bits.
abbrev to_int : ℕ → ℕ
to_int x = x % 2 ^ 32

-- The loop of `setupQueue`, over the first `n` entries.
unfoldable pub clear_queues : ℕ → Qtable → Qtable
clear_queues zero t = t
clear_queues (suc n) t = set_queue (clear_queues n t) n empty

-- The head and the tail of one list, set to point to one another.
abbrev reset_ends : ℕ → ℕ → ℕ → Qtable → Qtable
reset_ends level head tail t =
    let t1 = set_queue t head level in
    let t2 = set_next t1 head tail in let t3 = set_queue t2 tail level in set_prev t3 tail head

-- `setupQueue`
unfoldable pub setup_queue : Qtable → Qtable
setup_queue t =
    let t0 = reset_ends 0 head_q0 tail_q0 (clear_queues nproc t) in
    let t1 = reset_ends 1 head_q1 tail_q1 t0 in reset_ends 2 head_q2 tail_q2 t1

-- What each of the three last branches of `enqueue` does to `qtable`.
pub append_to : (tail level pindex : ℕ) → Qtable → Qtable
append_to tail level pindex t =
    let t1 = set_queue t pindex level in
    let old_tail = to_int (t1 tail).prev in
    let t2 = set_prev t1 pindex old_tail in
    let t3 = set_next t2 pindex tail in
    let t4 = set_next t3 old_tail pindex in set_prev t4 tail pindex

-- `removeFromQueue`
pub remove_from_queue : ℕ → Qtable → Qtable
remove_from_queue pindex t =
    let t1 = set_queue t pindex empty in
    let old_prev = to_int (t1 pindex).prev in
    let old_next = to_int (t1 pindex).next in
    let t2 = set_next t1 old_prev old_next in set_prev t2 old_next old_prev

-- The entry of a process after `append_to` and after `remove_from_queue`, whatever the table holds.
pub append_to-queue_self :
    (tail level p : ℕ) (t : Qtable) → (append_to tail level p t p).queue ≡ level
unfolding append_to
append_to-queue_self tail level p t = ground arith

-- An entry that is inserted while it is already the last of its list becomes its own successor.
pub append_to-self_loop :
    (tail level p : ℕ) (t : Qtable)
    → p < 2 ^ 32
    → p ≢ tail
    → (t tail).prev ≡ p
    → ((append_to tail level p t p).next ≡ p) × ((append_to tail level p t p).prev ≡ p)
unfolding append_to
append_to-self_loop tail level p t small ne last = ground arith

pub append_to-last : (tail level p : ℕ) (t : Qtable) → (append_to tail level p t tail).prev ≡ p
unfolding append_to
append_to-last tail level p t = ground arith
