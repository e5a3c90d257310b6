-- ===== src/Journal/Ring.antt =====
-- `circ_buff_t`, `enqueue` and `dequeue` of Metadata journaling service/journal.c.
pub mod Fifo
use cs.Common.{ℕ, ◌+◌, ◌-◌, ◌%◌, ◌^◌, Option, none, some, leb, if◌then◌else◌, update}

-- `struct write_request`; the three `char *` are addresses.
pub record Request : Type 0 where
  pub bitmap : ℕ
  pub inode : ℕ
  pub contents : ℕ
  pub bitmap_idx : ℕ
  pub inode_idx : ℕ
  pub contents_idx : ℕ

abbrev pub buffer_size : ℕ
buffer_size = 8

-- `circ_buff_t`. A slot holds a pointer to a request or a null pointer; `size` is the bit pattern of
-- an `int`.
pub record Ring : Type 0 where
  pub buffer : ℕ → Option Request
  pub head : ℕ
  pub tail : ℕ
  pub size : ℕ

-- The slot behind `i`, as both functions compute it.
abbrev pub advance : ℕ → ℕ
advance i = if leb buffer_size (i + 1) then 0 else i + 1

unfoldable pub enqueue : Ring → Request → Ring
enqueue r wr = record {
  buffer = update r.buffer r.head (some wr);
  head = advance r.head;
  tail = r.tail;
  size = (r.size + 1) % 2 ^ 32;
}

unfoldable pub dequeue : Ring → Option Request × Ring
dequeue r =
    (r.buffer r.tail, record r { tail = advance r.tail; size = (r.size + 2 ^ 32 - 1) % 2 ^ 32 })

-- The buffers are global variables, hence zero at the start.
abbrev pub zero_ring : Ring
zero_ring = record { buffer = λ _. none; head = 0; tail = 0; size = 0 }
