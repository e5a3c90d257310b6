-- ===== src/Log.antt =====
-- XV6 Multilevel feedback queue/xv6-riscv/kernel/log.c: the log of the file system, which the copy in
-- XV6 Scheduler repeats. The state holds what survives a crash (`disk`) apart from what does not.
-- A block's contents are one number. `view b` is what `bread` returns for block `b`: the buffer if it
-- is cached, else the disk. The header block is kept in its decoded form, as the list of the `n`
-- block numbers that it names.
pub mod Writes
pub mod Crash
pub mod Commit
pub mod Atomic
pub mod Space
pub mod Calls
mod Tests
use cs.Common.{
  ℕ, zero, suc, ◌+◌, ◌-◌, ◌*◌, Bool, true, false, ◌||◌, Option, none, some, List, [], ◌∷◌, ◌++◌,
  ◌==◌, ltb, leb, if◌then◌else◌, update, length,
}

abbrev pub max_op_blocks : ℕ
max_op_blocks = 10

abbrev pub log_capacity : ℕ
log_capacity = max_op_blocks * 3

-- One `bwrite`: of the header block, or of another.
pub data Write : Type 0 where
  head_write : List ℕ → Write
  block_write : (blockno contents : ℕ) → Write

pub record Disk : Type 0 where
  pub head : List ℕ
  pub blocks : ℕ → ℕ

abbrev pub apply_write : Write → Disk → Disk
apply_write (Write.head_write bs) d = record d { head = bs }
apply_write (Write.block_write b v) d = record d { blocks = update d.blocks b v }

-- `struct log`, with `lh` as the list of its block numbers; the disk and the cache; the number of
-- pins that the log holds on each block; and the writes to the disk since the start.
pub record LogState : Type 0 where
  pub start : ℕ
  pub size : ℕ
  pub outstanding : ℕ
  pub committing : Bool
  pub lh : List ℕ
  pub view : ℕ → ℕ
  pub pins : ℕ → ℕ
  pub disk : Disk
  pub trace : List Write

abbrev pub emit_write : Write → LogState → LogState
emit_write w s = record s { disk = apply_write w s.disk; trace = s.trace ++ w ∷ [] }

-- `memmove` into the buffer of block `b`, and `bwrite` of it.
abbrev pub bwrite : ℕ → ℕ → LogState → LogState
bwrite b v s = emit_write (Write.block_write b v) (record s { view = update s.view b v })

abbrev pub bpin : ℕ → LogState → LogState
bpin b s = record s { pins = update s.pins b (s.pins b + 1) }

abbrev pub bunpin : ℕ → LogState → LogState
bunpin b s = record s { pins = update s.pins b (s.pins b - 1) }

-- The loop of `install_trans`, from `tail` on, where the blocks of the header are the given ones.
pub install_from : (recovering : Bool) → (tail : ℕ) → List ℕ → LogState → LogState
install_from recovering tail [] s = s
install_from recovering tail (b ∷ bs) s =
    let s1 = bwrite b (s.view (s.start + tail + 1)) s in
    install_from recovering (suc tail) bs (if recovering then s1 else bunpin b s1)

unfoldable pub install_trans : (recovering : Bool) → LogState → LogState
install_trans recovering s = install_from recovering 0 s.lh s

abbrev pub read_head : LogState → LogState
read_head s = record s { lh = s.disk.head }

abbrev pub write_head : LogState → LogState
write_head s = emit_write (Write.head_write s.lh) s

unfoldable pub recover_from_log : LogState → LogState
recover_from_log s = write_head (record (install_trans true (read_head s)) { lh = [] })

-- The state as `initlog` sets it up, with an empty cache.
abbrev pub booted : (start size : ℕ) → Disk → LogState
booted start size d = record {
  start = start;
  size = size;
  outstanding = 0;
  committing = false;
  lh = [];
  view = d.blocks;
  pins = λ _. 0;
  disk = d;
  trace = [];
}

unfoldable pub initlog : (start size : ℕ) → Disk → LogState
initlog start size d = recover_from_log (booted start size d)

-- `begin_op`; `none` where it sleeps.
pub begin_op : LogState → Option LogState
begin_op s =
    if s.committing
    then none
    else if ltb log_capacity (length s.lh + (s.outstanding + 1) * max_op_blocks)
    then none
    else some (record s { outstanding = s.outstanding + 1 })

-- The loop of `write_log`, from `tail` on.
pub write_log_from : (tail : ℕ) → List ℕ → LogState → LogState
write_log_from tail [] s = s
write_log_from tail (b ∷ bs) s =
    write_log_from (suc tail) bs (bwrite (s.start + tail + 1) (s.view b) s)

unfoldable pub write_log : LogState → LogState
write_log s = write_log_from 0 s.lh s

unfoldable pub commit : LogState → LogState
commit s =
    if ltb 0 (length s.lh)
    then write_head (record (install_trans false (write_head (write_log s))) { lh = [] })
    else s

-- `end_op` up to the release of the lock: `none` for the panic, and whether to commit. The caller
-- holds one of the outstanding operations.
pub end_op : LogState → Option (Bool × LogState)
end_op s =
    let s1 = record s { outstanding = s.outstanding - 1 } in
    if s.committing
    then none
    else if s1.outstanding == 0
    then some (true, record s1 { committing = true })
    else some (false, s1)

-- The rest of `end_op`, where it commits.
pub finish_op : LogState → LogState
finish_op s = record (commit s) { committing = false }

-- The loop of `log_write`: the first index from `i` on that holds the block, or the end.
pub position : ℕ → ℕ → List ℕ → ℕ
position i b [] = i
position i b (x ∷ xs) = let further = position (suc i) b xs in if x == b then i else further

-- `log.lh.block[i] = b`, and `log.lh.n++` where `i` is the end.
pub set_block : ℕ → ℕ → List ℕ → List ℕ
set_block i b [] = b ∷ []
set_block zero b (x ∷ xs) = b ∷ xs
set_block (suc i) b (x ∷ xs) = x ∷ set_block i b xs

-- `log_write`; `none` for its two panics.
pub log_write : ℕ → LogState → Option LogState
log_write b s =
    let i = position 0 b s.lh in
    let s1 = record s { lh = set_block i b s.lh } in
    if leb log_capacity (length s.lh) || leb (s.size - 1) (length s.lh)
    then none
    else if ltb s.outstanding 1
    then none
    else some (if i == length s.lh then bpin b s1 else s1)

-- A file system call's change of a block: to the locked buffer, and then `log_write`.
pub modify : (blockno contents : ℕ) → LogState → Option LogState
modify b v s = log_write b (record s { view = update s.view b v })
