-- ===== src/Log/Commit.antt =====
-- The commit and the recovery of log.c as sequences of writes, and what a crash leaves of them.
use cs.Common.{
  ℕ, ◌<◌, ◌≡◌, refl, ◌∙◌, true, false, List, [], ◌∷◌, ◌++◌, ltb, length, take, has, All,
  append_assoc, arith,
}
use cs.Log.{
  Write, Disk, LogState, install_trans, write_log, recover_from_log, initlog, booted, write_head,
  commit,
}
use cs.Log.Writes.{
  in_log, Home, replay, Slots, log_writes, home_writes, replay-append, paint, paint-append,
  replay-blocks, paint-Slots,
}
use cs.Log.Crash.{after, unpin_all, write_log_from-after, install_from-after}

-- Between transactions: the logged blocks lie outside of the log and fit in it, the header on disk
-- names no block, and the buffers of all other blocks outside of the log agree with the disk.
pub record LogInv (s : LogState) : Type 0 where
  pub home : Home s.start s.size s.lh
  pub room : length s.lh < s.size
  pub empty : s.disk.head ≡ []
  pub clean :
      (b : ℕ) → in_log s.start s.size b ≡ false → has b s.lh ≡ false → s.view b ≡ s.disk.blocks b

-- The disk agrees with `f` outside of the log.
abbrev pub Agrees : (start size : ℕ) → Disk → (ℕ → ℕ) → Type 0
Agrees start size d f = (b : ℕ) → in_log start size b ≡ false → d.blocks b ≡ f b

All-refl : (bs : List ℕ) (f : ℕ → ℕ) → All (λ b. f b ≡ f b) bs
All-refl [] f = tt
All-refl (b ∷ bs) f = (refl, All-refl bs f)

abbrev pub commit_writes : LogState → List Write
commit_writes s =
    log_writes s.start 0 s.lh s.view
    ++ (Write.head_write s.lh ∷ (home_writes s.lh s.view ++ Write.head_write [] ∷ []))

-- The disk after a crash that lets `m` of the writes of `commit` through.
abbrev pub crash_disk : ℕ → LogState → Disk
crash_disk m s = replay (take m (commit (record s { trace = [] })).trace) s.disk

-- Recovery from a disk whose log holds what `f` gives for the blocks of the header.
pub initlog-disk :
    (start size : ℕ) (d : Disk) (f : ℕ → ℕ)
    → length d.head < size
    → Home start size d.head
    → Slots start 0 d.head f d.blocks
    → (initlog start size d).disk
      ≡ record { head = []; blocks = paint (home_writes d.head f) d.blocks }
unfolding initlog recover_from_log install_trans
initlog-disk start size d f lt h sl = rw (
  install_from-after true 0 d.head (record (booted start size d) { lh = d.head }) f
      (omega (arith, lt)) h sl,
  replay-blocks (home_writes d.head f) d,
)

-- The state when `write_log` and `write_head` are done.
abbrev committed : LogState → LogState
committed s = write_head (after (log_writes s.start 0 s.lh s.view) s)

module _ (s : LogState) where
  pub replay-commit_writes : replay (commit_writes s) s.disk ≡ record {
    head = [];
    blocks =
        (replay
          (home_writes s.lh s.view)
          (record (replay (log_writes s.start 0 s.lh s.view) s.disk) { head = s.lh })).blocks;
  }
  unfolding replay
  replay-commit_writes =
      replay-append (log_writes s.start 0 s.lh s.view)
        (Write.head_write s.lh ∷ (home_writes s.lh s.view ++ Write.head_write [] ∷ [])) s.disk
      ∙ replay-append (home_writes s.lh s.view) (Write.head_write [] ∷ []) _

  pub paint-commit_writes :
      paint (commit_writes s) s.view
      ≡ paint (home_writes s.lh s.view) (paint (log_writes s.start 0 s.lh s.view) s.view)
  unfolding paint
  paint-commit_writes =
      paint-append (log_writes s.start 0 s.lh s.view)
        (Write.head_write s.lh ∷ (home_writes s.lh s.view ++ Write.head_write [] ∷ [])) s.view
      ∙ paint-append (home_writes s.lh s.view) (Write.head_write [] ∷ []) _

  trace-commit_writes :
      ((s.trace ++ log_writes s.start 0 s.lh s.view ++ Write.head_write s.lh ∷ [])
          ++ home_writes s.lh s.view)
        ++ Write.head_write [] ∷ []
      ≡ s.trace ++ commit_writes s
  trace-commit_writes =
      append_assoc _ (home_writes s.lh s.view) (Write.head_write [] ∷ [])
      ∙ append_assoc (s.trace ++ log_writes s.start 0 s.lh s.view) (Write.head_write s.lh ∷ []) _
      ∙ append_assoc s.trace (log_writes s.start 0 s.lh s.view) _

-- What `commit` does where a block is logged.
pub commit-after :
    {s : LogState}
    → LogInv s
    → ltb 0 (length s.lh) ≡ true
    → commit s ≡ record (after (commit_writes s) s) { pins = unpin_all s.lh s.pins; lh = [] }
unfolding commit write_log install_trans replay paint
commit-after {s} v some_block = rw (
  some_block,
  write_log_from-after 0 s.lh s s.view (omega (arith, v.room)) v.home (All-refl s.lh s.view),
  install_from-after false 0 s.lh (committed s) s.view (omega (arith, v.room)) v.home
      (paint-Slots s.start 0 s.lh s.view s.view),
  replay-commit_writes s,
  paint-commit_writes s,
  trace-commit_writes s,
)
