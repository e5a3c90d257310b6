-- ===== src/Log/Crash.antt =====
-- Crash safety of `commit` and of recovery in log.c: a crash keeps the disk after some of the writes,
-- and `initlog` runs on that disk.
use cs.Common.{
  ℕ, suc, ◌+◌, ◌-◌, ◌<◌, ◌≡◌, ◌∙◌, Bool, true, false, List, [], ◌∷◌, ◌++◌, if◌then◌else◌, update,
  length, All, append_assoc, append-nil, arith,
}
use cs.Log.{Write, LogState, install_from, write_log_from, bwrite, bunpin}
use cs.Log.Writes.{in_log, Home, replay, Slots, log_writes, home_writes, paint, Slots-same}

-- A state after some writes of blocks through their buffers.
abbrev pub after : List Write → LogState → LogState
after ws s = record s { view = paint ws s.view; disk = replay ws s.disk; trace = s.trace ++ ws }

after-step :
    (b c : ℕ) (ws : List Write) (s : LogState)
    → after ws (bwrite b c s) ≡ after (Write.block_write b c ∷ ws) s
unfolding paint replay
after-step b c ws s = rw (append_assoc s.trace (Write.block_write b c ∷ []) ws)

-- The pins that `install_trans` drops.
abbrev pub unpin_all : List ℕ → (ℕ → ℕ) → ℕ → ℕ
unpin_all [] pins = pins
unpin_all (b ∷ bs) pins = unpin_all bs (update pins b (pins b - 1))

All-update :
    (start size a c : ℕ) (bs : List ℕ) (f v : ℕ → ℕ)
    → Home start size bs
    → in_log start size a ≡ true
    → All (λ b. v b ≡ f b) bs
    → All (λ b. update v a c b ≡ f b) bs
All-update start size a c [] f v h i e = tt
All-update start size a c (b ∷ bs) f v h i e =
    (ground arith, All-update start size a c bs f v h.1 i e.1)

-- `write_log` copies the buffers of the logged blocks to the log.
pub write_log_from-after :
    (tail : ℕ) (bs : List ℕ) (s : LogState) (f : ℕ → ℕ)
    → tail + length bs < s.size
    → Home s.start s.size bs
    → All (λ b. s.view b ≡ f b) bs
    → write_log_from tail bs s ≡ after (log_writes s.start tail bs f) s
unfolding write_log_from replay paint
write_log_from-after tail [] s f lt h e = rw (append-nil s.trace)
write_log_from-after tail (b ∷ bs) s f lt h e =
    write_log_from-after (suc tail) bs (bwrite (s.start + tail + 1) (s.view b) s) f (omega arith)
      h.1 (All-update s.start s.size _ _ bs f s.view h.1 (ground arith) e.1)
    ∙ after-step _ _ _ s
    ∙ rw (e.0)

-- `install_trans` copies the log to the logged blocks, where the log holds what `f` gives for them.
pub install_from-after :
    (recovering : Bool) (tail : ℕ) (bs : List ℕ) (s : LogState) (f : ℕ → ℕ)
    → tail + length bs < s.size
    → Home s.start s.size bs
    → Slots s.start tail bs f s.view
    → install_from recovering tail bs s ≡ record (after (home_writes bs f) s) {
      pins = if recovering then s.pins else unpin_all bs s.pins;
    }
unfolding install_from replay paint
install_from-after true tail [] s f lt h e = rw (append-nil s.trace)
install_from-after false tail [] s f lt h e = rw (append-nil s.trace)
install_from-after true tail (b ∷ bs) s f lt h e =
    install_from-after true (suc tail) bs (bwrite b (s.view (s.start + tail + 1)) s) f (omega arith)
      h.1
      (Slots-same s.start s.size (suc tail) bs f s.view _ (omega arith) (λ c i. ground arith) e.1)
    ∙ after-step _ _ _ s
    ∙ rw (e.0)
install_from-after false tail (b ∷ bs) s f lt h e =
    install_from-after false (suc tail) bs (bunpin b (bwrite b (s.view (s.start + tail + 1)) s)) f
      (omega arith) h.1
      (Slots-same s.start s.size (suc tail) bs f s.view _ (omega arith) (λ c i. ground arith) e.1)
    ∙ rw (e.0, append_assoc s.trace (Write.block_write b (f b) ∷ []) (home_writes bs f))
