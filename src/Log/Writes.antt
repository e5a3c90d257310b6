-- ===== src/Log/Writes.antt =====
-- What the loops of log.c write: the sequences of writes, and a disk after some of them.
use cs.Common.{
  ℕ, zero, suc, ◌+◌, ◌≤◌, ◌≡◌, refl, ap, ◌∙◌, Bool, true, false, ◌&&◌, ◌⊎◌, inl, inr, List, [], ◌∷◌,
  ◌++◌, ◌==◌, ltb, leb, ◌<◌, update_self, if◌then◌else◌, update, length, take, has, All, map, arith,
}
use cs.Log.{Write, Disk, apply_write}

-- Whether a block number lies in the log, the header block included.
abbrev pub in_log : (start size b : ℕ) → Bool
in_log start size b = leb start b && ltb b (start + size)

-- The blocks are outside of the log.
abbrev pub Home : (start size : ℕ) → List ℕ → Type 0
Home start size bs = All (λ b. in_log start size b ≡ false) bs

unfoldable pub replay : List Write → Disk → Disk
replay [] d = d
replay (w ∷ ws) d = replay ws (apply_write w d)

-- The log blocks from `tail` on hold what `f` gives for the blocks.
abbrev pub Slots : (start tail : ℕ) → List ℕ → (f view : ℕ → ℕ) → Type 0
Slots start tail [] f view = Unit
Slots start tail (b ∷ bs) f view =
    (view (start + tail + 1) ≡ f b) × Slots start (suc tail) bs f view

-- The writes of `write_log` and of `install_trans`.
abbrev pub log_writes : (start tail : ℕ) → List ℕ → (ℕ → ℕ) → List Write
log_writes start tail [] f = []
log_writes start tail (b ∷ bs) f =
    Write.block_write (start + tail + 1) (f b) ∷ log_writes start (suc tail) bs f

abbrev pub home_writes : List ℕ → (ℕ → ℕ) → List Write
home_writes bs f = map (λ b. Write.block_write b (f b)) bs

pub replay-append : (ws vs : List Write) (d : Disk) → replay (ws ++ vs) d ≡ replay vs (replay ws d)
unfolding replay
replay-append [] vs d = refl
replay-append (w ∷ ws) vs d = replay-append ws vs (apply_write w d)

-- A prefix of two lists one after the other.
pub take-append {ℓ} :
    {A : Type ℓ} (m : ℕ) (xs ys : List A)
    → (take m (xs ++ ys) ≡ take m xs) ⊎ ((k : ℕ) × (take m (xs ++ ys) ≡ xs ++ take k ys))
take-append m [] ys = inr (m, refl)
take-append zero (x ∷ xs) ys = inl refl
take-append (suc m) (x ∷ xs) ys = elim (take-append m xs ys) [
  | inl e ↦ inl (ap (x ∷◌) e)
  | inr (k, e) ↦ inr (k, ap (x ∷◌) e)
]

-- The blocks after some writes.
unfoldable pub paint : List Write → (ℕ → ℕ) → ℕ → ℕ
paint [] v = v
paint (Write.head_write bs ∷ ws) v = paint ws v
paint (Write.block_write b c ∷ ws) v = paint ws (update v b c)

pub paint-append : (ws vs : List Write) (v : ℕ → ℕ) → paint (ws ++ vs) v ≡ paint vs (paint ws v)
unfolding paint
paint-append [] vs v = refl
paint-append (Write.head_write bs ∷ ws) vs v = paint-append ws vs v
paint-append (Write.block_write b c ∷ ws) vs v = paint-append ws vs (update v b c)

pub replay-blocks : (ws : List Write) (d : Disk) → (replay ws d).blocks ≡ paint ws d.blocks
unfolding replay paint
replay-blocks [] d = refl
replay-blocks (Write.head_write bs ∷ ws) d = replay-blocks ws (record d { head = bs })
replay-blocks (Write.block_write b c ∷ ws) d =
    replay-blocks ws (record d { blocks = update d.blocks b c })

-- None of the writes is to block `b`, or to the header.
abbrev pub Avoids : ℕ → List Write → Type 0
Avoids b [] = Unit
Avoids b (Write.head_write bs ∷ ws) = ⊥
Avoids b (Write.block_write c v ∷ ws) = ((c == b) ≡ false) × Avoids b ws

pub paint-Avoids : (b : ℕ) (ws : List Write) (v : ℕ → ℕ) → Avoids b ws → paint ws v b ≡ v b
unfolding paint
paint-Avoids b [] v a = refl
paint-Avoids b (Write.head_write bs ∷ ws) v a = absurd a
paint-Avoids b (Write.block_write c x ∷ ws) v a = paint-Avoids b ws (update v c x) a.1 ∙ rw (a.0)

pub take-Avoids : (b m : ℕ) (ws : List Write) → Avoids b ws → Avoids b (take m ws)
take-Avoids b zero ws a = tt
take-Avoids b (suc m) [] a = tt
take-Avoids b (suc m) (Write.head_write bs ∷ ws) a = a
take-Avoids b (suc m) (Write.block_write c v ∷ ws) a = (a.0, take-Avoids b m ws a.1)

-- Writes to blocks leave the header alone.
pub replay-head : (b : ℕ) (ws : List Write) (d : Disk) → Avoids b ws → (replay ws d).head ≡ d.head
unfolding replay
replay-head b [] d a = refl
replay-head b (Write.head_write bs ∷ ws) d a = absurd a
replay-head b (Write.block_write c v ∷ ws) d a =
    replay-head b ws (record d { blocks = update d.blocks c v }) a.1

-- `write_log` writes to the log blocks only, `install_trans` to the logged blocks only.
pub log_writes-Avoids :
    (start tail : ℕ) (bs : List ℕ) (f : ℕ → ℕ) (b : ℕ)
    → (b ≤ start + tail) ⊎ (start + tail + 1 + length bs ≤ b)
    → Avoids b (log_writes start tail bs f)
log_writes-Avoids start tail [] f b out = tt
log_writes-Avoids start tail (x ∷ bs) f b out =
    (ground arith, log_writes-Avoids start (suc tail) bs f b (ground arith))

pub home_writes-Avoids :
    (bs : List ℕ) (f : ℕ → ℕ) (b : ℕ) → has b bs ≡ false → Avoids b (home_writes bs f)
home_writes-Avoids [] f b h = tt
home_writes-Avoids (x ∷ bs) f b h = (ground arith, home_writes-Avoids bs f b (ground arith))

pub has-Home :
    (start size b : ℕ) (bs : List ℕ)
    → Home start size bs
    → in_log start size b ≡ true
    → has b bs ≡ false
has-Home start size b [] h i = refl
has-Home start size b (x ∷ bs) h i = ground (arith, has-Home start size b bs h.1 i)

-- All installs done, a logged block has what `f` gives, and another block what it had.
pub paint-home_writes :
    (bs : List ℕ) (f v : ℕ → ℕ) (b : ℕ)
    → paint (home_writes bs f) v b ≡ (if has b bs then f b else v b)
unfolding paint
paint-home_writes [] f v b = refl
paint-home_writes (x ∷ bs) f v b = ground (arith, paint-home_writes bs f (update v x (f x)) b)

pub paint-Slots :
    (start tail : ℕ) (bs : List ℕ) (f v : ℕ → ℕ)
    → Slots start tail bs f (paint (log_writes start tail bs f) v)
unfolding paint
paint-Slots start tail [] f v = tt
paint-Slots start tail (b ∷ bs) f v = (
  paint-Avoids (start + tail + 1) (log_writes start (suc tail) bs f) _
        (log_writes-Avoids start (suc tail) bs f _ (inl (omega arith)))
      ∙ update_self v _ _,
  paint-Slots start (suc tail) bs f _,
)

-- `Slots` looks at the log blocks only.
pub Slots-same :
    (start size tail : ℕ) (bs : List ℕ) (f v w : ℕ → ℕ)
    → tail + length bs < size
    → ((b : ℕ) → in_log start size b ≡ true → w b ≡ v b)
    → Slots start tail bs f v
    → Slots start tail bs f w
Slots-same start size tail [] f v w lt same h = tt
Slots-same start size tail (b ∷ bs) f v w lt same h = (
  same (start + tail + 1) (ground arith) ∙ h.0,
  Slots-same start size (suc tail) bs f v w (omega arith) same h.1,
)
