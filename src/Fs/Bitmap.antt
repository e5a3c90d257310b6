-- ===== src/Fs/Bitmap.antt =====
-- Blocks of fs.c: `bzero`, `balloc` and `bfree`.
use cs.Common.{
  ℕ, zero, suc, ◌+◌, ◌*◌, ◌/◌, ◌%◌, Bool, true, false, not, Option, none, some, ltb, if◌then◌else◌,
  update,
}
use cs.Fs.{Superblock, Store, bsize}

abbrev pub bpb : ℕ
bpb = bsize * 8

-- `BBLOCK`
abbrev pub bblock : Superblock → ℕ → ℕ
bblock sb b = b / bpb + sb.bmapstart

unfoldable pub bzero : ℕ → Store → Store
bzero bno s = record s { words = update s.words bno (λ i. 0); bytes = update s.bytes bno (λ i. 0) }

abbrev pub set_bit : (block bi : ℕ) → Bool → Store → Store
set_bit block bi v s = record s {
  bits =
      update s.bits block
        (update (s.bits block) (bi / 8) (update (s.bits block (bi / 8)) (bi % 8) v));
}

-- The inner loop of `balloc`, from the bit `bi` on, with `rest` rounds to go.
unfoldable pub free_bit : Superblock → (b rest bi : ℕ) → Store → Option ℕ
free_bit sb b zero bi s = none
free_bit sb b (suc rest) bi s =
    let further = free_bit sb b rest (bi + 1) s in
    if ltb (b + bi) sb.size
    then (if not (s.bits (bblock sb b) (bi / 8) (bi % 8)) then some bi else further)
    else none

abbrev pub take_bit : Superblock → (b : ℕ) → Store → ℕ → ℕ × Store
take_bit sb b s bi = (b + bi, bzero (b + bi) (set_bit (bblock sb b) bi true s))

-- The outer loop, from block `b` on.
unfoldable pub alloc_from : Superblock → (fuel b : ℕ) → Store → ℕ × Store
alloc_from sb zero b s = (0, s)
alloc_from sb (suc fuel) b s =
    let further = alloc_from sb fuel (b + bpb) s in
    if ltb b sb.size
    then elim (free_bit sb b bpb 0 s) [ none ↦ further | some bi ↦ take_bit sb b s bi ]
    else (0, s)

-- `balloc`; 0 where the disk is full.
unfoldable pub balloc : Superblock → Store → ℕ × Store
balloc sb s = alloc_from sb (suc sb.size) 0 s

-- `bfree`; `none` for the panic.
unfoldable pub bfree : Superblock → ℕ → Store → Option Store
bfree sb b s =
    let bi = b % bpb in
    if not (s.bits (bblock sb b) (bi / 8) (bi % 8))
    then none
    else some (set_bit (bblock sb b) bi false s)
