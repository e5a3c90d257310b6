-- ===== src/Fs/Read.antt =====
-- `readi` copies what the file holds.
use cs.Common.{
  ℕ, zero, suc, ◌+◌, ◌-◌, ◌/◌, ◌%◌, ◌^◌, ◌<◌, ◌≤◌, ◌≡◌, ◌≢◌, refl, ◌∙◌, subst, Bool, true, false,
  ◌||◌, ◌==◌, inl, inr, some, ltb, leb, min, if◌then◌else◌, arith, Bool-cases, Succeeds,
  Succeeds-map,
}
use cs.Common.Int.{ℤ, pos}
use cs.Strings.{Memory}
use cs.Strings.Move.{in_range}
use cs.Fs.{Superblock, bsize}
use cs.Fs.Map.{File, bmap, direct_block, indirect_block}
use cs.Fs.Owned.{slot, place_of}
use cs.Fs.Content.{copy_range, chunk, read_from, readi}

-- The block that holds byte `o` of the file, and the byte.
abbrev pub block_at : File → ℕ → ℕ
block_at f o = slot f (place_of (o / bsize))

abbrev pub byte_at : File → ℕ → ℕ
byte_at f o = f.1.bytes (block_at f o) (o % bsize)

-- A block that is there is found, and nothing changes.
bmap-there :
    (sb : Superblock) (bn : ℕ) (f : File)
    → slot f (place_of bn) ≢ 0
    → bmap sb bn f ≡ some (slot f (place_of bn), f)
unfolding bmap direct_block indirect_block
bmap-there sb bn (ip, s) named = ground (arith, named)

-- What a read of `n` bytes from `off` on to `dst` leaves.
abbrev pub Copied : File → (off dst n : ℕ) → Memory → Memory → Type 0
Copied f off dst n mem mem' =
    (a : ℕ) → mem' a ≡ (if in_range dst n a then byte_at f (off + (a - dst)) else mem a)

-- A read that gave all `n` bytes, the last `k` of them from `off` on, and left the file alone.
abbrev pub GaveAll : File → (n off dst k : ℕ) → Memory → ℤ × File × Memory → Type 0
GaveAll f n off dst k mem (r, f', mem') = (r ≡ pos n) × (f' ≡ f) × Copied f off dst k mem mem'

-- A chunk lies in one block.
same_chunk :
    (f : File) (off i : ℕ)
    → i < bsize - off % bsize
    → byte_at f (off + i) ≡ f.1.bytes (block_at f off) (off % bsize + i)
same_chunk f off i lt =
    let same_block : (off + i) / bsize ≡ off / bsize = omega (arith, lt) in
    let next : (off + i) % bsize ≡ off % bsize + i = omega (arith, lt) in
    λ j. f.1.bytes (slot f (place_of (same_block j))) (next j)

Copied-step :
    (f : File) (off dst n m : ℕ) (mem mem' : Memory)
    → m ≤ n
    → m ≤ bsize - off % bsize
    → Copied f
        (off + m)
        (dst + m)
        (n - m)
        (copy_range (λ i. f.1.bytes (block_at f off) (off % bsize + i)) dst m mem)
        mem'
    → Copied f off dst n mem mem'
Copied-step f off dst n m mem mem' le fits rest a = elim (Bool-cases (in_range dst m a)) [
  | inl e ↦ rest a ∙ ground (arith, e, le, same_chunk f off (a - dst), fits)
  | inr e ↦
      let shift : in_range (dst + m) (n - m) a ≡ true
          → off + m + (a - (dst + m)) ≡ off + (a - dst) =
        λ h. ground (arith, h) in
      rest a ∙ ground (arith, e, le, shift)
]

-- How many bytes a read can give.
abbrev pub readable : File → (off n : ℕ) → ℕ
readable f off n = if ltb f.0.size off || leb (2 ^ 32) (off + n) then 0 else min n (f.0.size - off)

module _ (sb : Superblock) (ok : ℕ → ℕ → Bool) (f : File) where
  read_from-Copied :
      (fuel tot n off dst : ℕ) (mem : Memory)
      → tot ≤ n
      → n < tot + fuel
      → ((o : ℕ) → off ≤ o → o < off + (n - tot) → block_at f o ≢ 0)
      → ((d m : ℕ) → ok d m ≡ true)
      → Succeeds (GaveAll f n off dst (n - tot) mem) (read_from sb ok fuel tot n off dst f mem)
  unfolding read_from
  read_from-Copied zero tot n off dst mem le more mapped fine = absurd (omega (arith, le, more))
  read_from-Copied (suc fuel) tot n off dst mem le more mapped fine =
      elim (Bool-cases (ltb tot n)) [
        | inl lt ↦
            let m = chunk n tot off in
            let named = mapped off (omega arith) (ground (arith, lt)) in
            let nz : (block_at f off == 0) ≡ false = ground (arith, named) in
            let less : m ≤ n - tot = omega arith in
            let left : n - (tot + m) ≡ n - tot - m = omega arith in
            rw (lt, bmap-there sb (off / bsize) f named, fine dst m, nz)
              (Succeeds-map
                {P = GaveAll f n (off + m) (dst + m) (n - (tot + m))
                  (copy_range (λ i. f.1.bytes (block_at f off) (off % bsize + i)) dst m mem)}
                _
                (λ (r, f', mem') (count, same, copied). (
                  count,
                  same,
                  Copied-step f off dst (n - tot) m mem mem' less (omega arith) (
                      subst
                        (λ k.
                          Copied f (off + m) (dst + m) k
                            (copy_range (λ i. f.1.bytes (block_at f off) (off % bsize + i)) dst m
                              mem)
                            mem')
                        left copied),
                ))
                (read_from-Copied fuel (tot + m) n (off + m) (dst + m)
                  (copy_range (λ i. f.1.bytes (block_at f off) (off % bsize + i)) dst m mem)
                  (ground (arith, lt)) (ground (arith, lt, more))
                  (λ o from to. mapped o (omega (arith, from)) (omega (arith, to, less))) fine))
        | inr ge ↦ rw (ge) (ground (arith, ge, le), refl, λ a. ground (arith, ge, le))
      ]

  -- Where every `either_copyout` succeeds, a read of a file whose blocks are all there leaves the file alone. It gives the bytes from `off`
  -- on, up to the end of the file, and their count; 0 bytes if `off` lies behind the end or `off + n`
  -- is no uint.
  pub readi-GaveAll :
      (dst off n : ℕ) (mem : Memory)
      → ((o : ℕ) → o < f.0.size → block_at f o ≢ 0)
      → f.0.size < 2 ^ 32
      → n < 2 ^ 32
      → ((d m : ℕ) → ok d m ≡ true)
      → Succeeds
          (GaveAll f (readable f off n) off dst (readable f off n) mem)
          (readi sb ok dst off n f mem)
  unfolding readi
  readi-GaveAll dst off n mem mapped small_size small fine =
      let end = (off + n) % 2 ^ 32 in
      elim (Bool-cases (ltb f.0.size off || ltb end off)) [
        | inl e ↦
            let nothing : readable f off n ≡ 0 = ground (arith, e, small, small_size) in
            rw (e, nothing) (refl, refl, λ a. ground arith)
        | inr e ↦
            let count : (if ltb f.0.size end then f.0.size - off else n) ≡ readable f off n =
              ground (arith, e, small, small_size) in
            let k = readable f off n in
            rw (e, count)
              (subst
                (λ d.
                  Succeeds (GaveAll f k off dst d mem) (read_from sb ok (suc k) 0 k off dst f mem))
                (omega arith)
                (read_from-Copied (suc k) 0 k off dst mem (omega arith) (omega arith)
                  (λ o from to. mapped o (ground (arith, to, e))) fine))
      ]
