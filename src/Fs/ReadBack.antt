-- ===== src/Fs/ReadBack.antt =====
-- `writei` as a whole, and `readi` after it.
use cs.Common.{
  ℕ, suc, ◌+◌, ◌-◌, ◌*◌, ◌%◌, ◌^◌, ◌<◌, ◌≤◌, ◌≡◌, ◌≢◌, refl, ap, ◌∙◌, sym, subst, Bool, true, false,
  ◌||◌, ◌&&◌, inl, inr, ◌⊎◌, some, ltb, leb, if◌then◌else◌, arith, Bool-cases, Succeeds,
  Succeeds-bind, Succeeds-map,
}
use cs.Common.Int.{ℤ, pos, negsuc, pos_part}
use cs.Strings.{Memory}
use cs.Fs.{Superblock, bsize}
use cs.Fs.Map.{File}
use cs.Fs.Owned.{IsFull}
use cs.Fs.Content.{write_from, writei, readi, grow, iupdate}
use cs.Fs.Read.{block_at, readable, GaveAll, readi-GaveAll}
use cs.Fs.Write.{IsSound, Wrote, WriteDone, write_from-WriteDone}

-- Whether `writei` refuses the range.
abbrev pub refused : File → (off n : ℕ) → Bool
refused f off n = ltb f.0.size off || ltb (268 * bsize) (off + n)

-- `tot` bytes were written, all of them unless the disk is full; the file grows where it must.
abbrev pub Written : Superblock → File → (off n src : ℕ) → Memory → ℤ × File → Type 0
Written sb f off n src mem (r, f') =
    (tot : ℕ) × (r ≡ pos tot)
    × (tot ≤ n)
    × (tot < n → IsFull sb f'.1)
    × IsSound sb f'
    × Wrote off (off + tot) src mem f f'
    × (f'.0.size ≡ (if ltb f.0.size (off + tot) then off + tot else f.0.size))

module _ (sb : Superblock) (inum : ℕ) (ok : ℕ → ℕ → Bool) (fine : (d m : ℕ) → ok d m ≡ true) where
  finish-Written :
      (f : File) (off n src : ℕ) (mem : Memory) (r : ℕ × ℕ × File)
      → WriteDone sb f n 0 off src mem r
      → Written sb f off n src mem (pos r.0, ((grow r.1 r.2).0, iupdate sb inum (grow r.1 r.2)))
  finish-Written f off n src mem (tot, off', (ip, s)) (sound, moved, _, le, wrote, full, size) =
      let end : off' ≡ off + tot = omega (arith, moved) in
      elim (Bool-cases (ltb ip.size off')) [
        | inl e ↦ rw (e) (
          tot,
          refl,
          le,
          full,
          sound,
          subst (λ z. Wrote off z src mem f (ip, s)) end wrote,
          ground (arith, e, end, size),
        )
        | inr e ↦ rw (e) (
          tot,
          refl,
          le,
          full,
          sound,
          subst (λ z. Wrote off z src mem f (ip, s)) end wrote,
          ground (arith, e, end, size),
        )
      ]

  -- For a file that owns its blocks, and where every `either_copyin` succeeds: `writei` of a range that
  -- starts behind the end of the file or ends behind the largest file fails and changes nothing. Else it
  -- writes the bytes, all of them unless the disk gets full; every other byte of the file stays, and the
  -- file grows to the last byte written.
  pub writei-Written :
      (f : File) (off n src : ℕ) (mem : Memory)
      → IsSound sb f
      → f.0.size < 2 ^ 32
      → n < 2 ^ 32
      → (refused f off n ≡ true) × (writei sb inum ok src off n f mem ≡ some (negsuc 0, f))
        ⊎ (refused f off n ≡ false)
          × Succeeds (Written sb f off n src mem) (writei sb inum ok src off n f mem)
  unfolding writei
  writei-Written f off n src mem sound small_size small =
      let end = (off + n) % 2 ^ 32 in
      elim (Bool-cases (refused f off n)) [
        | inl e ↦ inl (e, ground (arith, e, small_size, small))
        | inr e ↦
            let g1 : (ltb f.0.size off || ltb end off) ≡ false =
              ground (arith, e, small_size, small) in
            let g2 : ltb (268 * bsize) end ≡ false = ground (arith, e, small_size, small) in
            inr (
              e,
              rw (g1, g2)
                  (Succeeds-bind (Written sb f off n src mem)
                    (write_from sb ok (suc n) 0 n off src f mem) _
                    (write_from-WriteDone sb ok fine mem (suc n) 0 n off src f (omega arith)
                      (omega arith) (ground (arith, e)) sound)
                    (λ r d. finish-Written f off n src mem r d)),
            )
      ]

  read-Written :
      (f f' : File) (off n src dst : ℕ) (mem mem2 : Memory)
      → ((o : ℕ) → o < f.0.size → block_at f o ≢ 0)
      → off ≤ f.0.size
      → n < 2 ^ 31
      → f.0.size < 2 ^ 31
      → Written sb f off n src mem (pos n, f')
      → Succeeds
          (λ (r, _, mem'). (r ≡ pos n) × ((i : ℕ) → i < n → mem' (dst + i) ≡ mem (src + i)))
          (readi sb ok dst off n f' mem2)
  read-Written f f' off n src dst mem mem2 mapped inside small small_size
        (tot, count, _, _, _, (here, kept), size) =
      let all : tot ≡ n = ap pos_part (sym count) in
      let whole : readable f' off n ≡ n = ground (arith, size, all, small, small_size, inside) in
      Succeeds-map {P = GaveAll f' (readable f' off n) off dst (readable f' off n) mem2}
        (readi sb ok dst off n f' mem2)
        (λ (r, g, mem') (e, _, copied). (
          e ∙ ap pos whole,
          λ i lt.
              let at : dst + i - dst ≡ i = omega arith in
              let from : off + i - off ≡ i = omega arith in
              copied (dst + i)
              ∙ ground (arith, whole, lt, at)
              ∙ (here (off + i) (omega arith) (omega (arith, lt, all))).1
              ∙ ap (λ k. mem (src + k)) from,
        ))
        (readi-GaveAll sb ok f' dst off n mem2
          (λ o lt. elim (Bool-cases (leb off o && ltb o (off + tot))) [
            | inl e ↦ (here o (ground (arith, e)) (ground (arith, e))).0
            | inr e ↦
                (kept o (ground (arith, e)) (mapped o (ground (arith, e, lt, size, inside)))).0
          ])
          (ground (arith, size, all, small, small_size, inside)) (omega (arith, small)) fine)

  -- What `readi` gives right after `writei` wrote all of `n` bytes at the same place: those bytes. The file
  -- owned its blocks and had no holes before, `n` and its size are not negative as ints, and every
  -- `either_copyin` and `either_copyout` succeeds.
  pub readi-writei :
      (f f' : File) (off n src dst : ℕ) (mem mem2 : Memory)
      → IsSound sb f
      → ((o : ℕ) → o < f.0.size → block_at f o ≢ 0)
      → n < 2 ^ 31
      → f.0.size < 2 ^ 31
      → writei sb inum ok src off n f mem ≡ some (pos n, f')
      → Succeeds
          (λ (r, _, mem'). (r ≡ pos n) × ((i : ℕ) → i < n → mem' (dst + i) ≡ mem (src + i)))
          (readi sb ok dst off n f' mem2)
  readi-writei f f' off n src dst mem mem2 sound mapped small small_size w =
      elim (writei-Written f off n src mem sound (omega (arith, small_size))
        (omega (arith, small))) [
          | inl (_, failed) ↦ absurd (ground (arith, failed, w))
          | inr (e, done) ↦
              read-Written f f' off n src dst mem mem2 mapped (ground (arith, e)) small small_size
                (subst (λ o. Succeeds (Written sb f off n src mem) o) w done)
        ]
