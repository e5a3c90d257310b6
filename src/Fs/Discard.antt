-- ===== src/Fs/Discard.antt =====
-- The whole of `itrunc`: the direct blocks, then the indirect block with the blocks that it names.
use cs.Common.{
  ℕ, ◌+◌, ◌<◌, ◌≡◌, ◌≢◌, refl, ap, ◌∙◌, Bool, true, false, ◌==◌, inl, inr, some, update, arith,
  Bool-cases, Succeeds, Succeeds-bind, ◌>>=◌,
}
use cs.Fs.{Superblock, Store, Dinode}
use cs.Fs.Bitmap.{bfree}
use cs.Fs.Alloc.{in_use, bfree-Succeeds}
use cs.Fs.Map.{File, trunc_direct, trunc_indirect, trunc_rest, itrunc}
use cs.Fs.Owned.{slot, Owned}
use cs.Fs.Trunc.{
  Freed, Live, DirectDone, trunc_indirect-Freed, trunc_direct-DirectDone, Live-rename, Freed-rename,
  Live-shift, Freed-shift, Freed-before, Freed-then, Live-after, Live-skip,
}

-- The file is empty, its blocks are free, and the other blocks are as they were.
abbrev pub Discarded : Superblock → File → File → Type 0
Discarded sb f f' =
    ((i : ℕ) → slot f' i ≡ 0)
    × (f'.0.size ≡ 0)
    × ((i : ℕ) → slot f i ≢ 0 → in_use sb f'.1 (slot f i) ≡ false)
    × ((c : ℕ) → ((i : ℕ) → slot f i ≢ 0 → slot f i ≢ c) → in_use sb f'.1 c ≡ in_use sb f.1 c)

module _ (sb : Superblock) (ip : Dinode) (s : Store)
    (own : Owned (in_use sb s) (slot (ip, s))) where
  abbrev place : ℕ → ℕ
  place = slot (ip, s)

  all-Live : (a n : ℕ) → Live place a n (in_use sb s)
  all-Live a n = (λ i le lt named. own.0 i named, λ i j p q r t ne twice. own.1 i j ne twice)

  inside : (i : ℕ) → place i ≢ 0 → i < 269
  inside i named = ground (arith, named)

  -- All places together.
  finish :
      (ip' : Dinode) (s' : Store)
      → ip'.size ≡ 0
      → ((i : ℕ) → i < 13 → ip'.addrs i ≡ 0)
      → Freed place 0 269 (in_use sb s) (in_use sb s')
      → Discarded sb (ip, s) (ip', s')
  finish ip' s' size gone (freed, others) = (
    λ i. ground (arith, gone i, gone 12),
    size,
    λ i named. freed i (omega arith) (inside i named) named,
    λ c h. others c (λ i le lt named. h i named),
  )

  -- Without an indirect block the direct ones are all.
  only_direct :
      (used' : ℕ → Bool)
      → ip.addrs 12 ≡ 0
      → Freed place 0 12 (in_use sb s) used'
      → Freed place 0 269 (in_use sb s) used'
  only_direct used' z (freed, others) = (
    λ i le lt named. freed i le (ground (arith, z, named, lt)) named,
    λ c h. others c (λ i le lt. h i le (omega (arith, lt))),
  )

  -- With an indirect block, its own place comes last.
  with_indirect :
      (ip1 : Dinode) (s1 : Store)
      → ip1.addrs 12 ≢ 0
      → DirectDone sb (ip, s) 0 12 (ip1, s1)
      → Freed place 0 12 (in_use sb s) (in_use sb s1)
      → Succeeds
          (λ (ip', s'). Discarded sb (ip, s) (record ip' { size = 0 }, s'))
          (trunc_indirect sb (s1.words (ip1.addrs 12)) 256 0 s1 >>= λ s'.
            bfree sb (ip1.addrs 12) s' >>= λ s''.
            some (record ip1 { addrs = update ip1.addrs 12 0 }, s''))
  with_indirect ip1 s1 named (f, put, same_words) direct =
      let l = ip1.addrs 12 in
      let w = s1.words l in
      let Goal : File → Type 0 = λ (ip', s'). Discarded sb (ip, s) (record ip' { size = 0 }, s') in
      let same12 : l ≡ ip.addrs 12 = put 12 in
      let same : (i : ℕ) → i < 256 → place (i + 13) ≡ w i =
        λ i lt. ground (arith, lt, same12, named, ap (λ g. g l i) same_words) in
      let live1 = Live-after place 12 257 (in_use sb s) (in_use sb s1) (all-Live 0 269) direct in
      let live_words =
        Live-shift place w (in_use sb s1) 13 256 same
          (Live-skip place 12 256 (in_use sb s1) live1) in
      Succeeds-bind Goal (trunc_indirect sb w 256 0 s1)
        (λ s'. bfree sb l s' >>= λ s''. some (record ip1 { addrs = update ip1.addrs 12 0 }, s''))
        (trunc_indirect-Freed sb w 256 0 s1 live_words)
        (λ s2 freed_words.
          let ind = Freed-shift place w (in_use sb s1) 13 256 (in_use sb s2) same freed_words in
          let kept : in_use sb s2 l ≡ in_use sb s1 l = ind.1 l (λ i le lt live_i twice.
            live_i (own.1 i 12 (λ z. omega (arith, z, le)) (twice ∙ same12))) in
          let l_used : in_use sb s1 l ≡ true =
            ground (arith, live1.0 12 (omega arith) (omega arith), same12, named) in
          Succeeds-bind Goal (bfree sb l s2)
            (λ s''. some (record ip1 { addrs = update ip1.addrs 12 0 }, s''))
            (bfree-Succeeds sb s2 l (kept ∙ l_used))
            (λ s3 (step, _, _).
              finish (record ip1 { addrs = update ip1.addrs 12 0; size = 0 }) s3 refl
                (λ i lt. ground (arith, put i, lt))
                (Freed-then place 12 257 (in_use sb s) (in_use sb s1) (in_use sb s3)
                  (all-Live 0 269) direct
                  (Freed-before place 12 256 (in_use sb s1) (in_use sb s2) (in_use sb s3)
                    (λ c. ground (arith, step c, same12)) (λ z. named (same12 ∙ z)) ind))))

  discard_rest :
      (ip1 : Dinode) (s1 : Store)
      → DirectDone sb (ip, s) 0 12 (ip1, s1)
      → Succeeds
          (λ (ip', s'). Discarded sb (ip, s) (record ip' { size = 0 }, s'))
          (trunc_rest sb (ip1, s1))
  unfolding trunc_rest
  discard_rest ip1 s1 (f, put, same_words) =
      let direct =
        Freed-rename ip.addrs place (in_use sb s) 0 12 (in_use sb s1)
          (λ i le lt. ground (arith, lt)) f in
      let same12 : ip1.addrs 12 ≡ ip.addrs 12 = put 12 in
      elim (Bool-cases (ip1.addrs 12 == 0)) [
        | inl e ↦ rw (e) (
            finish (record ip1 { size = 0 }) s1 refl (λ i lt. ground (arith, put i, e, same12, lt))
              (only_direct (in_use sb s1) (ground (arith, e, same12)) direct))
        | inr e ↦
            rw (e) (with_indirect ip1 s1 (λ z. ground (arith, e, z)) (f, put, same_words) direct)
      ]

-- `itrunc` of a file that owns its blocks meets no free block, so it does not panic; it gives back
-- every block of the file, the indirect block too, and no other, and leaves an empty file.
pub itrunc-Discarded :
    (sb : Superblock) (f : File)
    → Owned (in_use sb f.1) (slot f)
    → Succeeds (Discarded sb f) (itrunc sb f)
unfolding itrunc
itrunc-Discarded sb (ip, s) own =
    Succeeds-bind (Discarded sb (ip, s)) (trunc_direct sb 12 0 (ip, s))
      (λ f'. trunc_rest sb f' >>= λ g. some (record g.0 { size = 0 }, g.1))
      (trunc_direct-DirectDone sb 12 0 ip s (
        Live-rename (slot (ip, s)) ip.addrs (in_use sb s) 0 12 (λ i le lt. ground (arith, lt))
          (all-Live sb ip s own 0 12)))
      (λ (ip1, s1) done.
        Succeeds-bind (Discarded sb (ip, s)) (trunc_rest sb (ip1, s1))
          (λ g. some (record g.0 { size = 0 }, g.1)) (discard_rest sb ip s own ip1 s1 done)
          (λ g d. d))
