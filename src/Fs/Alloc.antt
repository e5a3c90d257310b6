-- ===== src/Fs/Alloc.antt =====
-- What `balloc` and `bfree` do to the blocks in use.
use cs.Common.{
  ℕ, zero, suc, ◌+◌, ◌-◌, Succeeds, ◌/◌, ◌%◌, ◌<◌, ◌≤◌, ◌≡◌, ◌≢◌, refl, ap, ◌∙◌, sym, subst, Bool,
  true, false, ◌&&◌, ==_refl, ◌==◌, ==_iff, ltb→lt, inl, inr, ◌⊎◌, Option, none, some, ltb,
  if◌then◌else◌, update, arith, Bool-cases,
}
use cs.Fs.{Superblock, Store}
use cs.Fs.Bitmap.{bpb, bblock, bzero, set_bit, free_bit, take_bit, alloc_from, balloc, bfree}

-- The bit of the free map for block `b`.
abbrev pub in_use : Superblock → Store → ℕ → Bool
in_use sb s b = s.bits (bblock sb b) (b % bpb / 8) (b % bpb % 8)

module _ (sb : Superblock) (s : Store) where
  bit-in_use :
      (b c : ℕ) → b % bpb ≡ 0 → c < bpb → s.bits (bblock sb b) (c / 8) (c % 8) ≡ in_use sb s (b + c)
  bit-in_use b c e lt =
      let same_block : b / bpb ≡ (b + c) / bpb = omega (arith, e, lt) in
      let same_bit : c ≡ (b + c) % bpb = omega (arith, e, lt) in
      λ i. s.bits (same_block i + sb.bmapstart) (same_bit i / 8) (same_bit i % 8)

  -- What the inner loop finds.
  abbrev FreeBit : (b bi : ℕ) → Option ℕ → Type 0
  FreeBit b bi none = (c : ℕ) → bi ≤ c → c < bpb → b + c < sb.size → in_use sb s (b + c) ≡ true
  FreeBit b bi (some x) =
      (bi ≤ x)
      × (x < bpb)
      × (b + x < sb.size)
      × (in_use sb s (b + x) ≡ false)
      × ((c : ℕ) → bi ≤ c → c < x → in_use sb s (b + c) ≡ true)

  FreeBit-suc :
      (b bi : ℕ) (r : Option ℕ)
      → in_use sb s (b + bi) ≡ true
      → FreeBit b (bi + 1) r
      → FreeBit b bi r
  FreeBit-suc b bi none used f = λ c le lt in_disk. elim (Bool-cases (bi == c)) [
    | inl e ↦ rw (← (==_iff bi c).0 e) used
    | inr e ↦ f c (ground (arith, le, e)) lt in_disk
  ]
  FreeBit-suc b bi (some x) used (from_next, below, inside, free, before) = (
    omega (arith, from_next),
    below,
    inside,
    free,
    λ c le lt. elim (Bool-cases (bi == c)) [
      | inl e ↦ rw (← (==_iff bi c).0 e) used
      | inr e ↦ before c (ground (arith, le, e)) lt
    ],
  )

  free_bit-FreeBit :
      (b rest bi : ℕ) → b % bpb ≡ 0 → bi + rest ≡ bpb → FreeBit b bi (free_bit sb b rest bi s)
  unfolding free_bit
  free_bit-FreeBit b zero bi e size = λ c le lt. absurd (omega (arith, le, lt, size))
  free_bit-FreeBit b (suc rest) bi e size =
      let used = bit-in_use b bi e (omega (arith, size)) in
      elim (Bool-cases (ltb (b + bi) sb.size)) [
        | inl lt ↦ rw (lt) (elim (Bool-cases (in_use sb s (b + bi))) [
          | inl u ↦
              rw (used, u)
                (FreeBit-suc b bi _ u (free_bit-FreeBit b rest (bi + 1) e (omega (arith, size))))
          | inr u ↦
              rw (used, u)
                (
                  omega arith,
                  omega (arith, size),
                  ltb→lt (b + bi) sb.size lt,
                  u,
                  λ c le less. absurd (omega (arith, le, less)),
                )
        ])
        | inr ge ↦ rw (ge) (λ c le lt in_disk. absurd (ground (arith, ge, le, in_disk)))
      ]

-- What the outer loop returns: the first block that is not in use, marked and zeroed, or 0 when all
-- blocks are in use.
abbrev pub BallocOk : Superblock → Store → ℕ × Store → Type 0
BallocOk sb s (b, s') =
    ((b ≡ 0) × (s' ≡ s) × ((c : ℕ) → c < sb.size → in_use sb s c ≡ true))
    ⊎ ((b < sb.size)
        × (in_use sb s b ≡ false)
        × ((c : ℕ) → c < b → in_use sb s c ≡ true)
        × ((c : ℕ) → in_use sb s' c ≡ (if c == b then true else in_use sb s c))
        × ((i : ℕ) → (s'.words b i ≡ 0) × (s'.bytes b i ≡ 0))
        × ((c i : ℕ) → c ≢ b → (s'.words c i ≡ s.words c i) × (s'.bytes c i ≡ s.bytes c i)))

-- A write at one place of three indices.
update_thrice :
    (f : ℕ → ℕ → ℕ → Bool) (p q r : ℕ) (v : Bool) (p' q' r' : ℕ)
    → update f p (update (f p) q (update (f p q) r v)) p' q' r'
      ≡ (if (p == p') && (q == q') && (r == r') then v else f p' q' r')
update_thrice f p q r v p' q' r' = ground arith

module _ (sb : Superblock) (s : Store) where
  -- A block is its place in the map.
  same_place :
      (b c : ℕ)
      → bblock sb b ≡ bblock sb c
      → b % bpb / 8 ≡ c % bpb / 8
      → b % bpb % 8 ≡ c % bpb % 8
      → b ≡ c
  same_place b c p q r = omega (arith, p, q, r)

  set_bit-in_use :
      (b c : ℕ) (v : Bool)
      → in_use sb (set_bit (bblock sb b) (b % bpb) v s) c ≡ (if c == b then v else in_use sb s c)
  set_bit-in_use b c v =
      update_thrice s.bits (bblock sb b) (b % bpb / 8) (b % bpb % 8) v (bblock sb c) (c % bpb / 8)
        (c % bpb % 8)
      ∙ elim (Bool-cases (c == b)) [
        | inl e ↦
            rw
              (
                (==_iff c b).0 e,
                ==_refl (bblock sb b),
                ==_refl (b % bpb / 8),
                ==_refl (b % bpb % 8),
                ==_refl b,
              )
              refl
        | inr e ↦ ground (arith, e, same_place b c)
      ]

  abbrev UsedBelow : ℕ → Type 0
  UsedBelow b = (c : ℕ) → c < b → c < sb.size → in_use sb s c ≡ true

  extend_used :
      (b x : ℕ)
      → UsedBelow b
      → ((d : ℕ) → d < x → b + d < sb.size → in_use sb s (b + d) ≡ true)
      → UsedBelow (b + x)
  extend_used b x before more c lt inside = elim (Bool-cases (ltb c b)) [
    | inl e ↦ before c (ltb→lt c b e) inside
    | inr e ↦
        let split : b + (c - b) ≡ c = ground (arith, e) in
        subst (λ d. in_use sb s d ≡ true) split
          (more (c - b) (ground (arith, e, lt)) (ground (arith, split, inside)))
  ]

  same_write :
      (b x : ℕ)
      → b % bpb ≡ 0
      → x < bpb
      → set_bit (bblock sb (b + x)) ((b + x) % bpb) true s ≡ set_bit (bblock sb b) x true s
  same_write b x e lt =
      let same_block : (b + x) / bpb ≡ b / bpb = omega (arith, e, lt) in
      let same_bit : (b + x) % bpb ≡ x = omega (arith, e, lt) in
      λ i. set_bit (same_block i + sb.bmapstart) (same_bit i) true s

  round-BallocOk :
      (b : ℕ) (r : Option ℕ) (rest : ℕ × Store)
      → b % bpb ≡ 0
      → FreeBit sb s b 0 r
      → UsedBelow b
      → (UsedBelow (b + bpb) → BallocOk sb s rest)
      → BallocOk sb s (elim r [ none ↦ rest | some bi ↦ take_bit sb b s bi ])
  unfolding bzero
  round-BallocOk b none rest e f before then_rest =
      then_rest (extend_used b bpb before (λ d lt. f d (omega arith) lt))
  round-BallocOk b (some x) rest e (least, below, inside, free, earlier) before then_rest = inr (
    inside,
    free,
    λ c lt.
        extend_used b x before (λ d less _. earlier d (omega arith) less) c lt
          (omega (arith, lt, inside)),
    λ c. ap (λ t. in_use sb t c) (sym (same_write b x e below)) ∙ set_bit-in_use (b + x) c true,
    λ i. (ground arith, ground arith),
    λ c i ne. (ground (arith, ne), ground (arith, ne)),
  )

  alloc_from-BallocOk :
      (fuel b : ℕ)
      → b % bpb ≡ 0
      → sb.size < b + fuel
      → UsedBelow b
      → BallocOk sb s (alloc_from sb fuel b s)
  unfolding alloc_from
  alloc_from-BallocOk zero b e f before =
      inl (refl, refl, λ c lt. before c (omega (arith, f, lt)) lt)
  alloc_from-BallocOk (suc fuel) b e f before = elim (Bool-cases (ltb b sb.size)) [
    | inl lt ↦ rw (lt) (
        round-BallocOk b (free_bit sb b bpb 0 s) (alloc_from sb fuel (b + bpb) s) e
          (free_bit-FreeBit sb s b bpb 0 e refl) before
          (λ more. alloc_from-BallocOk fuel (b + bpb) (omega (arith, e)) (omega (arith, f)) more))
    | inr ge ↦ rw (ge) (inl (refl, refl, λ c lt. before c (ground (arith, ge, lt)) lt))
  ]

  -- `balloc` returns the first block that is not in use, marks it, zeroes it and leaves the other
  -- blocks alone; it returns 0 and changes nothing only if all blocks are in use.
  pub balloc-BallocOk : BallocOk sb s (balloc sb s)
  unfolding balloc
  balloc-BallocOk =
      alloc_from-BallocOk (suc sb.size) 0 refl (omega arith) (λ c lt. absurd (omega (arith, lt)))

  -- `bfree` panics exactly on a block that is not in use, and else makes this block free alone.
  pub bfree_lem :
      (b : ℕ)
      → (in_use sb s b ≡ false) × (bfree sb b s ≡ none)
        ⊎ (in_use sb s b ≡ true)
          × Succeeds
              (λ s'. (c : ℕ) → in_use sb s' c ≡ (if c == b then false else in_use sb s c))
              (bfree sb b s)
  unfolding bfree
  bfree_lem b = elim (Bool-cases (in_use sb s b)) [
    | inl e ↦ inr (e, rw (e) (λ c. set_bit-in_use b c false))
    | inr e ↦ inl (e, rw (e) refl)
  ]

  -- `bfree` of a block in use writes the free map only.
  pub bfree-Succeeds :
      (b : ℕ)
      → in_use sb s b ≡ true
      → Succeeds
          (λ s'.
            ((c : ℕ) → in_use sb s' c ≡ (if c == b then false else in_use sb s c))
            × (s'.words ≡ s.words)
            × (s'.bytes ≡ s.bytes))
          (bfree sb b s)
  unfolding bfree
  bfree-Succeeds b e = rw (e) (λ c. set_bit-in_use b c false, refl, refl)
