-- ===== src/Fs/Owned.antt =====
-- The blocks of a file: each is in use, and has one place in the file. `bmap` keeps this.
use cs.Common.{
  ℕ, ◌+◌, ◌-◌, ◌<◌, ◌≤◌, ◌≡◌, ◌≢◌, refl, ◌∙◌, sym, subst, Bool, true, false, not, ◌||◌, ◌==◌,
  ==_iff, inl, inr, ◌⊎◌, none, ltb, if◌then◌else◌, update, arith, Bool-cases, Succeeds,
}
use mathlib.Core.Bool.{false≢true}
use cs.Fs.{Superblock, Store, Dinode}
use cs.Fs.Bitmap.{balloc}
use cs.Fs.Alloc.{in_use, BallocOk, balloc-BallocOk}
use cs.Fs.Map.{File, direct_block, indirect_block, bmap}

-- The places of a file that name a block: `addrs`, and behind them the words of the indirect block.
abbrev pub slot : File → ℕ → ℕ
slot (ip, s) i =
    if ltb i 13
    then ip.addrs i
    else if (ip.addrs 12 == 0) || not (ltb i 269)
    then 0
    else s.words (ip.addrs 12) (i - 13)

-- Every block that is named is in use, and is named once.
abbrev pub Owned : (used : ℕ → Bool) → (place : ℕ → ℕ) → Type 0
Owned used place =
    ((i : ℕ) → place i ≢ 0 → used (place i) ≡ true)
    × ((i j : ℕ) → i ≢ j → place i ≡ place j → place i ≡ 0)

-- A free block goes into an empty place.
Owned-add :
    (used used' : ℕ → Bool) (place place' : ℕ → ℕ) (k b : ℕ)
    → used b ≡ false
    → ((c : ℕ) → used' c ≡ (if c == b then true else used c))
    → ((i : ℕ) → place' i ≡ (if i == k then b else place i))
    → Owned used place
    → Owned used' place'
Owned-add used used' place place' k b free taken put (live, once) = (
  λ i named. ground (arith, taken (place' i), put i, live i, named),
  λ i j ne same. ground (arith, put i, put j, once i j ne, same, ne, live i, live j, free),
)

-- Whether all blocks of the disk are in use.
abbrev pub IsFull : Superblock → Store → Type 0
IsFull sb s = (c : ℕ) → c < sb.size → in_use sb s c ≡ true

-- What a search for the block at place `k` promises: the file still owns its blocks, the blocks it
-- had stand where they were with their contents, and the result is the block at the place, which is
-- missing only if the disk is full.
pub record Found (sb : Superblock) (f : File) (k : ℕ) (r : ℕ × File) : Type 0 where
  pub owned : Owned (in_use sb r.1.1) (slot r.1)
  pub boot : in_use sb r.1.1 0 ≡ true
  pub kept : (i : ℕ) → slot f i ≢ 0 → slot r.1 i ≡ slot f i
  pub same_bytes : (i o : ℕ) → slot f i ≢ 0 → r.1.1.bytes (slot f i) o ≡ f.1.bytes (slot f i) o
  pub at : r.0 ≡ slot r.1 k
  pub full : r.0 ≡ 0 → IsFull sb r.1.1
  pub same_size : r.1.0.size ≡ f.0.size

module _ (sb : Superblock) (ip : Dinode) (s : Store) where
  module _ (own : Owned (in_use sb s) (slot (ip, s))) (boot_used : in_use sb s 0 ≡ true) where
    -- Nothing to allocate.
    there : (k a : ℕ) → a ≢ 0 → a ≡ slot (ip, s) k → Found sb (ip, s) k (a, (ip, s))
    there k a nz e = record {
      owned = own;
      boot = boot_used;
      kept = λ i h. refl;
      same_bytes = λ i o h. refl;
      at = e;
      full = λ z. absurd (nz z);
      same_size = refl;
    }

    -- Nothing there, and no block left.
    disk_full :
        (k : ℕ) (t : Store)
        → slot (ip, s) k ≡ 0
        → t ≡ s
        → IsFull sb s
        → Found sb (ip, s) k (0, (ip, t))
    disk_full k t empty same all_used =
        subst (λ u. Found sb (ip, s) k (0, (ip, u))) (sym same)
          (record {
            owned = own;
            boot = boot_used;
            kept = λ i h. refl;
            same_bytes = λ i o h. refl;
            at = sym empty;
            full = λ z. all_used;
            same_size = refl;
          })

    named_used : (i : ℕ) → slot (ip, s) i ≢ 0 → in_use sb s (slot (ip, s) i) ≢ false
    named_used i h e = false≢true (sym e ∙ own.0 i h)

    fresh_apart : (b : ℕ) → in_use sb s b ≡ false → ip.addrs 12 ≢ 0 → ip.addrs 12 ≢ b
    fresh_apart b free h e = named_used 12 h (subst (λ c. in_use sb s c ≡ false) (sym e) free)

    -- A fresh block at place `k`.
    added :
        (k b : ℕ) (f' : File)
        → slot (ip, s) k ≡ 0
        → in_use sb s b ≡ false
        → ((c : ℕ) → in_use sb f'.1 c ≡ (if c == b then true else in_use sb s c))
        → ((i : ℕ) → slot f' i ≡ (if i == k then b else slot (ip, s) i))
        → ((c o : ℕ) → c ≢ b → f'.1.bytes c o ≡ s.bytes c o)
        → f'.0.size ≡ ip.size
        → Found sb (ip, s) k (b, f')
    added k b f' empty free taken put others size = record {
      owned =
          Owned-add (in_use sb s) (in_use sb f'.1) (slot (ip, s)) (slot f') k b free taken put own;
      boot = ground (arith, taken 0, boot_used);
      kept = λ i h. ground (arith, put i, h, empty);
      same_bytes = λ i o h.
          others (slot (ip, s) i) o
            (λ e. named_used i h (subst (λ c. in_use sb s c ≡ false) (sym e) free));
      at = ground (arith, put k);
      full = λ z. absurd (ground (arith, z, free, boot_used));
      same_size = size;
    }

    -- A fresh block at `addrs[i]`.
    fresh_direct :
        (i : ℕ) (r : ℕ × Store)
        → i < 13
        → ip.addrs i ≡ 0
        → BallocOk sb s r
        → Found sb
            (ip, s)
            i
            (if r.0 == 0
              then (0, (ip, r.1))
              else (r.0, (record ip { addrs = update ip.addrs i r.0 }, r.1)))
    fresh_direct i (b, t) lt empty (inl (z, same, all_used)) =
        rw (z) (disk_full i t (ground (arith, lt, empty)) same all_used)
    fresh_direct i (b, t) lt empty (inr (inside, free, first, taken, zeroed, others)) =
        let nz : (b == 0) ≡ false = ground (arith, free, boot_used) in
        rw (nz) (
          added i b (record ip { addrs = update ip.addrs i b }, t) (ground (arith, lt, empty)) free
            taken
            (λ j. ground (
              arith,
              lt,
              empty,
              nz,
              zeroed (j - 13),
              others (ip.addrs 12) (j - 13),
              fresh_apart b free,
            ))
            (λ c o ne. (others c o ne).1) refl)

    -- A fresh block at `bn` of the indirect block.
    fresh_indirect :
        (bn : ℕ) (r : ℕ × Store)
        → bn < 256
        → ip.addrs 12 ≢ 0
        → s.words (ip.addrs 12) bn ≡ 0
        → BallocOk sb s r
        → Found sb
            (ip, s)
            (bn + 13)
            (if r.0 == 0 then (0, (ip, r.1)) else (
              r.0,
              (
                ip,
                record r.1 {
                  words = update r.1.words (ip.addrs 12) (update (r.1.words (ip.addrs 12)) bn r.0);
                },
              ),
            ))
    fresh_indirect bn (b, t) lt there12 empty (inl (z, same, all_used)) =
        rw (z) (disk_full (bn + 13) t (ground (arith, lt, empty)) same all_used)
    fresh_indirect bn (b, t) lt there12 empty (inr (inside, free, first, taken, zeroed, others)) =
        let nz : (b == 0) ≡ false = ground (arith, free, boot_used) in
        rw (nz) (
          added (bn + 13) b
            (
              ip,
              record t {
                words = update t.words (ip.addrs 12) (update (t.words (ip.addrs 12)) bn b);
              },
            )
            (ground (arith, lt, empty)) free taken
            (λ j. ground (arith, lt, there12, others (ip.addrs 12) (j - 13), fresh_apart b free))
            (λ c o ne. (others c o ne).1) refl)

    direct_block-Found : (i : ℕ) → i < 13 → Found sb (ip, s) i (direct_block sb i (ip, s))
    unfolding direct_block
    direct_block-Found i lt = elim (Bool-cases (ip.addrs i == 0)) [
      | inl e ↦
          rw (e)
            (fresh_direct i (balloc sb s) lt ((==_iff (ip.addrs i) 0).0 e) (balloc-BallocOk sb s))
      | inr e ↦ rw (e) (there i (ip.addrs i) (λ z. ground (arith, e, z)) (ground (arith, lt)))
    ]

    indirect_block-Found :
        (bn : ℕ)
        → bn < 256
        → ip.addrs 12 ≢ 0
        → Found sb (ip, s) (bn + 13) (indirect_block sb (ip.addrs 12) bn (ip, s))
    unfolding indirect_block
    indirect_block-Found bn lt there12 = elim (Bool-cases (s.words (ip.addrs 12) bn == 0)) [
      | inl e ↦ rw (e) (
          fresh_indirect bn (balloc sb s) lt there12 ((==_iff (s.words (ip.addrs 12) bn) 0).0 e)
            (balloc-BallocOk sb s))
      | inr e ↦ rw (e) (
          there (bn + 13) (s.words (ip.addrs 12) bn) (λ z. ground (arith, e, z))
            (ground (arith, lt, there12)))
    ]

-- The place of a file's block `bn`.
abbrev pub place_of : ℕ → ℕ
place_of bn = if ltb bn 12 then bn else bn + 1

module _ (sb : Superblock) where
  -- One search after another: what the first one found stays.
  Found-then :
      (f g : File) (l k a : ℕ) (r : ℕ × File)
      → Found sb f l (a, g)
      → Found sb g k r
      → Found sb f k r
  Found-then f g l k a r p q = record {
    owned = q.owned;
    boot = q.boot;
    kept = λ i h. ground (arith, p.kept i, q.kept i, h);
    same_bytes = λ i o h.
        subst (λ c. r.1.1.bytes c o ≡ g.1.bytes c o) (p.kept i h)
          (q.same_bytes i o (λ z. h (sym (p.kept i h) ∙ z)))
        ∙ p.same_bytes i o h;
    at = q.at;
    full = q.full;
    same_size = q.same_size ∙ p.same_size;
  }

  -- No indirect block, and no room for one: the block is missing too.
  no_indirect :
      (f : File) (bn : ℕ) (l : ℕ × File)
      → 12 ≤ bn
      → l.0 ≡ 0
      → Found sb f 12 l
      → Found sb f (bn + 1) l
  no_indirect f bn (a, (ip, s)) le z p = record {
    owned = p.owned;
    boot = p.boot;
    kept = p.kept;
    same_bytes = p.same_bytes;
    at = ground (arith, z, p.at, le);
    full = p.full;
    same_size = p.same_size;
  }

  beyond_12 :
      (f : File) (bn : ℕ) (l : ℕ × File)
      → 12 ≤ bn
      → bn < 268
      → Found sb f 12 l
      → Found sb f (bn + 1) (if l.0 == 0 then l else indirect_block sb l.0 (bn - 12) l.1)
  beyond_12 f bn (a, (ip, s)) le lt p = elim (Bool-cases (a == 0)) [
    | inl e ↦ rw (e) (no_indirect f bn (a, (ip, s)) le ((==_iff a 0).0 e) p)
    | inr e ↦
        let named : ip.addrs 12 ≢ 0 = λ z. ground (arith, e, p.at, z) in
        let place : bn - 12 + 13 ≡ bn + 1 = omega (arith, le) in
        rw (e, p.at)
          (Found-then f (ip, s) 12 (bn + 1) a (indirect_block sb (ip.addrs 12) (bn - 12) (ip, s)) p
            (subst (λ k. Found sb (ip, s) k (indirect_block sb (ip.addrs 12) (bn - 12) (ip, s)))
              place
              (indirect_block-Found sb ip s p.owned p.boot (bn - 12) (omega (arith, le, lt))
                named)))
  ]

  -- `bmap` panics exactly past the 268 blocks of the largest file. Else it finds the block, or
  -- allocates it: the file owns its blocks as before, each with one place, what it had stays, and the
  -- result is 0 only if the disk is full.
  pub bmap-Found :
      (bn : ℕ) (f : File)
      → Owned (in_use sb f.1) (slot f)
      → in_use sb f.1 0 ≡ true
      → (bn < 268) × Succeeds (Found sb f (place_of bn)) (bmap sb bn f)
        ⊎ (268 ≤ bn) × (bmap sb bn f ≡ none)
  unfolding bmap
  bmap-Found bn (ip, s) own boot_used = elim (Bool-cases (ltb bn 12)) [
    | inl low ↦ rw (low) (
        inl
          (ground (arith, low), direct_block-Found sb ip s own boot_used bn (ground (arith, low))))
    | inr high ↦ elim (Bool-cases (ltb (bn - 12) 256)) [
      | inl lt ↦
          rw (high, lt)
            (inl (
              ground (arith, lt),
              beyond_12 (ip, s) bn (direct_block sb 12 (ip, s)) (ground (arith, high))
                  (ground (arith, lt)) (direct_block-Found sb ip s own boot_used 12 (omega arith)),
            ))
      | inr ge ↦ rw (high, ge) (inr (ground (arith, ge), refl))
    ]
  ]
