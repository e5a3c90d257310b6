-- ===== src/Fs/Table.antt =====
-- An inode has one copy in memory, and the last reference to an unlinked one frees it.
use cs.Common.{
  ℕ, zero, suc, ◌+◌, ◌<◌, ◌≡◌, ◌≢◌, refl, subst, Bool, true, false, ◌&&◌, inl, inr, ◌⊎◌, Option,
  none, some, ◌==◌, ==_iff, arith, Bool-cases, Succeeds, Succeeds-bind,
}
use cs.Fs.{Superblock}
use cs.Fs.Alloc.{in_use}
use cs.Fs.Map.{itrunc}
use cs.Fs.Owned.{slot, Owned}
use cs.Fs.Discard.{itrunc-Discarded}
use cs.Fs.Inodes.{
  Itable, ninode, holds_inode, Search, remember, scan, at_end, got, iget, dinode_of, free_on_disk,
  drop_ref, iput,
}

-- No inode of a device has two entries with references.
abbrev pub OneCopy : Itable → Type 0
OneCopy t =
    (i j : ℕ)
    → i < ninode
    → j < ninode
    → i ≢ j
    → 0 < (t.inode i).ref
    → holds_inode t (t.inode i).dev (t.inode i).inum j ≡ false

abbrev NoneHolds : Itable → (dev inum n : ℕ) → Type 0
NoneHolds t dev inum n = (j : ℕ) → j < n → holds_inode t dev inum j ≡ false

-- What the loop finds.
abbrev Scanned : Itable → (dev inum : ℕ) → Search → Type 0
Scanned t dev inum (Search.found i) = (i < ninode) × (holds_inode t dev inum i ≡ true)
Scanned t dev inum (Search.recycled i) =
    (i < ninode) × ((t.inode i).ref ≡ 0) × NoneHolds t dev inum ninode
Scanned t dev inum Search.full =
    ((j : ℕ) → j < ninode → (t.inode j).ref ≢ 0) × NoneHolds t dev inum ninode

-- What is known of the entries that the loop has passed.
abbrev Passed : Itable → ℕ → Option ℕ → Type 0
Passed t n none = (j : ℕ) → j < n → (t.inode j).ref ≢ 0
Passed t n (some e) = (e < n) × ((t.inode e).ref ≡ 0)

module _ (t : Itable) (dev inum : ℕ) where
  next_Passed :
      (i : ℕ) (empty : Option ℕ) → Passed t i empty → Passed t (i + 1) (remember t i empty)
  next_Passed i (some e) p = (omega (arith, p.0), p.1)
  next_Passed i none p = elim (Bool-cases ((t.inode i).ref == 0)) [
    | inl e ↦ rw (e) (omega arith, (==_iff (t.inode i).ref 0).0 e)
    | inr e ↦ rw (e) (λ j lt z. elim (Bool-cases (j == i)) [
      | inl same ↦ ground (arith, e, (==_iff j i).0 same, z)
      | inr other ↦ p j (ground (arith, lt, other)) z
    ])
  ]

  end-Scanned :
      (empty : Option ℕ)
      → Passed t ninode empty
      → NoneHolds t dev inum ninode
      → Scanned t dev inum (at_end empty)
  end-Scanned none p h = (p, h)
  end-Scanned (some e) p h = (p.0, p.1, h)

  scan-Scanned :
      (rest i : ℕ) (empty : Option ℕ)
      → i + rest ≡ ninode
      → Passed t i empty
      → NoneHolds t dev inum i
      → Scanned t dev inum (scan t dev inum rest i empty)
  unfolding scan
  scan-Scanned zero i empty e p h =
      let all : i ≡ ninode = omega (arith, e) in
      end-Scanned empty (subst (λ n. Passed t n empty) all p)
        (subst (λ n. NoneHolds t dev inum n) all h)
  scan-Scanned (suc rest) i empty e p h = elim (Bool-cases (holds_inode t dev inum i)) [
    | inl here ↦ rw (here) (omega (arith, e), here)
    | inr other ↦ rw (other) (
        scan-Scanned rest (i + 1) (remember t i empty) (omega (arith, e)) (next_Passed i empty p)
          (λ j lt. elim (Bool-cases (j == i)) [
            | inl same ↦ rw ((==_iff j i).0 same) other
            | inr ne ↦ h j (ground (arith, lt, ne))
          ]))
  ]

-- What `iget` makes of the table. It panics only if no entry holds the inode and none is free.
abbrev pub IgetOk : Itable → (dev inum : ℕ) → Option (ℕ × Itable) → Type 0
IgetOk t dev inum none =
    ((j : ℕ) → j < ninode → (t.inode j).ref ≢ 0)
    × ((j : ℕ) → j < ninode → holds_inode t dev inum j ≡ false)
IgetOk t dev inum (some (i, t')) =
    (i < ninode)
    × OneCopy t'
    × (holds_inode t' dev inum i ≡ true)
    × ((j : ℕ) → j ≢ i → t'.inode j ≡ t.inode j)
    × ((holds_inode t dev inum i ≡ true) × ((t'.inode i).copy ≡ (t.inode i).copy)
        ⊎ ((t.inode i).ref ≡ 0)
          × ((t'.inode i).ref ≡ 1)
          × ((t'.inode i).valid ≡ false)
          × ((j : ℕ) → j < ninode → holds_inode t dev inum j ≡ false))

module _ (t : Itable) (one : OneCopy t) (dev inum : ℕ) where
  got-IgetOk : (r : Search) → Scanned t dev inum r → IgetOk t dev inum (got dev inum t r)
  got-IgetOk (Search.found i) (lt, here) = (
    lt,
    λ a b la lb ne live. ground (arith, one a b la lb ne, here, live, ne),
    ground (arith, here),
    λ j ne. ground (arith, ne),
    inl (here, ground arith),
  )
  got-IgetOk (Search.recycled i) (lt, free, none_holds) = (
    lt,
    λ a b la lb ne live.
        ground (arith, one a b la lb ne, none_holds a la, none_holds b lb, live, free, ne),
    ground arith,
    λ j ne. ground (arith, ne),
    inr (free, ground arith, ground arith, none_holds),
  )
  got-IgetOk Search.full (used, none_holds) = (used, none_holds)

  -- `iget` keeps one copy of each inode: it returns the entry that holds the inode, or else a free
  -- one that it claims; it panics only if there is neither.
  pub iget-IgetOk : IgetOk t dev inum (iget dev inum t)
  unfolding iget
  iget-IgetOk = got-IgetOk (scan t dev inum ninode 0 none) (
      scan-Scanned t dev inum ninode 0 none refl (λ j lt. absurd (omega (arith, lt)))
        (λ j lt. absurd (omega (arith, lt))))

-- The inode is free on the disk, its blocks are given back and those of other files kept.
abbrev pub FreedOnDisk : Superblock → ℕ → Itable → Itable → Type 0
FreedOnDisk sb i t t' =
    ((dinode_of sb t'.disk (t.inode i).inum).kind ≡ 0)
    × ((t'.inode i).ref ≡ 0)
    × ((t'.inode i).valid ≡ false)
    × ((k : ℕ)
        → slot ((t.inode i).copy, t.disk) k ≢ 0
        → in_use sb t'.disk (slot ((t.inode i).copy, t.disk) k) ≡ false)
    × ((c : ℕ)
        → ((k : ℕ) → slot ((t.inode i).copy, t.disk) k ≢ 0 → slot ((t.inode i).copy, t.disk) k ≢ c)
        → in_use sb t'.disk c ≡ in_use sb t.disk c)

-- Whether `iput` drops the last reference to an inode without links.
abbrev pub is_last : Itable → ℕ → Bool
is_last t i = ((t.inode i).ref == 1) && (t.inode i).valid && ((t.inode i).copy.nlink == 0)

-- What `free_on_disk` leaves, the reference apart.
abbrev Unlinked : Superblock → ℕ → Itable → Itable → Type 0
Unlinked sb i t t' =
    ((dinode_of sb t'.disk (t.inode i).inum).kind ≡ 0)
    × ((t'.inode i).ref ≡ (t.inode i).ref)
    × ((t'.inode i).valid ≡ false)
    × ((k : ℕ)
        → slot ((t.inode i).copy, t.disk) k ≢ 0
        → in_use sb t'.disk (slot ((t.inode i).copy, t.disk) k) ≡ false)
    × ((c : ℕ)
        → ((k : ℕ) → slot ((t.inode i).copy, t.disk) k ≢ 0 → slot ((t.inode i).copy, t.disk) k ≢ c)
        → in_use sb t'.disk c ≡ in_use sb t.disk c)

free_on_disk-Unlinked :
    (sb : Superblock) (i : ℕ) (t : Itable)
    → Owned (in_use sb t.disk) (slot ((t.inode i).copy, t.disk))
    → Succeeds (Unlinked sb i t) (free_on_disk sb i t)
unfolding free_on_disk
free_on_disk-Unlinked sb i t own =
    Succeeds-bind (Unlinked sb i t) (itrunc sb ((t.inode i).copy, t.disk)) _
      (itrunc-Discarded sb ((t.inode i).copy, t.disk) own)
      (λ (d, s) (empty, size, freed, kept). (ground arith, ground arith, ground arith, freed, kept))

-- One reference less to the entry, and nothing else changed.
abbrev pub OneLess : ℕ → Itable → Itable → Type 0
OneLess i t t' =
    ((t'.inode i).ref + 1 ≡ (t.inode i).ref)
    × (t'.inode i ≡ record (t.inode i) { ref = (t'.inode i).ref })
    × ((j : ℕ) → j ≢ i → t'.inode j ≡ t.inode j)
    × (t'.disk ≡ t.disk)

drop_ref-OneLess : (i : ℕ) (t : Itable) → 0 < (t.inode i).ref → OneLess i t (drop_ref i t)
drop_ref-OneLess i t held = (ground (arith, held), ground arith, λ j ne. ground (arith, ne), refl)

-- For an entry with a reference, whose inode owns its blocks: `iput` of the last reference to an inode
-- without links frees the inode and its blocks on the disk, without a panic, and keeps the blocks of
-- others. In every other case it does not panic, the entry has
-- one reference less, and the rest of the entry, the other entries and the disk are as before.
pub iput_lem :
    (sb : Superblock) (i : ℕ) (t : Itable)
    → 0 < (t.inode i).ref
    → Owned (in_use sb t.disk) (slot ((t.inode i).copy, t.disk))
    → (is_last t i ≡ true) × Succeeds (FreedOnDisk sb i t) (iput sb i t)
      ⊎ (is_last t i ≡ false) × Succeeds (OneLess i t) (iput sb i t)
unfolding iput
iput_lem sb i t held own = elim (Bool-cases (is_last t i)) [
  | inl e ↦ inl (
    e,
    rw (e) (
        Succeeds-bind (FreedOnDisk sb i t) (free_on_disk sb i t) (λ t'. some (drop_ref i t'))
          (free_on_disk-Unlinked sb i t own)
          (λ t' (kind, ref, invalid, freed, kept).
            (kind, ground (arith, e, ref), ground (arith, invalid), freed, kept))),
  )
  | inr e ↦ inr (e, rw (e) (drop_ref-OneLess i t held))
]
