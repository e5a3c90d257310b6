-- ===== src/Fs/Tests.antt =====
-- The file system on a small disk: 200 blocks, of which the first ten are in use.
use cs.Common.{
  ℕ, ◌+◌, ◌*◌, ◌<◌, ◌≡◌, refl, Bool, true, false, ◌&&◌, ◌⊎◌, none, some, ◌==◌, ltb, if◌then◌else◌,
  arith, Succeeds, codes, ◌≤◌,
}
use cs.Common.Int.{pos, negsuc}
use cs.Strings.{Memory}
use cs.Fs.{Superblock, Store}
use cs.Fs.Bitmap.{balloc, bfree, free_bit, alloc_from}
use cs.Fs.Alloc.{in_use, BallocOk, balloc-BallocOk, bfree_lem}
use cs.Fs.Map.{File, bmap, itrunc, direct_block}
use cs.Fs.Owned.{slot, Owned, place_of, Found, bmap-Found}
use cs.Fs.Discard.{Discarded, itrunc-Discarded}
use cs.Fs.Content.{readi, writei, write_from}
use cs.Fs.Read.{GaveAll, readable, readi-GaveAll}
use cs.Fs.ReadBack.{refused, Written, writei-Written, readi-writei}
use cs.Fs.Path.{Split, skipelem, skip_slashes, split_elem, skipelem-Split}
use cs.Fs.Inodes.{Itable, empty_dinode, iget, iput}
use cs.Fs.Table.{OneCopy, IgetOk, iget-IgetOk, FreedOnDisk, OneLess, is_last, iput_lem}

abbrev small : Superblock
small = record { size = 200; ninodes = 32; inodestart = 2; bmapstart = 4 }

abbrev disk : Store
disk = record {
  bits = λ block byte bit. (block == 4) && ltb (byte * 8 + bit) 10;
  dinodes = λ block i. empty_dinode;
  words = λ block i. 0;
  bytes = λ block i. 0;
}

-- A file without blocks, and one with block 7.
abbrev empty_file : File
empty_file = (empty_dinode, disk)

abbrev one_block : File
one_block = (record empty_dinode { kind = 2; size = 5; addrs = λ i. if i == 0 then 7 else 0 }, disk)

empty_file-Owned : Owned (in_use small disk) (slot empty_file)
empty_file-Owned = (λ i named. absurd (named (ground arith)), λ i j ne same. ground arith)

seven_used : in_use small disk 7 ≡ true
seven_used = refl

one_block-Owned : Owned (in_use small disk) (slot one_block)
one_block-Owned =
    (λ i named. ground (arith, named, seven_used), λ i j ne same. ground (arith, ne, same))

balloc-BallocOk_example : BallocOk small disk (balloc small disk)
balloc-BallocOk_example = balloc-BallocOk small disk

tenth_block : (balloc small disk).0 ≡ 10
unfolding balloc alloc_from free_bit
tenth_block = refl

bfree_lem_example :
    (in_use small disk 7 ≡ false) × (bfree small 7 disk ≡ none)
    ⊎ (in_use small disk 7 ≡ true)
      × Succeeds
          (λ s'. (c : ℕ) → in_use small s' c ≡ (if c == 7 then false else in_use small disk c))
          (bfree small 7 disk)
bfree_lem_example = bfree_lem small disk 7

bmap-Found_example :
    (3 < 268) × Succeeds (Found small empty_file (place_of 3)) (bmap small 3 empty_file)
    ⊎ (268 ≤ 3) × (bmap small 3 empty_file ≡ none)
bmap-Found_example = bmap-Found small 3 empty_file empty_file-Owned refl

itrunc-Discarded_example : Succeeds (Discarded small one_block) (itrunc small one_block)
itrunc-Discarded_example = itrunc-Discarded small one_block one_block-Owned

abbrev always : ℕ → ℕ → Bool
always a m = true

abbrev source : Memory
source a = a

abbrev zero_memory : Memory
zero_memory a = 0

readi-GaveAll_example :
    Succeeds
      (GaveAll one_block (readable one_block 1 9) 1 100 (readable one_block 1 9) zero_memory)
      (readi small always 100 1 9 one_block zero_memory)
readi-GaveAll_example =
    readi-GaveAll small always one_block 100 1 9 zero_memory (λ o lt. ground (arith, lt))
      (omega arith) (omega arith) (λ d m. refl)

writei-Written_example :
    (refused empty_file 0 3 ≡ true)
      × (writei small 1 always 50 0 3 empty_file source ≡ some (negsuc 0, empty_file))
    ⊎ (refused empty_file 0 3 ≡ false)
      × Succeeds
          (Written small empty_file 0 3 50 source)
          (writei small 1 always 50 0 3 empty_file source)
writei-Written_example =
    writei-Written small 1 always (λ d m. refl) empty_file 0 3 50 source (empty_file-Owned, refl)
      (omega arith) (omega arith)

-- The file after three bytes are written to it.
abbrev written : File
written = elim (writei small 1 always 50 0 3 empty_file source) [ none ↦ empty_file | some r ↦ r.1 ]

three_written : writei small 1 always 50 0 3 empty_file source ≡ some (pos 3, written)
unfolding writei write_from bmap direct_block balloc alloc_from free_bit
three_written = refl

readi-writei_example :
    Succeeds
      (λ (r, _, mem'). (r ≡ pos 3) × ((i : ℕ) → i < 3 → mem' (100 + i) ≡ source (50 + i)))
      (readi small always 100 0 3 written zero_memory)
readi-writei_example =
    readi-writei small 1 always (λ d m. refl) empty_file written 0 3 50 100 source zero_memory
      (empty_file-Owned, refl) (λ o lt. absurd (omega (arith, lt))) (omega arith) (omega arith)
      three_written

skipelem-Split_example : Split (codes "//a///bb/c") (skipelem (codes "//a///bb/c"))
skipelem-Split_example = skipelem-Split (codes "//a///bb/c")

first_element : skipelem (codes "//a///bb/c") ≡ some (codes "bb/c", codes "a")
unfolding skipelem skip_slashes split_elem
first_element = refl

-- Entry 0 holds the last reference to inode 5, which has no links.
abbrev unlinked : Itable
unlinked = record {
  inode = λ i. record {
    dev = 1;
    inum = 5;
    ref = (if i == 0 then 1 else 0);
    lock = record { locked = false; pid = 0 };
    valid = true;
    copy = one_block.0;
  };
  disk = disk;
}

unlinked-OneCopy : OneCopy unlinked
unlinked-OneCopy = λ i j hi hj ne live. ground (arith, ne, live)

iget-IgetOk_example : IgetOk unlinked 1 6 (iget 1 6 unlinked)
iget-IgetOk_example = iget-IgetOk unlinked unlinked-OneCopy 1 6

iput_lem_example :
    (is_last unlinked 0 ≡ true) × Succeeds (FreedOnDisk small 0 unlinked) (iput small 0 unlinked)
    ⊎ (is_last unlinked 0 ≡ false) × Succeeds (OneLess 0 unlinked) (iput small 0 unlinked)
iput_lem_example = iput_lem small 0 unlinked (omega arith) one_block-Owned
