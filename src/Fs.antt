-- ===== src/Fs.antt =====
-- XV6 Scheduler/xv6-riscv/kernel/fs.c: the file system on the disk. Blocks are read and written through
-- the buffer cache and the log, whose models are in Bcache and Log; here a block is what the
-- transaction sees in it. The regions of the disk are apart, and each is seen as the type that the code
-- casts it to: bits of the free map, inodes, the block numbers of an indirect block, bytes.
pub mod Bitmap
pub mod Alloc
pub mod Map
pub mod Owned
pub mod Trunc
pub mod Discard
pub mod Content
pub mod Read
pub mod Write
pub mod ReadBack
pub mod Path
pub mod Inodes
pub mod Table
mod Tests
use cs.Common.{ℕ, Bool}

-- `struct dinode`
pub record Dinode : Type 0 where
  pub kind : ℕ
  pub major : ℕ
  pub minor : ℕ
  pub nlink : ℕ
  pub size : ℕ
  pub addrs : ℕ → ℕ

-- The part of `struct superblock` that is read.
pub record Superblock : Type 0 where
  pub size : ℕ
  pub ninodes : ℕ
  pub inodestart : ℕ
  pub bmapstart : ℕ

-- The disk, by block number: bits by byte and bit, inodes by their place, words by their index, and
-- bytes by their offset.
pub record Store : Type 0 where
  pub bits : ℕ → ℕ → ℕ → Bool
  pub dinodes : ℕ → ℕ → Dinode
  pub words : ℕ → ℕ → ℕ
  pub bytes : ℕ → ℕ → ℕ

abbrev pub bsize : ℕ
bsize = 1024
