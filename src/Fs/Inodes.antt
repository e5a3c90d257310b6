-- ===== src/Fs/Inodes.antt =====
-- The table of inodes in memory: `ialloc`, `iget`, `idup`, `ilock`, `iunlock` and `iput` of fs.c. The
-- spin lock of the table is left out. `iput` is one step, too, although it lets go of that lock around
-- `itrunc` and `iupdate`: it then has the sleep lock and the last reference. Who calls `iput` holds a
-- reference, so the counts are numbers.
use cs.Common.{
  ℕ, zero, suc, ◌+◌, ◌-◌, ◌/◌, ◌%◌, Bool, true, false, not, ◌||◌, ◌&&◌, Option, none, some, ◌==◌,
  ltb, if◌then◌else◌, update, ◌>>=◌,
}
use cs.SleepLock.{SleepLock, init_sleep_lock, release_sleep, holding_sleep}
use cs.Fs.{Superblock, Store, Dinode}
use cs.Fs.Map.{itrunc}
use cs.Fs.Content.{ipb, iupdate}

abbrev pub ninode : ℕ
ninode = 50

-- `struct inode`
pub record Inode : Type 0 where
  pub dev : ℕ
  pub inum : ℕ
  pub ref : ℕ
  pub lock : SleepLock
  pub valid : Bool
  pub copy : Dinode

-- `itable`, and the disk.
pub record Itable : Type 0 where
  pub inode : ℕ → Inode
  pub disk : Store

abbrev pub set_inode : Itable → ℕ → Inode → Itable
set_inode t i x = record t { inode = update t.inode i x }

-- `iinit`, with `rest` entries to go from `i` on.
unfoldable pub iinit_from : (rest i : ℕ) → Itable → Itable
iinit_from zero i t = t
iinit_from (suc rest) i t =
    iinit_from rest (i + 1) (set_inode t i (record (t.inode i) { lock = init_sleep_lock }))

abbrev pub iinit : Itable → Itable
iinit t = iinit_from ninode 0 t

abbrev pub holds_inode : Itable → (dev inum : ℕ) → ℕ → Bool
holds_inode t dev inum i =
    ltb 0 (t.inode i).ref && ((t.inode i).dev == dev) && ((t.inode i).inum == inum)

-- What the loop of `iget` finds.
pub data Search : Type 0 where
  found : ℕ → Search
  recycled : ℕ → Search
  full : Search

abbrev pub at_end : Option ℕ → Search
at_end none = Search.full
at_end (some i) = Search.recycled i

-- Entry `i` is remembered where it is free and there was none before.
abbrev pub remember : Itable → ℕ → Option ℕ → Option ℕ
remember t i none = if (t.inode i).ref == 0 then some i else none
remember t i (some e) = some e

-- The loop, with `rest` entries to go from `i` on; `empty` is the first free entry seen so far.
unfoldable pub scan : Itable → (dev inum rest i : ℕ) → (empty : Option ℕ) → Search
scan t dev inum zero i empty = at_end empty
scan t dev inum (suc rest) i empty =
    let further = scan t dev inum rest (i + 1) (remember t i empty) in
    if holds_inode t dev inum i then Search.found i else further

abbrev pub got : (dev inum : ℕ) → Itable → Search → Option (ℕ × Itable)
got dev inum t (Search.found i) =
    some (i, set_inode t i (record (t.inode i) { ref = (t.inode i).ref + 1 }))
got dev inum t (Search.recycled i) =
    some (i, set_inode t i (record (t.inode i) { dev = dev; inum = inum; ref = 1; valid = false }))
got dev inum t Search.full = none

-- `iget`; `none` for the panic.
unfoldable pub iget : (dev inum : ℕ) → Itable → Option (ℕ × Itable)
iget dev inum t = got dev inum t (scan t dev inum ninode 0 none)

abbrev pub idup : ℕ → Itable → Itable
idup i t = set_inode t i (record (t.inode i) { ref = (t.inode i).ref + 1 })

-- `struct dinode` of inode `inum` on the disk.
abbrev pub dinode_of : Superblock → Store → ℕ → Dinode
dinode_of sb s inum = s.dinodes (inum / ipb + sb.inodestart) (inum % ipb)

abbrev pub empty_dinode : Dinode
empty_dinode = record { kind = 0; major = 0; minor = 0; nlink = 0; size = 0; addrs = λ i. 0 }

-- The loop of `ialloc`, with `rest` inodes to go from `inum` on.
unfoldable free_inode : Superblock → Store → (rest inum : ℕ) → Option ℕ
free_inode sb s zero inum = none
free_inode sb s (suc rest) inum =
    let further = free_inode sb s rest (inum + 1) in
    if (dinode_of sb s inum).kind == 0 then some inum else further

-- `ialloc`; `none` for its panic and that of `iget`.
unfoldable ialloc : Superblock → (dev kind : ℕ) → Itable → Option (ℕ × Itable)
ialloc sb dev kind t = do
  inum ← free_inode sb t.disk (sb.ninodes - 1) 1
  iget dev inum (record t { disk = iupdate sb inum (record empty_dinode { kind = kind }, t.disk) })

-- `ilock` when the lock is taken; `none` for the panics.
unfoldable ilock : Superblock → (pid i : ℕ) → Itable → Option Itable
ilock sb pid i t =
    let ip = t.inode i in
    let locked = record ip { lock = record { locked = true; pid = pid } } in
    let d = dinode_of sb t.disk ip.inum in
    if ltb ip.ref 1
    then none
    else if ip.valid
    then some (set_inode t i locked)
    else if d.kind == 0
    then none
    else some (set_inode t i (record locked { copy = d; valid = true }))

-- `iunlock`; `none` for the panic.
unfoldable iunlock : (pid i : ℕ) → Itable → Option Itable
iunlock pid i t =
    let ip = t.inode i in
    if not (holding_sleep pid ip.lock) || ltb ip.ref 1
    then none
    else some (set_inode t i (record ip { lock = release_sleep ip.lock }))

abbrev pub drop_ref : ℕ → Itable → Itable
drop_ref i t = set_inode t i (record (t.inode i) { ref = (t.inode i).ref - 1 })

-- The branch of `iput` that frees the inode: `itrunc`, the type 0, and both `iupdate`s.
unfoldable pub free_on_disk : Superblock → ℕ → Itable → Option Itable
free_on_disk sb i t = do
  (d, s) ← itrunc sb ((t.inode i).copy, t.disk)
  let s' = iupdate sb (t.inode i).inum (d, s)
  let d' = record d { kind = 0 }
  let s'' = iupdate sb (t.inode i).inum (d', s')
  some (record {
    inode =
        update t.inode i
          (record (t.inode i) { copy = d'; valid = false; lock = release_sleep (t.inode i).lock });
    disk = s'';
  })

-- `iput`; `none` for a panic of `bfree`.
unfoldable pub iput : Superblock → ℕ → Itable → Option Itable
iput sb i t =
    let ip = t.inode i in
    if (ip.ref == 1) && ip.valid && (ip.copy.nlink == 0)
    then (free_on_disk sb i t >>= λ t'. some (drop_ref i t'))
    else some (drop_ref i t)
