-- ===== src/Fs/Map.antt =====
-- The content of an inode, by block: `bmap` and `itrunc` of fs.c.
use cs.Common.{ℕ, zero, suc, ◌-◌, not, Option, none, some, ◌==◌, ltb, if◌then◌else◌, update, ◌>>=◌}
use cs.Fs.{Superblock, Store, Dinode}
use cs.Fs.Bitmap.{balloc, bfree}

abbrev pub ndirect : ℕ
ndirect = 12

abbrev pub nindirect : ℕ
nindirect = 256

-- An inode in memory, and the disk.
abbrev pub File : Type 0
File = Dinode × Store

abbrev set_addr : Dinode → ℕ → ℕ → Dinode
set_addr ip i a = record ip { addrs = update ip.addrs i a }

-- The block number in `addrs[i]`, allocated if it is missing; 0 where the disk is full.
unfoldable pub direct_block : Superblock → (i : ℕ) → File → ℕ × File
direct_block sb i (ip, s) =
    let addr = ip.addrs i in
    let fresh = balloc sb s in
    if not (addr == 0)
    then (addr, (ip, s))
    else if fresh.0 == 0
    then (0, (ip, fresh.1))
    else (fresh.0, (set_addr ip i fresh.0, fresh.1))

-- The block number at `bn` of the indirect block `a`.
unfoldable pub indirect_block : Superblock → (a bn : ℕ) → File → ℕ × File
indirect_block sb a bn (ip, s) =
    let addr = s.words a bn in
    let fresh = balloc sb s in
    if not (addr == 0) then (addr, (ip, s)) else if fresh.0 == 0 then (0, (ip, fresh.1)) else (
      fresh.0,
      (ip, record fresh.1 { words = update fresh.1.words a (update (fresh.1.words a) bn fresh.0) }),
    )

-- `bmap`; `none` for the panic.
unfoldable pub bmap : Superblock → (bn : ℕ) → File → Option (ℕ × File)
bmap sb bn f =
    let l = direct_block sb ndirect f in
    if ltb bn ndirect
    then some (direct_block sb bn f)
    else if ltb (bn - ndirect) nindirect
    then some (if l.0 == 0 then l else indirect_block sb l.0 (bn - ndirect) l.1)
    else none

-- The first loop of `itrunc`, from `addrs[i]` on.
unfoldable pub trunc_direct : Superblock → (rest i : ℕ) → File → Option File
trunc_direct sb zero i f = some f
trunc_direct sb (suc rest) i (ip, s) =
    let kept = trunc_direct sb rest (suc i) (ip, s) in
    let freed =
      (bfree sb (ip.addrs i) s >>= λ s'. trunc_direct sb rest (suc i) (set_addr ip i 0, s')) in
    if not (ip.addrs i == 0) then freed else kept

-- The second loop, over the indirect block, whose contents are `a`.
unfoldable pub trunc_indirect : Superblock → (a : ℕ → ℕ) → (rest j : ℕ) → Store → Option Store
trunc_indirect sb a zero j s = some s
trunc_indirect sb a (suc rest) j s =
    let kept = trunc_indirect sb a rest (suc j) s in
    let freed = (bfree sb (a j) s >>= λ s'. trunc_indirect sb a rest (suc j) s') in
    if not (a j == 0) then freed else kept

unfoldable pub trunc_rest : Superblock → File → Option File
trunc_rest sb (ip, s) =
    let l = ip.addrs ndirect in
    let freed = do
      s' ← trunc_indirect sb (s.words l) nindirect 0 s
      s'' ← bfree sb l s'
      some (set_addr ip ndirect 0, s'')
    in if not (l == 0) then freed else some (ip, s)

-- `itrunc`, up to the `iupdate` at its end; `none` for a panic of `bfree`.
unfoldable pub itrunc : Superblock → File → Option File
itrunc sb f = do
  f' ← trunc_direct sb ndirect 0 f
  (ip, s) ← trunc_rest sb f'
  some (record ip { size = 0 }, s)
