-- ===== src/Fs/Content.antt =====
-- Reading and writing the content of an inode: `readi`, `writei` and `iupdate` of fs.c. `ok` says
-- whether `either_copyout` or `either_copyin` succeeds at an address for a number of bytes; where it
-- does, they copy like `memmove`.
use cs.Common.{
  ℕ, zero, suc, ◌+◌, ◌-◌, ◌*◌, ◌/◌, ◌%◌, ◌^◌, Bool, not, ◌||◌, Option, none, some, ◌==◌, ltb, min,
  if◌then◌else◌, update, ◌>>=◌,
}
use cs.Common.Int.{ℤ, pos, negsuc}
use cs.Strings.{Memory}
use cs.Strings.Move.{in_range}
use cs.Fs.{Superblock, Store, bsize}
use cs.Fs.Map.{File, bmap}

-- `n` bytes of `from` stand from `d` on.
abbrev pub copy_range : (from : ℕ → ℕ) (d n : ℕ) → Memory → Memory
copy_range from d n m a = if in_range d n a then from (a - d) else m a

abbrev pub chunk : (n tot off : ℕ) → ℕ
chunk n tot off = min (n - tot) (bsize - off % bsize)

-- The loop of `readi`; `none` for the panic of `bmap`, and where the rounds do not suffice.
unfoldable pub read_from :
    Superblock
    → (ok : ℕ → ℕ → Bool) → (fuel tot n off dst : ℕ) → File
    → Memory
    → Option (ℤ × File × Memory)
read_from sb ok zero tot n off dst f mem = none
read_from sb ok (suc fuel) tot n off dst f mem =
    let m = chunk n tot off in
    let round = bmap sb (off / bsize) f >>= λ (addr, f').
    if addr == 0
    then some (pos tot, f', mem)
    else if not (ok dst m)
    then some (negsuc 0, f', mem)
    else read_from sb ok fuel (tot + m) n (off + m) (dst + m) f'
        (copy_range (λ i. f'.1.bytes addr (off % bsize + i)) dst m mem) in
    if ltb tot n then round else some (pos tot, f, mem)

-- `readi`
unfoldable pub readi :
    Superblock → (ok : ℕ → ℕ → Bool) → (dst off n : ℕ) → File → Memory → Option (ℤ × File × Memory)
readi sb ok dst off n f mem =
    let end = (off + n) % 2 ^ 32 in
    let n' = if ltb f.0.size end then f.0.size - off else n in
    if ltb f.0.size off || ltb end off
    then some (pos 0, f, mem)
    else read_from sb ok (suc n') 0 n' off dst f mem

abbrev pub set_bytes : File → ℕ → (ℕ → ℕ) → File
set_bytes f addr b = (f.0, record (f.1) { bytes = update f.1.bytes addr b })

-- The loop of `writei`: the count, the offset and the file at its end.
unfoldable pub write_from :
    Superblock
    → (ok : ℕ → ℕ → Bool) → (fuel tot n off src : ℕ) → File
    → Memory
    → Option (ℕ × ℕ × File)
write_from sb ok zero tot n off src f mem = none
write_from sb ok (suc fuel) tot n off src f mem =
    let m = chunk n tot off in
    let round = bmap sb (off / bsize) f >>= λ (addr, f').
    if addr == 0
    then some (tot, off, f')
    else if not (ok src m)
    then some (tot, off, f')
    else write_from sb ok fuel (tot + m) n (off + m) (src + m)
        (set_bytes f' addr (copy_range (λ i. mem (src + i)) (off % bsize) m (f'.1.bytes addr)))
        mem in
    if ltb tot n then round else some (tot, off, f)

abbrev pub ipb : ℕ
ipb = 16

-- `iupdate` of inode `inum`
abbrev pub iupdate : Superblock → (inum : ℕ) → File → Store
iupdate sb inum (ip, s) =
    let b = inum / ipb + sb.inodestart in
    record s { dinodes = update s.dinodes b (update (s.dinodes b) (inum % ipb) ip) }

abbrev pub maxfile : ℕ
maxfile = 12 + 256

abbrev pub grow : (off : ℕ) → File → File
grow off (ip, s) = if ltb ip.size off then (record ip { size = off }, s) else (ip, s)

-- `writei`
unfoldable pub writei :
    Superblock
    → (inum : ℕ) → (ok : ℕ → ℕ → Bool) → (src off n : ℕ) → File
    → Memory
    → Option (ℤ × File)
writei sb inum ok src off n f mem =
    let end = (off + n) % 2 ^ 32 in
    let written = write_from sb ok (suc n) 0 n off src f mem >>= λ (tot, off', f').
    let g = grow off' f' in some (pos tot, (g.0, iupdate sb inum g)) in
    if ltb f.0.size off || ltb end off
    then some (negsuc 0, f)
    else if ltb (maxfile * bsize) end
    then some (negsuc 0, f)
    else written
