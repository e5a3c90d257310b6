-- ===== src/Bcache.antt =====
-- XV6 Scheduler/xv6-riscv/kernel/bio.c: the buffer cache. A buffer is its index in `bcache.buf`; the
-- index `nbuf` is `bcache.head`. The spin lock is left out: each function is one step.
pub mod Chain
pub mod Seek
pub mod Inv
pub mod Get
pub mod Release
mod Tests
use cs.Common.{
  ℕ, zero, suc, ◌+◌, ◌-◌, ◌%◌, ◌^◌, Bool, true, false, ◌&&◌, not, Option, none, some, ◌==◌,
  if◌then◌else◌, update,
}
use cs.SleepLock.{SleepLock, init_sleep_lock, release_sleep, holding_sleep}

abbrev pub nbuf : ℕ
nbuf = 30

abbrev pub head : ℕ
head = nbuf

-- `struct buf` without its links; the contents of a block are one number.
pub record Buf : Type 0 where
  pub valid : Bool
  pub dev : ℕ
  pub blockno : ℕ
  pub lock : SleepLock
  pub refcnt : ℕ
  pub contents : ℕ

-- `bcache`, the links apart, and the disk behind it, by device and block.
pub record Bcache : Type 0 where
  pub buf : ℕ → Buf
  pub next : ℕ → ℕ
  pub prev : ℕ → ℕ
  pub disk : ℕ → ℕ → ℕ

abbrev pub set_buf : Bcache → ℕ → Buf → Bcache
set_buf s b x = record s { buf = update s.buf b x }

-- Put `b` behind the head: the last four lines of `brelse` and of the loop of `binit`.
pub push_front : ℕ → Bcache → Bcache
push_front b s =
    let s1 = record s { next = update s.next b (s.next head); prev = update s.prev b head } in
    let s2 = record s1 { prev = update s1.prev (s1.next head) b } in
    record s2 { next = update s2.next head b }

-- Take `b` out of the list.
pub unlink : ℕ → Bcache → Bcache
unlink b s =
    let s1 = record s { prev = update s.prev (s.next b) (s.prev b) } in
    record s1 { next = update s1.next (s1.prev b) (s1.next b) }

-- The loop of `binit`, with `rest` buffers to go from `b` on.
pub init_from : (rest b : ℕ) → Bcache → Bcache
init_from zero b s = s
init_from (suc rest) b s =
    let s1 = set_buf s b (record (s.buf b) { lock = init_sleep_lock }) in
    init_from rest (suc b) (push_front b s1)

unfoldable pub binit : Bcache → Bcache
binit s =
    init_from nbuf 0 (record s { next = update s.next head head; prev = update s.prev head head })

-- A `for` loop over the list, in the direction of `step`, that ends with the first buffer that passes
-- the test, or at the head.
pub data Search : Type 0 where
  found : ℕ → Search
  missing : Search
  endless : Search

unfoldable pub seek : (step : ℕ → ℕ) (test : ℕ → Bool) (fuel b : ℕ) → Search
seek step test zero b = Search.endless
seek step test (suc fuel) b =
    let further = seek step test fuel (step b) in
    if b == head then Search.missing else if test b then Search.found b else further

abbrev pub is_block : Bcache → (dev blockno : ℕ) → ℕ → Bool
is_block s dev blockno b = ((s.buf b).dev == dev) && ((s.buf b).blockno == blockno)

abbrev pub is_free : Bcache → ℕ → Bool
is_free s b = (s.buf b).refcnt == 0

abbrev pub add_ref : Buf → Buf
add_ref x = record x { refcnt = (x.refcnt + 1) % 2 ^ 32 }

abbrev pub drop_ref : Buf → Buf
drop_ref x = record x { refcnt = (x.refcnt + 2 ^ 32 - 1) % 2 ^ 32 }

-- What `bget` comes to before it waits for the buffer's lock.
pub data Got : Type 0 where
  got : (b : ℕ) → Bcache → Got
  no_buffers : Got
  lost : Got

-- The second loop of `bget`.
abbrev pub recycle : (dev blockno : ℕ) → Bcache → Search → Got
recycle dev blockno s (Search.found b) =
    Got.got b
      (set_buf s b (record (s.buf b) { dev = dev; blockno = blockno; valid = false; refcnt = 1 }))
recycle dev blockno s Search.missing = Got.no_buffers
recycle dev blockno s Search.endless = Got.lost

abbrev pub cached_or_recycle : (dev blockno : ℕ) → Bcache → Search → Got
cached_or_recycle dev blockno s (Search.found b) = Got.got b (set_buf s b (add_ref (s.buf b)))
cached_or_recycle dev blockno s Search.missing =
    recycle dev blockno s (seek s.prev (is_free s) (suc nbuf) (s.prev head))
cached_or_recycle dev blockno s Search.endless = Got.lost

-- `bget`; `no_buffers` is the panic, and `lost` a loop that has not come back to the head.
pub bget : (dev blockno : ℕ) → Bcache → Got
bget dev blockno s =
    cached_or_recycle dev blockno s (seek s.next (is_block s dev blockno) (suc nbuf) (s.next head))

-- `bread` behind `bget`, when the lock is taken.
pub fill_buf : (b : ℕ) → Bcache → Bcache
fill_buf b s =
    let x = s.buf b in
    if not x.valid
    then set_buf s b (record x { contents = s.disk x.dev x.blockno; valid = true })
    else s

-- `bwrite`; `none` is the panic.
pub bwrite : (pid b : ℕ) → Bcache → Option Bcache
bwrite pid b s =
    let x = s.buf b in
    if not (holding_sleep pid x.lock)
    then none
    else some (record s { disk = update s.disk x.dev (update (s.disk x.dev) x.blockno x.contents) })

-- `brelse`; `none` is the panic.
pub brelse : (pid b : ℕ) → Bcache → Option Bcache
brelse pid b s =
    let x = s.buf b in
    let y = drop_ref (record x { lock = release_sleep x.lock }) in
    let s1 = set_buf s b y in
    if not (holding_sleep pid x.lock)
    then none
    else some (if y.refcnt == 0 then push_front b (unlink b s1) else s1)

abbrev pub bpin : (b : ℕ) → Bcache → Bcache
bpin b s = set_buf s b (add_ref (s.buf b))

abbrev pub bunpin : (b : ℕ) → Bcache → Bcache
bunpin b s = set_buf s b (drop_ref (s.buf b))
