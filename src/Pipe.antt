-- ===== src/Pipe.antt =====
-- XV6 Scheduler/xv6-riscv/kernel/pipe.c: the ring of 512 bytes between the ends of a pipe, with its
-- counters of type uint. User memory is a parameter: `src i` is what `copyin` reads at `addr + i`, and
-- `dst i` says whether `copyout` succeeds there. A call that sleeps gives back where it stands; when it
-- wakes it goes on from there.
pub mod Fifo
pub mod Transfer
mod Tests
use cs.Common.{
  ℕ, zero, suc, ◌+◌, ◌%◌, ◌^◌, Bool, true, false, ◌&&◌, ◌||◌, not, Option, none, some, List, [],
  ◌∷◌, ◌==◌, if◌then◌else◌, update,
}

abbrev pub pipe_size : ℕ
pipe_size = 512

-- `struct pipe`
pub record Pipe : Type 0 where
  pub ring : ℕ → ℕ
  pub nread : ℕ
  pub nwrite : ℕ
  pub readopen : Bool
  pub writeopen : Bool

-- `x + n` on uint.
abbrev pub wrap : ℕ → ℕ
wrap x = x % 2 ^ 32

-- `pi->data[pi->nwrite++ % PIPESIZE] = ch`
pub put : ℕ → Pipe → Pipe
put ch p = record p { ring = update p.ring (p.nwrite % pipe_size) ch; nwrite = wrap (p.nwrite + 1) }

-- `pi->data[pi->nread++ % PIPESIZE]`
pub get : Pipe → ℕ × Pipe
get p = (p.ring (p.nread % pipe_size), record p { nread = wrap (p.nread + 1) })

abbrev pub is_full : Pipe → Bool
is_full p = p.nwrite == wrap (p.nread + pipe_size)

abbrev pub is_empty : Pipe → Bool
is_empty p = p.nread == p.nwrite

-- `pipealloc`: whether the two files and the page can be had. If one is missing, nothing is kept.
-- `kalloc` fills the page with 5.
pub pipe_alloc : (file0 file1 page : Bool) → Option Pipe
pipe_alloc file0 file1 page =
    if not file0 || not file1
    then none
    else if not page
    then none
    else some (record { ring = λ _. 5; nread = 0; nwrite = 0; readopen = true; writeopen = true })

-- `pipeclose`; the Boolean says whether the pipe is freed.
unfoldable pipe_close : (writable : Bool) → Pipe → Bool × Pipe
pipe_close writable p =
    let p' = if writable then record p { writeopen = false } else record p { readopen = false } in
    (not p'.readopen && not p'.writeopen, p')

-- How `pipewrite` and `piperead` return or sleep; the number is that of the bytes done.
pub data Result : Type 0 where
  failed : Result
  returned : ℕ → Result
  asleep : ℕ → Result

-- The loop of `pipewrite` with `rest` bytes to go, from byte `i` on.
pub pipe_write : (killed : Bool) → (src : ℕ → Option ℕ) → (rest i : ℕ) → Pipe → Result × Pipe
pipe_write killed src zero i p = (Result.returned i, p)
pipe_write killed src (suc rest) i p =
    if not p.readopen || killed
    then (Result.failed, p)
    else if is_full p
    then (Result.asleep i, p)
    else elim (src i) [
      | none ↦ (Result.returned i, p)
      | some ch ↦ pipe_write killed src rest (i + 1) (put ch p)
    ]

-- The copying loop of `piperead`: the bytes that reach the user, and the number returned.
pub read_loop : (dst : ℕ → Bool) → (rest i : ℕ) → Pipe → List ℕ × ℕ × Pipe
read_loop dst zero i p = ([], i, p)
read_loop dst (suc rest) i p =
    let (ch, p') = get p in
    let (chs, n, p'') = read_loop dst rest (i + 1) p' in
    if is_empty p then ([], i, p) else if not (dst i) then ([], i, p') else (ch ∷ chs, n, p'')

unfoldable pub pipe_read :
    (killed : Bool) → (dst : ℕ → Bool) → (n : ℕ) → Pipe → List ℕ × Result × Pipe
pipe_read killed dst n p =
    if is_empty p && p.writeopen
    then ([], (if killed then Result.failed else Result.asleep 0), p)
    else let (chs, i, p') = read_loop dst n 0 p in (chs, Result.returned i, p')
