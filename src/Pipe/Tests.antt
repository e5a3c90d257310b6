-- ===== src/Pipe/Tests.antt =====
-- The theorems about pipe.c on a pipe whose counters are about to wrap.
use cs.Common.{
  ℕ, ◌+◌, ◌≡◌, refl, true, false, [], ◌∷◌, ltb, if◌then◌else◌, update, arith, Option, none, some,
}
use cs.Pipe.{Pipe, Result, put, get, pipe_write, read_loop}
use cs.Pipe.Fifo.{IsPipe}
use cs.Pipe.Transfer.{Written, pipe_write-Written, ReadDone, read_loop-ReadDone}

-- The byte 7 at the last place, with the counters at the end of their range.
abbrev last_byte : Pipe
last_byte = record {
  ring = update (λ _. 0) 511 7;
  nread = 4294967295;
  nwrite = 0;
  readopen = true;
  writeopen = true;
}

last-IsPipe : IsPipe last_byte (7 ∷ [])
last-IsPipe = record {
  bytes = (refl, tt);
  few = omega arith;
  counter = omega arith;
  written = refl;
}

-- The source holds the bytes 5 and 6 and then ends.
abbrev two_bytes : ℕ → Option ℕ
two_bytes i = if ltb i 2 then some (i + 5) else none

pipe_write-Written_example :
    Written false two_bytes 3 0 (7 ∷ []) (pipe_write false two_bytes 3 0 last_byte)
pipe_write-Written_example =
    pipe_write-Written false two_bytes 3 0 3 last_byte (7 ∷ []) refl last-IsPipe

read_loop-ReadDone_example : ReadDone (λ _. true) 4 0 (7 ∷ []) (read_loop (λ _. true) 4 0 last_byte)
read_loop-ReadDone_example = read_loop-ReadDone (λ _. true) 4 0 last_byte (7 ∷ []) last-IsPipe

-- The write ends at the failing byte, with two bytes written, and the next read gives all three.
write_ends : (pipe_write false two_bytes 3 0 last_byte).0 ≡ Result.returned 2
unfolding pipe_write put
write_ends = refl

read_back :
    (read_loop (λ _. true) 4 0 (pipe_write false two_bytes 3 0 last_byte).1).0 ≡ 7 ∷ 5 ∷ 6 ∷ []
unfolding pipe_write put read_loop get
read_back = refl
