-- ===== src/Ulib.antt =====
-- The string functions of user programs, XV6 Scheduler/xv6-riscv/user/ulib.c. A string is the list of
-- its bytes, without the NUL; an int is its 32-bit pattern; memory is a function from addresses to bytes.
pub mod Atoi
pub mod Compare
pub mod Input
pub mod Move
mod Tests
use cs.Common.{
  ℕ, zero, suc, ◌+◌, ◌-◌, ◌*◌, ◌%◌, ◌^◌, Bool, ◌&&◌, ◌||◌, not, Option, none, some, List, [], ◌∷◌,
  ◌==◌, ltb, leb, if◌then◌else◌, update, Bytes,
}
use cs.Common.Int.{ℤ, pos, ◌-ℤ◌}
use cs.Strings.{Memory, move_up, move_down}

-- The loop of `atoi`, which stops at the first byte that is no digit.
pub atoi_from : (n : ℕ) → Bytes → ℕ
atoi_from n [] = n
atoi_from n (c ∷ s) =
    let rest = atoi_from ((n * 10 + c - b'0') % 2 ^ 32) s in
    if leb b'0' c && leb c b'9' then rest else n

unfoldable pub atoi : Bytes → ℕ
atoi s = atoi_from 0 s

-- The NUL at the end compares as the byte 0.
pub strcmp : Bytes → Bytes → ℤ
strcmp [] [] = pos 0 -ℤ pos 0
strcmp [] (d ∷ q) = pos 0 -ℤ pos d
strcmp (c ∷ p) [] = pos c -ℤ pos 0
strcmp (c ∷ p) (d ∷ q) = let further = strcmp p q in if c == d then further else pos c -ℤ pos d

-- The pointer that `strchr` returns, as an offset into the string; `none` is the null pointer.
unfoldable pub strchr : Bytes → (c : ℕ) → Option ℕ
strchr [] c = none
strchr (d ∷ s) c =
    let further = strchr s c in
    if d == c then some 0 else elim further [ none ↦ none | some i ↦ some (suc i) ]

-- `gets`, with room for `room` bytes in front of the NUL; reading one byte takes it from the input.
-- The line, and the input that is left.
pub get_line : (room : ℕ) → (input : Bytes) → Bytes × Bytes
get_line zero input = ([], input)
get_line (suc room) [] = ([], [])
get_line (suc room) (c ∷ input) =
    let further = get_line room input in
    if (c == b'\n') || (c == b'\r') then (c ∷ [], input) else (c ∷ further.0, further.1)

unfoldable pub gets : (max : ℕ) → (input : Bytes) → Bytes × Bytes
gets max input = get_line (max - 1) input

-- `strcpy`, looking at no more than `fuel` bytes; `none` where there is no NUL among them.
pub strcpy : (fuel s t : ℕ) → Memory → Option Memory
strcpy zero s t m = none
strcpy (suc fuel) s t m =
    let m' = update m s (m t) in
    let further = strcpy fuel (s + 1) (t + 1) m' in if m t == 0 then some m' else further

-- `memmove` of the library: up where the source lies above, down otherwise.
-- `n` is the bit pattern of an int: a negative one is no byte to move.
pub user_memmove : (dst src n : ℕ) → Memory → Memory
user_memmove dst src n m =
    let count = if ltb n (2 ^ 31) then n else 0 in
    if ltb dst src then move_up dst src count m else move_down dst src count m
