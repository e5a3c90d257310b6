-- ===== src/Strings.antt =====
-- XV6 Scheduler/xv6-riscv/kernel/string.c. Memory is a function from addresses to bytes; a char is the
-- byte with its value from 0 to 255, as the comparisons cast it.
pub mod Move
pub mod Compare
mod Tests
use cs.Common.{
  ℕ, zero, suc, ◌+◌, ◌-◌, ◌%◌, Bool, true, false, ◌&&◌, ◌||◌, not, Option, none, some, ◌==◌, ltb,
  if◌then◌else◌, update,
}
use cs.Common.Int.{ℤ, pos, ◌-ℤ◌}

abbrev pub Memory : Type 0
Memory = ℕ → ℕ

-- The loop of `memset`, with `rest` bytes to go from `i` on.
pub memset_from : (dst c rest i : ℕ) → Memory → Memory
memset_from dst c zero i m = m
memset_from dst c (suc rest) i m = memset_from dst c rest (i + 1) (update m (dst + i) (c % 256))

unfoldable pub memset : (dst c n : ℕ) → Memory → Memory
memset dst c n m = memset_from dst c n 0 m

unfoldable pub memcmp : (v1 v2 n : ℕ) → Memory → ℤ
memcmp v1 v2 zero m = pos 0
memcmp v1 v2 (suc n) m =
    let further = memcmp (v1 + 1) (v2 + 1) n m in
    if not (m v1 == m v2) then pos (m v1) -ℤ pos (m v2) else further

-- The two loops of `memmove`: from the end down, and from the start up.
pub move_down : (d s n : ℕ) → Memory → Memory
move_down d s zero m = m
move_down d s (suc n) m = move_down d s n (update m (d + n) (m (s + n)))

unfoldable pub move_up : (d s n : ℕ) → Memory → Memory
move_up d s zero m = m
move_up d s (suc n) m = move_up (d + 1) (s + 1) n (update m d (m s))

unfoldable pub memmove : (dst src n : ℕ) → Memory → Memory
memmove dst src n m =
    if n == 0
    then m
    else if ltb src dst && ltb dst (src + n)
    then move_down dst src n m
    else move_up dst src n m

unfoldable pub memcpy : (dst src n : ℕ) → Memory → Memory
memcpy dst src n m = memmove dst src n m

unfoldable pub strncmp : (p q n : ℕ) → Memory → ℤ
strncmp p q zero m = pos 0
strncmp p q (suc n) m =
    let further = strncmp (p + 1) (q + 1) n m in
    if not (m p == 0) && (m p == m q) then further else pos (m p) -ℤ pos (m q)

-- The second loop of `strncpy`.
unfoldable zero_fill : (s n : ℕ) → Memory → Memory
zero_fill s zero m = m
zero_fill s (suc n) m = zero_fill (s + 1) n (update m s 0)

-- `strncpy`; the byte that ends the first loop is copied too.
unfoldable strncpy : (s t n : ℕ) → Memory → Memory
strncpy s t zero m = m
strncpy s t (suc n) m =
    let m' = update m s (m t) in
    let further = strncpy (s + 1) (t + 1) n m' in
    if m t == 0 then zero_fill (s + 1) n m' else further

-- The loop of `safestrcpy`, with room for `rest` bytes in front of the last one.
pub safe_copy : (s t rest : ℕ) → Memory → Memory
safe_copy s t zero m = update m s 0
safe_copy s t (suc rest) m =
    let m' = update m s (m t) in
    let further = safe_copy (s + 1) (t + 1) rest m' in
    if m t == 0 then update m' (s + 1) 0 else further

unfoldable pub safestrcpy : (s t n : ℕ) → Memory → Memory
safestrcpy s t zero m = m
safestrcpy s t (suc n) m = safe_copy s t n m

-- `strlen`, looking at no more than `fuel` bytes; `none` where there is no NUL among them.
pub strlen : (fuel s : ℕ) → Memory → Option ℕ
strlen zero s m = none
strlen (suc fuel) s m =
    let further = strlen fuel (s + 1) m in
    if m s == 0 then some 0 else elim further [ none ↦ none | some n ↦ some (n + 1) ]
