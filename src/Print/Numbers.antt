-- ===== src/Print/Numbers.antt =====
-- `printint` and `printptr` of kernel/printf.c and user/printf.c.
use cs.Common.{
  ℕ, zero, suc, ◌-◌, ◌*◌, ◌/◌, ◌%◌, ◌^◌, Bool, ◌&&◌, Option, none, some, [], ◌∷◌, ◌++◌, ◌==◌, leb,
  if◌then◌else◌, get_or, Bytes, codes,
}

-- `digits` of the kernel, and of the user library.
abbrev pub digits : Bytes
digits = codes "0123456789abcdef"

abbrev pub user_digits : Bytes
user_digits = codes "0123456789ABCDEF"

abbrev digit : Bytes → ℕ → ℕ
digit table d = get_or table d 0

-- The `do` loop: what it puts into `buf`, where `room` bytes are left; `none` where it does not end
-- inside the buffer. The base is `suc b`.
unfoldable pub fill : (table : Bytes) (b room x : ℕ) → Option Bytes
fill table b zero x = none
fill table b (suc room) x =
    let more = fill table b room (x / suc b) in
    if x / suc b == 0
    then some (digit table (x % suc b) ∷ [])
    else elim more [ none ↦ none | some cs ↦ some (digit table (x % suc b) ∷ cs) ]

-- `while(--i >= 0) consputc(buf[i]);`
unfoldable pub backwards : Bytes → Bytes
backwards [] = []
backwards (c ∷ cs) = backwards cs ++ c ∷ []

-- Whether the pattern stands for a negative int, and the pattern of `-xx`.
abbrev pub is_negative : ℕ → Bool
is_negative xx = leb (2 ^ 31) xx

abbrev pub negate : ℕ → ℕ
negate xx = (2 ^ 32 - xx) % 2 ^ 32

abbrev buf_size : ℕ
buf_size = 16

-- `printint(xx, base, sign)` of the kernel for base `suc b`; a sign needs a place in the buffer too.
unfoldable pub printint : (table : Bytes) (xx b : ℕ) (sign : Bool) → Option Bytes
printint table xx b sign =
    if sign && is_negative xx
    then elim (fill table b (buf_size - 1) (negate xx)) [
      | none ↦ none
      | some cs ↦ some (b'-' ∷ backwards cs)
    ]
    else elim (fill table b buf_size xx) [ none ↦ none | some cs ↦ some (backwards cs) ]

-- The loop of `printptr`, with `rounds` nibbles to go.
unfoldable pub nibbles : (table : Bytes) (rounds x : ℕ) → Bytes
nibbles table zero x = []
nibbles table (suc rounds) x = digit table (x / 2 ^ 60) ∷ nibbles table rounds (x * 2 ^ 4 % 2 ^ 64)

unfoldable pub printptr : (table : Bytes) (x : ℕ) → Bytes
printptr table x = codes "0x" ++ nibbles table 16 x
