-- ===== src/Print/Format.antt =====
-- The format strings of `printf` in kernel/printf.c and of `vprintf` in user/printf.c.
use cs.Common.{
  ℕ, ◌%◌, ◌^◌, Bool, true, false, Option, none, some, List, [], ◌∷◌, ◌++◌, ◌==◌, if◌then◌else◌,
  Bytes, codes, ◌>>=◌,
}
use cs.Print.Numbers.{digits, user_digits, printint, printptr}

-- What a caller can pass: an int, a uint64, or a string, which may be the null pointer.
pub data Arg : Type 0 where
  int_arg : ℕ → Arg
  long_arg : ℕ → Arg
  str_arg : Option Bytes → Arg

-- `va_arg(ap, int)` and so on: no meaning where the next argument is of another type.
abbrev take_int : List Arg → Option (ℕ × List Arg)
take_int (int_arg x ∷ ap) = some (x, ap)
take_int ap = none

abbrev pub take_long : List Arg → Option (ℕ × List Arg)
take_long (long_arg x ∷ ap) = some (x, ap)
take_long ap = none

abbrev pub take_string : List Arg → Option (Bytes × List Arg)
take_string (str_arg none ∷ ap) = some (codes "(null)", ap)
take_string (str_arg (some s) ∷ ap) = some (s, ap)
take_string ap = none

-- One conversion: the bytes it prints, and the arguments that are left.
abbrev Conversion : Type 0
Conversion = Option (Bytes × List Arg)

abbrev pub print_int : Bytes → ℕ → Bool → List Arg → Conversion
print_int table b sign ap = do
  (x, ap') ← take_int ap
  out ← printint table x b sign
  some (out, ap')

abbrev pub print_pointer : Bytes → List Arg → Conversion
print_pointer table ap = do (x, ap') ← take_long ap; some (printptr table x, ap')

-- The parameter of `printint` that takes the uint64 is an int.
abbrev print_long : List Arg → Conversion
print_long ap = do
  (x, ap') ← take_long ap
  out ← printint user_digits (x % 2 ^ 32) 9 false
  some (out, ap')

abbrev pub print_char : List Arg → Conversion
print_char ap = do (x, ap') ← take_int ap; some (x % 256 ∷ [], ap')

-- The `switch` of the kernel's `printf`, by the byte after the `%`.
unfoldable pub convert : ℕ → List Arg → Conversion
convert c ap =
    if c == b'd'
    then print_int digits 9 true ap
    else if c == b'x'
    then print_int digits 15 true ap
    else if c == b'p'
    then print_pointer digits ap
    else if c == b's'
    then take_string ap
    else if c == b'%'
    then some (b'%' ∷ [], ap)
    else some (b'%' ∷ c ∷ [], ap)

-- The loop of the kernel's `printf`, which looks one byte ahead.
unfoldable pub printf : (fmt : Bytes) → List Arg → Option Bytes
printf [] ap = some []
printf (c ∷ []) ap = if c == b'%' then some [] else some (c ∷ [])
printf (c ∷ d ∷ fmt) ap =
    let plain = printf (d ∷ fmt) ap in
    let converted = (convert d ap >>= λ r. printf fmt r.1 >>= λ rest. some (r.0 ++ rest)) in
    if c == b'%' then converted else elim plain [ none ↦ none | some rest ↦ some (c ∷ rest) ]

-- The branches of `vprintf` in the state '%'.
unfoldable pub user_convert : ℕ → List Arg → Conversion
user_convert c ap =
    if c == b'd'
    then print_int user_digits 9 true ap
    else if c == b'l'
    then print_long ap
    else if c == b'x'
    then print_int user_digits 15 false ap
    else if c == b'p'
    then print_pointer user_digits ap
    else if c == b's'
    then take_string ap
    else if c == b'c'
    then print_char ap
    else if c == b'%'
    then some (c ∷ [], ap)
    else some (b'%' ∷ c ∷ [], ap)

-- `state` of `vprintf`: 0, or '%'.
pub data Mode : Type 0 where
  text : Mode
  percent : Mode

-- The loop of `vprintf`, a machine with two states that reads one byte at a time.
unfoldable pub vprintf : Mode → (fmt : Bytes) → List Arg → Option Bytes
vprintf m [] ap = some []
vprintf text (c ∷ fmt) ap =
    let plain = vprintf text fmt ap in
    let special = vprintf percent fmt ap in
    if c == b'%' then special else elim plain [ none ↦ none | some rest ↦ some (c ∷ rest) ]
vprintf percent (c ∷ fmt) ap = do
  (out, ap') ← user_convert c ap
  rest ← vprintf text fmt ap'
  some (out ++ rest)
