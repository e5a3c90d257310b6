-- ===== src/Print/Spec.antt =====
-- What `vprintf` of user/printf.c is meant to print for a format string and its arguments.
use cs.Common.{
  ℕ, ◌<◌, ◌%◌, ◌^◌, ◌≡◌, Bool, true, false, none, some, List, [], ◌∷◌, ◌++◌, ◌==◌, if◌then◌else◌,
  Bytes, has, length, All, codes,
}
use cs.Print.Numbers.{user_digits}
use cs.Print.Format.{Arg, int_arg, long_arg, str_arg, Mode, text, percent}
use cs.Print.Numeral.{Numeral, SignedNumeral}

-- What a conversion reads.
pub data Want : Type 0 where
  want_int : Want
  want_long : Want
  want_string : Want

abbrev pub wanted : ℕ → List Want
wanted c =
    if c == b'd'
    then want_int ∷ []
    else if c == b'l'
    then want_long ∷ []
    else if c == b'x'
    then want_int ∷ []
    else if c == b'p'
    then want_long ∷ []
    else if c == b's'
    then want_string ∷ []
    else if c == b'c'
    then want_int ∷ []
    else []

-- What the conversions of a format string read, in order.
abbrev pub wants : Mode → Bytes → List Want
wants m [] = []
wants text (c ∷ fmt) = if c == b'%' then wants percent fmt else wants text fmt
wants percent (c ∷ fmt) = wanted c ++ wants text fmt

-- The arguments are there, of the right types, the ints with 32 bits and the others with 64.
abbrev pub Matches : List Want → List Arg → Type 0
Matches [] ap = Unit
Matches (want_int ∷ ws) (int_arg x ∷ ap) = (x < 2 ^ 32) × Matches ws ap
Matches (want_long ∷ ws) (long_arg x ∷ ap) = (x < 2 ^ 64) × Matches ws ap
Matches (want_string ∷ ws) (str_arg s ∷ ap) = Matches ws ap
Matches (w ∷ ws) ap = ⊥

-- Bytes that no conversion of `vprintf` has.
abbrev pub is_conversion : ℕ → Bool
is_conversion c = has c (codes "dlxpsc%")

-- What a `%` with the byte `c` behind it prints, and the arguments that it leaves.
pub data Converted : (c : ℕ) → List Arg → Bytes → List Arg → Type 0 where
  decimal :
      (x : ℕ) (s : Bytes) (ap : List Arg)
      → SignedNumeral user_digits 10 x s
      → Converted b'd' (int_arg x ∷ ap) s ap
  hexadecimal :
      (x : ℕ) (s : Bytes) (ap : List Arg)
      → Numeral user_digits 16 x s
      → Converted b'x' (int_arg x ∷ ap) s ap
  low_half :
      (x : ℕ) (s : Bytes) (ap : List Arg)
      → Numeral user_digits 10 (x % 2 ^ 32) s
      → Converted b'l' (long_arg x ∷ ap) s ap
  pointer :
      (x : ℕ) (s : Bytes) (ap : List Arg)
      → length s ≡ 16
      → All (λ c. has c user_digits ≡ true) s
      → Converted b'p' (long_arg x ∷ ap) (b'0' ∷ b'x' ∷ s) ap
  string : (s : Bytes) (ap : List Arg) → Converted b's' (str_arg (some s) ∷ ap) s ap
  null_string : (ap : List Arg) → Converted b's' (str_arg none ∷ ap) (codes "(null)") ap
  character : (x : ℕ) (ap : List Arg) → Converted b'c' (int_arg x ∷ ap) (x % 256 ∷ []) ap
  percent_sign : (ap : List Arg) → Converted b'%' ap (b'%' ∷ []) ap
  unknown : (c : ℕ) (ap : List Arg) → is_conversion c ≡ false → Converted c ap (b'%' ∷ c ∷ []) ap

-- What a format string prints: its own bytes, and for each conversion what that prints.
pub data Printed : Mode → Bytes → List Arg → Bytes → Type 0 where
  finished : (m : Mode) (ap : List Arg) → Printed m [] ap []
  plain :
      (c : ℕ) (fmt : Bytes) (ap : List Arg) (out : Bytes)
      → (c == b'%') ≡ false
      → Printed text fmt ap out
      → Printed text (c ∷ fmt) ap (c ∷ out)
  mark :
      (fmt : Bytes) (ap : List Arg) (out : Bytes)
      → Printed percent fmt ap out
      → Printed text (b'%' ∷ fmt) ap out
  conversion :
      (c : ℕ) (fmt : Bytes) (ap ap' : List Arg) (s out : Bytes)
      → Converted c ap s ap'
      → Printed text fmt ap' out
      → Printed percent (c ∷ fmt) ap (s ++ out)
