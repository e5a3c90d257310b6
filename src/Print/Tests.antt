-- ===== src/Print/Tests.antt =====
-- Printing concrete numbers and format strings.
use cs.Common.{ℕ, ◌≤◌, ◌≡◌, refl, true, inl, some, none, [], ◌∷◌, length, arith, Succeeds, codes}
use cs.Print.Numbers.{digits, fill, backwards, printint, nibbles, printptr}
use cs.Print.Format.{int_arg, long_arg, str_arg, convert, user_convert, text, printf, vprintf}
use cs.Print.Bounds.{printint-Succeeds}
use cs.Print.Spec.{Printed}
use cs.Print.Typed.{vprintf-Printed}
use cs.Print.Agree.{printf_agree}

-- -7, as a pattern.
abbrev minus_seven : ℕ
minus_seven = 4294967289

printint-Succeeds_example : Succeeds (λ out. length out ≤ 11) (printint digits minus_seven 9 true)
printint-Succeeds_example = printint-Succeeds digits minus_seven 9 true (omega arith) (inl refl)

negative_printed : printint digits minus_seven 9 true ≡ some (codes "-7")
unfolding printint fill backwards
negative_printed = refl

pointer_printed : printptr digits 2147483664 ≡ codes "0x0000000080000010"
unfolding printptr nibbles
pointer_printed = refl

vprintf-Printed_example :
    Succeeds
      (Printed text (codes "pid %d: %s\n") (int_arg 3 ∷ str_arg (some (codes "sh")) ∷ []))
      (vprintf text (codes "pid %d: %s\n") (int_arg 3 ∷ str_arg (some (codes "sh")) ∷ []))
vprintf-Printed_example =
    vprintf-Printed text (codes "pid %d: %s\n") (int_arg 3 ∷ str_arg (some (codes "sh")) ∷ [])
      (omega arith, tt)

printf_agree_example :
    printf (codes "%d%% of %s") (int_arg 30 ∷ str_arg none ∷ [])
    ≡ vprintf text (codes "%d%% of %s") (int_arg 30 ∷ str_arg none ∷ [])
printf_agree_example =
    printf_agree (codes "%d%% of %s") (int_arg 30 ∷ str_arg none ∷ []) (refl, (refl, (refl, tt)))

line_printed :
    printf (codes "%d%% of %s") (int_arg 30 ∷ str_arg none ∷ []) ≡ some (codes "30% of (null)")
unfolding printf convert printint fill backwards
line_printed = refl

-- `%l` prints the low 32 bits of the uint64 only: 2^32 prints as 0.
long_printed : vprintf text (codes "%l") (long_arg 4294967296 ∷ []) ≡ some (codes "0")
unfolding vprintf user_convert printint fill backwards
long_printed = refl
