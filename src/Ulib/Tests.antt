-- ===== src/Ulib/Tests.antt =====
-- The functions of ulib.c on concrete strings.
use cs.Common.{◌≡◌, refl, true, some, arith, Succeeds, codes}
use cs.Print.Numbers.{digits, printint}
use cs.Ulib.{atoi, atoi_from, strchr, gets, get_line}
use cs.Ulib.Atoi.{atoi-printint}

atoi-printint_example : Succeeds (λ out. atoi out ≡ 1205) (printint digits 1205 9 true)
atoi-printint_example = atoi-printint 1205 true (omega arith) refl

number_read : atoi (codes "1205 bytes") ≡ 1205
unfolding atoi atoi_from
number_read = refl

slash_found : strchr (codes "a/b/c") b'/' ≡ some 1
unfolding strchr
slash_found = refl

line_read : gets 10 (codes "ab\ncd") ≡ (codes "ab\n", codes "cd")
unfolding gets get_line
line_read = refl
