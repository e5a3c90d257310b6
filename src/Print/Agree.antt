-- ===== src/Print/Agree.antt =====
-- The two printers, the kernel's with its look ahead and the user library's with its state, agree
-- on the conversions that both have with the same digits.
use cs.Common.{
  ℕ, zero, suc, ◌/◌, ◌%◌, ◌≡◌, refl, sym, ◌∙◌, subst, Bool, true, ◌||◌, not, inl, inr, Option, none,
  some, List, [], ◌∷◌, ◌++◌, ◌==◌, if◌then◌else◌, arith, Bytes, ◌>>=◌, codes, get_or, get_or-append,
  Bool-cases,
}
use cs.Print.Numbers.{digits, user_digits, printint, fill, negate}
use cs.Print.Format.{
  Arg, int_arg, long_arg, str_arg, print_int, convert, user_convert, text, printf, vprintf,
}

same_digit : (x : ℕ) → get_or digits (x % 10) 0 ≡ get_or user_digits (x % 10) 0
same_digit x =
    get_or-append (codes "0123456789") (codes "abcdef") (x % 10) 0 (omega arith)
    ∙ sym (get_or-append (codes "0123456789") (codes "ABCDEF") (x % 10) 0 (omega arith))

fill_agree : (room x : ℕ) → fill digits 9 room x ≡ fill user_digits 9 room x
unfolding fill
fill_agree zero x = refl
fill_agree (suc room) x = ground (arith, same_digit x, fill_agree room (x / 10))

printint_agree : (x : ℕ) (sign : Bool) → printint digits x 9 sign ≡ printint user_digits x 9 sign
unfolding printint
printint_agree x sign = rw (fill_agree 15 (negate x), fill_agree 16 x) refl

print_int_agree :
    (sign : Bool) (ap : List Arg) → print_int digits 9 sign ap ≡ print_int user_digits 9 sign ap
print_int_agree sign [] = refl
print_int_agree sign (int_arg x ∷ ap) = rw (printint_agree x sign) refl
print_int_agree sign (long_arg x ∷ ap) = refl
print_int_agree sign (str_arg s ∷ ap) = refl

bind_agree :
    {A B : Type 0} (o : Option A) (f g : A → Option B)
    → ((a : A) → f a ≡ g a)
    → (o >>= f) ≡ (o >>= g)
bind_agree none f g h = refl
bind_agree (some a) f g h = h a

-- A conversion that both know and print alike; a byte after `%` that neither knows is one, too.
abbrev is_common : ℕ → Bool
is_common c = not (c == b'x' || c == b'p' || c == b'l' || c == b'c')

abbrev pub Portable : Bytes → Type 0
Portable [] = Unit
Portable (c ∷ []) = Unit
Portable (c ∷ d ∷ fmt) =
    if c == b'%' then (is_common d ≡ true) × Portable fmt else Portable (d ∷ fmt)

convert_agree : (c : ℕ) (ap : List Arg) → is_common c ≡ true → convert c ap ≡ user_convert c ap
unfolding convert user_convert
convert_agree c ap h = ground (arith, print_int_agree true ap)

-- On such format strings the kernel's `printf` prints what the user library's does.
pub printf_agree :
    (fmt : Bytes) (ap : List Arg) → Portable fmt → printf fmt ap ≡ vprintf text fmt ap
unfolding printf vprintf
printf_agree [] ap h = refl
printf_agree (c ∷ []) ap h = refl
printf_agree (c ∷ d ∷ fmt) ap h = elim (Bool-cases (c == b'%')) [
  | inl e ↦
      let (now, later) =
        subst (λ b. if b then ((is_common d ≡ true) × Portable fmt) else Portable (d ∷ fmt)) e h in
      rw (e, convert_agree d ap now)
        (bind_agree (user_convert d ap) (λ r. printf fmt r.1 >>= λ rest. some (r.0 ++ rest))
          (λ r. vprintf text fmt r.1 >>= λ rest. some (r.0 ++ rest))
          (λ r. rw (printf_agree fmt r.1 later) refl))
  | inr e ↦
      rw
        (
          e,
          printf_agree (d ∷ fmt) ap (
              subst (λ b. if b then ((is_common d ≡ true) × Portable fmt) else Portable (d ∷ fmt)) e
                h),
        )
        refl
]
