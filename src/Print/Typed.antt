-- ===== src/Print/Typed.antt =====
-- `vprintf` of user/printf.c prints what it is meant to, where the arguments agree with the format string.
use cs.Common.{
  ℕ, ◌<◌, ◌%◌, ◌^◌, ◌≡◌, refl, true, false, inl, inr, none, some, List, [], ◌∷◌, ◌++◌, ◌==◌, arith,
  Succeeds, Bytes, has, length, All, codes, subst, sym, get_or, Bool-cases, ==_iff, zero, suc, ◌*◌,
  ◌/◌, ◌>>=◌, Succeeds-bind, Succeeds-map, Option,
}
use cs.Print.Numbers.{user_digits, printint, printptr, nibbles}
use cs.Print.Format.{Arg, int_arg, long_arg, str_arg, user_convert, Mode, text, percent, vprintf}
use cs.Print.Numeral.{printint-Numeral, printint-SignedNumeral}
use cs.Print.Spec.{
  Want, want_int, want_long, want_string, wanted, wants, Matches, is_conversion, Converted, decimal,
  hexadecimal, low_half, pointer, string, null_string, character, percent_sign, unknown, Printed,
  finished, plain, mark, conversion,
}

has-get_or : (xs : Bytes) (d : ℕ) → d < length xs → has (get_or xs d 0) xs ≡ true
has-get_or [] d h = absurd (omega (arith, h))
has-get_or (x ∷ xs) zero h = ground arith
has-get_or (x ∷ xs) (suc d) h = ground (arith, has-get_or xs d (omega (arith, h)))

nibbles_lem :
    (rounds x : ℕ)
    → x < 2 ^ 64
    → (length (nibbles user_digits rounds x) ≡ rounds)
      × All (λ c. has c user_digits ≡ true) (nibbles user_digits rounds x)
unfolding nibbles
nibbles_lem zero x h = (refl, tt)
nibbles_lem (suc rounds) x h =
    let (long, digits) = nibbles_lem rounds (x * 2 ^ 4 % 2 ^ 64) (omega arith) in
    (omega (arith, long), (has-get_or user_digits (x / 2 ^ 60) (omega (arith, h)), digits))

no_conversion :
    (c : ℕ) (ap : List Arg)
    → is_conversion c ≡ false
    → (wanted c ≡ []) × (user_convert c ap ≡ some (b'%' ∷ c ∷ [], ap))
unfolding user_convert
no_conversion c ap e = (ground (arith, e), ground (arith, e))

module _ (ws : List Want) where
  abbrev Reads : (c : ℕ) → List Arg → Bytes × List Arg → Type 0
  Reads c ap r = Converted c ap r.0 r.1 × Matches ws r.1

  print_d :
      (ap : List Arg) → Matches (want_int ∷ ws) ap → Succeeds (Reads b'd' ap) (user_convert b'd' ap)
  unfolding user_convert
  print_d (int_arg x ∷ ap) (h, m) =
      Succeeds-bind (Reads b'd' (int_arg x ∷ ap)) (printint user_digits x 9 true)
        (λ s. some (s, ap)) (printint-SignedNumeral user_digits x 9 h (inl refl))
        (λ s n. (decimal x s ap n, m))
  print_d [] h = absurd h
  print_d (long_arg x ∷ ap) h = absurd h
  print_d (str_arg s ∷ ap) h = absurd h

  print_x :
      (ap : List Arg) → Matches (want_int ∷ ws) ap → Succeeds (Reads b'x' ap) (user_convert b'x' ap)
  unfolding user_convert
  print_x (int_arg x ∷ ap) (h, m) =
      Succeeds-bind (Reads b'x' (int_arg x ∷ ap)) (printint user_digits x 15 false)
        (λ s. some (s, ap)) (printint-Numeral user_digits x 15 h (inr refl))
        (λ s n. (hexadecimal x s ap n, m))
  print_x [] h = absurd h
  print_x (long_arg x ∷ ap) h = absurd h
  print_x (str_arg s ∷ ap) h = absurd h

  print_l :
      (ap : List Arg)
      → Matches (want_long ∷ ws) ap
      → Succeeds (Reads b'l' ap) (user_convert b'l' ap)
  unfolding user_convert
  print_l (long_arg x ∷ ap) (h, m) =
      Succeeds-bind (Reads b'l' (long_arg x ∷ ap)) (printint user_digits (x % 2 ^ 32) 9 false)
        (λ s. some (s, ap)) (printint-Numeral user_digits (x % 2 ^ 32) 9 (omega arith) (inl refl))
        (λ s n. (low_half x s ap n, m))
  print_l [] h = absurd h
  print_l (int_arg x ∷ ap) h = absurd h
  print_l (str_arg s ∷ ap) h = absurd h

  print_p :
      (ap : List Arg)
      → Matches (want_long ∷ ws) ap
      → Succeeds (Reads b'p' ap) (user_convert b'p' ap)
  unfolding user_convert printptr
  print_p (long_arg x ∷ ap) (h, m) =
      let (long, digits) = nibbles_lem 16 x h in
      (pointer x (nibbles user_digits 16 x) ap long digits, m)
  print_p [] h = absurd h
  print_p (int_arg x ∷ ap) h = absurd h
  print_p (str_arg s ∷ ap) h = absurd h

  print_s :
      (ap : List Arg)
      → Matches (want_string ∷ ws) ap
      → Succeeds (Reads b's' ap) (user_convert b's' ap)
  unfolding user_convert
  print_s (str_arg none ∷ ap) m = (null_string ap, m)
  print_s (str_arg (some s) ∷ ap) m = (string s ap, m)
  print_s [] h = absurd h
  print_s (int_arg x ∷ ap) h = absurd h
  print_s (long_arg x ∷ ap) h = absurd h

  print_c :
      (ap : List Arg) → Matches (want_int ∷ ws) ap → Succeeds (Reads b'c' ap) (user_convert b'c' ap)
  unfolding user_convert
  print_c (int_arg x ∷ ap) (h, m) = (character x ap, m)
  print_c [] h = absurd h
  print_c (long_arg x ∷ ap) h = absurd h
  print_c (str_arg s ∷ ap) h = absurd h

  print_percent : (ap : List Arg) → Matches ws ap → Succeeds (Reads b'%' ap) (user_convert b'%' ap)
  unfolding user_convert
  print_percent ap m = (percent_sign ap, m)

  print_other :
      (c : ℕ) (ap : List Arg)
      → is_conversion c ≡ false
      → Matches (wanted c ++ ws) ap
      → Succeeds (Reads c ap) (user_convert c ap)
  print_other c ap e h =
      let (none_wanted, copied) = no_conversion c ap e in
      rw (copied) (unknown c ap e, subst (λ w. Matches (w ++ ws) ap) none_wanted h)

  ReadsAt : ℕ → Type 0
  ReadsAt c =
      (ap : List Arg) → Matches (wanted c ++ ws) ap → Succeeds (Reads c ap) (user_convert c ap)

  -- One of the known conversions, or another byte.
  known : (c : ℕ) (cs : Bytes) → has c cs ≡ true → All ReadsAt cs → ReadsAt c
  known c [] e h = absurd (ground (arith, e))
  known c (d ∷ cs) e (first, others) = elim (Bool-cases (c == d)) [
    | inl same ↦ subst ReadsAt (sym ((==_iff c d).0 same)) first
    | inr other ↦ known c cs (ground (arith, e, other)) others
  ]

  user_convert-Reads : (c : ℕ) → ReadsAt c
  unfolding ReadsAt
  user_convert-Reads c = elim (Bool-cases (is_conversion c)) [
    | inl e ↦
        known c (codes "dlxpsc%") e
          (print_d, (print_l, (print_x, (print_p, (print_s, (print_c, (print_percent, tt)))))))
    | inr e ↦ λ ap h. print_other c ap e h
  ]

plain-Printed :
    (c : ℕ) (fmt : Bytes) (ap : List Arg)
    → (c == b'%') ≡ false
    → (o : Option Bytes) → Succeeds (Printed text fmt ap) o
    → Succeeds (Printed text (c ∷ fmt) ap) (elim o [ none ↦ none | some rest ↦ some (c ∷ rest) ])
plain-Printed c fmt ap e none p = p
plain-Printed c fmt ap e (some rest) p = plain c fmt ap rest e p

-- Where the arguments have the types that the format string asks for, `vprintf` prints the bytes outside
-- of conversions as they are and each conversion in its place, with the next argument: `%d` the decimal
-- numeral of an int with its sign, `%x` the hexadecimal numeral of its bit pattern, `%l` the decimal
-- numeral of the low 32 bits of a uint64, `%p` 0x and sixteen hexadecimal digits, `%s` the string or
-- (null), `%c` a byte, `%%` a percent sign, and an unknown conversion as it stands.
pub vprintf-Printed :
    (m : Mode) (fmt : Bytes) (ap : List Arg)
    → Matches (wants m fmt) ap
    → Succeeds (Printed m fmt ap) (vprintf m fmt ap)
unfolding vprintf ReadsAt
vprintf-Printed m [] ap h = finished m ap
vprintf-Printed text (c ∷ fmt) ap h = elim (Bool-cases (c == b'%')) [
  | inl e ↦
      let same : c ≡ b'%' = (==_iff c b'%').0 e in
      rw (e) (
        Succeeds-map (vprintf percent fmt ap)
          (λ out p. subst (λ d. Printed text (d ∷ fmt) ap out) (sym same) (mark fmt ap out p))
          (vprintf-Printed percent fmt ap (rw e at h)))
  | inr e ↦
      rw (e)
        (plain-Printed c fmt ap e (vprintf text fmt ap) (vprintf-Printed text fmt ap (rw e at h)))
]
vprintf-Printed percent (c ∷ fmt) ap h =
    Succeeds-bind (Printed percent (c ∷ fmt) ap) (user_convert c ap)
      (λ r. vprintf text fmt r.1 >>= λ rest. some (r.0 ++ rest))
      (user_convert-Reads (wants text fmt) c ap h)
      (λ r (read, m).
        Succeeds-bind (Printed percent (c ∷ fmt) ap) (vprintf text fmt r.1)
          (λ rest. some (r.0 ++ rest)) (vprintf-Printed text fmt r.1 m)
          (λ rest p. conversion c fmt ap r.1 r.0 rest read p))
