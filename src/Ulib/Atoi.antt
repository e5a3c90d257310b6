-- ===== src/Ulib/Atoi.antt =====
-- `atoi` reads back what `printint` prints.
use cs.Common.{
  ℕ, zero, suc, ◌+◌, ◌-◌, ◌*◌, ◌/◌, ◌%◌, ◌^◌, ◌≤◌, ◌<◌, ◌≡◌, refl, ◌∙◌, Bool, true, false, ◌&&◌,
  inl, inr, Option, none, some, [], ◌∷◌, ◌++◌, ◌==◌, arith, Bool-cases, All, All-append, length,
  IfSome, Succeeds, Bytes, codes, get_or, get_or-append, ap,
}
use cs.Print.Numbers.{digits, fill, backwards, printint, is_negative, negate}
use cs.Print.Bounds.{fill-Succeeds}
use cs.Ulib.{atoi, atoi_from}

abbrev pub IsDigit : ℕ → Type 0
IsDigit c = (b'0' ≤ c) × (c ≤ b'9')

atoi_from-append :
    (n : ℕ) (s t : Bytes) → All IsDigit s → atoi_from n (s ++ t) ≡ atoi_from (atoi_from n s) t
unfolding atoi_from
atoi_from-append n [] t h = refl
atoi_from-append n (c ∷ s) t ((lo, hi), h) =
    ground (arith, atoi_from-append ((n * 10 + c - b'0') % 2 ^ 32) s t h, lo, hi)

abbrev count_from : (n c : ℕ) → Bytes
count_from zero c = []
count_from (suc n) c = c ∷ count_from n (suc c)

get_or-count_from : (n c i : ℕ) → i < n → get_or (count_from n c) i 0 ≡ c + i
get_or-count_from zero c i h = absurd (omega (arith, h))
get_or-count_from (suc n) c zero h = omega arith
get_or-count_from (suc n) c (suc i) h =
    get_or-count_from n (suc c) i (omega (arith, h)) ∙ omega arith

length-count_from : (n c : ℕ) → length (count_from n c) ≡ n
length-count_from zero c = refl
length-count_from (suc n) c = ap suc (length-count_from n (suc c))

decimal : (x : ℕ) → x < 10 → get_or digits x 0 ≡ b'0' + x
decimal x h =
    get_or-append (count_from 10 b'0') (codes "abcdef") x 0 (omega (arith, h))
    ∙ get_or-count_from 10 b'0' x h

-- The digits are those of `x`.
abbrev Spells : ℕ → Bytes → Type 0
Spells x cs = All IsDigit (backwards cs) × (atoi_from 0 (backwards cs) ≡ x)

Spells-more :
    (x : ℕ) (cs : Bytes)
    → x < 2 ^ 32
    → Spells (x / 10) cs
    → Spells x (get_or digits (x % 10) 0 ∷ cs)
unfolding atoi_from backwards
Spells-more x cs h (a, e) = rw (decimal (x % 10) (omega arith)) (
  All-append IsDigit (backwards cs) ((b'0' + x % 10) ∷ []) a ((omega arith, omega arith), tt),
  atoi_from-append 0 (backwards cs) ((b'0' + x % 10) ∷ []) a ∙ ground (arith, e, h),
)

one_more :
    (x : ℕ) (o : Option Bytes)
    → x < 2 ^ 32
    → IfSome (Spells (x / 10)) o
    → IfSome (Spells x) (elim o [ none ↦ none | some cs ↦ some (get_or digits (x % 10) 0 ∷ cs) ])
one_more x none h s = tt
one_more x (some cs) h s = Spells-more x cs h s

zero_spelled : (y : ℕ) → (y == 0) ≡ true → atoi_from 0 (backwards []) ≡ y
unfolding atoi_from backwards
zero_spelled y e = ground arith

read_back :
    (o : Option Bytes) (x : ℕ) (k : ℕ)
    → Succeeds (λ cs. length cs ≤ k) o
    → IfSome (Spells x) o
    → Succeeds (λ out. atoi_from 0 out ≡ x) (elim o [ none ↦ none | some cs ↦ some (backwards cs) ])
read_back none x k h s = h
read_back (some cs) x k h s = s.1

no_digit :
    (o : Option Bytes) (k : ℕ)
    → Succeeds (λ cs. length cs ≤ k) o
    → Succeeds
        (λ out. atoi_from 0 out ≡ 0)
        (elim o [ none ↦ none | some cs ↦ some (b'-' ∷ backwards cs) ])
unfolding atoi_from
no_digit none k h = h
no_digit (some cs) k h = refl

fill-Spells : (room x : ℕ) → x < 2 ^ 32 → IfSome (Spells x) (fill digits 9 room x)
unfolding fill backwards
fill-Spells zero x h = tt
fill-Spells (suc room) x h = elim (Bool-cases (x / 10 == 0)) [
  | inl e ↦ rw (e) (Spells-more x [] h (tt, zero_spelled (x / 10) e))
  | inr e ↦
      rw (e)
        (one_more x (fill digits 9 room (x / 10)) h (fill-Spells room (x / 10) (omega (arith, h))))
]

-- The int that `atoi` reads from what `printint` prints is the one that was printed, where it is
-- not negative, or printed without its sign and below 2^32.
pub atoi-printint :
    (xx : ℕ) (sign : Bool)
    → xx < 2 ^ 32
    → (sign && is_negative xx) ≡ false
    → Succeeds (λ out. atoi out ≡ xx) (printint digits xx 9 sign)
unfolding printint atoi
atoi-printint xx sign h e = rw (e) (
    read_back (fill digits 9 16 xx) xx 10
      (fill-Succeeds digits 9 9 16 xx (omega (arith, h)) (omega arith)) (fill-Spells 16 xx h))

-- A sign in front is no digit: `atoi` gives 0 for every negative number.
atoi-negative :
    (xx : ℕ)
    → xx < 2 ^ 32
    → is_negative xx ≡ true
    → Succeeds (λ out. atoi out ≡ 0) (printint digits xx 9 true)
unfolding printint atoi atoi_from
atoi-negative xx h e = rw (e) (
    no_digit (fill digits 9 15 (negate xx)) 10
      (fill-Succeeds digits 9 9 15 (negate xx) (omega arith) (omega arith)))
