-- ===== src/Print/Bounds.antt =====
-- The buffer of `printint` is large enough for every int, and its loop ends.
use cs.Common.{
  ℕ, zero, suc, ◌/◌, ◌≤◌, ◌<◌, ◌^◌, ◌≡◌, refl, Bool, ◌&&◌, ◌⊎◌, inl, inr, Option, none, some,
  length, length-append, arith, Bool-cases, Succeeds, Bytes, [], ◌∷◌,
}
use native.Mathlib.Nat.{pow-zero, pow-suc, div-lt_iff_lt-mul, div-eq_of_lt}
use cs.Print.Numbers.{fill, backwards, printint, is_negative, negate}

pub length-backwards : (cs : Bytes) → length (backwards cs) ≡ length cs
unfolding backwards
length-backwards [] = refl
length-backwards (c ∷ cs) =
    omega (arith, length-append (backwards cs) (c ∷ []), length-backwards cs)

div-below : (b k x : ℕ) → x < suc b ^ suc k → x / suc b < suc b ^ k
div-below b k x h = (div-lt_iff_lt-mul (omega arith)).1 (rw (← pow-suc (suc b) k) h)

below_base : (b x : ℕ) → x < suc b ^ 1 → x < suc b
below_base b x h = grind (arith, pow-suc (suc b) 0, pow-zero (suc b))

-- A number below `base ^ k` has `k` digits at most.
pub fill-Succeeds :
    (table : Bytes) (b k room x : ℕ)
    → x < suc b ^ suc k
    → k < room
    → Succeeds (λ cs. length cs ≤ suc k) (fill table b room x)
unfolding fill
fill-Succeeds table b k zero x h p = absurd (omega arith)
fill-Succeeds table b zero (suc room) x h p =
    rw (div-eq_of_lt {n = x} {m = suc b} (below_base b x h)) (omega arith)
fill-Succeeds table b (suc k) (suc room) x h p =
    ground (arith, fill-Succeeds table b k room (x / suc b) (div-below b (suc k) x h) (omega arith))

minus-length :
    (o : Option Bytes) (k : ℕ)
    → Succeeds (λ cs. length cs ≤ k) o
    → Succeeds
        (λ out. length out ≤ suc k)
        (elim o [ none ↦ none | some cs ↦ some (b'-' ∷ backwards cs) ])
minus-length none k h = h
minus-length (some cs) k h = omega (arith, h, length-backwards cs)

plain-length :
    (o : Option Bytes) (k : ℕ)
    → Succeeds (λ cs. length cs ≤ k) o
    → Succeeds (λ out. length out ≤ suc k) (elim o [ none ↦ none | some cs ↦ some (backwards cs) ])
plain-length none k h = h
plain-length (some cs) k h = omega (arith, h, length-backwards cs)

printed_length :
    (table : Bytes) (xx b k : ℕ) (sign : Bool)
    → xx < suc b ^ suc k
    → negate xx < suc b ^ suc k
    → k < 15
    → Succeeds (λ out. length out ≤ suc (suc k)) (printint table xx b sign)
unfolding printint
printed_length table xx b k sign h n p = elim (Bool-cases (sign && is_negative xx)) [
  | inl e ↦ rw (e) (minus-length _ (suc k) (fill-Succeeds table b k 15 (negate xx) n p))
  | inr e ↦ rw (e) (plain-length _ (suc k) (fill-Succeeds table b k 16 xx h (omega (arith, p))))
]

weaker :
    (o : Option Bytes) → Succeeds (λ out. length out ≤ 9) o → Succeeds (λ out. length out ≤ 11) o
weaker none h = h
weaker (some cs) h = omega (arith, h)

-- In the two bases that are used, an int prints as at most 11 bytes: the loop ends, and the buffer
-- of 16 is never left.
pub printint-Succeeds :
    (table : Bytes) (xx b : ℕ) (sign : Bool)
    → xx < 2 ^ 32
    → (b ≡ 9) ⊎ (b ≡ 15)
    → Succeeds (λ out. length out ≤ 11) (printint table xx b sign)
printint-Succeeds table xx b sign h (inl e) =
    rw (e) (printed_length table xx 9 9 sign (omega (arith, h)) (omega arith) (omega arith))
printint-Succeeds table xx b sign h (inr e) =
    rw (e)
      (weaker _ (printed_length table xx 15 7 sign (omega (arith, h)) (omega arith) (omega arith)))
