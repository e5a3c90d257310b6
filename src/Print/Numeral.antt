-- ===== src/Print/Numeral.antt =====
-- Numerals: what `printint` of kernel/printf.c and user/printf.c prints for a number.
use cs.Common.{
  ℕ, zero, suc, ◌+◌, ◌-◌, ◌*◌, ◌/◌, ◌%◌, ◌^◌, ◌≤◌, ◌<◌, ◌≡◌, refl, ap, sym, subst, ◌∙◌, ◌⊎◌, inl,
  inr, true, false, Option, none, some, List, [], ◌∷◌, ◌++◌, ◌==◌, ==_iff, get_or, length, All,
  IfSome, Succeeds, Bytes, arith, Bool-cases,
}
use cs.Print.Numbers.{fill, backwards, printint, is_negative, negate}
use cs.Print.Bounds.{printint-Succeeds}

-- The number that the digits stand for, the lowest one first.
abbrev value : (base : ℕ) → List ℕ → ℕ
value base [] = 0
value base (d ∷ ds) = d + base * value base ds

-- There is a digit, and no zeros stand in front of the number.
abbrev Canonical : (base : ℕ) → List ℕ → Type 0
Canonical base [] = ⊥
Canonical base (d ∷ []) = Unit
Canonical base (d ∷ e ∷ ds) = 0 < value base (e ∷ ds) × Canonical base (e ∷ ds)

-- The digits as they are written, the highest one first.
abbrev pub written : (table : Bytes) → List ℕ → Bytes
written table [] = []
written table (d ∷ ds) = written table ds ++ get_or table d 0 ∷ []

-- The text is the numeral of `x`.
pub record Numeral (table : Bytes) (base x : ℕ) (text : Bytes) : Type 0 where
  pub ds : List ℕ
  pub shape : text ≡ written table ds
  pub small : All (λ d. d < base) ds
  pub sum : value base ds ≡ x
  pub canonical : Canonical base ds

-- The text is the numeral of an int, which is given by its bit pattern; a negative one has a sign.
abbrev pub SignedNumeral : (table : Bytes) (base xx : ℕ) → Bytes → Type 0
SignedNumeral table base xx text =
    (xx < 2 ^ 31) × Numeral table base xx text
    ⊎ (2 ^ 31 ≤ xx) × ((s : Bytes) × (text ≡ b'-' ∷ s) × Numeral table base (2 ^ 32 - xx) s)

abbrev pub IsBase : ℕ → Type 0
IsBase b = (b ≡ 9) ⊎ (b ≡ 15)

lowest : (b x : ℕ) → IsBase b → (x % suc b < suc b) × (x % suc b + suc b * (x / suc b) ≡ x)
lowest b x (inl e) = rw (e) (omega arith, omega arith)
lowest b x (inr e) = rw (e) (omega arith, omega arith)

one_more :
    (table : Bytes) (b x : ℕ) (cs : Bytes)
    → IsBase b
    → (x / suc b == 0) ≡ false
    → Numeral table (suc b) (x / suc b) (backwards cs)
    → Numeral table (suc b) x (backwards (get_or table (x % suc b) 0 ∷ cs))
unfolding backwards
one_more table b x cs base more n = go n.ds n.shape n.small n.sum n.canonical
  where
    go :
        (ds : List ℕ)
        → backwards cs ≡ written table ds
        → All (λ d. d < suc b) ds
        → value (suc b) ds ≡ x / suc b
        → Canonical (suc b) ds
        → Numeral table (suc b) x (backwards cs ++ get_or table (x % suc b) 0 ∷ [])
    go [] shape small sum canonical = absurd canonical
    go (d ∷ ds) shape small sum canonical = record {
      ds = x % suc b ∷ d ∷ ds;
      shape = ap (λ s. s ++ get_or table (x % suc b) 0 ∷ []) shape;
      small = ((lowest b x base).0, small);
      sum = ap (λ v. x % suc b + suc b * v) sum ∙ (lowest b x base).1;
      canonical = (subst (λ v. 0 < v) (sym sum) (ground (arith, more)), canonical);
    }

step-Numeral :
    (table : Bytes) (b x : ℕ) (o : Option Bytes)
    → IsBase b
    → (x / suc b == 0) ≡ false
    → IfSome (λ cs. Numeral table (suc b) (x / suc b) (backwards cs)) o
    → IfSome
        (λ cs. Numeral table (suc b) x (backwards cs))
        (elim o [ none ↦ none | some cs ↦ some (get_or table (x % suc b) 0 ∷ cs) ])
step-Numeral table b x none base more n = tt
step-Numeral table b x (some cs) base more n = one_more table b x cs base more n

fill-Numeral :
    (table : Bytes) (b room x : ℕ)
    → IsBase b
    → IfSome (λ cs. Numeral table (suc b) x (backwards cs)) (fill table b room x)
unfolding fill backwards
fill-Numeral table b zero x base = tt
fill-Numeral table b (suc room) x base = elim (Bool-cases (x / suc b == 0)) [
  | inl e ↦
      let last : x / suc b ≡ 0 = (==_iff (x / suc b) 0).0 e in
      rw (e) (record {
        ds = x % suc b ∷ [];
        shape = refl;
        small = ((lowest b x base).0, tt);
        sum = ap (λ v. x % suc b + suc b * v) (sym last) ∙ (lowest b x base).1;
        canonical = tt;
      })
  | inr e ↦ rw (e) (
      step-Numeral table b x (fill table b room (x / suc b)) base e
        (fill-Numeral table b room (x / suc b) base))
]

unsigned-IfSome :
    (P : Bytes → Type 0) (o : Option Bytes)
    → IfSome (λ cs. P (backwards cs)) o
    → IfSome P (elim o [ none ↦ none | some cs ↦ some (backwards cs) ])
unsigned-IfSome P none h = tt
unsigned-IfSome P (some cs) h = h

signed-IfSome :
    (table : Bytes) (b xx : ℕ) (o : Option Bytes)
    → 2 ^ 31 ≤ xx
    → IfSome (λ cs. Numeral table (suc b) (2 ^ 32 - xx) (backwards cs)) o
    → IfSome
        (SignedNumeral table (suc b) xx)
        (elim o [ none ↦ none | some cs ↦ some (b'-' ∷ backwards cs) ])
signed-IfSome table b xx none neg h = tt
signed-IfSome table b xx (some cs) neg h = inr (neg, (backwards cs, refl, h))

IfSome-inl :
    (table : Bytes) (b xx : ℕ)
    → xx < 2 ^ 31
    → (o : Option Bytes) → IfSome (λ cs. Numeral table (suc b) xx (backwards cs)) o
    → IfSome (λ cs. SignedNumeral table (suc b) xx (backwards cs)) o
IfSome-inl table b xx low none h = tt
IfSome-inl table b xx low (some cs) h = inl (low, h)

ends_with :
    (k : ℕ) (Q : Bytes → Type 0) (o : Option Bytes)
    → Succeeds (λ s. length s ≤ k) o
    → IfSome Q o
    → Succeeds Q o
ends_with k Q none p q = p
ends_with k Q (some s) p q = q

-- `printint` without a sign prints the numeral of the pattern.
pub printint-Numeral :
    (table : Bytes) (xx b : ℕ)
    → xx < 2 ^ 32
    → IsBase b
    → Succeeds (Numeral table (suc b) xx) (printint table xx b false)
unfolding printint
printint-Numeral table xx b h base =
    ends_with 11 (Numeral table (suc b) xx) (printint table xx b false)
      (printint-Succeeds table xx b false h base)
      (unsigned-IfSome (Numeral table (suc b) xx) (fill table b 16 xx)
        (fill-Numeral table b 16 xx base))

-- `printint` with a sign prints the numeral of the int.
pub printint-SignedNumeral :
    (table : Bytes) (xx b : ℕ)
    → xx < 2 ^ 32
    → IsBase b
    → Succeeds (SignedNumeral table (suc b) xx) (printint table xx b true)
unfolding printint
printint-SignedNumeral table xx b h base =
    ends_with 11 (SignedNumeral table (suc b) xx) (printint table xx b true)
      (printint-Succeeds table xx b true h base)
      (elim (Bool-cases (is_negative xx)) [
        | inl e ↦
            let neg : 2 ^ 31 ≤ xx = ground (arith, e) in
            let same : negate xx ≡ 2 ^ 32 - xx = omega (arith, neg, h) in
            rw (e) (
              signed-IfSome table b xx (fill table b 15 (negate xx)) neg (
                subst
                  (λ y.
                    IfSome (λ cs. Numeral table (suc b) y (backwards cs))
                      (fill table b 15 (negate xx)))
                  same (fill-Numeral table b 15 (negate xx) base)))
        | inr e ↦
            let low : xx < 2 ^ 31 = ground (arith, e) in
            rw (e) (
              unsigned-IfSome (SignedNumeral table (suc b) xx) (fill table b 16 xx)
                (IfSome-inl table b xx low (fill table b 16 xx) (fill-Numeral table b 16 xx base)))
      ])
