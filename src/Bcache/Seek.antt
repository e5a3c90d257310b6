-- ===== src/Bcache/Seek.antt =====
-- What the loops over the list of buffers find.
use cs.Common.{
  ℕ, zero, suc, ◌<◌, ◌≡◌, refl, inl, inr, Bool, true, false, List, [], ◌∷◌, ◌++◌, arith, ◌==◌,
  if◌then◌else◌, has, has-append, ==_iff, Bool-cases, length, length-append,
}
use cs.Bcache.{head, Search, seek}
use cs.Bcache.Chain.{Chain}

-- The first entry that passes the test.
abbrev pub first : (test : ℕ → Bool) → List ℕ → Search
first test [] = Search.missing
first test (x ∷ xs) = if test x then Search.found x else first test xs

-- Walking forward.
pub seek-Chain :
    (nx pv : ℕ → ℕ) (test : ℕ → Bool) (xs : List ℕ) (a fuel : ℕ)
    → has head xs ≡ false
    → length xs < fuel
    → Chain nx pv a xs head
    → seek nx test fuel (nx a) ≡ first test xs
unfolding seek
seek-Chain nx pv test xs a zero h f l = absurd (omega (arith, f))
seek-Chain nx pv test [] a (suc fuel) h f l = ground arith
seek-Chain nx pv test (x ∷ xs) a (suc fuel) h f l = ground (arith, seek-Chain nx pv test xs x fuel)

abbrev pub reversed : List ℕ → List ℕ
reversed [] = []
reversed (x ∷ xs) = reversed xs ++ x ∷ []

Chain-snoc :
    (nx pv : ℕ → ℕ) (xs : List ℕ) (a x b : ℕ)
    → Chain nx pv a xs x
    → nx x ≡ b
    → pv b ≡ x
    → Chain nx pv a (xs ++ x ∷ []) b
Chain-snoc nx pv [] a x b l e f = (l.0, l.1, (e, f))
Chain-snoc nx pv (y ∷ xs) a x b l e f = (l.0, l.1, Chain-snoc nx pv xs y x b l.2 e f)

-- The links back make the reversed list.
Chain-reversed :
    (nx pv : ℕ → ℕ) (xs : List ℕ) (a b : ℕ) → Chain nx pv a xs b → Chain pv nx b (reversed xs) a
Chain-reversed nx pv [] a b l = (l.1, l.0)
Chain-reversed nx pv (x ∷ xs) a b l =
    Chain-snoc pv nx (reversed xs) b x a (Chain-reversed nx pv xs x b l.2) l.1 l.0

pub has-reversed : (a : ℕ) (xs : List ℕ) → has a (reversed xs) ≡ has a xs
has-reversed a [] = refl
has-reversed a (x ∷ xs) = ground (arith, has-reversed a xs, has-append a (reversed xs) (x ∷ []))

length-reversed : (xs : List ℕ) → length (reversed xs) ≡ length xs
length-reversed [] = refl
length-reversed (x ∷ xs) = omega (arith, length-reversed xs, length-append (reversed xs) (x ∷ []))

-- Walking back.
pub seek-back :
    (nx pv : ℕ → ℕ) (test : ℕ → Bool) (xs : List ℕ) (fuel : ℕ)
    → has head xs ≡ false
    → length xs < fuel
    → Chain nx pv head xs head
    → seek pv test fuel (pv head) ≡ first test (reversed xs)
seek-back nx pv test xs fuel h f l =
    seek-Chain pv nx test (reversed xs) head fuel (ground (arith, has-reversed head xs))
      (omega (arith, f, length-reversed xs)) (Chain-reversed nx pv xs head head l)

-- What the first entry tells about the list.
abbrev pub FirstOf : (test : ℕ → Bool) → List ℕ → Search → Type 0
FirstOf test xs (Search.found b) = (has b xs ≡ true) × (test b ≡ true)
FirstOf test xs Search.missing = (i : ℕ) → has i xs ≡ true → test i ≡ false
FirstOf test xs Search.endless = ⊥

FirstOf-cons :
    (test : ℕ → Bool) (x : ℕ) (xs : List ℕ) (r : Search)
    → test x ≡ false
    → FirstOf test xs r
    → FirstOf test (x ∷ xs) r
FirstOf-cons test x xs (Search.found b) e f = (ground (arith, f), f.1)
FirstOf-cons test x xs Search.missing e f = λ i h. elim (Bool-cases (i == x)) [
  | inl same ↦ rw ((==_iff i x).0 same) e
  | inr other ↦ f i (ground (arith, h, other))
]
FirstOf-cons test x xs Search.endless e f = f

pub first-FirstOf : (test : ℕ → Bool) (xs : List ℕ) → FirstOf test xs (first test xs)
first-FirstOf test [] = λ i h. absurd (ground (arith, h))
first-FirstOf test (x ∷ xs) = elim (Bool-cases (test x)) [
  | inl e ↦ rw (e) (ground arith, e)
  | inr e ↦ rw (e) (FirstOf-cons test x xs (first test xs) e (first-FirstOf test xs))
]
