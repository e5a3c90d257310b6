-- ===== src/Mlfq/Table/Links.antt =====
-- Doubly linked lists in an array: what an insertion before the tail and a removal do to them.
use cs.Common.{
  ℕ, ◌≡◌, refl, ◌≢◌, inl, inr, true, false, List, [], ◌∷◌, ◌++◌, arith, ◌==◌, if◌then◌else◌, update,
  has, has-append, Distinct, Distinct-append, Bool-cases,
}

-- From `a` on, `nx` leads through the list and `pv` leads back.
abbrev pub Links : (nx pv : ℕ → ℕ) → ℕ → List ℕ → Type 0
Links nx pv a [] = Unit
Links nx pv a (x ∷ xs) = (nx a ≡ x) × (pv x ≡ a) × Links nx pv x xs

-- The list without the first occurrence of `p`.
abbrev pub erase : ℕ → List ℕ → List ℕ
erase p [] = []
erase p (x ∷ xs) = if p == x then xs else x ∷ erase p xs

module _ (nx pv nx' pv' : ℕ → ℕ) where
  -- Links depend on the entries of the list alone.
  pub frame :
      (zs : List ℕ) (a : ℕ)
      → ((i : ℕ) → has i (a ∷ zs) ≡ true → nx' i ≡ nx i)
      → ((i : ℕ) → has i zs ≡ true → pv' i ≡ pv i)
      → Links nx pv a zs
      → Links nx' pv' a zs
  frame [] a same_nx same_pv l = tt
  frame (z ∷ zs) a same_nx same_pv l = (
    ground (arith, same_nx a),
    ground (arith, same_pv z),
    frame zs z (λ i h. same_nx i (ground arith)) (λ i h. same_pv i (ground arith)) l.2,
  )

-- The entry before the end `b` is one of the list.
pub has-last :
    (nx pv : ℕ → ℕ) (xs : List ℕ) (a b : ℕ)
    → Links nx pv a (xs ++ b ∷ [])
    → has (pv b) (a ∷ xs) ≡ true
has-last nx pv [] a b l = ground arith
has-last nx pv (x ∷ xs) a b l = ground (arith, has-last nx pv xs x b l.2)

-- The entry after `p` is one of those behind it, or the end.
pub has-next :
    (nx pv : ℕ → ℕ) (xs : List ℕ) (a b p : ℕ)
    → has p (a ∷ xs) ≡ true
    → Links nx pv a (xs ++ b ∷ [])
    → has (nx p) (xs ++ b ∷ []) ≡ true
has-next nx pv [] a b p h l = ground arith
has-next nx pv (x ∷ xs) a b p h l = ground (arith, has-next nx pv xs x b p)

pub has-prev :
    (nx pv : ℕ → ℕ) (xs : List ℕ) (a b p : ℕ)
    → has p (xs ++ b ∷ []) ≡ true
    → Links nx pv a (xs ++ b ∷ [])
    → has (pv p) (a ∷ xs) ≡ true
has-prev nx pv [] a b p h l = ground arith
has-prev nx pv (x ∷ xs) a b p h l = ground (arith, has-prev nx pv xs x b p)

-- `enqueue`: `p` goes between the last entry and the end `b`.
pub append-Links :
    (nx pv : ℕ → ℕ) (b p : ℕ) (xs : List ℕ) (a : ℕ)
    → has p (a ∷ xs) ≡ false
    → has b (a ∷ xs) ≡ false
    → p ≢ b
    → Distinct (a ∷ xs)
    → Links nx pv a (xs ++ b ∷ [])
    → Links (update (update nx p b) (pv b) p) (update (update pv p (pv b)) b p) a (xs ++ p ∷ b ∷ [])
append-Links nx pv b p [] a fresh end ne d l =
    (ground arith, ground arith, (ground arith, ground arith, tt))
append-Links nx pv b p (x ∷ xs) a fresh end ne d l = (
  ground (arith, has-last nx pv xs x b l.2),
  ground (arith, has-last nx pv xs x b l.2),
  append-Links nx pv b p xs x (ground arith) (ground arith) ne d.1 l.2,
)

has-erase : (p a : ℕ) (xs : List ℕ) → has a xs ≡ false → has a (erase p xs) ≡ false
has-erase p a [] h = refl
has-erase p a (x ∷ xs) h = ground (arith, has-erase p a xs)

-- The entry behind `a` is left out.
skip-Links :
    (nx pv : ℕ → ℕ) (x a : ℕ) (ws : List ℕ)
    → has a ws ≡ false
    → Distinct ws
    → Links nx pv a (x ∷ ws)
    → Links (update nx (pv x) (nx x)) (update pv (nx x) (pv x)) a ws
skip-Links nx pv x a [] h d l = tt
skip-Links nx pv x a (y ∷ ys) h d l = (
  ground arith,
  ground arith,
  frame nx pv (update nx (pv x) (nx x)) (update pv (nx x) (pv x)) ys y (λ i q. ground arith)
      (λ i q. ground arith) l.2.2,
)

-- `removeFromQueue`: the neighbours of `p` are joined.
pub erase-Links :
    (nx pv : ℕ → ℕ) (b p : ℕ) (xs : List ℕ) (a : ℕ)
    → has p xs ≡ true
    → has b (a ∷ xs) ≡ false
    → Distinct (a ∷ xs)
    → Links nx pv a (xs ++ b ∷ [])
    → Links (update nx (pv p) (nx p)) (update pv (nx p) (pv p)) a (erase p xs ++ b ∷ [])
erase-Links nx pv b p [] a h end d l = ground arith
erase-Links nx pv b p (x ∷ xs) a h end d l = elim (Bool-cases (p == x)) [
  | inl e ↦
      rw (e, erase)
        (skip-Links nx pv p a (xs ++ b ∷ []) (ground (arith, has-append a xs (b ∷ [])))
          (Distinct-append b xs (ground arith) d.1.1) (ground arith))
  | inr e ↦
      rw (e, erase)
        (
          ground (arith, has-prev nx pv xs x b p, has-append p xs (b ∷ [])),
          ground (arith, has-next nx pv xs x b p, has-append x xs (b ∷ [])),
          erase-Links nx pv b p xs x (ground arith) (ground arith) d.1 l.2,
        )
]
