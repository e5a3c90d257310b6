-- ===== src/Bcache/Chain.antt =====
-- Circular doubly linked lists through a head: walking, removal and insertion at the front.
use cs.Common.{
  ℕ, ◌≡◌, ◌≢◌, inl, inr, true, false, List, [], ◌∷◌, arith, ◌==◌, update, has, Distinct, Bool-cases,
}
use cs.Mlfq.Table.Links.{erase}

-- From `a` the links lead through the list to `b`, and back.
abbrev pub Chain : (nx pv : ℕ → ℕ) → ℕ → List ℕ → ℕ → Type 0
Chain nx pv a [] b = (nx a ≡ b) × (pv b ≡ a)
Chain nx pv a (x ∷ xs) b = (nx a ≡ x) × (pv x ≡ a) × Chain nx pv x xs b

module _ (nx pv nx' pv' : ℕ → ℕ) where
  -- The forward links of the list and its start count, and the links back of the list and its end.
  pub Chain-frame :
      (xs : List ℕ) (a b : ℕ)
      → ((i : ℕ) → has i (a ∷ xs) ≡ true → nx' i ≡ nx i)
      → ((i : ℕ) → has i (b ∷ xs) ≡ true → pv' i ≡ pv i)
      → Chain nx pv a xs b
      → Chain nx' pv' a xs b
  Chain-frame [] a b same_nx same_pv l = (ground (arith, same_nx a), ground (arith, same_pv b))
  Chain-frame (x ∷ xs) a b same_nx same_pv l = (
    ground (arith, same_nx a),
    ground (arith, same_pv x),
    Chain-frame xs x b (λ i h. same_nx i (ground arith)) (λ i h. same_pv i (ground arith)) l.2,
  )

has-before :
    (nx pv : ℕ → ℕ) (xs : List ℕ) (a b p : ℕ)
    → has p xs ≡ true
    → Chain nx pv a xs b
    → has (pv p) (a ∷ xs) ≡ true
has-before nx pv [] a b p h l = absurd (ground (arith, h))
has-before nx pv (x ∷ xs) a b p h l = ground (arith, has-before nx pv xs x b p)

has-after :
    (nx pv : ℕ → ℕ) (xs : List ℕ) (a b p : ℕ)
    → has p (a ∷ xs) ≡ true
    → Chain nx pv a xs b
    → has (nx p) (b ∷ xs) ≡ true
has-after nx pv [] a b p h l = ground arith
has-after nx pv (x ∷ xs) a b p h l = ground (arith, has-after nx pv xs x b p)

skip-Chain :
    (nx pv : ℕ → ℕ) (x a b : ℕ) (ws : List ℕ)
    → has a (x ∷ ws) ≡ false
    → has b (x ∷ ws) ≡ false
    → Distinct (x ∷ ws)
    → Chain nx pv a (x ∷ ws) b
    → Chain (update nx (pv x) (nx x)) (update pv (nx x) (pv x)) a ws b
skip-Chain nx pv x a b [] ha hb d l = (ground arith, ground arith)
skip-Chain nx pv x a b (y ∷ ys) ha hb d l = (
  ground arith,
  ground arith,
  Chain-frame nx pv (update nx (pv x) (nx x)) (update pv (nx x) (pv x)) ys y b (λ i q. ground arith)
      (λ i q. ground arith) l.2.2,
)

-- The neighbours of `p` are joined.
pub erase-Chain :
    (nx pv : ℕ → ℕ) (b p : ℕ) (xs : List ℕ) (a : ℕ)
    → has p xs ≡ true
    → has a xs ≡ false
    → has b xs ≡ false
    → Distinct xs
    → Chain nx pv a xs b
    → Chain (update nx (pv p) (nx p)) (update pv (nx p) (pv p)) a (erase p xs) b
erase-Chain nx pv b p [] a h ha hb d l = ground arith
erase-Chain nx pv b p (x ∷ xs) a h ha hb d l = elim (Bool-cases (p == x)) [
  | inl e ↦
      rw (e, erase)
        (skip-Chain nx pv p a b xs (ground arith) (ground arith) (ground arith) (ground arith))
  | inr e ↦
      rw (e, erase)
        (
          ground (arith, has-before nx pv xs x b p),
          ground (arith, has-after nx pv xs x b p),
          erase-Chain nx pv b p xs x (ground arith) (ground arith) (ground arith) d.1 l.2,
        )
]

-- `p` goes between the start and the rest.
pub cons-Chain :
    (nx pv : ℕ → ℕ) (b p : ℕ) (xs : List ℕ) (a : ℕ)
    → has p xs ≡ false
    → has a xs ≡ false
    → has b xs ≡ false
    → p ≢ a
    → p ≢ b
    → Distinct xs
    → Chain nx pv a xs b
    → Chain (update (update nx p (nx a)) a p) (update (update pv p a) (nx a) p) a (p ∷ xs) b
cons-Chain nx pv b p [] a fresh ha hb na nb d l =
    (ground arith, ground arith, (ground arith, ground arith))
cons-Chain nx pv b p (x ∷ xs) a fresh ha hb na nb d l = (
  ground arith,
  ground arith,
  (
    ground arith,
    ground arith,
    Chain-frame nx pv (update (update nx p (nx a)) a p) (update (update pv p a) (nx a) p) xs x b
        (λ i q. ground arith) (λ i q. ground arith) l.2,
  ),
)
