-- ===== src/Log/Space.antt =====
-- The log of log.c under file system calls: the space that `begin_op` reserves, the panics, absorption
-- and pins, for every order of the calls' operations, evictions of buffers and crashes.
use cs.Common.{
  ℕ, suc, ◌+◌, ◌-◌, ◌*◌, ◌<◌, ◌≤◌, ◌≡◌, ◌≢◌, refl, sym, ap, ◌∙◌, true, false, inl, inr, List, [],
  ◌∷◌, ◌++◌, ltb, leb, ◌==◌, if◌then◌else◌, length, has, All, Distinct, arith, Bool-cases, ==_iff,
  ==_refl, ◌||◌, none, some,
}
use cs.Log.{LogState, bpin, log_write, position, set_block, log_capacity, max_op_blocks}
use cs.Log.Commit.{LogInv}

-- Absorption: a block that is logged stays where it is, and another goes to the end.
position-has :
    (i b : ℕ) (bs : List ℕ)
    → has b bs ≡ true
    → (i ≤ position i b bs) × (position i b bs < i + length bs)
unfolding position
position-has i b [] h = absurd (ground (arith, h))
position-has i b (x ∷ bs) h = ground (arith, position-has (suc i) b bs)

position-new : (i b : ℕ) (bs : List ℕ) → has b bs ≡ false → position i b bs ≡ i + length bs
unfolding position
position-new i b [] h = omega arith
position-new i b (x ∷ bs) h = ground (arith, position-new (suc i) b bs)

position_end : (b : ℕ) (bs : List ℕ) → has b bs ≡ false → position 0 b bs ≡ length bs
position_end b bs h = position-new 0 b bs h ∙ omega arith

set_block-new : (b : ℕ) (bs : List ℕ) → set_block (length bs) b bs ≡ bs ++ b ∷ []
unfolding set_block
set_block-new b [] = refl
set_block-new b (x ∷ bs) = ap (x ∷◌) (set_block-new b bs)

position-suc : (i b : ℕ) (bs : List ℕ) → position (suc i) b bs ≡ suc (position i b bs)
unfolding position
position-suc i b [] = refl
position-suc i b (x ∷ bs) = ground (arith, position-suc (suc i) b bs)

set_block-has : (b : ℕ) (bs : List ℕ) → has b bs ≡ true → set_block (position 0 b bs) b bs ≡ bs
unfolding set_block position
set_block-has b [] h = absurd (ground (arith, h))
set_block-has b (x ∷ bs) h = elim (Bool-cases (x == b)) [
  | inl e ↦ rw (e) (ap (◌∷ bs) (sym ((==_iff x b).0 e)))
  | inr e ↦ rw (e, position-suc 0 b bs) (ap (x ∷◌) (set_block-has b bs (ground (arith, h, e))))
]

-- The state after `log_write` where it does not panic.
abbrev pub logged : ℕ → LogState → LogState
logged b s = if has b s.lh then s else bpin b (record s { lh = s.lh ++ b ∷ [] })

-- `log_write` inside of a transaction with space left: a block that is logged already is absorbed, and
-- another is added and pinned. Without space, or outside of a transaction, it panics.
pub log_write_lem :
    (b : ℕ) (s : LogState)
    → log_write b s ≡ (
        if leb log_capacity (length s.lh) || leb (s.size - 1) (length s.lh) || ltb s.outstanding 1
        then none
        else some (logged b s))
unfolding log_write
log_write_lem b s = elim (Bool-cases (has b s.lh)) [
  | inl h ↦ rw (h, set_block-has b s.lh h) (ground (arith, position-has 0 b s.lh h))
  | inr h ↦
      rw (h, position_end b s.lh h, set_block-new b s.lh, ==_refl (length s.lh)) (ground arith)
]

abbrev pub total : List ℕ → ℕ
total [] = 0
total (n ∷ ns) = n + total ns

-- What holds while file system calls run that may each still write as many blocks as `left` says.
pub record LogGood (left : List ℕ) (s : LogState) : Type 0 where
  pub inv : LogInv s
  pub fits : log_capacity < s.size
  pub distinct : Distinct s.lh
  pub pinned : (b : ℕ) → s.pins b ≡ (if has b s.lh then 1 else 0)
  pub calls : s.outstanding ≡ length left
  pub reserved : length s.lh + total left ≤ log_capacity
  pub small : All (λ n. n ≤ max_op_blocks) left
  pub quiet : s.committing ≡ true → left ≡ []

pub total_bound :
    (ns : List ℕ) → All (λ n. n ≤ max_op_blocks) ns → total ns ≤ length ns * max_op_blocks
total_bound [] a = omega arith
total_bound (n ∷ ns) a = omega (arith, a.0, total_bound ns a.1)

-- One call's allowance among the others'.
pub total-middle : (xs : List ℕ) (n : ℕ) (ys : List ℕ) → total (xs ++ n ∷ ys) ≡ n + total (xs ++ ys)
total-middle [] n ys = refl
total-middle (x ∷ xs) n ys = omega (arith, total-middle xs n ys)

pub length-middle :
    (xs : List ℕ) (n : ℕ) (ys : List ℕ) → length (xs ++ n ∷ ys) ≡ suc (length (xs ++ ys))
length-middle [] n ys = refl
length-middle (x ∷ xs) n ys = ap suc (length-middle xs n ys)

abbrev pub Small : List ℕ → Type 0
Small ns = All (λ n. n ≤ max_op_blocks) ns

pub Small-middle :
    (xs : List ℕ) (n : ℕ) (ys : List ℕ)
    → Small (xs ++ n ∷ ys)
    → (n ≤ max_op_blocks) × Small (xs ++ ys)
Small-middle [] n ys a = a
Small-middle (x ∷ xs) n ys a = let (p, rest) = Small-middle xs n ys a.1 in (p, (a.0, rest))

pub Small-insert :
    (xs : List ℕ) (n : ℕ) (ys : List ℕ)
    → n ≤ max_op_blocks
    → Small (xs ++ ys)
    → Small (xs ++ n ∷ ys)
Small-insert [] n ys p a = (p, a)
Small-insert (x ∷ xs) n ys p a = (a.0, Small-insert xs n ys p a.1)

pub not-empty : (xs : List ℕ) (n : ℕ) (ys : List ℕ) → xs ++ n ∷ ys ≢ []
not-empty [] n ys e = absurd (omega (arith, ap length e))
not-empty (x ∷ xs) n ys e = absurd (omega (arith, ap length e))
