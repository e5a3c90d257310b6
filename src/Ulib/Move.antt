-- ===== src/Ulib/Move.antt =====
-- `memmove` of ulib.c does what the kernel's does.
use cs.Common.{ℕ, ◌^◌, ◌≡◌, ◌<◌, ◌≤◌, ◌⊎◌, inl, inr, ltb, Bool-cases, arith}
use cs.Strings.{Memory, memmove}
use cs.Strings.Move.{move_up_lem, move_down_lem, memmove_lem}
use cs.Ulib.{user_memmove}

-- Both move the bytes up or down; the user library compares the two pointers only, the kernel also looks
-- whether the ranges overlap. For a count that is not negative as an int every byte ends up the same; for
-- a negative one the user library's `memmove` changes nothing, where the kernel's parameter is a uint.
user_memmove_lem :
    (dst src n : ℕ) (m : Memory) (a : ℕ)
    → (n < 2 ^ 31) × (user_memmove dst src n m a ≡ memmove dst src n m a)
      ⊎ (2 ^ 31 ≤ n) × (user_memmove dst src n m a ≡ m a)
unfolding user_memmove
user_memmove_lem dst src n m a = elim (Bool-cases (ltb n (2 ^ 31))) [
  | inl e ↦ inl (
    ground (arith, e),
    rw (e) (
        ground (
          arith,
          move_down_lem dst src n m a,
          move_up_lem dst src n m a,
          memmove_lem dst src n m a,
        )),
  )
  | inr e ↦ inr (
    ground (arith, e),
    rw (e) (ground (arith, move_down_lem dst src 0 m a, move_up_lem dst src 0 m a)),
  )
]
