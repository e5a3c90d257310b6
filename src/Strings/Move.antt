-- ===== src/Strings/Move.antt =====
-- What `memset`, `memmove` and the copying functions of string.c leave in memory.
use cs.Common.{
  ℕ, zero, suc, ◌+◌, ◌-◌, ◌%◌, ◌≤◌, ◌≡◌, ◌∙◌, Bool, ◌&&◌, ◌⊎◌, inl, inr, ltb, leb, if◌then◌else◌,
  update, arith,
}
use cs.Strings.{Memory, memset_from, memset, move_down, move_up, memmove}

-- Whether `a` is one of the `n` addresses from `d` on.
abbrev pub in_range : (d n a : ℕ) → Bool
in_range d n a = leb d a && ltb a (d + n)

memset_from_lem :
    (dst c rest i : ℕ) (m : Memory) (a : ℕ)
    → memset_from dst c rest i m a ≡ (if in_range (dst + i) rest a then c % 256 else m a)
unfolding memset_from
memset_from_lem dst c zero i m a = ground arith
memset_from_lem dst c (suc rest) i m a =
    memset_from_lem dst c rest (i + 1) (update m (dst + i) (c % 256)) a ∙ ground arith

-- `memset` sets the `n` bytes from `dst` on and no other.
memset_lem :
    (dst c n : ℕ) (m : Memory) (a : ℕ)
    → memset dst c n m a ≡ (if in_range dst n a then c % 256 else m a)
unfolding memset
memset_lem dst c n m a = memset_from_lem dst c n 0 m a ∙ ground arith

pub move_up_lem :
    (d s n : ℕ) (m : Memory) (a : ℕ)
    → (d ≤ s) ⊎ (s + n ≤ d)
    → move_up d s n m a ≡ (if in_range d n a then m (s + (a - d)) else m a)
unfolding move_up
move_up_lem d s zero m a apart = ground arith
move_up_lem d s (suc n) m a apart =
    move_up_lem (d + 1) (s + 1) n (update m d (m s)) a
      (elim apart [ inl le ↦ inl (omega arith) | inr le ↦ inr (omega arith) ])
    ∙ ground arith

pub move_down_lem :
    (d s n : ℕ) (m : Memory) (a : ℕ)
    → s ≤ d
    → move_down d s n m a ≡ (if in_range d n a then m (s + (a - d)) else m a)
unfolding move_down
move_down_lem d s zero m a le = ground arith
move_down_lem d s (suc n) m a le =
    move_down_lem d s n (update m (d + n) (m (s + n))) a le ∙ ground arith

-- `memmove` copies the `n` bytes as they were before, also where the two ranges overlap, and changes
-- no other byte.
pub memmove_lem :
    (dst src n : ℕ) (m : Memory) (a : ℕ)
    → memmove dst src n m a ≡ (if in_range dst n a then m (src + (a - dst)) else m a)
unfolding memmove
memmove_lem dst src n m a = ground (arith, move_down_lem dst src n m a, move_up_lem dst src n m a)
