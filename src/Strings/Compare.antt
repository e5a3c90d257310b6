-- ===== src/Strings/Compare.antt =====
-- What `memcmp`, `strlen` and `safestrcpy` of string.c promise about strings.
use cs.Common.{
  ℕ, zero, suc, ◌+◌, ◌<◌, ◌≤◌, ◌≡◌, ◌≢◌, ◌↔◌, refl, subst, false, ◌⊎◌, inl, inr, ◌==◌, ==_iff,
  update, arith, Bool-cases, Option-cases, Succeeds,
}
use cs.Common.Int.{pos, ◌-ℤ◌}
use cs.Strings.{Memory, memcmp, safe_copy, safestrcpy, strlen}

shift : (v i : ℕ) → v + 1 + i ≡ v + suc i
shift v i = omega arith

differ : (a b : ℕ) → (pos a -ℤ pos b ≡ pos 0) → a ≡ b
unfolding ◌-ℤ◌
differ a b e = ground (arith, e)

add_zero : (v : ℕ) → v + 0 ≡ v
add_zero v = omega arith

extend :
    (v1 v2 n : ℕ) (m : Memory)
    → m v1 ≡ m v2
    → ((i : ℕ) → i < n → m (v1 + 1 + i) ≡ m (v2 + 1 + i))
    → (i : ℕ) → i < suc n
    → m (v1 + i) ≡ m (v2 + i)
extend v1 v2 n m e h zero lt = rw (add_zero v1, add_zero v2) e
extend v1 v2 n m e h (suc i) lt = rw (← shift v1 i, ← shift v2 i) (h i (omega (arith, lt)))

-- `memcmp` finds no difference exactly if the two ranges hold the same bytes.
memcmp_zero_iff :
    (v1 v2 n : ℕ) (m : Memory)
    → (memcmp v1 v2 n m ≡ pos 0) ↔ ((i : ℕ) → i < n → m (v1 + i) ≡ m (v2 + i))
unfolding memcmp
memcmp_zero_iff v1 v2 zero m = (λ e i lt. absurd (omega (arith, lt)), λ h. refl)
memcmp_zero_iff v1 v2 (suc n) m = elim (Bool-cases (m v1 == m v2)) [
  | inl e ↦ rw (e) (
    λ z.
        extend v1 v2 n m ((==_iff (m v1) (m v2)).0 e) ((memcmp_zero_iff (v1 + 1) (v2 + 1) n m).0 z),
    λ h.
        (memcmp_zero_iff (v1 + 1) (v2 + 1) n m).1
          (λ i lt. rw (shift v1 i, shift v2 i) (h (suc i) (omega (arith, lt)))),
  )
  | inr e ↦ rw (e) (
    λ z. absurd (ground (arith, e, differ (m v1) (m v2) z)),
    λ h. absurd (ground (arith, e, add_zero v1, add_zero v2, h 0 (omega arith))),
  )
]

shift_add : (s n : ℕ) → s + 1 + n ≡ s + (n + 1)
shift_add s n = omega arith

non_nul :
    (s n : ℕ) (m : Memory)
    → (m s == 0) ≡ false
    → ((i : ℕ) → i < n → m (s + 1 + i) ≢ 0)
    → (i : ℕ) → i < n + 1
    → m (s + i) ≢ 0
non_nul s n m e before zero lt nul = ground (arith, e, add_zero s, nul)
non_nul s n m e before (suc i) lt nul = before i (omega (arith, lt)) (rw (shift s i) nul)

-- `strlen` finds the first NUL, if there is one that it gets to.
strlen-Succeeds :
    (k fuel s : ℕ) (m : Memory)
    → m (s + k) ≡ 0
    → k < fuel
    → Succeeds
        (λ n. (n ≤ k) × (m (s + n) ≡ 0) × ((i : ℕ) → i < n → m (s + i) ≢ 0))
        (strlen fuel s m)
unfolding strlen
strlen-Succeeds k zero s m nul lt = absurd (omega (arith, lt))
strlen-Succeeds zero (suc fuel) s m nul lt =
    let e : m s ≡ 0 = subst (λ a. m a ≡ 0) (add_zero s) nul in
    rw (e) (omega arith, nul, λ i below. absurd (omega (arith, below)))
strlen-Succeeds (suc k) (suc fuel) s m nul lt =
    let found = strlen-Succeeds k fuel (s + 1) m (rw (shift s k) nul) (omega (arith, lt)) in
    elim (Bool-cases (m s == 0)) [
      | inl e ↦ rw (e) (
        omega arith,
        rw (add_zero s) ((==_iff (m s) 0).0 e),
        λ i below. absurd (omega (arith, below)),
      )
      | inr e ↦ elim (Option-cases (strlen fuel (s + 1) m)) [
        | inl o ↦ absurd (subst (Succeeds _) o found)
        | inr (n, o) ↦
            let (le, z, before) = subst (Succeeds _) o found in
            rw (e, o)
              (omega (arith, le), subst (λ a. m a ≡ 0) (shift_add s n) z, non_nul s n m e before)
      ]
    ]

-- The loop of `safestrcpy`.
safe_copy_ends :
    (s t rest : ℕ) (m : Memory) → (k : ℕ) × (k ≤ rest) × (safe_copy s t rest m (s + k) ≡ 0)
unfolding safe_copy
safe_copy_ends s t zero m = (0, omega arith, ground arith)
safe_copy_ends s t (suc rest) m = elim (Bool-cases (m t == 0)) [
  | inl e ↦ rw (e) (1, omega arith, ground arith)
  | inr e ↦
      let (k, le, z) = safe_copy_ends (s + 1) (t + 1) rest (update m s (m t)) in
      rw (e) (
        suc k,
        omega (arith, le),
        subst (λ a. safe_copy (s + 1) (t + 1) rest (update m s (m t)) a ≡ 0) (shift s k) z,
      )
]

safe_copy_frame :
    (s t rest : ℕ) (m : Memory) (a : ℕ) → (a < s) ⊎ (s + rest < a) → safe_copy s t rest m a ≡ m a
unfolding safe_copy
safe_copy_frame s t zero m a out = ground arith
safe_copy_frame s t (suc rest) m a out =
    ground (arith, safe_copy_frame (s + 1) (t + 1) rest (update m s (m t)) a)

-- With room for `n` bytes and one more, `safestrcpy` leaves a NUL within the room, and writes nowhere
-- else.
safestrcpy_lem :
    (s t n : ℕ) (m : Memory)
    → ((k : ℕ) × (k ≤ n) × (safestrcpy s t (suc n) m (s + k) ≡ 0))
      × ((a : ℕ) → (a < s) ⊎ (s + n < a) → safestrcpy s t (suc n) m a ≡ m a)
unfolding safestrcpy
safestrcpy_lem s t n m = (safe_copy_ends s t n m, safe_copy_frame s t n m)
