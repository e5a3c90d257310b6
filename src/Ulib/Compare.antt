-- ===== src/Ulib/Compare.antt =====
-- What `strcmp`, `strchr` and `strcpy` of ulib.c promise.
use cs.Common.{
  ℕ, zero, suc, ◌+◌, ◌<◌, ◌≤◌, ◌≡◌, ◌≢◌, ◌↔◌, refl, ap, ◌⊎◌, inl, inr, Option, none, some, [], ◌∷◌,
  get_elem?, take, subst, ◌==◌, ==_iff, update, arith, Bool-cases, All, Bytes,
}
use cs.Common.Int.{pos, ◌-ℤ◌}
use cs.Strings.{Memory, move_up}
use cs.Ulib.{strcmp, strchr, strcpy}

-- The bytes of a string: none of them is the NUL.
abbrev IsText : Bytes → Type 0
IsText = All (λ c. c ≢ 0)

differ : (a b : ℕ) → pos a -ℤ pos b ≡ pos 0 → a ≡ b
unfolding ◌-ℤ◌
differ a b e = ground (arith, e)

same : (a : ℕ) → pos a -ℤ pos a ≡ pos 0
unfolding ◌-ℤ◌
same a = ground arith

-- `strcmp` gives 0 exactly if the two strings are the same.
strcmp_zero_iff : (p q : Bytes) → IsText p → IsText q → (strcmp p q ≡ pos 0) ↔ (p ≡ q)
unfolding strcmp
strcmp_zero_iff [] [] hp hq = (λ _. refl, λ _. same 0)
strcmp_zero_iff [] (d ∷ q) hp (hd, hq) = (λ e. absurd (hd (ground (arith, differ 0 d e))), λ e. cc)
strcmp_zero_iff (c ∷ p) [] (hc, hp) hq = (λ e. absurd (hc (ground (arith, differ c 0 e))), λ e. cc)
strcmp_zero_iff (c ∷ p) (d ∷ q) (hc, hp) (hd, hq) = elim (Bool-cases (c == d)) [
  | inl e ↦
      rw (e, (==_iff c d).0 e)
        (let (only, always) = strcmp_zero_iff p q hp hq in
          (λ z. ap (λ s. d ∷ s) (only z), λ same_text. always (ground (arith, same_text))))
  | inr e ↦ rw (e) (
    λ z. absurd (ground (arith, e, differ c d z)),
    λ same_text. absurd (ground (arith, e, same_text)),
  )
]

-- The offset is that of the first `c`; there is none only if there is no `c`.
abbrev FirstAt : Bytes → ℕ → Option ℕ → Type 0
FirstAt s c none = All (λ d. d ≢ c) s
FirstAt s c (some i) = (get_elem? s i ≡ some c) × All (λ d. d ≢ c) (take i s)

next_first :
    (d c : ℕ) (s : Bytes) (o : Option ℕ)
    → d ≢ c
    → FirstAt s c o
    → FirstAt (d ∷ s) c (elim o [ none ↦ none | some i ↦ some (suc i) ])
next_first d c s none h f = (h, f)
next_first d c s (some i) h (at, before) = (at, (h, before))

-- `strchr` finds the first occurrence of the byte, and the null pointer exactly if there is none.
strchr-FirstAt : (s : Bytes) (c : ℕ) → FirstAt s c (strchr s c)
unfolding strchr
strchr-FirstAt [] c = tt
strchr-FirstAt (d ∷ s) c = elim (Bool-cases (d == c)) [
  | inl e ↦ rw (e, (==_iff d c).0 e) (refl, tt)
  | inr e ↦ rw (e) (
      next_first d c s (strchr s c) (λ same_byte. ground (arith, e, same_byte))
        (strchr-FirstAt s c))
]

plus_zero : (v : ℕ) → v + 0 ≡ v
plus_zero v = omega arith

shift : (v i : ℕ) → v + 1 + i ≡ v + suc i
shift v i = omega arith

-- `strcpy` of a string of `n` bytes moves `n + 1` bytes up, the NUL too, where the copy does not run
-- into the part that is still to be read.
strcpy_lem :
    (n fuel s t : ℕ) (m : Memory)
    → n < fuel
    → (t + n < s) ⊎ (s ≤ t)
    → ((i : ℕ) → i < n → m (t + i) ≢ 0)
    → m (t + n) ≡ 0
    → strcpy fuel s t m ≡ some (move_up s t (suc n) m)
unfolding strcpy move_up
strcpy_lem n zero s t m f apart before end = absurd (omega (arith, f))
strcpy_lem zero (suc fuel) s t m f apart before end =
    rw (subst (λ a. m a ≡ 0) (plus_zero t) end) refl
strcpy_lem (suc n) (suc fuel) s t m f apart before end = elim (Bool-cases (m t == 0)) [
  | inl e ↦ absurd (before 0 (omega arith) (ground (arith, e, plus_zero t)))
  | inr e ↦ rw (e) (
      strcpy_lem n fuel (s + 1) (t + 1) (update m s (m t)) (omega (arith, f))
        (elim apart [ inl far ↦ inl (omega (arith, far)) | inr le ↦ inr (omega (arith, le)) ])
        (λ i lt z. before (suc i) (omega (arith, lt)) (ground (arith, z, shift t i, apart, lt)))
        (ground (arith, shift t n, apart, end)))
]
