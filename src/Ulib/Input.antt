-- ===== src/Ulib/Input.antt =====
-- What `gets` of ulib.c does with the input.
use cs.Common.{
  ℕ, zero, suc, ◌-◌, ◌≤◌, ◌≡◌, refl, Bool, false, ◌||◌, inl, inr, [], ◌∷◌, ◌++◌, length, ◌==◌,
  arith, Bool-cases, Bytes,
}
use cs.Ulib.{get_line, gets}

get_line-append :
    (room : ℕ) (input : Bytes) → (get_line room input).0 ++ (get_line room input).1 ≡ input
unfolding get_line
get_line-append zero input = refl
get_line-append (suc room) [] = refl
get_line-append (suc room) (c ∷ input) = ground (arith, get_line-append room input)

get_line-length : (room : ℕ) (input : Bytes) → length (get_line room input).0 ≤ room
unfolding get_line
get_line-length zero input = omega arith
get_line-length (suc room) [] = omega arith
get_line-length (suc room) (c ∷ input) = ground (arith, get_line-length room input)

-- Whether the byte ends a line.
abbrev ends_line : ℕ → Bool
ends_line c = (c == b'\n') || (c == b'\r')

-- No byte but the last one ends a line.
abbrev OneLine : Bytes → Type 0
OneLine [] = Unit
OneLine (c ∷ []) = Unit
OneLine (c ∷ d ∷ s) = (ends_line c ≡ false) × OneLine (d ∷ s)

OneLine-cons : (c : ℕ) (s : Bytes) → ends_line c ≡ false → OneLine s → OneLine (c ∷ s)
OneLine-cons c [] e h = tt
OneLine-cons c (d ∷ s) e h = (e, h)

get_line-OneLine : (room : ℕ) (input : Bytes) → OneLine (get_line room input).0
unfolding get_line
get_line-OneLine zero input = tt
get_line-OneLine (suc room) [] = tt
get_line-OneLine (suc room) (c ∷ input) = elim (Bool-cases (ends_line c)) [
  | inl e ↦ rw (e) tt
  | inr e ↦ rw (e) (OneLine-cons c (get_line room input).0 e (get_line-OneLine room input))
]

-- `gets` takes a line off the front of the input and leaves the rest: one line at most, and no more
-- bytes than fit into the buffer with the NUL.
gets_lem :
    (max : ℕ) (input : Bytes)
    → ((gets max input).0 ++ (gets max input).1 ≡ input)
      × (length (gets max input).0 ≤ max - 1)
      × OneLine (gets max input).0
unfolding gets
gets_lem max input = (
  get_line-append (max - 1) input,
  get_line-length (max - 1) input,
  get_line-OneLine (max - 1) input,
)
