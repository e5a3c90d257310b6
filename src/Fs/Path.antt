-- ===== src/Fs/Path.antt =====
-- Paths: `skipelem` of fs.c. A path is the list of its bytes; the name that is set is the string in
-- its buffer of `dirsiz` bytes, which has no NUL if it is full.
use cs.Common.{
  ℕ, zero, suc, ◌≤◌, ◌<◌, ◌≡◌, ◌≢◌, refl, ap, sym, subst, append-nil, ◌∙◌, inl, inr, Option, none,
  some, [], ◌∷◌, ◌++◌, length, take, ◌==◌, ==_iff, leb, if◌then◌else◌, arith, Bool-cases, All,
  Bytes,
}

abbrev pub dirsiz : ℕ
dirsiz = 14

unfoldable pub skip_slashes : Bytes → Bytes
skip_slashes [] = []
skip_slashes (c ∷ path) = let further = skip_slashes path in if c == b'/' then further else c ∷ path

-- The element in front, and what is behind it.
unfoldable pub split_elem : Bytes → Bytes × Bytes
split_elem [] = ([], [])
split_elem (c ∷ path) =
    let further = split_elem path in
    if c == b'/' then ([], c ∷ path) else (c ∷ further.0, further.1)

-- `skipelem`: the path that is left, and the name; `none` is the null pointer.
unfoldable pub skipelem : Bytes → Option (Bytes × Bytes)
skipelem path = elim (skip_slashes path) [
  | [] ↦ none
  | c ∷ p ↦
      let s = split_elem (c ∷ p) in
      some (skip_slashes s.1, if leb dirsiz (length s.0) then take dirsiz s.0 else s.0)
]

abbrev pub IsSlash : ℕ → Type 0
IsSlash c = c ≡ b'/'

-- The path does not start with a slash.
abbrev Clean : Bytes → Type 0
Clean [] = Unit
Clean (c ∷ path) = c ≢ b'/'

skip_slashes_lem :
    (path : Bytes)
    → (front : Bytes) × (front ++ skip_slashes path ≡ path)
      × All IsSlash front
      × Clean (skip_slashes path)
unfolding skip_slashes
skip_slashes_lem [] = ([], refl, tt, tt)
skip_slashes_lem (c ∷ path) = elim (Bool-cases (c == b'/')) [
  | inl e ↦
      let (front, whole, slashes, clean) = skip_slashes_lem path in
      rw (e) (c ∷ front, ap (λ s. c ∷ s) whole, ((==_iff c b'/').0 e, slashes), clean)
  | inr e ↦ rw (e) ([], refl, tt, λ z. ground (arith, e, z))
]

-- The path is at its end, or starts with a slash.
abbrev Ended : Bytes → Type 0
Ended [] = Unit
Ended (c ∷ path) = c ≡ b'/'

split_elem_lem :
    (path : Bytes)
    → ((split_elem path).0 ++ (split_elem path).1 ≡ path)
      × All (λ c. c ≢ b'/') (split_elem path).0
      × Ended (split_elem path).1
unfolding split_elem
split_elem_lem [] = (refl, tt, tt)
split_elem_lem (c ∷ path) = elim (Bool-cases (c == b'/')) [
  | inl e ↦ rw (e) (refl, tt, (==_iff c b'/').0 e)
  | inr e ↦
      let (whole, elem, ended) = split_elem_lem path in
      rw (e) (ap (λ s. c ∷ s) whole, (λ z. ground (arith, e, z), elem), ended)
]

-- How `skipelem` takes a path apart: slashes, an element, slashes and the rest, which starts with
-- none. The name is the element, cut to the 14 bytes of a directory entry. There is no element only
-- if the path has nothing but slashes.
abbrev pub Split : Bytes → Option (Bytes × Bytes) → Type 0
Split path none = All IsSlash path
Split path (some (rest, name)) =
    (front : Bytes) × (elem : Bytes) × (between : Bytes) × (front ++ (elem ++ (between ++ rest))
      ≡ path)
    × All IsSlash front
    × All (λ c. c ≢ b'/') elem
    × (0 < length elem)
    × All IsSlash between
    × (between ≡ [] → rest ≡ [])
    × Clean rest
    × (name ≡ take dirsiz elem)

take-short : (n : ℕ) (xs : Bytes) → length xs ≤ n → take n xs ≡ xs
take-short zero [] h = refl
take-short zero (x ∷ xs) h = absurd (omega (arith, h))
take-short (suc n) [] h = refl
take-short (suc n) (x ∷ xs) h = ap (λ s. x ∷ s) (take-short n xs (omega (arith, h)))

name_taken : (s : Bytes) → (if leb dirsiz (length s) then take dirsiz s else s) ≡ take dirsiz s
name_taken s = elim (Bool-cases (leb dirsiz (length s))) [
  | inl e ↦ rw (e) refl
  | inr e ↦ rw (e) (sym (take-short dirsiz s (ground (arith, e))))
]

nonempty : (c : ℕ) (p : Bytes) → c ≢ b'/' → 0 < length (split_elem (c ∷ p)).0
unfolding split_elem
nonempty c p ne = ground (arith, ne)

nothing_left : (s : Bytes) → Ended s → Clean s → s ≡ []
nothing_left [] e c = refl
nothing_left (x ∷ s) e c = absurd (c e)

Split-rest :
    (path front q : Bytes)
    → front ++ q ≡ path
    → All IsSlash front
    → Clean q
    → Split path (elim q [
      | [] ↦ none
      | c ∷ p ↦
          let s = split_elem (c ∷ p) in
          some (skip_slashes s.1, if leb dirsiz (length s.0) then take dirsiz s.0 else s.0)
    ])
Split-rest path front [] whole slashes clean =
    subst (λ s. All IsSlash s) (sym (append-nil front) ∙ whole) slashes
Split-rest path front (c ∷ p) whole slashes clean =
    let (parts, elem, ended) = split_elem_lem (c ∷ p) in
    let (between, rest, slashes', clean') = skip_slashes_lem (split_elem (c ∷ p)).1 in
    (
      front,
      (split_elem (c ∷ p)).0,
      between,
      ap (λ s. front ++ ((split_elem (c ∷ p)).0 ++ s)) rest ∙ ap (λ s. front ++ s) parts ∙ whole,
      slashes,
      elem,
      nonempty c p clean,
      slashes',
      λ none_between.
          let same : skip_slashes (split_elem (c ∷ p)).1 ≡ (split_elem (c ∷ p)).1 =
            ap (λ s. s ++ skip_slashes (split_elem (c ∷ p)).1) (sym none_between) ∙ rest in
          same ∙ nothing_left (split_elem (c ∷ p)).1 ended (subst (λ s. Clean s) same clean'),
      clean',
      name_taken (split_elem (c ∷ p)).0,
    )

-- `skipelem` takes the first element off the path, all of it, and the slashes on both sides.
pub skipelem-Split : (path : Bytes) → Split path (skipelem path)
unfolding skipelem
skipelem-Split path =
    let (front, whole, slashes, clean) = skip_slashes_lem path in
    Split-rest path front (skip_slashes path) whole slashes clean
