-- ===== src/Sh/Tokens.antt =====
-- What `peek` and `gettoken` of sh.c give: words without blanks and symbols, and a place further on.
use cs.Common.{
  ℕ, zero, suc, ◌≤◌, ◌<◌, ◌≡◌, ◌≢◌, refl, ◌⊎◌, inl, inr, true, false, [], ◌∷◌, length, ◌==◌, arith,
  Bool-cases, All, Bytes,
}
use cs.Ulib.{strchr}
use cs.Sh.{
  among, whitespace, symbols, plain_tokens, skip_blanks, starts_with, peek, split_word,
  after_greater, token_at, gettoken,
}

abbrev pub IsPlain : ℕ → Type 0
IsPlain c = (among whitespace c ≡ false) × (among symbols c ≡ false)

-- A word of a command.
abbrev pub IsWord : Bytes → Type 0
IsWord w = 0 < length w × All IsPlain w

abbrev pub StartsClean : Bytes → Type 0
StartsClean [] = Unit
StartsClean (c ∷ s) = among whitespace c ≡ false

skip_blanks_lem : (s : Bytes) → length (skip_blanks s) ≤ length s × StartsClean (skip_blanks s)
unfolding skip_blanks
skip_blanks_lem [] = (omega arith, tt)
skip_blanks_lem (c ∷ s) = elim (Bool-cases (among whitespace c)) [
  | inl e ↦ let (shorter, clean) = skip_blanks_lem s in rw (e) (omega (arith, shorter), clean)
  | inr e ↦ rw (e) (omega arith, e)
]

pub peek_lem :
    (s toks : Bytes)
    → length (peek s toks).1 ≤ length s × ((peek s toks).0 ≡ true → 0 < length (peek s toks).1)
unfolding peek
peek_lem s toks = at_start (skip_blanks s) (skip_blanks_lem s).0
  where
    at_start :
        (t : Bytes)
        → length t ≤ length s
        → (let r = starts_with toks t in length r.1 ≤ length s × (r.0 ≡ true → 0 < length r.1))
    at_start [] le = (omega arith, λ z. ground (arith, z))
    at_start (c ∷ t) le = (le, λ z. omega arith)

split_word_lem : (s : Bytes) → All IsPlain (split_word s).0 × length (split_word s).1 ≤ length s
unfolding split_word
split_word_lem [] = (tt, omega arith)
split_word_lem (c ∷ s) =
    let (plain, shorter) = split_word_lem s in
    elim (Bool-cases (among whitespace c)) [
      | inl e ↦ rw (e) (tt, omega arith)
      | inr e ↦ elim (Bool-cases (among symbols c)) [
        | inl f ↦ rw (e, f) (tt, omega arith)
        | inr f ↦ rw (e, f) (((e, f), plain), omega (arith, shorter))
      ]
    ]

-- What the first branches of the `switch` have not taken is no symbol.
no_symbol : (c : ℕ) → among plain_tokens c ≡ false → (c == b'>') ≡ false → among symbols c ≡ false
unfolding among strchr
no_symbol c e f = ground (arith, e, f)

abbrev TokenOk : Bytes → ℕ × Bytes × Bytes → Type 0
TokenOk s (tok, word, rest) =
    length rest ≤ length s
    × (0 < length s → length rest < length s)
    × (tok ≢ 0 → 0 < length s)
    × (tok ≡ b'a' → IsWord word)

after_greater_lem : (c : ℕ) (s : Bytes) → TokenOk (c ∷ s) (after_greater s)
unfolding after_greater
after_greater_lem c [] = (omega arith, λ h. omega arith, λ z. omega arith, λ e. ground (arith, e))
after_greater_lem c (d ∷ s) = elim (Bool-cases (d == b'>')) [
  | inl e ↦ rw (e) (omega arith, λ h. omega arith, λ z. omega arith, λ e. ground (arith, e))
  | inr e ↦ rw (e) (omega arith, λ h. omega arith, λ z. omega arith, λ e. ground (arith, e))
]

letter_a : (c : ℕ) → among plain_tokens c ≡ true → c ≢ b'a'
unfolding among strchr
letter_a c e f = ground (arith, e, f)

word_lem :
    (c : ℕ) (s : Bytes)
    → among whitespace c ≡ false
    → among symbols c ≡ false
    → TokenOk (c ∷ s) (b'a', (split_word (c ∷ s)).0, (split_word (c ∷ s)).1)
unfolding split_word
word_lem c s e f =
    let (plain, shorter) = split_word_lem s in
    rw (e, f)
      (
        omega (arith, shorter),
        λ h. omega (arith, shorter),
        λ z. omega arith,
        λ g. (omega arith, ((e, f), plain)),
      )

token_at_lem : (s : Bytes) → StartsClean s → TokenOk s (token_at s)
unfolding token_at
token_at_lem [] clean =
    (omega arith, λ h. omega arith, λ z. absurd (z refl), λ e. ground (arith, e))
token_at_lem (c ∷ s) clean = elim (Bool-cases (among plain_tokens c)) [
  | inl e ↦ rw (e) (omega arith, λ h. omega arith, λ z. omega arith, λ f. absurd (letter_a c e f))
  | inr e ↦ elim (Bool-cases (c == b'>')) [
    | inl f ↦ rw (e, f) (after_greater_lem c s)
    | inr f ↦ rw (e, f) (word_lem c s clean (no_symbol c e f))
  ]
]

zero_or_more : (n : ℕ) → (n ≡ 0) ⊎ (0 < n)
zero_or_more zero = inl refl
zero_or_more (suc n) = inr (omega arith)

-- `gettoken` goes on, unless it is at the end of the line.
pub gettoken_lem : (s : Bytes) → TokenOk s (gettoken s)
unfolding gettoken
gettoken_lem s =
    let (shorter, clean) = skip_blanks_lem s in
    let (less, more, some_left, word) = token_at_lem (skip_blanks s) clean in
    let (behind, _) = skip_blanks_lem (token_at (skip_blanks s)).2 in
    (
      omega (arith, shorter, less, behind),
      λ h. elim (zero_or_more (length (skip_blanks s))) [
        | inl e ↦ omega (arith, shorter, less, behind, e)
        | inr e ↦ omega (arith, shorter, more e, behind)
      ],
      λ z. omega (arith, shorter, some_left z),
      word,
    )
