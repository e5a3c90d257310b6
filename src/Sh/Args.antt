-- ===== src/Sh/Args.antt =====
-- `parseredirs` of sh.c and the loop of `parseexec` stop, and what they build is well formed.
use cs.Common.{
  ℕ, zero, suc, ◌+◌, ◌<◌, refl, inl, inr, length, ◌==◌, ==_iff, leb, arith, Bool-cases, Bytes,
}
use cs.Sh.{
  maxargs, o_rdonly, o_overwrite, o_append, Cmd, peek, gettoken, add_arg, redirect, redir_marks,
  parseredirs, exec_ends, parse_args,
}
use cs.Sh.Tokens.{IsWord, peek_lem, gettoken_lem}
use cs.Sh.Shape.{
  IsRedirection, WellFormed, Filling, Filling-WellFormed, add_arg-Filling, Stopped, Stopped-andthen,
  Stopped-weaken,
}

-- What a redirection leads to is kept by the further ones.
abbrev Redirectable : (P : Cmd → Type 0) → Type 0
Redirectable P =
    (c : Cmd) (file : Bytes) (mode fd : ℕ)
    → P c
    → IsWord file
    → IsRedirection mode fd
    → P (Cmd.redir c file mode fd)

redirect_lem :
    (P : Cmd → Type 0)
    → Redirectable P
    → (tok : ℕ) (c : Cmd) (file : Bytes) → P c
    → IsWord file
    → P (redirect tok c file)
unfolding redirect
redirect_lem P keeps tok c file p w = elim (Bool-cases (tok == b'<')) [
  | inl e ↦ rw (e) (keeps c file o_rdonly 0 p w (inl (refl, refl)))
  | inr e ↦ elim (Bool-cases (tok == b'>')) [
    | inl f ↦ rw (e, f) (keeps c file o_overwrite 1 p w (inr (inl (refl, refl))))
    | inr f ↦ elim (Bool-cases (tok == b'+')) [
      | inl g ↦ rw (e, f, g) (keeps c file o_append 1 p w (inr (inr (refl, refl))))
      | inr g ↦ rw (e, f, g) p
    ]
  ]
]

pub parseredirs-Stopped :
    (P : Cmd → Type 0)
    → Redirectable P
    → (fuel : ℕ) (c : Cmd) (s : Bytes) → P c
    → length s < fuel
    → Stopped P (length s) (parseredirs fuel c s)
unfolding parseredirs
parseredirs-Stopped P keeps zero c s p less = absurd (omega (arith, less))
parseredirs-Stopped P keeps (suc fuel) c s p less =
    let s0 = (peek s redir_marks).1 in
    let (shorter, there) = peek_lem s redir_marks in
    let s1 = (gettoken s0).2 in
    let (_, first, _, _) = gettoken_lem s0 in
    let (second, _, _, word) = gettoken_lem s1 in
    let s2 = (gettoken s1).2 in
    elim (Bool-cases (peek s redir_marks).0) [
      | inl e ↦ elim (Bool-cases ((gettoken s1).0 == b'a')) [
        | inl f ↦
            rw (e, f)
              (Stopped-weaken (parseredirs fuel (redirect (gettoken s0).0 c (gettoken s1).1) s2)
                (λ c' q. q) (omega (arith, shorter, first (there e), second))
                (parseredirs-Stopped P keeps fuel (redirect (gettoken s0).0 c (gettoken s1).1) s2
                  (redirect_lem P keeps (gettoken s0).0 c (gettoken s1).1 p
                    (word ((==_iff (gettoken s1).0 b'a').0 f)))
                  (omega (arith, shorter, first (there e), second, less))))
        | inr f ↦ rw (e, f) tt
      ]
      | inr e ↦ rw (e) (p, shorter)
    ]

pub Filling-Redirectable : (argc : ℕ) → Redirectable (Filling argc)
Filling-Redirectable argc c file mode fd p w r = (p, w, r)

pub WellFormed-Redirectable : Redirectable WellFormed
WellFormed-Redirectable c file mode fd p w r = (p, w, r)

pub parse_args-Stopped :
    (fuel argc : ℕ) (c : Cmd) (s : Bytes)
    → Filling argc c
    → length s < fuel
    → Stopped WellFormed (length s) (parse_args fuel argc c s)
unfolding parse_args
parse_args-Stopped zero argc c s p less = absurd (omega (arith, less))
parse_args-Stopped (suc fuel) argc c s p less =
    let s0 = (peek s exec_ends).1 in
    let (shorter, _) = peek_lem s exec_ends in
    let tok = (gettoken s0).0 in
    let word = (gettoken s0).1 in
    let s1 = (gettoken s0).2 in
    let (second, first, more, is_word) = gettoken_lem s0 in
    elim (Bool-cases (peek s exec_ends).0) [
      | inl e ↦ rw (e) (Filling-WellFormed argc c p, shorter)
      | inr e ↦ elim (Bool-cases (tok == 0)) [
        | inl f ↦ rw (e, f) (Filling-WellFormed argc c p, omega (arith, shorter, second))
        | inr f ↦ elim (Bool-cases (tok == b'a')) [
          | inr g ↦ rw (e, f, g) tt
          | inl g ↦ elim (Bool-cases (leb maxargs (argc + 1))) [
            | inl h ↦ rw (e, f, g, h) tt
            | inr h ↦
                rw (e, f, g, h)
                  (Stopped-andthen WellFormed (length s)
                    (parseredirs (suc (length s1)) (add_arg c word) s1)
                    (λ c' s2. parse_args fuel (argc + 1) c' s2)
                    (parseredirs-Stopped (Filling (argc + 1)) (Filling-Redirectable (argc + 1))
                      (suc (length s1)) (add_arg c word) s1
                      (add_arg-Filling argc c word p (is_word ((==_iff tok b'a').0 g))
                        (ground (arith, h)))
                      (omega arith))
                    (λ c' s2 p' le.
                      let on = first (more (λ z. ground (arith, f, z))) in
                      Stopped-weaken (parse_args fuel (argc + 1) c' s2) (λ d q. q)
                        (omega (arith, le, on, shorter))
                        (parse_args-Stopped fuel (argc + 1) c' s2 p'
                          (omega (arith, le, on, shorter, less)))))
          ]
        ]
      ]
    ]
