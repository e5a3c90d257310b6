-- ===== src/Sh/RoundTrip.antt =====
-- The parser of sh.c reads every well-formed command back from its text.
use cs.Common.{
  ℕ, zero, suc, ◌-◌, ◌<◌, ◌≡◌, refl, ◌∙◌, subst, inl, inr, [], ◌∷◌, ◌++◌, length, ◌==◌, arith,
  Bool-cases, Bytes,
}
use cs.Ulib.{strchr}
use cs.Sh.{
  o_rdonly, o_overwrite, Cmd, Parsed, among, skip_blanks, peek, token_at, gettoken, parseredirs,
  parsepipe, parse_backs, parseline, parsecmd,
}
use cs.Sh.Tokens.{IsWord, StartsClean}
use cs.Sh.Shape.{WellFormed, IsRedirection}
use cs.Sh.Show.{show_args, show_mark, show, depth, length-show, Tail, line_end, closing, Tail-clean}
use cs.Sh.ReadBack.{
  show-clean, parseredirs-Tail, parseexec-show_args, parseexec-block, parseline-lone,
  parseredirs-show_mark,
}

parseline-pipe :
    (n : ℕ) (l r : Cmd) (t u : Bytes) {k : Bytes}
    → 0 < length t
    → StartsClean t
    → parseline n t ≡ Parsed.done l (b')' ∷ b'|' ∷ b'(' ∷ u)
    → StartsClean u
    → parseline n u ≡ Parsed.done r (b')' ∷ k)
    → Tail k
    → parseline (suc n) (b'(' ∷ t) ≡ Parsed.done (Cmd.pipe l r) k
unfolding parseline parsepipe parse_backs peek gettoken token_at skip_blanks among strchr
    parseredirs
parseline-pipe n l r [] u left ct e cu f tail = absurd (omega (arith, left))
parseline-pipe n l r (d ∷ t) u left ct e cu f line_end =
    rw
      (
        parseexec-block (parseline n) (d ∷ t) (b'|' ∷ b'(' ∷ u) l ct e refl,
        parseexec-block (parseline n) u [] r cu f tt,
      )
      refl
parseline-pipe n l r (d ∷ t) u left ct e cu f (closing k) =
    rw
      (
        parseexec-block (parseline n) (d ∷ t) (b'|' ∷ b'(' ∷ u) l ct e refl,
        parseexec-block (parseline n) u (b')' ∷ k) r cu f refl,
      )
      refl

parseline-list :
    (n : ℕ) (l r : Cmd) (t u : Bytes) {k : Bytes}
    → StartsClean t
    → parseline n t ≡ Parsed.done l (b')' ∷ b';' ∷ b'(' ∷ u)
    → parseline n (b'(' ∷ u) ≡ Parsed.done r k
    → Tail k
    → parseline (suc n) (b'(' ∷ t) ≡ Parsed.done (Cmd.list l r) k
unfolding parseline parsepipe parse_backs peek gettoken token_at skip_blanks among strchr
    parseredirs
parseline-list n l r t u {k} ct e f tail =
    rw (parseexec-block (parseline n) t (b';' ∷ b'(' ∷ u) l ct e refl, f) refl

-- A block on its own, with a redirection or none.
mark-clean : (mode : ℕ) (k : Bytes) → StartsClean (show_mark mode k)
unfolding among strchr
mark-clean mode k = elim (Bool-cases (mode == o_rdonly)) [
  | inl e ↦ rw (e) refl
  | inr e ↦ elim (Bool-cases (mode == o_overwrite)) [
    | inl f ↦ rw (e, f) refl
    | inr f ↦ rw (e, f) refl
  ]
]

show_mark-positive : (mode : ℕ) (k : Bytes) → 0 < length (show_mark mode k)
show_mark-positive mode k = ground arith

positive : {n : ℕ} → 0 < n → suc (n - 1) ≡ n
positive h = omega (arith, h)

parseline-redir :
    (n mode fd : ℕ) (c : Cmd) (t file : Bytes) {k : Bytes}
    → StartsClean t
    → parseline n t ≡ Parsed.done c (b')' ∷ show_mark mode (file ++ k))
    → IsWord file
    → IsRedirection mode fd
    → Tail k
    → parseline (suc n) (b'(' ∷ t) ≡ Parsed.done (Cmd.redir c file mode fd) k
parseline-redir n mode fd c t file {k} ct e h r tail =
    let x = show_mark mode (file ++ k) in
    parseline-lone n (b'(' ∷ t) (Cmd.redir c file mode fd)
      (parseexec-block (parseline n) t (show_mark mode (file ++ k)) c ct e
          (mark-clean mode (file ++ k))
        ∙ subst (λ fuel. parseredirs (suc fuel) c x ≡ Parsed.done (Cmd.redir c file mode fd) k)
            (positive (show_mark-positive mode (file ++ k)))
            (parseredirs-show_mark (length x - 1) mode fd c file k h r tail))
      tail

parseline-block :
    (n : ℕ) (c : Cmd) (t : Bytes) {k : Bytes}
    → StartsClean t
    → parseline n t ≡ Parsed.done c (b')' ∷ k)
    → Tail k
    → parseline (suc n) (b'(' ∷ t) ≡ Parsed.done c k
parseline-block n c t {k} ct e tail =
    parseline-lone n (b'(' ∷ t) c
      (parseexec-block (parseline n) t k c ct e (Tail-clean tail)
        ∙ parseredirs-Tail (length k) c tail)
      tail

parseline-back :
    (n : ℕ) (c : Cmd) (t : Bytes) {k : Bytes}
    → StartsClean t
    → parseline n t ≡ Parsed.done c (b')' ∷ b'&' ∷ k)
    → Tail k
    → parseline (suc n) (b'(' ∷ t) ≡ Parsed.done (Cmd.back c) k
unfolding parseline parsepipe parse_backs peek gettoken token_at skip_blanks among strchr
    parseredirs
parseline-back n c t ct e line_end =
    rw (parseexec-block (parseline n) t (b'&' ∷ []) c ct e refl) refl
parseline-back n c t ct e (closing k) =
    rw (parseexec-block (parseline n) t (b'&' ∷ b')' ∷ k) c ct e refl) refl

parseline-show :
    (n : ℕ) (c : Cmd) {k : Bytes}
    → WellFormed c
    → Tail k
    → depth c < n
    → parseline n (show c k) ≡ Parsed.done c k
parseline-show zero c w t enough = absurd (omega (arith, enough))
parseline-show (suc n) (Cmd.exec argv) {k} w t enough =
    parseline-lone n (show_args argv k) (Cmd.exec argv) (parseexec-show_args (parseline n) argv w t)
      t
parseline-show (suc n) (Cmd.redir c file mode fd) {k} (w, h, r) t enough =
    parseline-redir n mode fd c (show c (b')' ∷ show_mark mode (file ++ k))) file
      (show-clean c w (closing (show_mark mode (file ++ k))))
      (parseline-show n c w (closing (show_mark mode (file ++ k))) (omega (arith, enough))) h r t
parseline-show (suc n) (Cmd.pipe l r) {k} (wl, wr) t enough =
    let u = show r (b')' ∷ k) in
    parseline-pipe n l r (show l (b')' ∷ b'|' ∷ b'(' ∷ u)) u
      (omega (arith, length-show l (b')' ∷ b'|' ∷ b'(' ∷ u)))
      (show-clean l wl (closing (b'|' ∷ b'(' ∷ u)))
      (parseline-show n l wl (closing (b'|' ∷ b'(' ∷ u)) (omega (arith, enough)))
      (show-clean r wr (closing k)) (parseline-show n r wr (closing k) (omega (arith, enough))) t
parseline-show (suc zero) (Cmd.list l r) w t enough = absurd (omega (arith, enough))
parseline-show (suc (suc n)) (Cmd.list l r) {k} (wl, wr) t enough =
    let u = show r (b')' ∷ k) in
    parseline-list (suc n) l r (show l (b')' ∷ b';' ∷ b'(' ∷ u)) u
      (show-clean l wl (closing (b';' ∷ b'(' ∷ u)))
      (parseline-show (suc n) l wl (closing (b';' ∷ b'(' ∷ u)) (omega (arith, enough)))
      (parseline-block n r u (show-clean r wr (closing k))
        (parseline-show n r wr (closing k) (omega (arith, enough))) t)
      t
parseline-show (suc n) (Cmd.back c) {k} w t enough =
    parseline-back n c (show c (b')' ∷ b'&' ∷ k)) (show-clean c w (closing (b'&' ∷ k)))
      (parseline-show n c w (closing (b'&' ∷ k)) (omega (arith, enough))) t

-- A well-formed command is parsed back from its text.
pub parsecmd-show : (c : Cmd) → WellFormed c → parsecmd (show c []) ≡ Parsed.done c []
unfolding parsecmd peek skip_blanks
parsecmd-show c w =
    rw (parseline-show (suc (length (show c []))) c w line_end (omega (arith, length-show c [])))
      refl
