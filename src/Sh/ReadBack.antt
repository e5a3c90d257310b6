-- ===== src/Sh/ReadBack.antt =====
-- The arguments and the redirections of a command are read back from their text.
use cs.Common.{
  ℕ, zero, suc, ◌+◌, ◌<◌, ◌≡◌, refl, sym, ap, ◌∙◌, inl, inr, true, false, List, [], ◌∷◌, ◌++◌,
  length, append-nil, append_assoc, ◌==◌, leb, arith, All, Bytes,
}
use cs.Ulib.{strchr}
use cs.Sh.{
  maxargs, o_rdonly, o_overwrite, o_append, Cmd, Parsed, among, skip_blanks, peek, token_at,
  after_greater, gettoken, add_arg, redirect, redir_marks, parseredirs, parseblock, exec_ends,
  parse_args, parseexec, parsepipe, parse_backs, parseline,
}
use cs.Sh.Tokens.{IsWord, StartsClean}
use cs.Sh.Shape.{WellFormed, IsRedirection}
use cs.Sh.Show.{
  show_args, show_mark, show, length-show_args, Tail, line_end, closing, skip_blanks-clean,
  Tail-clean, word_is_no, Break, gettoken-word,
}

show_args-clean :
    (ws : List Bytes) {k : Bytes} → All IsWord ws → Tail k → StartsClean (show_args ws k)
show_args-clean [] words t = Tail-clean t
show_args-clean ([] ∷ ws) ((left, _), words) t = absurd (omega (arith, left))
show_args-clean ((c ∷ w) ∷ ws) ((left, ((e, f), plain)), words) t = e

pub show-clean : (c : Cmd) {k : Bytes} → WellFormed c → Tail k → StartsClean (show c k)
unfolding among strchr
show-clean (Cmd.exec argv) (words, _) t = show_args-clean argv words t
show-clean (Cmd.redir c file mode fd) w t = refl
show-clean (Cmd.pipe l r) w t = refl
show-clean (Cmd.list l r) w t = refl
show-clean (Cmd.back c) w t = refl

-- At the end of a line or of a block nothing is added to a command.
parse_args-Tail :
    (fuel argc : ℕ) (c : Cmd) {k : Bytes}
    → Tail k
    → parse_args (suc fuel) argc c k ≡ Parsed.done c k
unfolding parse_args peek gettoken token_at skip_blanks among strchr
parse_args-Tail fuel argc c line_end = refl
parse_args-Tail fuel argc c (closing k) = refl

pub parseredirs-Tail :
    (fuel : ℕ) (c : Cmd) {k : Bytes} → Tail k → parseredirs (suc fuel) c k ≡ Parsed.done c k
unfolding parseredirs peek gettoken token_at skip_blanks among strchr
parseredirs-Tail fuel c line_end = refl
parseredirs-Tail fuel c (closing k) = refl

-- A word is added to the arguments.
parseredirs-word :
    (fuel : ℕ) (c : Cmd) (w s : Bytes)
    → IsWord w
    → parseredirs (suc fuel) c (w ++ s) ≡ Parsed.done c (w ++ s)
unfolding parseredirs peek skip_blanks
parseredirs-word fuel c [] s (left, _) = absurd (omega (arith, left))
parseredirs-word fuel c (d ∷ w) s (left, ((e, f), plain)) =
    let (_, _, _, no_mark, _) = word_is_no d f in rw (e, no_mark) refl

parseredirs-show_args :
    (fuel : ℕ) (c : Cmd) (ws : List Bytes) {k : Bytes}
    → All IsWord ws
    → Tail k
    → parseredirs (suc fuel) c (show_args ws k) ≡ Parsed.done c (show_args ws k)
parseredirs-show_args fuel c [] words t = parseredirs-Tail fuel c t
parseredirs-show_args fuel c (w ∷ ws) {k} (h, words) t =
    parseredirs-word fuel c w (b' ' ∷ show_args ws k) h

peek-word :
    (w s : Bytes)
    → IsWord w
    → (peek (w ++ s) exec_ends ≡ (false, w ++ s)) × (peek (w ++ s) (b'(' ∷ []) ≡ (false, w ++ s))
unfolding peek skip_blanks
peek-word [] s (left, _) = absurd (omega (arith, left))
peek-word (d ∷ w) s (left, ((e, f), plain)) =
    let (_, _, no_block, _, no_end) = word_is_no d f in (rw (e, no_end) refl, rw (e, no_block) refl)

gettoken-arg :
    (w : Bytes) (ws : List Bytes) {k : Bytes}
    → IsWord w
    → All IsWord ws
    → Tail k
    → gettoken (w ++ b' ' ∷ show_args ws k) ≡ (b'a', w, show_args ws k)
unfolding skip_blanks among strchr
gettoken-arg w ws {k} h words t =
    gettoken-word w (b' ' ∷ show_args ws k) h (inl refl)
    ∙ ap (λ s. (b'a', w, s)) (skip_blanks-clean (show_args ws k) (show_args-clean ws words t))

parse_args-show_args :
    (fuel argc : ℕ) (argv ws : List Bytes) {k : Bytes}
    → All IsWord ws
    → Tail k
    → length ws < fuel
    → argc + length ws < maxargs
    → parse_args fuel argc (Cmd.exec argv) (show_args ws k) ≡ Parsed.done (Cmd.exec (argv ++ ws)) k
unfolding parse_args add_arg
parse_args-show_args zero argc argv ws words t enough less = absurd (omega (arith, enough))
parse_args-show_args (suc fuel) argc argv [] {k} words t enough less =
    parse_args-Tail fuel argc (Cmd.exec argv) t
    ∙ ap (λ a. Parsed.done (Cmd.exec a) k) (sym (append-nil argv))
parse_args-show_args (suc fuel) argc argv (w ∷ ws) {k} (h, words) t enough less =
    let room : leb maxargs (argc + 1) ≡ false = ground (arith, less) in
    rw
      (
        (peek-word w (b' ' ∷ show_args ws k) h).0,
        gettoken-arg w ws h words t,
        room,
        parseredirs-show_args (length (show_args ws k)) (Cmd.exec (argv ++ w ∷ [])) ws words t,
      )
      (parse_args-show_args fuel (argc + 1) (argv ++ w ∷ []) ws words t (omega (arith, enough))
          (omega (arith, less))
        ∙ ap (λ a. Parsed.done (Cmd.exec a) k) (append_assoc argv (w ∷ []) ws))

pub parseexec-show_args :
    (line : Bytes → Parsed) (argv : List Bytes) {k : Bytes}
    → WellFormed (Cmd.exec argv)
    → Tail k
    → parseexec line (show_args argv k) ≡ Parsed.done (Cmd.exec argv) k
unfolding parseexec peek skip_blanks among strchr
parseexec-show_args line [] words line_end =
    rw (parseredirs-Tail 0 (Cmd.exec []) line_end) (parse_args-Tail 0 0 (Cmd.exec []) line_end)
parseexec-show_args line [] words (closing k) =
    rw (parseredirs-Tail (suc (length k)) (Cmd.exec []) (closing k))
      (parse_args-Tail (suc (length k)) 0 (Cmd.exec []) (closing k))
parseexec-show_args line (w ∷ ws) {k} ((h, words), less) t =
    rw
      (
        (peek-word w (b' ' ∷ show_args ws k) h).1,
        parseredirs-word (length (show_args (w ∷ ws) k)) (Cmd.exec []) w (b' ' ∷ show_args ws k) h,
      )
      (parse_args-show_args (suc (length (show_args (w ∷ ws) k))) 0 [] (w ∷ ws) (h, words) t
        (omega (arith, length-show_args (w ∷ ws) k)) (omega (arith, less)))

-- A block, up to the redirections behind it.
pub parseexec-block :
    (line : Bytes → Parsed) (t k : Bytes) (c : Cmd)
    → StartsClean t
    → line t ≡ Parsed.done c (b')' ∷ k)
    → StartsClean k
    → parseexec line (b'(' ∷ t) ≡ parseredirs (suc (length k)) c k
unfolding parseexec parseblock peek gettoken token_at skip_blanks among strchr
parseexec-block line t k c clean e behind =
    rw (skip_blanks-clean t clean, e, skip_blanks-clean k behind) refl

-- A command that nothing follows is the line.
pub parseline-lone :
    (n : ℕ) (s : Bytes) (c : Cmd) {k : Bytes}
    → parseexec (parseline n) s ≡ Parsed.done c k
    → Tail k
    → parseline (suc n) s ≡ Parsed.done c k
unfolding parseline parsepipe parse_backs peek gettoken token_at skip_blanks among strchr
parseline-lone n s c e line_end = rw (e) refl
parseline-lone n s c e (closing k) = rw (e) refl

Tail-Break : {k : Bytes} → Tail k → Break k
unfolding among strchr
Tail-Break line_end = tt
Tail-Break (closing k) = inr refl

file_token : (file k : Bytes) → IsWord file → Tail k → gettoken (file ++ k) ≡ (b'a', file, k)
file_token file k h t =
    gettoken-word file k h (Tail-Break t)
    ∙ ap (λ s. (b'a', file, s)) (skip_blanks-clean k (Tail-clean t))

file-clean : (file k : Bytes) → IsWord file → StartsClean (file ++ k)
file-clean [] k (left, _) = absurd (omega (arith, left))
file-clean (d ∷ w) k (left, ((e, f), plain)) = e

no_greater : (d : ℕ) (w : Bytes) → IsWord (d ∷ w) → (d == b'>') ≡ false
no_greater d w (left, ((e, f), plain)) = (word_is_no d f).1

-- One round of `parseredirs`.
parseredirs-round :
    (fuel tok : ℕ) (c : Cmd) (mark file s s1 s2 : Bytes)
    → peek s redir_marks ≡ (true, s)
    → gettoken s ≡ (tok, mark, s1)
    → gettoken s1 ≡ (b'a', file, s2)
    → parseredirs (suc fuel) c s ≡ parseredirs fuel (redirect tok c file) s2
unfolding parseredirs
parseredirs-round fuel tok c mark file s s1 s2 e f g = rw (e, f, g) refl

-- The mark and the file of a redirection.
pub parseredirs-show_mark :
    (fuel mode fd : ℕ) (c : Cmd) (file k : Bytes)
    → IsWord file
    → IsRedirection mode fd
    → Tail k
    → parseredirs (suc (suc fuel)) c (show_mark mode (file ++ k))
      ≡ Parsed.done (Cmd.redir c file mode fd) k
unfolding peek gettoken token_at skip_blanks among strchr redirect after_greater
parseredirs-show_mark fuel mode fd c file k h (inl (e, f)) t =
    rw (e, f)
      (parseredirs-round (suc fuel) b'<' c (b'<' ∷ []) file (b'<' ∷ file ++ k) (file ++ k) k refl
          (ap (λ s. (b'<', b'<' ∷ [], s)) (skip_blanks-clean (file ++ k) (file-clean file k h)))
          (file_token file k h t)
        ∙ parseredirs-Tail fuel (Cmd.redir c file o_rdonly 0) t)
parseredirs-show_mark fuel mode fd c [] k h (inr r) t = absurd (omega (arith, h.0))
parseredirs-show_mark fuel mode fd c (d ∷ w) k h (inr (inl (e, f))) t =
    rw (e, f)
      (parseredirs-round (suc fuel) b'>' c (b'>' ∷ []) (d ∷ w) (b'>' ∷ d ∷ w ++ k) (d ∷ w ++ k) k
          refl (rw (no_greater d w h, skip_blanks-clean (d ∷ w ++ k) (file-clean (d ∷ w) k h)) refl)
          (file_token (d ∷ w) k h t)
        ∙ parseredirs-Tail fuel (Cmd.redir c (d ∷ w) o_overwrite 1) t)
parseredirs-show_mark fuel mode fd c (d ∷ w) k h (inr (inr (e, f))) t =
    rw (e, f)
      (parseredirs-round (suc fuel) b'+' c (b'>' ∷ b'>' ∷ []) (d ∷ w) (b'>' ∷ b'>' ∷ d ∷ w ++ k)
          (d ∷ w ++ k) k refl
          (ap (λ s. (b'+', b'>' ∷ b'>' ∷ [], s))
            (skip_blanks-clean (d ∷ w ++ k) (file-clean (d ∷ w) k h)))
          (file_token (d ∷ w) k h t)
        ∙ parseredirs-Tail fuel (Cmd.redir c (d ∷ w) o_append 1) t)
