-- ===== src/Sh/Show.antt =====
-- Commands written out, each part of a command in parentheses, and what `peek` and `gettoken` of sh.c
-- see in such a text.
use cs.Common.{
  ℕ, suc, ◌+◌, ◌≤◌, ◌≡◌, refl, ◌⊎◌, true, false, List, [], ◌∷◌, ◌++◌, length, length-append, ◌==◌,
  if◌then◌else◌, arith, All, Bytes,
}
use cs.Ulib.{strchr}
use cs.Sh.{
  o_rdonly, o_overwrite, Cmd, among, whitespace, symbols, plain_tokens, redir_marks, exec_ends,
  skip_blanks, split_word, token_at, gettoken,
}
use cs.Sh.Tokens.{IsPlain, IsWord, StartsClean}

abbrev pub show_args : List Bytes → (k : Bytes) → Bytes
show_args [] k = k
show_args (w ∷ ws) k = w ++ b' ' ∷ show_args ws k

abbrev pub show_mark : (mode : ℕ) → (k : Bytes) → Bytes
show_mark mode k =
    if mode == o_rdonly then b'<' ∷ k else if mode == o_overwrite then b'>' ∷ k else b'>' ∷ b'>' ∷ k

-- The text of the command, with `k` behind it.
abbrev pub show : Cmd → (k : Bytes) → Bytes
show (Cmd.exec argv) k = show_args argv k
show (Cmd.redir c file mode fd) k = b'(' ∷ show c (b')' ∷ show_mark mode (file ++ k))
show (Cmd.pipe l r) k = b'(' ∷ show l (b')' ∷ b'|' ∷ b'(' ∷ show r (b')' ∷ k))
show (Cmd.list l r) k = b'(' ∷ show l (b')' ∷ b';' ∷ b'(' ∷ show r (b')' ∷ k))
show (Cmd.back c) k = b'(' ∷ show c (b')' ∷ b'&' ∷ k)

-- How deep `parseline` goes.
abbrev pub depth : Cmd → ℕ
depth (Cmd.exec argv) = 0
depth (Cmd.redir c file mode fd) = suc (depth c)
depth (Cmd.pipe l r) = suc (depth l + depth r)
depth (Cmd.list l r) = suc (suc (depth l + depth r))
depth (Cmd.back c) = suc (depth c)

pub length-show_args :
    (ws : List Bytes) (k : Bytes) → length ws + length k ≤ length (show_args ws k)
length-show_args [] k = omega arith
length-show_args (w ∷ ws) k =
    omega (arith, length-append w (b' ' ∷ show_args ws k), length-show_args ws k)

length-show_mark : (mode : ℕ) (k : Bytes) → length k ≤ length (show_mark mode k)
length-show_mark mode k = ground arith

pub length-show : (c : Cmd) (k : Bytes) → depth c + length k ≤ length (show c k)
length-show (Cmd.exec argv) k = omega (arith, length-show_args argv k)
length-show (Cmd.redir c file mode fd) k = omega (
  arith,
  length-show c (b')' ∷ show_mark mode (file ++ k)),
  length-show_mark mode (file ++ k),
  length-append file k,
)
length-show (Cmd.pipe l r) k =
    omega (arith, length-show l (b')' ∷ b'|' ∷ b'(' ∷ show r (b')' ∷ k)), length-show r (b')' ∷ k))
length-show (Cmd.list l r) k =
    omega (arith, length-show l (b')' ∷ b';' ∷ b'(' ∷ show r (b')' ∷ k)), length-show r (b')' ∷ k))
length-show (Cmd.back c) k = omega (arith, length-show c (b')' ∷ b'&' ∷ k))

-- What can stand behind a command: the end of the line, or the end of a block.
pub data Tail : Bytes → Type 0 where
  line_end : Tail []
  closing : (k : Bytes) → Tail (b')' ∷ k)

pub skip_blanks-clean : (s : Bytes) → StartsClean s → skip_blanks s ≡ s
unfolding skip_blanks
skip_blanks-clean [] clean = refl
skip_blanks-clean (c ∷ s) clean = rw (clean) refl

pub Tail-clean : {k : Bytes} → Tail k → StartsClean k
unfolding among strchr
Tail-clean line_end = tt
Tail-clean (closing k) = refl

-- A word is no symbol that the parser looks for.
pub word_is_no :
    (c : ℕ)
    → among symbols c ≡ false
    → among plain_tokens c ≡ false
      × (c == b'>') ≡ false
      × among (b'(' ∷ []) c ≡ false
      × among redir_marks c ≡ false
      × among exec_ends c ≡ false
unfolding among strchr
word_is_no c e =
    (ground (arith, e), ground (arith, e), ground (arith, e), ground (arith, e), ground (arith, e))

-- A word ends here.
abbrev pub Break : Bytes → Type 0
Break [] = Unit
Break (c ∷ s) = (among whitespace c ≡ true) ⊎ (among symbols c ≡ true)

split_word-append : (w s : Bytes) → All IsPlain w → Break s → split_word (w ++ s) ≡ (w, s)
unfolding split_word
split_word-append [] [] plain break = refl
split_word-append [] (c ∷ s) plain break = ground (arith, break)
split_word-append (c ∷ w) s ((e, f), plain) break =
    rw (e, f, split_word-append w s plain break) refl

pub gettoken-word :
    (w s : Bytes) → IsWord w → Break s → gettoken (w ++ s) ≡ (b'a', w, skip_blanks s)
unfolding gettoken skip_blanks token_at
gettoken-word [] s (some_left, plain) break = absurd (omega (arith, some_left))
gettoken-word (c ∷ w) s (some_left, ((e, f), plain)) break =
    let (no_token, no_greater, _, _, _) = word_is_no c f in
    rw (e, no_token, no_greater, split_word-append (c ∷ w) s ((e, f), plain) break) refl
