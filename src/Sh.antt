-- ===== src/Sh.antt =====
-- The parser of the shell, XV6 Scheduler/xv6-riscv/user/sh.c; both kernels have the same. A place in the
-- line is the list of the bytes from there on, up to `es`. A word is the list of its bytes, which
-- `nulterminate` cuts off in the line when the parse is done.
use cs.Common.{
  ℕ, zero, suc, ◌+◌, Bool, true, false, none, some, List, [], ◌∷◌, ◌++◌, length, ◌==◌, leb,
  if◌then◌else◌, Bytes,
}
pub mod Tokens
pub mod Shape
pub mod Args
pub mod Stops
pub mod Show
pub mod ReadBack
pub mod RoundTrip
mod Tests
use cs.Ulib.{strchr}

abbrev pub maxargs : ℕ
maxargs = 10

abbrev pub o_rdonly : ℕ
o_rdonly = 0

-- `O_WRONLY|O_CREATE|O_TRUNC`
abbrev pub o_overwrite : ℕ
o_overwrite = 0x601

-- `O_WRONLY|O_CREATE`
abbrev pub o_append : ℕ
o_append = 0x201

abbrev pub whitespace : Bytes
whitespace = b' ' ∷ b'\t' ∷ b'\r' ∷ b'\n' ∷ 11 ∷ []

abbrev pub symbols : Bytes
symbols = b'<' ∷ b'|' ∷ b'>' ∷ b'&' ∷ b';' ∷ b'(' ∷ b')' ∷ []

pub data Cmd : Type 0 where
  exec : (argv : List Bytes) → Cmd
  redir : Cmd → (file : Bytes) → (mode fd : ℕ) → Cmd
  pipe : (left right : Cmd) → Cmd
  list : (left right : Cmd) → Cmd
  back : Cmd → Cmd

-- A parse that has not stopped within the fuel is `starved`.
pub data Parsed : Type 0 where
  done : Cmd → (rest : Bytes) → Parsed
  panic : Parsed
  starved : Parsed

infixl 5 ◌andthen◌
abbrev pub ◌andthen◌ : Parsed → (Cmd → Bytes → Parsed) → Parsed
Parsed.done c s andthen f = f c s
Parsed.panic andthen f = Parsed.panic
Parsed.starved andthen f = Parsed.starved

-- The test `strchr(set, c)`.
pub among : (set : Bytes) → (c : ℕ) → Bool
among set c = elim (strchr set c) [ none ↦ false | some i ↦ true ]

unfoldable pub skip_blanks : Bytes → Bytes
skip_blanks [] = []
skip_blanks (c ∷ s) = let further = skip_blanks s in if among whitespace c then further else c ∷ s

-- Whether there is a byte in front that is one of `toks`.
abbrev pub starts_with : (toks : Bytes) → Bytes → Bool × Bytes
starts_with toks [] = (false, [])
starts_with toks (c ∷ s) = (among toks c, c ∷ s)

unfoldable pub peek : Bytes → (toks : Bytes) → Bool × Bytes
peek s toks = starts_with toks (skip_blanks s)

-- The bytes of the word in front, and what is behind it.
pub split_word : Bytes → Bytes × Bytes
split_word [] = ([], [])
split_word (c ∷ s) =
    let further = split_word s in
    if among whitespace c
    then ([], c ∷ s)
    else if among symbols c
    then ([], c ∷ s)
    else (c ∷ further.0, further.1)

-- What is behind the first `>`.
pub after_greater : Bytes → ℕ × Bytes × Bytes
after_greater [] = (b'>', b'>' ∷ [], [])
after_greater (c ∷ s) = if c == b'>' then (b'+', b'>' ∷ b'>' ∷ [], s) else (b'>', b'>' ∷ [], c ∷ s)

abbrev pub plain_tokens : Bytes
plain_tokens = b'|' ∷ b'(' ∷ b')' ∷ b';' ∷ b'&' ∷ b'<' ∷ []

-- The `switch` of `gettoken`: what it returns, the bytes from `q` to `eq`, and what is behind them.
pub token_at : Bytes → ℕ × Bytes × Bytes
token_at [] = (0, [], [])
token_at (c ∷ s) =
    if among plain_tokens c
    then (c, c ∷ [], s)
    else if c == b'>'
    then after_greater s
    else (let w = split_word (c ∷ s) in (b'a', w.0, w.1))

unfoldable pub gettoken : Bytes → ℕ × Bytes × Bytes
gettoken s = let (tok, word, rest) = token_at (skip_blanks s) in (tok, word, skip_blanks rest)

-- `ret` of `parseexec` leads to the command whose arguments are still being filled in.
pub add_arg : Cmd → (word : Bytes) → Cmd
add_arg (Cmd.exec argv) w = Cmd.exec (argv ++ w ∷ [])
add_arg (Cmd.redir c file mode fd) w = Cmd.redir (add_arg c w) file mode fd
add_arg (Cmd.pipe l r) w = Cmd.pipe l r
add_arg (Cmd.list l r) w = Cmd.list l r
add_arg (Cmd.back c) w = Cmd.back c

-- The `switch` of `parseredirs`.
pub redirect : (tok : ℕ) → Cmd → (file : Bytes) → Cmd
redirect tok c file =
    if tok == b'<'
    then Cmd.redir c file o_rdonly 0
    else if tok == b'>'
    then Cmd.redir c file o_overwrite 1
    else if tok == b'+'
    then Cmd.redir c file o_append 1
    else c

abbrev pub redir_marks : Bytes
redir_marks = b'<' ∷ b'>' ∷ []

unfoldable pub parseredirs : (fuel : ℕ) → Cmd → Bytes → Parsed
parseredirs zero c s = Parsed.starved
parseredirs (suc fuel) c s =
    let (there, s0) = peek s redir_marks in
    let (tok, mark, s1) = gettoken s0 in
    let (kind, file, s2) = gettoken s1 in
    let further = parseredirs fuel (redirect tok c file) s2 in
    if there then (if kind == b'a' then further else Parsed.panic) else Parsed.done c s0

-- `parseblock`; `line` stands for `parseline`, which calls it through `parseexec`.
pub parseblock : (line : Bytes → Parsed) → Bytes → Parsed
parseblock line s =
    let (opened, s0) = peek s (b'(' ∷ []) in
    let (tok, mark, s1) = gettoken s0 in
    if opened
    then (line s1 andthen λ c s2.
        (let (closed, s3) = peek s2 (b')' ∷ []) in
          let (tok', mark', s4) = gettoken s3 in
          if closed then parseredirs (suc (length s4)) c s4 else Parsed.panic))
    else Parsed.panic

abbrev pub exec_ends : Bytes
exec_ends = b'|' ∷ b')' ∷ b'&' ∷ b';' ∷ []

-- The loop of `parseexec`.
pub parse_args : (fuel argc : ℕ) → Cmd → Bytes → Parsed
parse_args zero argc c s = Parsed.starved
parse_args (suc fuel) argc c s =
    let (ended, s0) = peek s exec_ends in
    let (tok, word, s1) = gettoken s0 in
    if ended
    then Parsed.done c s0
    else if tok == 0
    then Parsed.done c s1
    else if tok == b'a'
    then (if leb maxargs (argc + 1)
        then Parsed.panic
        else (parseredirs (suc (length s1)) (add_arg c word) s1 andthen λ c' s2.
            parse_args fuel (argc + 1) c' s2))
    else Parsed.panic

unfoldable pub parseexec : (line : Bytes → Parsed) → Bytes → Parsed
parseexec line s =
    let (opened, s0) = peek s (b'(' ∷ []) in
    if opened
    then parseblock line s0
    else (parseredirs (suc (length s0)) (Cmd.exec []) s0 andthen λ c s1.
        parse_args (suc (length s1)) 0 c s1)

unfoldable pub parsepipe : (fuel : ℕ) → (line : Bytes → Parsed) → Bytes → Parsed
parsepipe zero line s = Parsed.starved
parsepipe (suc fuel) line s = parseexec line s andthen λ c s0.
    (let (more, s1) = peek s0 (b'|' ∷ []) in
      let (tok, mark, s2) = gettoken s1 in
      if more
      then (parsepipe fuel line s2 andthen λ r s3. Parsed.done (Cmd.pipe c r) s3)
      else Parsed.done c s1)

-- The loop of `parseline`.
pub parse_backs : (fuel : ℕ) → Cmd → Bytes → Parsed
parse_backs zero c s = Parsed.starved
parse_backs (suc fuel) c s =
    let (more, s0) = peek s (b'&' ∷ []) in
    let (tok, mark, s1) = gettoken s0 in
    let further = parse_backs fuel (Cmd.back c) s1 in if more then further else Parsed.done c s0

unfoldable pub parseline : (fuel : ℕ) → Bytes → Parsed
parseline zero s = Parsed.starved
parseline (suc fuel) s =
    (parsepipe (suc (length s)) (parseline fuel) s andthen λ c s0.
    parse_backs (suc (length s0)) c s0)
    andthen λ c' s1.
        (let (more, s2) = peek s1 (b';' ∷ []) in
          let (tok, mark, s3) = gettoken s2 in
          if more
          then (parseline fuel s3 andthen λ r s4. Parsed.done (Cmd.list c' r) s4)
          else Parsed.done c' s2)

-- `parsecmd`, with the panic for what is left over. What is left of a line that was parsed is `[]`.
pub parsecmd : Bytes → Parsed
parsecmd s = parseline (suc (length s)) s andthen λ c s0.
    (let (there, s1) = peek s0 [] in elim s1 [ [] ↦ Parsed.done c [] | c' ∷ s' ↦ Parsed.panic ])
