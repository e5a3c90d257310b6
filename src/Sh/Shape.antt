-- ===== src/Sh/Shape.antt =====
-- The commands that the parser of sh.c builds, and what it is for a parse to stop.
use cs.Common.{
  ℕ, ◌+◌, ◌≤◌, ◌<◌, ◌≡◌, ◌⊎◌, [], ◌∷◌, length, length-append, arith, All, All-append, Bytes,
}
use cs.Sh.{maxargs, o_rdonly, o_overwrite, o_append, Cmd, Parsed, ◌andthen◌, add_arg}
use cs.Sh.Tokens.{IsWord}

-- The files that `<`, `>` and `>>` open, and the descriptors that they take the place of.
abbrev pub IsRedirection : (mode fd : ℕ) → Type 0
IsRedirection mode fd =
    ((mode ≡ o_rdonly) × (fd ≡ 0))
    ⊎ ((mode ≡ o_overwrite) × (fd ≡ 1))
    ⊎ ((mode ≡ o_append) × (fd ≡ 1))

-- The arguments are words, and leave room in `argv` for the null pointer behind them.
abbrev pub WellFormed : Cmd → Type 0
WellFormed (Cmd.exec argv) = All IsWord argv × length argv < maxargs
WellFormed (Cmd.redir c file mode fd) = WellFormed c × IsWord file × IsRedirection mode fd
WellFormed (Cmd.pipe l r) = WellFormed l × WellFormed r
WellFormed (Cmd.list l r) = WellFormed l × WellFormed r
WellFormed (Cmd.back c) = WellFormed c

-- A command as `parseexec` makes it, with `argc` arguments so far.
abbrev pub Filling : (argc : ℕ) → Cmd → Type 0
Filling argc (Cmd.exec argv) = All IsWord argv × length argv ≡ argc × argc < maxargs
Filling argc (Cmd.redir c file mode fd) = Filling argc c × IsWord file × IsRedirection mode fd
Filling argc (Cmd.pipe l r) = ⊥
Filling argc (Cmd.list l r) = ⊥
Filling argc (Cmd.back c) = ⊥

pub Filling-WellFormed : (argc : ℕ) (c : Cmd) → Filling argc c → WellFormed c
Filling-WellFormed argc (Cmd.exec argv) (words, e, less) = (words, omega (arith, e, less))
Filling-WellFormed argc (Cmd.redir c file mode fd) (h, w, r) = (Filling-WellFormed argc c h, w, r)
Filling-WellFormed argc (Cmd.pipe l r) h = absurd h
Filling-WellFormed argc (Cmd.list l r) h = absurd h
Filling-WellFormed argc (Cmd.back c) h = absurd h

pub add_arg-Filling :
    (argc : ℕ) (c : Cmd) (w : Bytes)
    → Filling argc c
    → IsWord w
    → argc + 1 < maxargs
    → Filling (argc + 1) (add_arg c w)
unfolding add_arg
add_arg-Filling argc (Cmd.exec argv) w (words, e, _) h less = (
  All-append IsWord argv (w ∷ []) words (h, tt),
  omega (arith, length-append argv (w ∷ []), e),
  less,
)
add_arg-Filling argc (Cmd.redir c file mode fd) w (f, v, r) h less =
    (add_arg-Filling argc c w f h less, v, r)
add_arg-Filling argc (Cmd.pipe l r) w f h less = absurd f
add_arg-Filling argc (Cmd.list l r) w f h less = absurd f
add_arg-Filling argc (Cmd.back c) w f h less = absurd f

-- The parse has stopped: in a panic, or with such a command and no more than `n` bytes to go.
abbrev pub Stopped : (P : Cmd → Type 0) → (n : ℕ) → Parsed → Type 0
Stopped P n (Parsed.done c s) = P c × length s ≤ n
Stopped P n Parsed.panic = Unit
Stopped P n Parsed.starved = ⊥

pub Stopped-andthen :
    {P : Cmd → Type 0} (Q : Cmd → Type 0) {n : ℕ} (m : ℕ) (r : Parsed) (f : Cmd → Bytes → Parsed)
    → Stopped P n r
    → ((c : Cmd) (s : Bytes) → P c → length s ≤ n → Stopped Q m (f c s))
    → Stopped Q m (r andthen f)
Stopped-andthen Q m (Parsed.done c s) f (p, le) h = h c s p le
Stopped-andthen Q m Parsed.panic f p h = tt
Stopped-andthen Q m Parsed.starved f p h = absurd p

pub Stopped-weaken :
    {P Q : Cmd → Type 0} {n m : ℕ} (r : Parsed)
    → ((c : Cmd) → P c → Q c)
    → n ≤ m
    → Stopped P n r
    → Stopped Q m r
Stopped-weaken (Parsed.done c s) f le (p, l) = (f c p, omega (arith, l, le))
Stopped-weaken Parsed.panic f le p = tt
Stopped-weaken Parsed.starved f le p = absurd p
