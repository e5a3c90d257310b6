-- ===== src/Sh/Stops.antt =====
-- The parser of sh.c stops on every line, and what it builds is well formed.
use cs.Common.{
  ℕ, zero, suc, ◌-◌, ◌≤◌, ◌<◌, refl, inl, inr, [], ◌∷◌, length, if◌then◌else◌, arith, Bool-cases,
  Bytes,
}
use cs.Sh.{
  Cmd, Parsed, ◌andthen◌, peek, gettoken, parseredirs, parseblock, parse_args, parseexec, parsepipe,
  parse_backs, parseline, parsecmd,
}
use cs.Sh.Tokens.{peek_lem, gettoken_lem}
use cs.Sh.Shape.{WellFormed, Filling, Stopped, Stopped-andthen, Stopped-weaken}
use cs.Sh.Args.{
  parseredirs-Stopped, Filling-Redirectable, WellFormed-Redirectable, parse_args-Stopped,
}

-- What `parseline` does on the shorter lines.
abbrev LineStops : (line : Bytes → Parsed) → (n : ℕ) → Type 0
LineStops line n = (s : Bytes) → length s < n → Stopped WellFormed (length s) (line s)

parseblock-Stopped :
    (line : Bytes → Parsed) (s : Bytes)
    → LineStops line (length s)
    → Stopped WellFormed (length s - 1) (parseblock line s)
unfolding parseblock
parseblock-Stopped line s stops =
    let s0 = (peek s (b'(' ∷ [])).1 in
    let (shorter, there) = peek_lem s (b'(' ∷ []) in
    let s1 = (gettoken s0).2 in
    let (_, first, _, _) = gettoken_lem s0 in
    elim (Bool-cases (peek s (b'(' ∷ [])).0) [
      | inr e ↦ rw (e) tt
      | inl e ↦
          let on = first (there e) in
          rw (e) (
            Stopped-andthen WellFormed (length s - 1) (line s1)
              (λ c s2.
                (let (closed, s3) = peek s2 (b')' ∷ []) in
                  let (tok', mark', s4) = gettoken s3 in
                  if closed then parseredirs (suc (length s4)) c s4 else Parsed.panic))
              (stops s1 (omega (arith, on, shorter)))
              (λ c s2 p le. behind c s2 p (omega (arith, on, shorter, le))))
    ]
  where
    behind :
        (c : Cmd) (s2 : Bytes)
        → WellFormed c
        → length s2 ≤ length s - 1
        → Stopped WellFormed (length s - 1) (
            let (closed, s3) = peek s2 (b')' ∷ []) in
            let (tok', mark', s4) = gettoken s3 in
            if closed then parseredirs (suc (length s4)) c s4 else Parsed.panic)
    behind c s2 p le =
        let s3 = (peek s2 (b')' ∷ [])).1 in
        let (shorter', _) = peek_lem s2 (b')' ∷ []) in
        let s4 = (gettoken s3).2 in
        let (less, _, _, _) = gettoken_lem s3 in
        elim (Bool-cases (peek s2 (b')' ∷ [])).0) [
          | inr e ↦ rw (e) tt
          | inl e ↦ rw (e) (
              Stopped-weaken (parseredirs (suc (length s4)) c s4) (λ d q. q)
                (omega (arith, less, shorter', le))
                (parseredirs-Stopped WellFormed WellFormed-Redirectable (suc (length s4)) c s4 p
                  (omega arith)))
        ]

parseexec-Stopped :
    (line : Bytes → Parsed) (s : Bytes)
    → LineStops line (length s)
    → Stopped WellFormed (length s) (parseexec line s)
unfolding parseexec
parseexec-Stopped line s stops =
    let s0 = (peek s (b'(' ∷ [])).1 in
    let (shorter, _) = peek_lem s (b'(' ∷ []) in
    elim (Bool-cases (peek s (b'(' ∷ [])).0) [
      | inl e ↦ rw (e) (
          Stopped-weaken (parseblock line s0) (λ c q. q) (omega (arith, shorter))
            (parseblock-Stopped line s0 (λ t less. stops t (omega (arith, less, shorter)))))
      | inr e ↦ rw (e) (
          Stopped-andthen WellFormed (length s) (parseredirs (suc (length s0)) (Cmd.exec []) s0)
            (λ c s1. parse_args (suc (length s1)) 0 c s1)
            (parseredirs-Stopped (Filling 0) (Filling-Redirectable 0) (suc (length s0))
              (Cmd.exec []) s0 (tt, refl, omega arith) (omega arith))
            (λ c s1 p le.
              Stopped-weaken (parse_args (suc (length s1)) 0 c s1) (λ d q. q)
                (omega (arith, le, shorter))
                (parse_args-Stopped (suc (length s1)) 0 c s1 p (omega arith))))
    ]

-- The end of `parsepipe` and of `parseline`: the rest of the line, behind a mark.
abbrev joined : (mark : ℕ) (again : Bytes → Parsed) (join : Cmd → Cmd → Cmd) → Cmd → Bytes → Parsed
joined mark again join c s0 =
    let (more, s1) = peek s0 (mark ∷ []) in
    let (tok, text, s2) = gettoken s1 in
    if more then (again s2 andthen λ r s3. Parsed.done (join c r) s3) else Parsed.done c s1

joined-Stopped :
    (mark : ℕ) (again : Bytes → Parsed) (join : Cmd → Cmd → Cmd) (n : ℕ) (c : Cmd) (s0 : Bytes)
    → ((l r : Cmd) → WellFormed l → WellFormed r → WellFormed (join l r))
    → WellFormed c
    → length s0 ≤ n
    → ((s2 : Bytes) → length s2 < n → Stopped WellFormed (length s2) (again s2))
    → Stopped WellFormed n (joined mark again join c s0)
joined-Stopped mark again join n c s0 sound p le stops =
    let s1 = (peek s0 (mark ∷ [])).1 in
    let (shorter, there) = peek_lem s0 (mark ∷ []) in
    let s2 = (gettoken s1).2 in
    let (_, first, _, _) = gettoken_lem s1 in
    elim (Bool-cases (peek s0 (mark ∷ [])).0) [
      | inr e ↦ rw (e) (p, omega (arith, shorter, le))
      | inl e ↦
          let on = first (there e) in
          rw (e) (
            Stopped-andthen WellFormed n (again s2) (λ r s3. Parsed.done (join c r) s3)
              (stops s2 (omega (arith, on, shorter, le)))
              (λ r s3 q l. (sound c r p q, omega (arith, l, on, shorter, le))))
    ]

parsepipe-Stopped :
    (fuel : ℕ) (line : Bytes → Parsed) (s : Bytes)
    → LineStops line (length s)
    → length s < fuel
    → Stopped WellFormed (length s) (parsepipe fuel line s)
unfolding parsepipe
parsepipe-Stopped zero line s stops less = absurd (omega (arith, less))
parsepipe-Stopped (suc fuel) line s stops less =
    Stopped-andthen WellFormed (length s) (parseexec line s)
      (λ c s0.
        (let (more, s1) = peek s0 (b'|' ∷ []) in
          let (tok, mark, s2) = gettoken s1 in
          if more
          then (parsepipe fuel line s2 andthen λ r s3. Parsed.done (Cmd.pipe c r) s3)
          else Parsed.done c s1))
      (parseexec-Stopped line s stops)
      (λ c s0 p le.
        joined-Stopped b'|' (parsepipe fuel line) (λ c' r. Cmd.pipe c' r) (length s) c s0
          (λ c' r p' q. (p', q)) p le
          (λ s2 short.
            parsepipe-Stopped fuel line s2 (λ t l. stops t (omega (arith, l, short)))
              (omega (arith, short, less))))

parse_backs-Stopped :
    (fuel : ℕ) (c : Cmd) (s : Bytes)
    → WellFormed c
    → length s < fuel
    → Stopped WellFormed (length s) (parse_backs fuel c s)
unfolding parse_backs
parse_backs-Stopped zero c s p less = absurd (omega (arith, less))
parse_backs-Stopped (suc fuel) c s p less =
    let s0 = (peek s (b'&' ∷ [])).1 in
    let (shorter, there) = peek_lem s (b'&' ∷ []) in
    let s1 = (gettoken s0).2 in
    let (_, first, _, _) = gettoken_lem s0 in
    elim (Bool-cases (peek s (b'&' ∷ [])).0) [
      | inr e ↦ rw (e) (p, shorter)
      | inl e ↦
          let on = first (there e) in
          rw (e) (
            Stopped-weaken (parse_backs fuel (Cmd.back c) s1) (λ d q. q)
              (omega (arith, on, shorter))
              (parse_backs-Stopped fuel (Cmd.back c) s1 p (omega (arith, on, shorter, less))))
    ]

parseline-Stopped :
    (fuel : ℕ) (s : Bytes) → length s < fuel → Stopped WellFormed (length s) (parseline fuel s)
unfolding parseline
parseline-Stopped zero s less = absurd (omega (arith, less))
parseline-Stopped (suc fuel) s less =
    Stopped-andthen WellFormed (length s)
      (parsepipe (suc (length s)) (parseline fuel) s andthen λ c s0.
        parse_backs (suc (length s0)) c s0)
      (λ c s1.
        (let (more, s2) = peek s1 (b';' ∷ []) in
          let (tok, mark, s3) = gettoken s2 in
          if more
          then (parseline fuel s3 andthen λ r s4. Parsed.done (Cmd.list c r) s4)
          else Parsed.done c s2))
      (Stopped-andthen WellFormed (length s) (parsepipe (suc (length s)) (parseline fuel) s)
        (λ c s0. parse_backs (suc (length s0)) c s0)
        (parsepipe-Stopped (suc (length s)) (parseline fuel) s
          (λ t short. parseline-Stopped fuel t (omega (arith, short, less))) (omega arith))
        (λ c s0 p le.
          Stopped-weaken (parse_backs (suc (length s0)) c s0) (λ d q. q) le
            (parse_backs-Stopped (suc (length s0)) c s0 p (omega arith))))
      (λ c s1 p le.
        joined-Stopped b';' (parseline fuel) (λ c' r. Cmd.list c' r) (length s) c s1
          (λ c' r p' q. (p', q)) p le
          (λ s3 short. parseline-Stopped fuel s3 (omega (arith, short, less))))

-- Every line is parsed to its end or refused with a panic, within the fuel, and the arguments and files
-- of the command are words, with room in `argv` for the null pointer.
pub parsecmd-Stopped : (s : Bytes) → Stopped WellFormed 0 (parsecmd s)
unfolding parsecmd
parsecmd-Stopped s =
    Stopped-andthen WellFormed 0 (parseline (suc (length s)) s)
      (λ c s0.
        (let (there, s1) = peek s0 [] in
          elim s1 [ [] ↦ Parsed.done c [] | c' ∷ s' ↦ Parsed.panic ]))
      (parseline-Stopped (suc (length s)) s (omega arith)) (λ c s0 p le. no_rest c (peek s0 []).1 p)
  where
    no_rest :
        (c : Cmd) (s1 : Bytes)
        → WellFormed c
        → Stopped WellFormed 0 (elim s1 [ [] ↦ Parsed.done c [] | c' ∷ s' ↦ Parsed.panic ])
    no_rest c [] p = (p, omega arith)
    no_rest c (d ∷ s) p = tt
