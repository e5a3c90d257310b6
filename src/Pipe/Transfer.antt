-- ===== src/Pipe/Transfer.antt =====
-- What `pipewrite` and `piperead` of pipe.c do to the queue of bytes.
use cs.Common.{
  ℕ, zero, suc, ◌+◌, ◌<◌, ◌≡◌, refl, ap, sym, ◌∙◌, subst, Bool, true, false, ◌||◌, not, ◌⊎◌, inl,
  inr, List, [], ◌∷◌, ◌++◌, append_assoc, append-nil, length, arith, Bool-cases, Option, none, some,
  Option-cases, ==_iff,
}
use cs.Pipe.{Pipe, pipe_size, put, get, is_full, is_empty, Result, pipe_write, read_loop}
use cs.Pipe.Fifo.{IsPipe, is_full_iff, is_empty_iff, put-IsPipe, get-IsPipe}

-- The bytes of the source from `i` on.
abbrev Copied : (ℕ → Option ℕ) → ℕ → List ℕ → Type 0
Copied src i [] = Unit
Copied src i (y ∷ ys) = (src i ≡ some y) × Copied src (i + 1) ys

-- Why `pipewrite` stops behind the bytes `ys`: the read end is closed or the process killed; or all is
-- written or the source fails; or the pipe is full.
abbrev WriteStop : (stopped : Bool) → (ℕ → Option ℕ) → (all i queued : ℕ) → Result → Type 0
WriteStop stopped src all i queued Result.failed = stopped ≡ true
WriteStop stopped src all i queued (Result.returned n) = (n ≡ i) × ((i ≡ all) ⊎ (src i ≡ none))
WriteStop stopped src all i queued (Result.asleep n) = (n ≡ i) × (i < all) × (queued ≡ pipe_size)

pub record Written (stopped : Bool) (src : ℕ → Option ℕ) (all i : ℕ) (xs : List ℕ)
    (r : Result × Pipe) : Type 0 where
  pub ys : List ℕ
  pub copied : Copied src i ys
  pub queue : IsPipe r.1 (xs ++ ys)
  pub stop : WriteStop stopped src all (i + length ys) (length (xs ++ ys)) r.0

add_zero : (n : ℕ) → n + 0 ≡ n
add_zero n = omega arith

none-Written :
    (stopped : Bool) (src : ℕ → Option ℕ) (all i : ℕ) (xs : List ℕ) (r : Result) (p : Pipe)
    → IsPipe p xs
    → WriteStop stopped src all i (length xs) r
    → Written stopped src all i xs (r, p)
none-Written stopped src all i xs r p v w = record {
  ys = [];
  copied = tt;
  queue = rw (append-nil xs) v;
  stop = rw (append-nil xs, add_zero i) w;
}

next_index : (i n : ℕ) → i + 1 + n ≡ i + suc n
next_index i n = omega arith

more-Written :
    {stopped : Bool} {src : ℕ → Option ℕ} {all i : ℕ} {xs : List ℕ} {r : Result × Pipe} (ch : ℕ)
    → src i ≡ some ch
    → Written stopped src all (i + 1) (xs ++ ch ∷ []) r
    → Written stopped src all i xs r
more-Written {stopped} {src} {all} {i} {xs} {r} ch e w = record {
  ys = ch ∷ w.ys;
  copied = (e, w.copied);
  queue = subst (IsPipe r.1) (append_assoc xs (ch ∷ []) w.ys) w.queue;
  stop =
      subst (λ zs. WriteStop stopped src all (i + suc (length w.ys)) (length zs) r.0)
        (append_assoc xs (ch ∷ []) w.ys)
        (subst (λ n. WriteStop stopped src all n (length ((xs ++ ch ∷ []) ++ w.ys)) r.0)
          (next_index i (length w.ys)) w.stop);
}

-- `pipewrite` adds a run of the source's bytes behind those in the pipe. It fails only if the read end
-- is closed or the process killed, returns the number of bytes written when they are all or the source
-- fails at the next one, and sleeps only when the pipe is full.
pub pipe_write-Written :
    (killed : Bool) (src : ℕ → Option ℕ) (rest i all : ℕ) (p : Pipe) (xs : List ℕ)
    → i + rest ≡ all
    → IsPipe p xs
    → Written (not p.readopen || killed) src all i xs (pipe_write killed src rest i p)
unfolding pipe_write put
pipe_write-Written killed src zero i all p xs e v =
    none-Written _ src all i xs (Result.returned i) p v (refl, inl (omega (arith, e)))
pipe_write-Written killed src (suc rest) i all p xs e v =
    elim (Bool-cases (not p.readopen || killed)) [
      | inl st ↦ rw (st) (none-Written _ src all i xs Result.failed p v refl)
      | inr go ↦ elim (Bool-cases (is_full p)) [
        | inl full ↦
            rw (go, full)
              (none-Written _ src all i xs (Result.asleep i) p v (
                refl,
                omega (arith, e),
                (==_iff (length xs) pipe_size).0 (sym (is_full_iff v) ∙ full),
              ))
        | inr space ↦ elim (Option-cases (src i)) [
          | inl none_left ↦
              rw (go, space, none_left)
                (none-Written _ src all i xs (Result.returned i) p v (refl, inr none_left))
          | inr (ch, some_left) ↦
              rw (go, space, some_left)
                (more-Written ch some_left (
                  subst
                    (λ b.
                      Written b src all (i + 1) (xs ++ ch ∷ [])
                        (pipe_write killed src rest (i + 1) (put ch p)))
                    go
                    (pipe_write-Written killed src rest (i + 1) all (put ch p) (xs ++ ch ∷ [])
                      (omega (arith, e))
                      (put-IsPipe ch v (ground (arith, is_full_iff v, v.few, space))))))
        ]
      ]
    ]

-- What becomes of the bytes `xs` of the pipe: those of `r` reach the user, `lost` are gone and `left`
-- stay.
pub record ReadDone (dst : ℕ → Bool) (rest i : ℕ) (xs : List ℕ) (r : List ℕ × ℕ × Pipe)
    : Type 0 where
  pub lost : List ℕ
  pub left : List ℕ
  pub split : xs ≡ r.0 ++ (lost ++ left)
  pub count : r.1 ≡ i + length r.0
  pub reached : (j : ℕ) → j < length r.0 → dst (i + j) ≡ true
  pub queue : IsPipe r.2 left
  pub stop :
      ((lost ≡ []) × ((length r.0 ≡ rest) ⊎ (left ≡ [])))
      ⊎ ((length lost ≡ 1) × (dst (i + length r.0) ≡ false))

first_reached :
    (dst : ℕ → Bool) (i n : ℕ)
    → dst i ≡ true
    → ((j : ℕ) → j < n → dst (i + 1 + j) ≡ true)
    → (j : ℕ) → j < suc n
    → dst (i + j) ≡ true
first_reached dst i n ok h zero lt = rw (add_zero i) ok
first_reached dst i n ok h (suc j) lt =
    subst (λ m. dst m ≡ true) (next_index i j) (h j (omega (arith, lt)))

-- The copying loop of `piperead` gives the oldest bytes of the pipe to the user, in order, as many as it
-- returns, and leaves the rest in the pipe. `copyout` succeeds for each byte that is given. The loop stops
-- when all that was asked for is read or the pipe is empty, and then no byte is lost, or when `copyout`
-- fails for the next byte, and then that one byte is lost.
pub read_loop-ReadDone :
    (dst : ℕ → Bool) (rest i : ℕ) (p : Pipe) (xs : List ℕ)
    → IsPipe p xs
    → ReadDone dst rest i xs (read_loop dst rest i p)
unfolding read_loop
read_loop-ReadDone dst zero i p xs v = record {
  lost = [];
  left = xs;
  split = refl;
  count = omega arith;
  reached = λ j lt. absurd (omega (arith, lt));
  queue = v;
  stop = inl (refl, inl refl);
}
read_loop-ReadDone dst (suc rest) i p [] v = rw (is_empty_iff v) (record {
  lost = [];
  left = [];
  split = refl;
  count = omega arith;
  reached = λ j lt. absurd (omega (arith, lt));
  queue = v;
  stop = inl (refl, inr refl);
})
read_loop-ReadDone dst (suc rest) i p (x ∷ xs) v =
    let (first, v') = get-IsPipe v in
    let w : ReadDone dst rest (i + 1) xs (read_loop dst rest (i + 1) (get p).1) =
      read_loop-ReadDone dst rest (i + 1) (get p).1 xs v' in
    let more : is_empty p ≡ false = is_empty_iff v ∙ ground arith in
    elim (Bool-cases (dst i)) [
      | inl ok ↦
          rw (more, ok)
            (record {
              lost = w.lost;
              left = w.left;
              split = rw (first) (ap (x ∷◌) w.split);
              count = omega (arith, w.count);
              reached =
                  first_reached dst i (length (read_loop dst rest (i + 1) (get p).1).0) ok
                    w.reached;
              queue = w.queue;
              stop = elim w.stop [
                | inl (a, inl e) ↦ inl (a, inl (ap suc e))
                | inl (a, inr e) ↦ inl (a, inr e)
                | inr (a, e) ↦ inr (a, subst (λ n. dst n ≡ false) (next_index i _) e)
              ];
            })
      | inr fault ↦
          rw (more, fault)
            (record {
              lost = x ∷ [];
              left = xs;
              split = refl;
              count = omega arith;
              reached = λ j lt. absurd (omega (arith, lt));
              queue = v';
              stop = inr (refl, rw (add_zero i) fault);
            })
    ]
