-- ===== src/Pipe/Fifo.antt =====
-- The ring of pipe.c as a queue of bytes.
use cs.Common.{
  ℕ, zero, suc, Option, none, some, ◌&&◌, ◌+◌, ◌%◌, ◌^◌, ◌<◌, ◌≤◌, ◌≡◌, refl, ap, sym, ◌∙◌, subst,
  Bool, true, false, List, [], ◌∷◌, ◌++◌, ◌==◌, update, length, arith,
}
use cs.Pipe.{Pipe, pipe_size, wrap, put, get, is_full, is_empty, pipe_alloc}

-- From counter `r` on the ring holds the bytes of the list.
abbrev pub Holds : (ℕ → ℕ) → ℕ → List ℕ → Type 0
Holds ring r [] = Unit
Holds ring r (x ∷ xs) = (ring (r % pipe_size) ≡ x) × Holds ring (wrap (r + 1)) xs

-- The pipe holds the bytes of the list, the oldest one first.
pub record IsPipe (p : Pipe) (xs : List ℕ) : Type 0 where
  pub bytes : Holds p.ring p.nread xs
  pub few : length xs ≤ pipe_size
  pub counter : p.nread < 2 ^ 32
  pub written : p.nwrite ≡ wrap (p.nread + length xs)

-- Places at a distance below the size differ, and the counters wrap at a multiple of the size.
place_ne : (r m : ℕ) → 0 < m → m < pipe_size → (wrap (r + m) % pipe_size == r % pipe_size) ≡ false
place_ne r m pos lt = ground (arith, pos, lt)

place_same : (r : ℕ) → wrap (r + 0) % pipe_size ≡ r % pipe_size
place_same r = omega arith

wrap_step : (r m : ℕ) → wrap (wrap (r + 1) + m) ≡ wrap (r + suc m)
wrap_step r m = omega arith

Holds-frame :
    (ring : ℕ → ℕ) (ch r m : ℕ) (xs : List ℕ)
    → length xs ≤ m
    → m < pipe_size
    → Holds ring r xs
    → Holds (update ring (wrap (r + m) % pipe_size) ch) r xs
Holds-frame ring ch r m [] le lt h = tt
Holds-frame ring ch r zero (x ∷ xs) le lt h = absurd (omega (arith, le))
Holds-frame ring ch r (suc m) (x ∷ xs) le lt h = (
  rw (place_ne r (suc m) (omega arith) lt) (h.0),
  subst (λ w. Holds (update ring (w % pipe_size) ch) (wrap (r + 1)) xs) (wrap_step r m)
      (Holds-frame ring ch (wrap (r + 1)) m xs (omega (arith, le)) (omega (arith, lt)) h.1),
)

Holds-put :
    (ring : ℕ → ℕ) (ch r : ℕ) (xs : List ℕ)
    → length xs < pipe_size
    → Holds ring r xs
    → Holds (update ring (wrap (r + length xs) % pipe_size) ch) r (xs ++ ch ∷ [])
Holds-put ring ch r [] lt h = (ground (arith, place_same r), tt)
Holds-put ring ch r (x ∷ xs) lt h = (
  rw (place_ne r (suc (length xs)) (omega arith) lt) (h.0),
  subst (λ w. Holds (update ring (w % pipe_size) ch) (wrap (r + 1)) (xs ++ ch ∷ []))
      (wrap_step r (length xs)) (Holds-put ring ch (wrap (r + 1)) xs (omega (arith, lt)) h.1),
)

pub is_full_iff : {p : Pipe} {xs : List ℕ} → IsPipe p xs → is_full p ≡ (length xs == pipe_size)
is_full_iff v = ground (arith, v.few, v.counter, v.written)

pub is_empty_iff : {p : Pipe} {xs : List ℕ} → IsPipe p xs → is_empty p ≡ (length xs == 0)
is_empty_iff v = ground (arith, v.few, v.counter, v.written)

length-append_one : (xs : List ℕ) (x : ℕ) → length (xs ++ x ∷ []) ≡ suc (length xs)
length-append_one [] x = refl
length-append_one (y ∷ xs) x = ap suc (length-append_one xs x)

-- Writing one byte adds it behind the others.
pub put-IsPipe :
    (ch : ℕ) {p : Pipe} {xs : List ℕ}
    → IsPipe p xs
    → length xs < pipe_size
    → IsPipe (put ch p) (xs ++ ch ∷ [])
unfolding put
put-IsPipe ch {p} {xs} v lt = record {
  bytes = rw (v.written) (Holds-put p.ring ch p.nread xs lt v.bytes);
  few = omega (arith, length-append_one xs ch, lt);
  counter = v.counter;
  written = rw (length-append_one xs ch, v.written) (omega arith);
}

-- Reading one byte takes the oldest one.
pub get-IsPipe :
    {p : Pipe} {x : ℕ} {xs : List ℕ} → IsPipe p (x ∷ xs) → ((get p).0 ≡ x) × IsPipe (get p).1 xs
unfolding get
get-IsPipe {p} {x} {xs} v = (
  v.bytes.0,
  record {
    bytes = v.bytes.1;
    few = omega (arith, v.few);
    counter = omega arith;
    written = v.written ∙ sym (wrap_step p.nread (length xs));
  },
)

abbrev pub IsFresh : (got : Bool) → Option Pipe → Type 0
IsFresh got none = got ≡ false
IsFresh got (some p) = (got ≡ true) × IsPipe p []

-- A pipe is made exactly if the two files and the page are there, and it starts empty.
pipe_alloc-IsFresh :
    (file0 file1 page : Bool) → IsFresh (file0 && (file1 && page)) (pipe_alloc file0 file1 page)
unfolding pipe_alloc
pipe_alloc-IsFresh false file1 page = refl
pipe_alloc-IsFresh true false page = refl
pipe_alloc-IsFresh true true false = refl
pipe_alloc-IsFresh true true true =
    (refl, record { bytes = tt; few = omega arith; counter = omega arith; written = refl })
