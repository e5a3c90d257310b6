-- ===== src/Journal/Ring/Fifo.antt =====
-- The circular buffer of Metadata journaling service/journal.c as a queue.
use cs.Common.{
  ℕ, ◌+◌, ◌%◌, ◌≤◌, ◌<◌, ◌≡◌, refl, Option, some, List, [], ◌∷◌, ◌++◌, length, length-append,
  update, arith,
}
use cs.Journal.Ring.{Request, Ring, buffer_size, enqueue, dequeue, advance, zero_ring}

-- From position `t` on, counted round the buffer, the slots hold the list.
abbrev Holds : (ℕ → Option Request) → ℕ → List Request → Type 0
Holds b t [] = Unit
Holds b t (x ∷ xs) = (b (t % 8) ≡ some x) × Holds b (t + 1) xs

-- The ring holds the requests `xs`, oldest first.
pub record IsRing (r : Ring) (xs : List Request) : Type 0 where
  pub tail_lt : r.tail < buffer_size
  pub size_eq : r.size ≡ length xs
  pub fits : length xs ≤ buffer_size
  pub head_eq : r.head ≡ (r.tail + length xs) % 8
  pub holds : Holds r.buffer r.tail xs

write-Holds :
    (b : ℕ → Option Request) (h : ℕ) (v : Option Request) (t : ℕ) (xs : List Request)
    → t + length xs ≤ h
    → h < t + 8
    → Holds b t xs
    → Holds (update b (h % 8) v) t xs
write-Holds b h v t [] le lt k = tt
write-Holds b h v t (x ∷ xs) le lt k =
    (ground arith, write-Holds b h v (t + 1) xs (omega arith) (omega arith) k.1)

append-Holds :
    (b : ℕ → Option Request) (t : ℕ) (xs : List Request) (x : Request)
    → Holds b t xs
    → b ((t + length xs) % 8) ≡ some x
    → Holds b t (xs ++ x ∷ [])
append-Holds b t [] x k e = (ground arith, tt)
append-Holds b t (y ∷ xs) x k e = (k.0, append-Holds b (t + 1) xs x k.1 (ground arith))

wrap-Holds :
    (b : ℕ → Option Request) (s t : ℕ) (xs : List Request)
    → s % 8 ≡ t % 8
    → Holds b s xs
    → Holds b t xs
wrap-Holds b s t [] e k = tt
wrap-Holds b s t (x ∷ xs) e k = (ground arith, wrap-Holds b (s + 1) (t + 1) xs (omega arith) k.1)

module _ {r : Ring} {xs : List Request} where
  -- With a free slot, `enqueue` appends the request.
  pub enqueue_lem :
      IsRing r xs → length xs < buffer_size → (x : Request) → IsRing (enqueue r x) (xs ++ x ∷ [])
  unfolding enqueue
  enqueue_lem v lt x = record {
    tail_lt = v.tail_lt;
    size_eq = omega (arith, length-append xs (x ∷ []), v.size_eq);
    fits = omega (arith, length-append xs (x ∷ []));
    head_eq = ground (arith, length-append xs (x ∷ []), v.head_eq, v.tail_lt);
    holds =
        append-Holds (update r.buffer r.head (some x)) r.tail xs x
          (rw v.head_eq (
            write-Holds r.buffer (r.tail + length xs) (some x) r.tail xs (omega arith) (omega arith)
              v.holds))
          (ground (arith, v.head_eq));
  }

-- On a ring that holds a request, `dequeue` returns the oldest one and keeps the others.
pub dequeue_lem :
    {r : Ring} (x : Request) (xs : List Request)
    → IsRing r (x ∷ xs)
    → ((dequeue r).0 ≡ some x) × IsRing (dequeue r).1 xs
unfolding dequeue
dequeue_lem {r} x xs v = (
  ground (arith, v.holds, v.tail_lt),
  record {
    tail_lt = ground (arith, v.tail_lt);
    size_eq = omega (arith, v.size_eq, v.fits);
    fits = omega (arith, v.fits);
    head_eq = ground (arith, v.head_eq, v.tail_lt);
    holds =
        wrap-Holds r.buffer (r.tail + 1) (advance r.tail) xs (ground (arith, v.tail_lt)) v.holds.1;
  },
)

pub zero_ring-IsRing : IsRing zero_ring []
zero_ring-IsRing = record {
  tail_lt = omega arith;
  size_eq = refl;
  fits = omega arith;
  head_eq = refl;
  holds = tt;
}
