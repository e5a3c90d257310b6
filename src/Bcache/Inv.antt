-- ===== src/Bcache/Inv.antt =====
-- The state of the buffer cache is well formed: the links form one circle through all buffers.
use cs.Common.{
  ℕ, zero, suc, ◌+◌, ◌<◌, ◌≤◌, ◌≡◌, refl, ◌≢◌, true, false, ◌&&◌, not, List, [], ◌∷◌, arith, ◌==◌,
  ltb, update, has, Distinct, subst, length,
}
use cs.Mlfq.Table.Links.{erase}
use cs.Bcache.{Bcache, Buf, nbuf, head, set_buf, push_front, unlink, init_from, binit}
use cs.SleepLock.{init_sleep_lock}
use cs.Bcache.Chain.{Chain, Chain-frame, erase-Chain, cons-Chain}

-- The list of the buffers, the most recently used one first.
pub record Listed (s : Bcache) (xs : List ℕ) : Type 0 where
  pub linked : Chain s.next s.prev head xs head
  pub once : Distinct xs
  pub headless : has head xs ≡ false

-- The list has all the buffers, and no block of a device but 0 is in two of them. (At the start
-- every buffer holds block 0 of device 0.)
pub record Good (s : Bcache) (xs : List ℕ) : Type 0 where
  pub listed : Listed s xs
  pub all_there : (i : ℕ) → has i xs ≡ ltb i nbuf
  pub size : length xs ≡ nbuf
  pub one_copy :
      (i j : ℕ)
      → i < nbuf
      → j < nbuf
      → i ≢ j
      → (s.buf i).dev ≡ (s.buf j).dev
      → (s.buf i).blockno ≡ (s.buf j).blockno
      → (s.buf i).dev ≡ 0

pub has-erase_other :
    (p i : ℕ) (xs : List ℕ) → Distinct xs → has i (erase p xs) ≡ (has i xs && not (i == p))
has-erase_other p i [] d = refl
has-erase_other p i (x ∷ xs) d = ground (arith, has-erase_other p i xs d.1)

pub length-erase : (p : ℕ) (xs : List ℕ) → has p xs ≡ true → suc (length (erase p xs)) ≡ length xs
length-erase p [] h = ground (arith, h)
length-erase p (x ∷ xs) h = ground (arith, length-erase p xs)

Distinct-erase : (p : ℕ) (xs : List ℕ) → Distinct xs → Distinct (erase p xs)
Distinct-erase p [] d = tt
Distinct-erase p (x ∷ xs) d = ground (arith, Distinct-erase p xs d.1, has-erase_other p x xs d.1)

pub push_front-Listed :
    (p : ℕ) (s : Bcache) (xs : List ℕ)
    → has p xs ≡ false
    → p ≢ head
    → Listed s xs
    → Listed (push_front p s) (p ∷ xs)
unfolding push_front
push_front-Listed p s xs fresh ne l = record {
  linked =
      Chain-frame (update (update s.next p (s.next head)) head p)
        (update (update s.prev p head) (s.next head) p) (push_front p s).next (push_front p s).prev
        (p ∷ xs) head head (λ i q. refl) (λ i q. ground arith)
        (cons-Chain s.next s.prev head p xs head fresh l.headless l.headless ne ne l.once l.linked);
  once = (fresh, l.once);
  headless = ground (arith, ne, l.headless);
}

pub unlink-Listed :
    (p : ℕ) (s : Bcache) (xs : List ℕ)
    → has p xs ≡ true
    → Listed s xs
    → Listed (unlink p s) (erase p xs)
unfolding unlink
unlink-Listed p s xs h l = record {
  linked =
      Chain-frame (update s.next (s.prev p) (s.next p)) (update s.prev (s.next p) (s.prev p))
        (unlink p s).next (unlink p s).prev (erase p xs) head head (λ i q. ground arith)
        (λ i q. refl)
        (erase-Chain s.next s.prev head p xs head h l.headless l.headless l.once l.linked);
  once = Distinct-erase p xs l.once;
  headless = ground (arith, has-erase_other p head xs l.once, l.headless);
}

-- The buffers below `n`, the last one first.
abbrev pub down_from : ℕ → List ℕ
down_from zero = []
down_from (suc n) = n ∷ down_from n

has-down_from : (i n : ℕ) → has i (down_from n) ≡ ltb i n
has-down_from i zero = ground arith
has-down_from i (suc n) = ground (arith, has-down_from i n)

length-down_from : (n : ℕ) → length (down_from n) ≡ n
length-down_from zero = refl
length-down_from (suc n) = omega (arith, length-down_from n)

set_buf-Listed :
    (s : Bcache) (xs : List ℕ) (b : ℕ) (x : Buf) → Listed s xs → Listed (set_buf s b x) xs
set_buf-Listed s xs b x l = record { linked = l.linked; once = l.once; headless = l.headless }

init_from-Listed :
    (rest b : ℕ) (s : Bcache)
    → b + rest ≤ nbuf
    → Listed s (down_from b)
    → Listed (init_from rest b s) (down_from (b + rest))
unfolding init_from
init_from-Listed zero b s e l = subst (λ n. Listed s (down_from n)) (omega arith) l
init_from-Listed (suc rest) b s e l =
    let s1 = set_buf s b (record (s.buf b) { lock = init_sleep_lock }) in
    subst (λ n. Listed (init_from rest (suc b) (push_front b s1)) (down_from n)) (omega arith)
      (init_from-Listed rest (suc b) (push_front b s1) (omega (arith, e)) (
        push_front-Listed b s1 (down_from b) (ground (arith, has-down_from b b))
          (λ same. omega (arith, e, same))
          (set_buf-Listed s (down_from b) b (record (s.buf b) { lock = init_sleep_lock }) l)))

init_from-dev :
    (rest b : ℕ) (s : Bcache)
    → ((i : ℕ) → (s.buf i).dev ≡ 0)
    → (i : ℕ) → ((init_from rest b s).buf i).dev ≡ 0
unfolding init_from push_front
init_from-dev zero b s h i = h i
init_from-dev (suc rest) b s h i =
    let s1 = set_buf s b (record (s.buf b) { lock = init_sleep_lock }) in
    init_from-dev rest (suc b) (push_front b s1) (λ j. ground (arith, h b, h j)) i

-- `binit` makes a well-formed list of all buffers, the last one first, from zeroed memory.
pub binit-Good : (s : Bcache) → ((i : ℕ) → (s.buf i).dev ≡ 0) → Good (binit s) (down_from nbuf)
unfolding binit
binit-Good s h =
    let s0 = record s { next = update s.next head head; prev = update s.prev head head } in
    record {
      listed =
          init_from-Listed nbuf 0 s0 (omega arith)
            (record { linked = (refl, refl); once = tt; headless = refl });
      all_there = λ i. has-down_from i nbuf;
      size = length-down_from nbuf;
      one_copy = λ i j hi hj ne same_dev same_block. init_from-dev nbuf 0 s0 h i;
    }
