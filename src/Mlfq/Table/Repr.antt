-- ===== src/Mlfq/Table/Repr.antt =====
-- `qtable` as three lists of process indices: `setupQueue`, the insertion of `enqueue` and
-- `removeFromQueue` against lists.
use cs.Common.{
  Distinct-append, ℕ, zero, suc, ◌+◌, ◌-◌, ◌*◌, ◌/◌, ◌≤◌, ◌<◌, ◌≡◌, refl, true, false, ◌&&◌, List,
  [], ◌∷◌, ◌++◌, arith, ◌==◌, ltb, if◌then◌else◌, update, has, has-append, Distinct, Bool-cases,
  ==_iff, inl, inr, append_assoc,
}
use cs.Mlfq.Table.{Qtable, nproc, clear_queues, setup_queue, append_to, remove_from_queue, empty}
use cs.Mlfq.Table.Links.{
  Links, frame, append-Links, erase-Links, has-last, has-next, has-prev, erase,
}

abbrev pub next_of : Qtable → ℕ → ℕ
next_of t i = (t i).next

abbrev pub prev_of : Qtable → ℕ → ℕ
prev_of t i = (t i).prev

-- The head and the tail entry of level `k`.
abbrev pub head_of : ℕ → ℕ
head_of k = 64 + 2 * k

abbrev pub tail_of : ℕ → ℕ
tail_of k = 65 + 2 * k

-- The level whose list an entry belongs to.
abbrev owner : Qtable → ℕ → ℕ
owner t i = if ltb i nproc then (t i).queue else (i - nproc) / 2

-- The table holds the three lists `q 0`, `q 1` and `q 2`, each index at most once, and its `queue`
-- fields say which list an index is in.
pub record Repr (t : Qtable) (q : ℕ → List ℕ) : Type 0 where
  pub links : (k : ℕ) → k < 3 → Links (next_of t) (prev_of t) (head_of k) (q k ++ tail_of k ∷ [])
  pub distinct : (k : ℕ) → k < 3 → Distinct (q k)
  pub member : (k i : ℕ) → k < 3 → has i (q k) ≡ (ltb i nproc && ((t i).queue == k))

module _ {t : Qtable} {q : ℕ → List ℕ} (r : Repr t q) (k : ℕ) (lt : k < 3) where
  pub owner_lem :
      (i : ℕ) → has i (head_of k ∷ q k ++ tail_of k ∷ []) ≡ true → (owner t i ≡ k) × (i < 70)
  owner_lem i h = ground (arith, r.member k i lt, has-append i (q k) (tail_of k ∷ []))

  head-tail : has (head_of k) (q k) ≡ false
  head-tail = ground (arith, r.member k (head_of k) lt)

  tail-fresh : has (tail_of k) (head_of k ∷ q k) ≡ false
  tail-fresh = ground (arith, r.member k (tail_of k) lt)

  last_owner : (owner t (prev_of t (tail_of k)) ≡ k) × (prev_of t (tail_of k) < 70)
  last_owner = owner_lem (prev_of t (tail_of k)) (
      ground (
        arith,
        has-last (next_of t) (prev_of t) (q k) (head_of k) (tail_of k) (r.links k lt),
        has-append (prev_of t (tail_of k)) (q k) (tail_of k ∷ []),
      ))

clear_queues_lem :
    (n : ℕ) (t : Qtable) (i : ℕ)
    → clear_queues n t i ≡ (if ltb i n then record (t i) { queue = empty } else t i)
unfolding clear_queues
clear_queues_lem zero t i = ground arith
clear_queues_lem (suc n) t i = ground (arith, clear_queues_lem n t i, clear_queues_lem n t n)

setup_queue-Links :
    (t : Qtable) (k : ℕ)
    → k < 3
    → Links (next_of (setup_queue t)) (prev_of (setup_queue t)) (head_of k) (tail_of k ∷ [])
unfolding setup_queue
setup_queue-Links t zero lt = (refl, refl, tt)
setup_queue-Links t (suc zero) lt = (refl, refl, tt)
setup_queue-Links t (suc (suc zero)) lt = (refl, refl, tt)
setup_queue-Links t (suc (suc (suc k))) lt = absurd (omega arith)

-- `setupQueue` leaves three empty lists, whatever the table held before.
pub setup_queue-Repr : (t : Qtable) → Repr (setup_queue t) (λ _. [])
unfolding setup_queue
setup_queue-Repr t = record {
  links = setup_queue-Links t;
  distinct = λ k lt. tt;
  member = λ k i lt. ground (arith, clear_queues_lem 64 t i);
}

has-erase :
    (p i : ℕ) (xs : List ℕ)
    → Distinct xs
    → has i (erase p xs) ≡ (if i == p then false else has i xs)
has-erase p i [] d = ground arith
has-erase p i (x ∷ xs) d = ground (arith, has-erase p i xs d.1)

erase-Distinct : (p : ℕ) (xs : List ℕ) → Distinct xs → Distinct (erase p xs)
erase-Distinct p [] d = tt
erase-Distinct p (x ∷ xs) d = elim (Bool-cases (p == x)) [
  | inl e ↦ rw (e, erase) d.1
  | inr e ↦ rw (e, erase) (ground (arith, has-erase p x xs d.1), erase-Distinct p xs d.1)
]

module _ {t : Qtable} {q : ℕ → List ℕ} (r : Repr t q) (k p : ℕ) (lt : k < 3)
    (p_lt : p < nproc) where
  module _ (out : 3 ≤ (t p).queue) where
    append-next :
        (i : ℕ)
        → next_of (append_to (tail_of k) k p t) i
          ≡ update (update (next_of t) p (tail_of k)) (prev_of t (tail_of k)) p i
    unfolding append_to
    append-next i = ground (arith, last_owner r k lt)

    append-prev :
        (i : ℕ)
        → prev_of (append_to (tail_of k) k p t) i
          ≡ update (update (prev_of t) p (prev_of t (tail_of k))) (tail_of k) p i
    unfolding append_to
    append-prev i = ground (arith, last_owner r k lt)

    pub append-queue :
        (i : ℕ) → (append_to (tail_of k) k p t i).queue ≡ (if i == p then k else (t i).queue)
    unfolding append_to
    append-queue i = ground (arith, last_owner r k lt)

    append_to-Links :
        (j : ℕ)
        → j < 3
        → Links
            (next_of (append_to (tail_of k) k p t))
            (prev_of (append_to (tail_of k) k p t))
            (head_of j)
            (update q k (q k ++ p ∷ []) j ++ tail_of j ∷ [])
    append_to-Links j j_lt = elim (Bool-cases (k == j)) [
      | inl e ↦
          rw (e, ← (==_iff k j).0 e, append_assoc (q k) (p ∷ []) (tail_of k ∷ []))
            (frame _ _ _ _ _ _ (λ i _. append-next i) (λ i _. append-prev i)
              (append-Links (next_of t) (prev_of t) (tail_of k) p (q k) (head_of k)
                (ground (arith, r.member k p lt)) (tail-fresh r k lt) (omega arith)
                (head-tail r k lt, r.distinct k lt) (r.links k lt)))
      | inr e ↦ rw e (
          frame _ _ _ _ (q j ++ tail_of j ∷ []) (head_of j)
            (λ i h. ground (arith, append-next i, owner_lem r j j_lt i h, last_owner r k lt))
            (λ i h. ground (arith, append-prev i, owner_lem r j j_lt i, last_owner r k lt))
            (r.links j j_lt))
    ]

    append-Distinct : (j : ℕ) → j < 3 → Distinct (update q k (q k ++ p ∷ []) j)
    append-Distinct j j_lt = elim (Bool-cases (k == j)) [
      | inl e ↦ rw e (Distinct-append p (q k) (ground (arith, r.member k p lt)) (r.distinct k lt))
      | inr e ↦ rw e (r.distinct j j_lt)
    ]

    -- An index that is in no list goes to the end of the list of level `k`.
    pub append_to-Repr : Repr (append_to (tail_of k) k p t) (update q k (q k ++ p ∷ []))
    append_to-Repr = record {
      links = append_to-Links;
      distinct = append-Distinct;
      member = λ j i j_lt.
          ground (
            arith,
            append-queue i,
            r.member j i j_lt,
            r.member k i lt,
            has-append i (q k) (p ∷ []),
          );
    }

  module _ (inside : (t p).queue ≡ k) where
    here : has p (q k) ≡ true
    here = ground (arith, r.member k p lt)

    prev_owner : (owner t (prev_of t p) ≡ k) × (prev_of t p < 70)
    prev_owner = owner_lem r k lt (prev_of t p) (
        ground (
          arith,
          here,
          has-prev (next_of t) (prev_of t) (q k) (head_of k) (tail_of k) p,
          r.links k lt,
          has-append p (q k) (tail_of k ∷ []),
          has-append (prev_of t p) (q k) (tail_of k ∷ []),
        ))

    next_owner : (owner t (next_of t p) ≡ k) × (next_of t p < 70)
    next_owner = owner_lem r k lt (next_of t p) (
        ground (
          arith,
          here,
          has-next (next_of t) (prev_of t) (q k) (head_of k) (tail_of k) p,
          r.links k lt,
        ))

    remove-next :
        (i : ℕ)
        → next_of (remove_from_queue p t) i ≡ update (next_of t) (prev_of t p) (next_of t p) i
    unfolding remove_from_queue
    remove-next i = ground (arith, prev_owner, next_owner)

    remove-prev :
        (i : ℕ)
        → prev_of (remove_from_queue p t) i ≡ update (prev_of t) (next_of t p) (prev_of t p) i
    unfolding remove_from_queue
    remove-prev i = ground (arith, prev_owner, next_owner)

    pub remove-queue :
        (i : ℕ) → (remove_from_queue p t i).queue ≡ (if i == p then empty else (t i).queue)
    unfolding remove_from_queue
    remove-queue i = ground arith

    remove_from_queue-Links :
        (j : ℕ)
        → j < 3
        → Links
            (next_of (remove_from_queue p t))
            (prev_of (remove_from_queue p t))
            (head_of j)
            (update q k (erase p (q k)) j ++ tail_of j ∷ [])
    remove_from_queue-Links j j_lt = elim (Bool-cases (k == j)) [
      | inl e ↦
          rw (e, ← (==_iff k j).0 e)
            (frame _ _ _ _ _ _ (λ i _. remove-next i) (λ i _. remove-prev i)
              (erase-Links (next_of t) (prev_of t) (tail_of k) p (q k) (head_of k) here
                (tail-fresh r k lt) (head-tail r k lt, r.distinct k lt) (r.links k lt)))
      | inr e ↦ rw e (
          frame _ _ _ _ (q j ++ tail_of j ∷ []) (head_of j)
            (λ i h. ground (arith, remove-next i, owner_lem r j j_lt i h, prev_owner))
            (λ i h. ground (arith, remove-prev i, owner_lem r j j_lt i, next_owner))
            (r.links j j_lt))
    ]

    remove-Distinct : (j : ℕ) → j < 3 → Distinct (update q k (erase p (q k)) j)
    remove-Distinct j j_lt = elim (Bool-cases (k == j)) [
      | inl e ↦ rw e (erase-Distinct p (q k) (r.distinct k lt))
      | inr e ↦ rw e (r.distinct j j_lt)
    ]

    -- An index of list `k`, wherever it stands there, is taken out.
    pub remove_from_queue-Repr : Repr (remove_from_queue p t) (update q k (erase p (q k)))
    remove_from_queue-Repr = record {
      links = remove_from_queue-Links;
      distinct = remove-Distinct;
      member = λ j i j_lt.
          ground (arith, remove-queue i, r.member j i j_lt, has-erase p i (q k) (r.distinct k lt));
    }
