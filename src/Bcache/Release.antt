-- ===== src/Bcache/Release.antt =====
-- What `brelse`, `bwrite` and the reading of a block do.
use cs.Common.{
  ℕ, ◌+◌, ◌%◌, ◌^◌, ◌-◌, ◌<◌, ◌≡◌, refl, ap, sym, subst, ◌∙◌, update_self, ◌≢◌, inl, inr, true,
  false, Option, none, some, List, ◌∷◌, arith, ◌==◌, if◌then◌else◌, has, Bool-cases,
}
use cs.SleepLock.{release_sleep, holding_sleep}
use cs.Mlfq.Table.Links.{erase}
use cs.Bcache.{Bcache, Buf, nbuf, set_buf, drop_ref, push_front, unlink, brelse, bwrite, fill_buf}
use cs.Bcache.Inv.{Good, has-erase_other, length-erase, push_front-Listed, unlink-Listed}
use cs.Bcache.Get.{set_buf-Good}

-- The list after the release of a buffer with so many references: after the last one, which the count
-- modulo 2^32 tells, the buffer goes to the front.
abbrev released : (refcnt b : ℕ) → List ℕ → List ℕ
released refcnt b xs = if refcnt % 2 ^ 32 == 1 then b ∷ erase b xs else xs

abbrev pub BrelseOk : (pid b : ℕ) → Bcache → List ℕ → Option Bcache → Type 0
BrelseOk pid b s xs none = holding_sleep pid (s.buf b).lock ≡ false
BrelseOk pid b s xs (some s') =
    (holding_sleep pid (s.buf b).lock ≡ true)
    × Good s' (released (s.buf b).refcnt b xs)
    × ((s'.buf b).lock ≡ release_sleep (s.buf b).lock)
    × (((s'.buf b).refcnt + 1) % 2 ^ 32 ≡ (s.buf b).refcnt % 2 ^ 32)
    × ((s'.buf b).refcnt < 2 ^ 32)
    × (s'.buf b ≡ record (s.buf b) { lock = (s'.buf b).lock; refcnt = (s'.buf b).refcnt })
    × ((i : ℕ) → i ≢ b → s'.buf i ≡ s.buf i)

module _ {s : Bcache} {xs : List ℕ} (g : Good s xs) where
  to_front-Good : (b : ℕ) → b < nbuf → Good (push_front b (unlink b s)) (b ∷ erase b xs)
  unfolding push_front unlink
  to_front-Good b lt =
      let there : has b xs ≡ true = ground (arith, g.all_there b, lt) in
      let gone : has b (erase b xs) ≡ false =
        ground (arith, has-erase_other b b xs g.listed.once) in
      record {
        listed =
            push_front-Listed b (unlink b s) (erase b xs) gone (λ e. omega (arith, lt, e))
              (unlink-Listed b s xs there g.listed);
        all_there = λ i. ground (arith, has-erase_other b i xs g.listed.once, g.all_there i, lt);
        size = omega (arith, length-erase b xs there, g.size);
        one_copy = g.one_copy;
      }

last_ref : (n : ℕ) → ((n + 2 ^ 32 - 1) % 2 ^ 32 == 0) ≡ (n % 2 ^ 32 == 1)
last_ref n = ground arith

released_buf :
    (s : Bcache) (b : ℕ) (y : Buf) (i : ℕ)
    → (if y.refcnt == 0 then push_front b (unlink b (set_buf s b y)) else set_buf s b y).buf i
      ≡ (set_buf s b y).buf i
unfolding push_front unlink
released_buf s b y i = ground arith

module _ {s : Bcache} {xs : List ℕ} (g : Good s xs) where
  released-Good :
      (b : ℕ) (y : Buf)
      → b < nbuf
      → y.dev ≡ (s.buf b).dev
      → y.blockno ≡ (s.buf b).blockno
      → Good
          (if y.refcnt == 0 then push_front b (unlink b (set_buf s b y)) else set_buf s b y)
          (if y.refcnt == 0 then b ∷ erase b xs else xs)
  released-Good b y lt same_dev same_block = elim (Bool-cases (y.refcnt == 0)) [
    | inl e ↦ rw (e) (to_front-Good (set_buf-Good g b y same_dev same_block) b lt)
    | inr e ↦ rw (e) (set_buf-Good g b y same_dev same_block)
  ]

  -- On a well-formed cache, `brelse` panics exactly if the caller does not hold the buffer. Else the lock
  -- is released and the count of references, a uint, is one less, the rest of the buffer and the other
  -- buffers are as before, the buffer moves to the front of the list if that was the last reference and
  -- the list stays as it is otherwise, and the cache stays well formed.
  pub brelse-BrelseOk : (pid b : ℕ) → b < nbuf → BrelseOk pid b s xs (brelse pid b s)
  unfolding brelse
  brelse-BrelseOk pid b lt =
      let y = drop_ref (record (s.buf b) { lock = release_sleep (s.buf b).lock }) in
      let brelsed : Buf → Bcache =
        λ z. (if z.refcnt == 0 then push_front b (unlink b (set_buf s b z)) else set_buf s b z) in
      let now = released_buf s b y b ∙ update_self s.buf b y in
      elim (Bool-cases (holding_sleep pid (s.buf b).lock)) [
        | inl e ↦ rw (e) (
          e,
          subst (λ c. Good (brelsed y) (if c then b ∷ erase b xs else xs))
              (last_ref (s.buf b).refcnt) (released-Good b y lt refl refl),
          ap (λ x. x.lock) now,
          subst (λ n. (n + 1) % 2 ^ 32 ≡ (s.buf b).refcnt % 2 ^ 32) (sym (ap (λ x. x.refcnt) now))
              (omega arith),
          subst (λ n. n < 2 ^ 32) (sym (ap (λ x. x.refcnt) now)) (omega arith),
          subst (λ x. x ≡ record (s.buf b) { lock = x.lock; refcnt = x.refcnt }) (sym now) refl,
          λ i ne. released_buf s b y i ∙ ground (arith, ne),
        )
        | inr e ↦ rw (e) e
      ]

-- `bread` of a block that was written to the disk gets what the buffer held when `bwrite` wrote it,
-- whichever buffer it reads into.
bread-bwrite :
    (pid b c : ℕ) (s s' : Bcache)
    → bwrite pid b s ≡ some s'
    → (s'.buf c).valid ≡ false
    → (s'.buf c).dev ≡ (s.buf b).dev
    → (s'.buf c).blockno ≡ (s.buf b).blockno
    → ((fill_buf c s').buf c).contents ≡ (s.buf b).contents
unfolding bwrite fill_buf
bread-bwrite pid b c s s' w invalid same_dev same_block =
    ground (arith, w, invalid, same_dev, same_block)
