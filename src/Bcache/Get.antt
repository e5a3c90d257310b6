-- ===== src/Bcache/Get.antt =====
-- What `bget` returns.
use cs.Common.{ℕ, suc, ◌<◌, ◌≡◌, refl, ◌≢◌, ◌⊎◌, inl, inr, true, false, List, arith, has}
use cs.Bcache.{
  Bcache, Buf, nbuf, head, set_buf, Search, is_block, is_free, add_ref, Got, recycle,
  cached_or_recycle, bget,
}
use cs.Bcache.Seek.{first, reversed, has-reversed, FirstOf, first-FirstOf, seek-Chain, seek-back}
use cs.Bcache.Inv.{Good}

-- The buffer that `bget` found in the cache: one more reference, all else as it was.
abbrev Cached : (dev blockno : ℕ) → Bcache → ℕ → Bcache → Type 0
Cached dev blockno s b s' = (is_block s dev blockno b ≡ true) × (s'.buf b ≡ add_ref (s.buf b))

-- The buffer that `bget` recycled: no buffer has the block, and it is the one without references
-- that was used least recently. Its contents wait to be read.
abbrev Recycled : (dev blockno : ℕ) → Bcache → List ℕ → ℕ → Bcache → Type 0
Recycled dev blockno s xs b s' =
    ((i : ℕ) → i < nbuf → is_block s dev blockno i ≡ false)
    × (first (is_free s) (reversed xs) ≡ Search.found b)
    × ((s'.buf b).valid ≡ false)
    × ((s'.buf b).refcnt ≡ 1)
    × (is_block s' dev blockno b ≡ true)

-- What `bget` makes of a well-formed cache. It panics only if no buffer has the block and every
-- buffer is in use.
abbrev pub BgetOk : (dev blockno : ℕ) → Bcache → List ℕ → Got → Type 0
BgetOk dev blockno s xs (Got.got b s') =
    (b < nbuf)
    × Good s' xs
    × ((i : ℕ) → i ≢ b → s'.buf i ≡ s.buf i)
    × (Cached dev blockno s b s' ⊎ Recycled dev blockno s xs b s')
BgetOk dev blockno s xs Got.no_buffers =
    ((i : ℕ) → i < nbuf → is_block s dev blockno i ≡ false)
    × ((i : ℕ) → i < nbuf → (s.buf i).refcnt ≢ 0)
BgetOk dev blockno s xs Got.lost = ⊥

module _ {s : Bcache} {xs : List ℕ} (g : Good s xs) where
  -- A change of references alone keeps the cache well formed.
  pub set_buf-Good :
      (b : ℕ) (x : Buf)
      → x.dev ≡ (s.buf b).dev
      → x.blockno ≡ (s.buf b).blockno
      → Good (set_buf s b x) xs
  set_buf-Good b x same_dev same_block = record {
    listed = record {
      linked = g.listed.linked;
      once = g.listed.once;
      headless = g.listed.headless;
    };
    all_there = g.all_there;
    size = g.size;
    one_copy =
        λ i j hi hj ne ed eb. ground (arith, g.one_copy i j hi hj ne, same_dev, same_block, ed, eb);
  }

  in_list : (i : ℕ) → i < nbuf → has i xs ≡ true
  in_list i lt = ground (arith, g.all_there i, lt)

  from_list : (i : ℕ) → has i xs ≡ true → i < nbuf
  from_list i h = ground (arith, g.all_there i, h)

  recycle-BgetOk :
      (dev blockno : ℕ) (r : Search)
      → dev ≢ 0
      → ((i : ℕ) → i < nbuf → is_block s dev blockno i ≡ false)
      → first (is_free s) (reversed xs) ≡ r
      → FirstOf (is_free s) (reversed xs) r
      → BgetOk dev blockno s xs (recycle dev blockno s r)
  recycle-BgetOk dev blockno (Search.found b) nz none_has at (h, free) =
      let new_buf = record (s.buf b) { dev = dev; blockno = blockno; valid = false; refcnt = 1 } in
      (
        from_list b (ground (arith, has-reversed b xs, h)),
        record {
          listed = record {
            linked = g.listed.linked;
            once = g.listed.once;
            headless = g.listed.headless;
          };
          all_there = g.all_there;
          size = g.size;
          one_copy = λ i j hi hj ne ed eb.
              ground (arith, g.one_copy i j hi hj ne, none_has i hi, none_has j hj, ed, eb, nz);
        },
        λ i ne. ground (arith, ne),
        inr (none_has, at, ground arith, ground arith, ground arith),
      )
  recycle-BgetOk dev blockno Search.missing nz none_has at f = (
    none_has,
    λ i lt zero_refs.
        ground (arith, f i (ground (arith, has-reversed i xs, in_list i lt)), zero_refs),
  )
  recycle-BgetOk dev blockno Search.endless nz none_has at f = f

  cached-BgetOk :
      (dev blockno : ℕ) (r : Search)
      → dev ≢ 0
      → FirstOf (is_block s dev blockno) xs r
      → BgetOk dev blockno s xs (cached_or_recycle dev blockno s r)
  cached-BgetOk dev blockno (Search.found b) nz (h, same_block) = (
    from_list b h,
    set_buf-Good b (add_ref (s.buf b)) refl refl,
    λ i ne. ground (arith, ne),
    inl (same_block, ground arith),
  )
  cached-BgetOk dev blockno Search.missing nz f =
      rw
        (seek-back s.next s.prev (is_free s) xs (suc nbuf) g.listed.headless (omega (arith, g.size))
          g.listed.linked)
        (recycle-BgetOk dev blockno (first (is_free s) (reversed xs)) nz
          (λ i lt. f i (in_list i lt)) refl (first-FirstOf (is_free s) (reversed xs)))
  cached-BgetOk dev blockno Search.endless nz f = f

  -- `bget` of a block of a device other than 0 finds the buffer that has the block, or recycles the
  -- least recently used free one; only if there is neither it panics.
  pub bget-BgetOk : (dev blockno : ℕ) → dev ≢ 0 → BgetOk dev blockno s xs (bget dev blockno s)
  unfolding bget
  bget-BgetOk dev blockno nz =
      rw
        (seek-Chain s.next s.prev (is_block s dev blockno) xs head (suc nbuf) g.listed.headless
          (omega (arith, g.size)) g.listed.linked)
        (cached-BgetOk dev blockno (first (is_block s dev blockno) xs) nz
          (first-FirstOf (is_block s dev blockno) xs))
