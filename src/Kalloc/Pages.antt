-- ===== src/Kalloc/Pages.antt =====
-- The free list of kalloc.c as a list of pages, without repetition.
use cs.Common.{
  ℕ, ◌≡◌, refl, sym, subst, true, false, List, [], ◌∷◌, ◌==◌, has, All, Distinct, update,
  update_self, ==_refl, arith, Option, none, some,
}
use cs.Kalloc.{Kmem, is_page, kfree, kalloc, take_page}

-- From `at` on, the links lead through the pages of the list.
abbrev Chain : (ℕ → Option ℕ) → Option ℕ → List ℕ → Type 0
Chain next at [] = at ≡ none
Chain next at (p ∷ ps) = (at ≡ some p) × Chain next (next p) ps

-- The free pages are those of the list, which holds no page twice and nothing but pages.
pub record IsFree (kernel_end : ℕ) (k : Kmem) (ps : List ℕ) : Type 0 where
  pub chain : Chain k.next k.freelist ps
  pub distinct : Distinct ps
  pub pages : All (λ p. is_page kernel_end p ≡ true) ps

Chain-update :
    (next : ℕ → Option ℕ) (at : Option ℕ) (ps : List ℕ) (pa : ℕ) (v : Option ℕ)
    → has pa ps ≡ false
    → Chain next at ps
    → Chain (update next pa v) at ps
Chain-update next at [] pa v h c = c
Chain-update next at (p ∷ ps) pa v h c = (
  c.0,
  (let other : (pa == p) ≡ false = ground (arith, h) in
      rw (other) (Chain-update next (next p) ps pa v (ground (arith, h)) c.1)),
)

-- `kfree` of a page that is not free succeeds and puts it in front of the free ones.
pub kfree-IsFree :
    {kernel_end : ℕ} {k : Kmem} {ps : List ℕ} (pa : ℕ)
    → IsFree kernel_end k ps
    → is_page kernel_end pa ≡ true
    → has pa ps ≡ false
    → (k' : Kmem) × (kfree kernel_end pa k ≡ some k') × IsFree kernel_end k' (pa ∷ ps)
unfolding kfree
kfree-IsFree {kernel_end} {k} {ps} pa v page new = (
  record { freelist = some pa; next = update k.next pa k.freelist; fill = update k.fill pa 1 },
  ground (arith, page),
  record {
    chain = (refl, rw (==_refl pa) (Chain-update k.next k.freelist ps pa k.freelist new v.chain));
    distinct = (new, v.distinct);
    pages = (page, v.pages);
  },
)

-- `kfree` of anything else panics.
kfree-panics :
    (kernel_end pa : ℕ) (k : Kmem) → is_page kernel_end pa ≡ false → kfree kernel_end pa k ≡ none
unfolding kfree
kfree-panics kernel_end pa k bad = ground (arith, bad)

abbrev pub AllocOk : (kernel_end : ℕ) → List ℕ → Option ℕ × Kmem → Type 0
AllocOk kernel_end [] r = (r.0 ≡ none) × IsFree kernel_end r.1 []
AllocOk kernel_end (p ∷ ps) r =
    (r.0 ≡ some p) × (r.1.fill p ≡ 5) × IsFree kernel_end r.1 ps × (has p ps ≡ false)

-- `kalloc` gives out the page that was freed last, filled with 5, and it is no longer free; it fails
-- exactly if no page is free.
pub kalloc-AllocOk :
    {kernel_end : ℕ} {k : Kmem} (ps : List ℕ)
    → IsFree kernel_end k ps
    → AllocOk kernel_end ps (kalloc k)
unfolding kalloc
kalloc-AllocOk {kernel_end} {k} [] v =
    subst (λ o. AllocOk kernel_end [] (take_page o k)) (sym v.chain) (refl, v)
kalloc-AllocOk {kernel_end} {k} (p ∷ ps) v =
    subst (λ o. AllocOk kernel_end (p ∷ ps) (take_page o k)) (sym v.chain.0)
      (
        refl,
        update_self k.fill p 5,
        record { chain = v.chain.1; distinct = v.distinct.1; pages = v.pages.1 },
        v.distinct.0,
      )
