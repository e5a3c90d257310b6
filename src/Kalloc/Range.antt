-- ===== src/Kalloc/Range.antt =====
-- `freerange` and `kinit` of kalloc.c: which pages are free at the start.
use cs.Common.{
  ℕ, zero, suc, ◌+◌, ◌*◌, ◌/◌, ◌%◌, ◌<◌, ◌≤◌, ◌≡◌, refl, ◌∙◌, Bool, true, false, ◌&&◌, ◌||◌, inl,
  inr, List, [], ◌∷◌, ◌==◌, leb→le, leb, has, arith, Bool-cases, Option, some,
}
use cs.Kalloc.{Kmem, page_size, phys_top, page_round_up, kfree, free_pages, freerange, kinit}
use cs.Kalloc.Pages.{IsFree, kfree-IsFree}

-- Whether `a` is a page that lies between two addresses.
abbrev page_in : (from pa_end a : ℕ) → Bool
page_in from pa_end a = (a % page_size == 0) && leb from a && leb (a + page_size) pa_end

-- The free pages are those of a list and the pages in the range.
pub record Freed (kernel_end from pa_end : ℕ) (ps : List ℕ) (r : Option Kmem) : Type 0 where
  pub result : Kmem
  pub ends : r ≡ some result
  pub qs : List ℕ
  pub free : IsFree kernel_end result qs
  pub which : (a : ℕ) → has a qs ≡ (has a ps || page_in from pa_end a)

fresh : (p : ℕ) (ps : List ℕ) → ((a : ℕ) → has a ps ≡ true → a < p) → has p ps ≡ false
fresh p ps below = elim (Bool-cases (has p ps)) [
  | inl h ↦ absurd (omega (arith, below p h))
  | inr h ↦ h
]

still :
    (p : ℕ) (ps : List ℕ)
    → ((a : ℕ) → has a ps ≡ true → a < p)
    → (a : ℕ) → has a (p ∷ ps) ≡ true
    → a < p + page_size
still p ps below a h = elim (Bool-cases (has a ps)) [
  | inl old ↦ omega (arith, below a old)
  | inr new ↦ ground (arith, h, new)
]

-- The page at the start of a range, and the range behind it.
one_more_page :
    (kernel_end p pa_end : ℕ) (ps : List ℕ) (a : ℕ)
    → p % page_size ≡ 0
    → p + page_size ≤ pa_end
    → (has a (p ∷ ps) || page_in (p + page_size) pa_end a) ≡ (has a ps || page_in p pa_end a)
one_more_page kernel_end p pa_end ps a al room = ground arith

free_pages-Freed :
    (kernel_end fuel p pa_end : ℕ) (k : Kmem) (ps : List ℕ)
    → p % page_size ≡ 0
    → kernel_end ≤ p
    → pa_end ≤ phys_top
    → pa_end < p + fuel * page_size
    → ((a : ℕ) → has a ps ≡ true → a < p)
    → IsFree kernel_end k ps
    → Freed kernel_end p pa_end ps (free_pages kernel_end fuel p pa_end k)
unfolding free_pages
free_pages-Freed kernel_end zero p pa_end k ps al ke pe enough below v = record {
  result = k;
  ends = refl;
  qs = ps;
  free = v;
  which = λ a. ground (arith, enough);
}
free_pages-Freed kernel_end (suc fuel) p pa_end k ps al ke pe enough below v =
    elim (Bool-cases (leb (p + page_size) pa_end)) [
      | inl room ↦
          let step : (k' : Kmem) × (kfree kernel_end p k ≡ some k')
              × IsFree kernel_end k' (p ∷ ps) =
            kfree-IsFree p v (ground (arith, al, ke, pe, room)) (fresh p ps below) in
          let (k', e, v') = step in
          let f : Freed kernel_end (p + page_size) pa_end (p ∷ ps)
              (free_pages kernel_end fuel (p + page_size) pa_end k') =
            free_pages-Freed kernel_end fuel (p + page_size) pa_end k' (p ∷ ps) (omega (arith, al))
              (omega (arith, ke)) pe (omega (arith, enough)) (still p ps below) v' in
          rw (room, e)
            (record {
              result = f.result;
              ends = f.ends;
              qs = f.qs;
              free = f.free;
              which = λ a. f.which a ∙ one_more_page kernel_end p pa_end ps a al (leb→le _ _ room);
            })
      | inr full ↦
          rw (full) (record {
            result = k;
            ends = refl;
            qs = ps;
            free = v;
            which = λ a. ground (arith, full);
          })
    ]

-- `freerange` frees exactly the pages that lie whole in the range, if it lies in memory behind the
-- kernel, and never panics there.
freerange-Freed :
    (kernel_end pa_start pa_end : ℕ) (k : Kmem)
    → kernel_end ≤ pa_start
    → pa_end ≤ phys_top
    → IsFree kernel_end k []
    → Freed kernel_end (page_round_up pa_start) pa_end [] (freerange kernel_end pa_start pa_end k)
unfolding freerange
freerange-Freed kernel_end pa_start pa_end k ke pe v =
    free_pages-Freed kernel_end (pa_end / page_size + 1) (page_round_up pa_start) pa_end k []
      (omega arith) (omega (arith, ke)) pe (omega arith) (λ a h. absurd (ground (arith, h))) v

-- `kinit` succeeds, and then exactly the pages between the kernel and the end of memory are free.
kinit-Freed :
    (kernel_end : ℕ) → Freed kernel_end (page_round_up kernel_end) phys_top [] (kinit kernel_end)
unfolding kinit
kinit-Freed kernel_end =
    freerange-Freed kernel_end kernel_end phys_top _ (omega arith) (omega arith)
      (record { chain = refl; distinct = tt; pages = tt })
