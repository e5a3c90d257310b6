-- ===== src/Kalloc.antt =====
-- XV6 Scheduler/xv6-riscv/kernel/kalloc.c: the pages of physical memory. `kernel_end` is the address
-- `end` that the linker gives, the first one after the kernel. Of a page's contents the model keeps the
-- byte that it was last filled with and, for a free page, the link to the next one.
pub mod Pages
pub mod Range
mod Tests
use cs.Common.{
  ℕ, zero, suc, ◌+◌, ◌-◌, ◌*◌, ◌/◌, ◌%◌, Bool, true, false, ◌&&◌, ◌||◌, not, Option, none, some,
  ◌==◌, ltb, leb, if◌then◌else◌, update,
}

abbrev pub page_size : ℕ
page_size = 4096

abbrev pub phys_top : ℕ
phys_top = 2147483648 + 128 * 1024 * 1024

-- `PGROUNDUP`
abbrev pub page_round_up : ℕ → ℕ
page_round_up sz = (sz + page_size - 1) / page_size * page_size

-- `kmem`, with the links and the fill of the pages, by their addresses.
pub record Kmem : Type 0 where
  pub freelist : Option ℕ
  pub next : ℕ → Option ℕ
  pub fill : ℕ → ℕ

abbrev pub is_page : (kernel_end pa : ℕ) → Bool
is_page kernel_end pa = (pa % page_size == 0) && not (ltb pa kernel_end) && not (leb phys_top pa)

-- `kfree`; `none` for the panic.
pub kfree : (kernel_end pa : ℕ) → Kmem → Option Kmem
kfree kernel_end pa k =
    if not (pa % page_size == 0) || (ltb pa kernel_end || leb phys_top pa)
    then none
    else some (record {
      freelist = some pa;
      next = update k.next pa k.freelist;
      fill = update k.fill pa 1;
    })

-- `kalloc` where the list starts at the given page.
abbrev pub take_page : Option ℕ → Kmem → Option ℕ × Kmem
take_page none k = (none, k)
take_page (some r) k = (some r, record k { freelist = k.next r; fill = update k.fill r 5 })

-- `kalloc`; `none` stands for the null pointer.
pub kalloc : Kmem → Option ℕ × Kmem
kalloc k = take_page k.freelist k

-- The loop of `freerange` from page `p` on, with `fuel` rounds at most; `none` where `kfree` panics.
pub free_pages : (kernel_end fuel p pa_end : ℕ) → Kmem → Option Kmem
free_pages kernel_end zero p pa_end k = some k
free_pages kernel_end (suc fuel) p pa_end k =
    if leb (p + page_size) pa_end
    then elim (kfree kernel_end p k) [
      | none ↦ none
      | some k' ↦ free_pages kernel_end fuel (p + page_size) pa_end k'
    ]
    else some k

unfoldable pub freerange : (kernel_end pa_start pa_end : ℕ) → Kmem → Option Kmem
freerange kernel_end pa_start pa_end k =
    free_pages kernel_end (pa_end / page_size + 1) (page_round_up pa_start) pa_end k

-- `kinit`, from zeroed memory.
pub kinit : (kernel_end : ℕ) → Option Kmem
kinit kernel_end =
    freerange kernel_end kernel_end phys_top
      (record { freelist = none; next = λ _. none; fill = λ _. 0 })
