-- ===== src/Kalloc/Tests.antt =====
-- The theorems about kalloc.c on a concrete memory.
use cs.Common.{refl, [], ◌∷◌, none, some}
use cs.Kalloc.{Kmem, kalloc}
use cs.Kalloc.Pages.{IsFree, AllocOk, kalloc-AllocOk}

-- One free page, behind a kernel that ends at 0x80021000.
abbrev one_page : Kmem
one_page = record { freelist = some 2147618816; next = λ _. none; fill = λ _. 1 }

one-IsFree : IsFree 2147618816 one_page (2147618816 ∷ [])
one-IsFree = record { chain = (refl, refl); distinct = (refl, tt); pages = (refl, tt) }

kalloc-AllocOk_example : AllocOk 2147618816 (2147618816 ∷ []) (kalloc one_page)
kalloc-AllocOk_example = kalloc-AllocOk (2147618816 ∷ []) one-IsFree
