-- ===== src/Fb/Pages.antt =====
-- The page loops of fbhandlers.c: `rpusbdisp_fb_mmap`, `rvmalloc` and `rvfree`. An `unsigned long` has
-- 64 bits and its subtraction wraps around. A loop runs on fuel; `stuck` is the model's: none is left.
-- The state of a loop is the list of the page addresses that it has handled, the last one first; for
-- `rpusbdisp_fb_mmap` each stands behind the address that the page is mapped to.
pub mod Loops
use rpusbdisp.Common.{
  ℕ, zero, suc, ◌+◌, ◌-◌, ◌*◌, ◌/◌, ◌%◌, ◌^◌, Bool, true, false, not, List, [], ◌∷◌, Option, none,
  some, ltb, leb, ◌==◌, if◌then◌else◌,
}
use rpusbdisp.Common.Res.{Res, ok, abort, bug, stuck}

abbrev pub page_size : ℕ
page_size = 4096

-- `size -= PAGE_SIZE`
unfoldable pub less_page : ℕ → ℕ
less_page size = (size + 2 ^ 64 - page_size) % 2 ^ 64

-- `vma->vm_start += PAGE_SIZE` and `virt += PAGE_SIZE`
abbrev pub next_page : ℕ → ℕ
next_page adr = (adr + page_size) % 2 ^ 64

-- `while (size > 0)` of `rpusbdisp_fb_mmap`. `remap_pfn_range` answers for the two addresses whether it
-- succeeds (0); on an error the C function returns it.
unfoldable pub mmap_rounds :
    (ℕ → ℕ → Bool) → ℕ → ℕ → ℕ → ℕ → List (ℕ × ℕ) → Res (List (ℕ × ℕ)) (Unit {0})
mmap_rounds remap_pfn_range zero vm_start virt size mapped =
    if size == 0 then ok tt mapped else stuck
mmap_rounds remap_pfn_range (suc fuel) vm_start virt size mapped =
    let rest =
      mmap_rounds remap_pfn_range fuel (next_page vm_start) (next_page virt) (less_page size)
        ((vm_start, virt) ∷ mapped) in
    if size == 0
    then ok tt mapped
    else if not (remap_pfn_range vm_start virt)
    then abort mapped
    else rest

-- `rpusbdisp_fb_mmap`: `abort` is -EINVAL or the error of `remap_pfn_range`.
unfoldable pub rpusbdisp_fb_mmap :
    (ℕ → ℕ → Bool) → ℕ → ℕ → ℕ → ℕ → ℕ → Res (List (ℕ × ℕ)) (Unit {0})
rpusbdisp_fb_mmap remap_pfn_range fuel vm_start screen_base smem_len vm_pgoff =
    let offset = vm_pgoff * page_size % 2 ^ 64 in
    if leb smem_len offset
    then abort []
    else mmap_rounds remap_pfn_range fuel vm_start ((screen_base + offset) % 2 ^ 64)
        (smem_len - offset) []

-- `PAGE_ALIGN`
abbrev pub page_align : ℕ → ℕ
page_align size = (size + page_size - 1) % 2 ^ 64 / page_size * page_size

-- `while (size > 0)` of `rvmalloc`.
unfoldable pub reserve_rounds : ℕ → ℕ → ℕ → List ℕ → Option (List ℕ)
reserve_rounds zero adr size reserved = if size == 0 then some reserved else none
reserve_rounds (suc fuel) adr size reserved =
    let rest = reserve_rounds fuel (adr + page_size) (less_page size) (adr ∷ reserved) in
    if size == 0 then some reserved else rest

-- `rvmalloc`, for the address that `vmalloc` returns: the pages it reserves.
unfoldable pub rvmalloc : ℕ → ℕ → ℕ → Option (List ℕ)
rvmalloc fuel mem size = reserve_rounds fuel mem (page_align size) []

-- `(long) size > 0`
abbrev pub positive_long : ℕ → Bool
positive_long size = if size == 0 then false else ltb size (2 ^ 63)

-- `while ((long) size > 0)` of `rvfree`.
unfoldable pub clear_rounds : ℕ → ℕ → ℕ → List ℕ → Option (List ℕ)
clear_rounds zero adr size cleared = if positive_long size then none else some cleared
clear_rounds (suc fuel) adr size cleared =
    let rest = clear_rounds fuel (adr + page_size) (less_page size) (adr ∷ cleared) in
    if positive_long size then rest else some cleared

-- `rvfree`, of a memory that is not NULL.
unfoldable pub rvfree : ℕ → ℕ → ℕ → Option (List ℕ)
rvfree fuel mem size = clear_rounds fuel mem size []
