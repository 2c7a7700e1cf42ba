-- ===== src/Fb/Pages/Loops.antt =====
-- When the page loops of fbhandlers.c end, and which pages they handle.
use rpusbdisp.Common.{
  ℕ, zero, suc, ◌+◌, ◌-◌, ◌*◌, ◌/◌, ◌%◌, ◌^◌, ◌≤◌, ◌<◌, ◌≡◌, refl, ◌∙◌, ◌≢◌, Bool, true, false,
  List, [], ◌∷◌, some, leb, arith, ne→==, eq→==,
}
use rpusbdisp.Common.Res.{abort, stuck}
use rpusbdisp.Fb.Pages.{
  page_size, next_page, less_page, mmap_rounds, rpusbdisp_fb_mmap, page_align, reserve_rounds,
  rvmalloc, positive_long, clear_rounds, rvfree,
}

-- The addresses of `n` pages from `adr` on, before those of a list.
abbrev pub pages : ℕ → ℕ → List ℕ → List ℕ
pages adr zero l = l
pages adr (suc n) l = pages (adr + page_size) n (adr ∷ l)

less_page_lem : (size : ℕ) → 4096 ≤ size → size < 2 ^ 64 → less_page size ≡ size - 4096
unfolding less_page
less_page_lem size h b = omega arith

less_page_short : (size : ℕ) → 1 ≤ size → size ≤ 4096 → positive_long (less_page size) ≡ false
unfolding less_page
less_page_short size h b = ground arith

less_page_mod : (size : ℕ) → less_page size % 4096 ≡ size % 4096
unfolding less_page
less_page_mod size = omega arith

reserve_lem :
    (n fuel adr size : ℕ) (l : List ℕ)
    → n ≤ fuel
    → size ≡ n * 4096
    → size < 2 ^ 64
    → reserve_rounds fuel adr size l ≡ some (pages adr n l)
unfolding reserve_rounds
reserve_lem zero zero adr size l h e b = rw (eq→== size 0 e)
reserve_lem zero (suc fuel) adr size l h e b = rw (eq→== size 0 e)
reserve_lem (suc n) zero adr size l h e b = absurd (omega arith)
reserve_lem (suc n) (suc fuel) adr size l h e b = rw (ne→== size 0 (omega arith)) (
    reserve_lem n fuel (adr + page_size) (less_page size) (adr ∷ l) (omega arith)
      (omega (arith, less_page_lem size (omega arith) b))
      (omega (arith, less_page_lem size (omega arith) b)))

-- `rvfree` has `n` pages to go.
abbrev IsLeft : ℕ → ℕ → Type 0
IsLeft zero size = positive_long size ≡ false
IsLeft (suc n) size = (n * 4096 < size) × (size ≤ suc n * 4096)

IsLeft-next : (n size : ℕ) → IsLeft (suc n) size → size < 2 ^ 63 → IsLeft n (less_page size)
IsLeft-next zero size h b = less_page_short size (omega (arith, h.0)) (omega (arith, h.1))
IsLeft-next (suc n) size h b = (
  omega (arith, h.0, less_page_lem size (omega (arith, h.0)) (omega arith)),
  omega (arith, h.0, h.1, less_page_lem size (omega (arith, h.0)) (omega arith)),
)

left_positive : (n size : ℕ) → IsLeft (suc n) size → size < 2 ^ 63 → positive_long size ≡ true
left_positive n size h b = ground (arith, h.0)

left_stops :
    (fuel adr size : ℕ) (l : List ℕ)
    → positive_long size ≡ false
    → clear_rounds fuel adr size l ≡ some l
unfolding clear_rounds
left_stops zero adr size l h = rw h
left_stops (suc fuel) adr size l h = rw h

clear_lem :
    (n fuel adr size : ℕ) (l : List ℕ)
    → n ≤ fuel
    → IsLeft (suc n) size
    → size < 2 ^ 63
    → clear_rounds (suc fuel) adr size l ≡ some (pages adr (suc n) l)
unfolding clear_rounds
clear_lem zero fuel adr size l h i b =
    rw (left_positive zero size i b)
      (left_stops fuel (adr + page_size) (less_page size) (adr ∷ l) (IsLeft-next zero size i b))
clear_lem (suc n) zero adr size l h i b = absurd (omega arith)
clear_lem (suc n) (suc fuel) adr size l h i b = rw (left_positive (suc n) size i b) (
    clear_lem n fuel (adr + page_size) (less_page size) (adr ∷ l) (omega arith)
      (IsLeft-next (suc n) size i b)
      (omega (arith, less_page_lem size (omega (arith, i.0)) (omega arith))))

-- For a memory of at least one byte and less than 2^62, with a round of fuel for each page: `rvmalloc`
-- and `rvfree` both end, and the pages that `rvfree` gives back are those that `rvmalloc` reserved, each
-- page that the memory begins.
pub rvfree_clears :
    (fuel mem size : ℕ)
    → 1 ≤ size
    → size < 2 ^ 62
    → (size + 4095) / 4096 < fuel
    → (rvmalloc fuel mem size ≡ some (pages mem ((size + 4095) / 4096) []))
      × (rvfree fuel mem size ≡ some (pages mem ((size + 4095) / 4096) []))
unfolding rvmalloc rvfree
rvfree_clears zero mem size h b f = absurd (omega arith)
rvfree_clears (suc fuel) mem size h b f = (
  reserve_lem ((size + 4095) / 4096) (suc fuel) mem (page_align size) [] (omega arith) (omega arith)
      (omega arith),
  clears ((size + 4095) / 4096) refl,
)
  where
    clears :
        (n : ℕ)
        → (size + 4095) / 4096 ≡ n
        → clear_rounds (suc fuel) mem size [] ≡ some (pages mem n [])
    clears zero e = absurd (omega arith)
    clears (suc n) e =
        clear_lem n fuel mem size [] (omega arith) (omega arith, omega arith) (omega arith)

-- The mappings of `n` pages from two addresses on, before those of a list.
abbrev pub mappings : ℕ → ℕ → ℕ → List (ℕ × ℕ) → List (ℕ × ℕ)
mappings vm_start virt zero l = l
mappings vm_start virt (suc n) l =
    mappings (next_page vm_start) (next_page virt) n ((vm_start, virt) ∷ l)

module _ (remap_pfn_range : ℕ → ℕ → Bool) where
  -- `remap_pfn_range` succeeds for `n` pages, and refuses the next.
  abbrev pub RefusesAfter : ℕ → ℕ → ℕ → Type 0
  RefusesAfter zero vm_start virt = remap_pfn_range vm_start virt ≡ false
  RefusesAfter (suc n) vm_start virt =
      (remap_pfn_range vm_start virt ≡ true) × RefusesAfter n (next_page vm_start) (next_page virt)

  mmap_stops :
      (n fuel vm_start virt size : ℕ) (l : List (ℕ × ℕ))
      → n < fuel
      → size % 4096 ≢ 0
      → RefusesAfter n vm_start virt
      → mmap_rounds remap_pfn_range fuel vm_start virt size l ≡ abort (mappings vm_start virt n l)
  unfolding mmap_rounds
  mmap_stops n zero vm_start virt size l h z r = absurd (omega arith)
  mmap_stops zero (suc fuel) vm_start virt size l h z r = rw (ne→== size 0 (omega arith), r)
  mmap_stops (suc n) (suc fuel) vm_start virt size l h z r =
      rw (ne→== size 0 (omega arith), r.0)
        (mmap_stops n fuel (next_page vm_start) (next_page virt) (less_page size)
          ((vm_start, virt) ∷ l) (omega arith) (omega (arith, less_page_mod size)) r.1)

  mmap_runs_on :
      (fuel vm_start virt size : ℕ) (l : List (ℕ × ℕ))
      → ((vm_start virt : ℕ) → remap_pfn_range vm_start virt ≡ true)
      → size % 4096 ≢ 0
      → mmap_rounds remap_pfn_range fuel vm_start virt size l ≡ stuck
  unfolding mmap_rounds
  mmap_runs_on zero vm_start virt size l k h = rw (ne→== size 0 (omega arith))
  mmap_runs_on (suc fuel) vm_start virt size l k h =
      rw (ne→== size 0 (omega arith), k vm_start virt)
        (mmap_runs_on fuel (next_page vm_start) (next_page virt) (less_page size)
          ((vm_start, virt) ∷ l) k (omega (arith, less_page_mod size)))

  inside :
      (fuel vm_start screen_base smem_len vm_pgoff : ℕ)
      → smem_len < 2 ^ 64
      → vm_pgoff * 4096 < smem_len
      → rpusbdisp_fb_mmap remap_pfn_range fuel vm_start screen_base smem_len vm_pgoff
        ≡ mmap_rounds remap_pfn_range fuel vm_start
            ((screen_base + vm_pgoff * 4096) % 2 ^ 64)
            (smem_len - vm_pgoff * 4096)
            []
  unfolding rpusbdisp_fb_mmap
  inside fuel vm_start screen_base smem_len vm_pgoff b o =
      let e : vm_pgoff * 4096 % 2 ^ 64 ≡ vm_pgoff * 4096 = omega arith in
      let g : leb smem_len (vm_pgoff * 4096) ≡ false = ground arith in simp (e, g)

  -- For a length of the memory that is no multiple of the page size, as that of the driver, and an
  -- offset inside the memory, whatever the length and the offset: if `remap_pfn_range` succeeds for n
  -- pages and refuses the next, the call maps these n pages, in order from the offset on, and then
  -- returns the error; it needs no more than n + 1 rounds.
  pub fb_mmap_stops :
      (n fuel vm_start screen_base smem_len vm_pgoff : ℕ)
      → smem_len < 2 ^ 64
      → vm_pgoff * 4096 < smem_len
      → smem_len % 4096 ≢ 0
      → n < fuel
      → RefusesAfter n vm_start ((screen_base + vm_pgoff * 4096) % 2 ^ 64)
      → rpusbdisp_fb_mmap remap_pfn_range fuel vm_start screen_base smem_len vm_pgoff
        ≡ abort (mappings vm_start ((screen_base + vm_pgoff * 4096) % 2 ^ 64) n [])
  fb_mmap_stops n fuel vm_start screen_base smem_len vm_pgoff b o z f r =
      inside fuel vm_start screen_base smem_len vm_pgoff b o
      ∙ mmap_stops n fuel vm_start ((screen_base + vm_pgoff * 4096) % 2 ^ 64)
          (smem_len - vm_pgoff * 4096) [] f (omega arith) r

  -- If `remap_pfn_range` always succeeds and the length of the memory is no multiple of the page size,
  -- a call for an offset inside the memory does not return, whatever the fuel.
  pub fb_mmap_runs_on :
      (fuel vm_start screen_base smem_len vm_pgoff : ℕ)
      → ((vm_start virt : ℕ) → remap_pfn_range vm_start virt ≡ true)
      → smem_len < 2 ^ 64
      → vm_pgoff * 4096 < smem_len
      → smem_len % 4096 ≢ 0
      → rpusbdisp_fb_mmap remap_pfn_range fuel vm_start screen_base smem_len vm_pgoff ≡ stuck
  fb_mmap_runs_on fuel vm_start screen_base smem_len vm_pgoff k b o z =
      inside fuel vm_start screen_base smem_len vm_pgoff b o
      ∙ mmap_runs_on fuel vm_start ((screen_base + vm_pgoff * 4096) % 2 ^ 64)
          (smem_len - vm_pgoff * 4096) [] k (omega arith)
