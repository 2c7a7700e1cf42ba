-- ===== src/Usb/Pool/Fresh.antt =====
-- The pool that `_on_alloc_disp_tickets_pool` of usbhandlers.c sets up satisfies the pool's invariant.
use rpusbdisp.Common.{
  ℕ, zero, suc, ◌+◌, ◌≤◌, ◌≡◌, refl, List, [], ◌∷◌, ◌++◌, count, count-append, arith, ap,
}
use rpusbdisp.Protocol.{max_transfer_tickets_count}
use rpusbdisp.Usb.Device.{Device}
use rpusbdisp.Usb.Tickets.{
  Alloc, allocated, no_memory, no_urb, no_coherent, alloc_rounds, on_alloc_disp_tickets_pool,
}
use rpusbdisp.Usb.Tickets.Allocation.{alloc_pool-IsAllocated}
use rpusbdisp.Usb.Pool.Held.{IsPool}

-- Tickets below `n`, each at most once.
record Numbered (n : ℕ) (list : List ℕ) : Type 0 where
  pub once : (t : ℕ) → count t list ≤ 1
  pub below : (t : ℕ) → n ≤ t → count t list ≡ 0

one_more : (n : ℕ) (list : List ℕ) → Numbered n list → Numbered (n + 1) (list ++ n ∷ [])
one_more n list h = record {
  once = λ t. ground (arith, count-append t list (n ∷ []), h.once t, h.below t);
  below = λ t l. ground (arith, count-append t list (n ∷ []), h.below t (omega arith));
}

round_once :
    (a : Alloc) (memory : ℕ → Alloc) (left n : ℕ) (list : List ℕ)
    → Numbered n list
    → (t : ℕ) → memory n ≡ a
    → count t (alloc_rounds memory left (n + 1) (list ++ n ∷ [])).0 ≤ 1
    → count t (alloc_rounds memory (suc left) n list).0 ≤ 1
unfolding alloc_rounds
round_once allocated memory left n list h t e next = rw (alloc_rounds, e) next
round_once no_memory memory left n list h t e next = rw (alloc_rounds, e) (h.once t)
round_once no_urb memory left n list h t e next = rw (alloc_rounds, e) (h.once t)
round_once no_coherent memory left n list h t e next = rw (alloc_rounds, e) (h.once t)

rounds_once :
    (memory : ℕ → Alloc) (left n : ℕ) (list : List ℕ)
    → Numbered n list
    → (t : ℕ) → count t (alloc_rounds memory left n list).0 ≤ 1
unfolding alloc_rounds
rounds_once memory zero n list h t = h.once t
rounds_once memory (suc left) n list h t =
    round_once (memory n) memory left n list h t refl
      (rounds_once memory left (n + 1) (list ++ n ∷ []) (one_more n list h) t)

-- With pages of 4096 bytes, a packet size that is not 0 and no transfer under way: whatever
-- allocations fail, the pool's invariant holds after the allocation.
pub alloc-IsPool :
    (memory : ℕ → Alloc) (d : Device)
    → 1 ≤ d.disp_out_ep_max_size
    → d.in_flight ≡ []
    → IsPool (on_alloc_disp_tickets_pool 4096 memory d).0
unfolding on_alloc_disp_tickets_pool
alloc-IsPool memory d h e =
    let a = alloc_pool-IsAllocated memory d h in
    record {
      counted = a.counted;
      once = λ t. omega (
        arith,
        ap (count t) e,
        rounds_once memory max_transfer_tickets_count 0 []
            (record { once = λ u. omega arith; below = λ u l. omega arith }) t,
      );
      pool_size = a.full_size;
      bundle_size = tt;
    }
