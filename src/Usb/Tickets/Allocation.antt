-- ===== src/Usb/Tickets/Allocation.antt =====
-- The pool that `_on_alloc_disp_tickets_pool` of usbhandlers.c sets up.
use rpusbdisp.Common.{
  ℕ, zero, suc, ◌+◌, ◌*◌, ◌≤◌, ◌≡◌, refl, Bool, not, List, [], ◌∷◌, ◌++◌, length, length-append,
  arith, All, ◌==◌,
}
use rpusbdisp.Common.Memory.{update}
use rpusbdisp.Protocol.{max_transfer_tickets_count}
use rpusbdisp.Usb.Device.{Device}
use rpusbdisp.Usb.Tickets.{
  Alloc, allocated, no_memory, no_urb, no_coherent, alloc_rounds, fill_lengths,
  on_alloc_disp_tickets_pool,
}

-- As many tickets as the loop counts, and at most as many as it may add.
abbrev IsFilled : List ℕ × ℕ → ℕ → Type 0
IsFilled r most = (r.1 ≡ length r.0) × (r.1 ≤ most)

round_IsFilled :
    (a : Alloc) (memory : ℕ → Alloc) (left n : ℕ) (list : List ℕ)
    → memory n ≡ a
    → n ≡ length list
    → IsFilled (alloc_rounds memory left (n + 1) (list ++ n ∷ [])) (n + 1 + left)
    → IsFilled (alloc_rounds memory (suc left) n list) (n + suc left)
unfolding alloc_rounds
round_IsFilled allocated memory left n list e h next =
    rw (alloc_rounds, e) (next.0, omega (arith, next.1))
round_IsFilled no_memory memory left n list e h next = rw (alloc_rounds, e) (h, omega arith)
round_IsFilled no_urb memory left n list e h next = rw (alloc_rounds, e) (h, omega arith)
round_IsFilled no_coherent memory left n list e h next = rw (alloc_rounds, e) (h, omega arith)

rounds_IsFilled :
    (memory : ℕ → Alloc) (left n : ℕ) (list : List ℕ)
    → n ≡ length list
    → IsFilled (alloc_rounds memory left n list) (n + left)
unfolding alloc_rounds
rounds_IsFilled memory zero n list h = (h, omega arith)
rounds_IsFilled memory (suc left) n list h = round_IsFilled (memory n) memory left n list refl h (
    rounds_IsFilled memory left (n + 1) (list ++ n ∷ [])
      (omega (arith, length-append list (n ∷ []))))

fill_keeps :
    (size : ℕ) (ts : List ℕ) (m : ℕ → ℕ) (t : ℕ) → m t ≡ size → fill_lengths size ts m t ≡ size
fill_keeps size [] m t h = h
fill_keeps size (u ∷ ts) m t h = fill_keeps size ts (update m u size) t (ground arith)

fill-All : (size : ℕ) (ts : List ℕ) (m : ℕ → ℕ) → All (λ t. fill_lengths size ts m t ≡ size) ts
fill-All size [] m = tt
fill-All size (t ∷ ts) m =
    (fill_keeps size ts (update m t size) t (ground arith), fill-All size ts (update m t size))

-- What the allocation leaves, when it succeeds or not: the count is the number of tickets, at most ten;
-- each URB has the length of all its packets; and the result is 0 exactly if there is a ticket.
pub record IsAllocated (d : Device) (success : Bool) : Type 0 where
  pub counted : d.availiable_count ≡ length d.tickets
  pub all_in : d.disp_urb_count ≡ d.availiable_count
  pub most : d.availiable_count ≤ max_transfer_tickets_count
  pub full_size :
      All
        (λ t. d.transfer_buffer_length t ≡ d.packet_size_factor * d.disp_out_ep_max_size)
        d.tickets
  pub in_buffer : d.packet_size_factor * d.disp_out_ep_max_size ≤ 65024
  pub answer : success ≡ not (d.availiable_count == 0)

-- With pages of 4096 bytes and a packet size that is not 0, whatever allocations fail: the pool's count
-- is the number of its tickets, at most ten, and none is missing; each URB has the length of its
-- packets, which is no more than its buffer; and the function succeeds exactly if there is a ticket.
pub alloc_pool-IsAllocated :
    (memory : ℕ → Alloc) (d : Device)
    → 1 ≤ d.disp_out_ep_max_size
    → let r = on_alloc_disp_tickets_pool 4096 memory d in IsAllocated r.0 r.1
unfolding on_alloc_disp_tickets_pool
alloc_pool-IsAllocated memory d h =
    let r = rounds_IsFilled memory max_transfer_tickets_count 0 [] refl in
    record {
      counted = r.0;
      all_in = refl;
      most = r.1;
      full_size = fill-All _ _ d.transfer_buffer_length;
      in_buffer = grind arith;
      answer = refl;
    }
