-- ===== src/Usb/Tickets.antt =====
-- The ticket pool of usbhandlers.c: `_sell_disp_tickets`, `_return_disp_tickets`,
-- `_on_display_transfer_finished`, `_on_alloc_disp_tickets_pool` and `_on_release_disp_tickets_pool`.
-- Each runs under the pool's lock and is one step. `availiable_count` is an `int` that the code
-- lowers only after a test, so a natural number stands for it.
pub mod Ownership
pub mod Release
pub mod Allocation
use rpusbdisp.Common.{
  ℕ, zero, suc, ◌+◌, ◌-◌, ◌*◌, ◌/◌, Bool, true, false, not, ◌&&◌, List, [], ◌∷◌, ◌++◌, Option, none,
  some, take, drop, ltb, ◌==◌, if◌then◌else◌,
}
use rpusbdisp.Common.Int.{ℤ, pos}
use rpusbdisp.Common.Memory.{update}
use rpusbdisp.Protocol.{max_transfer_size, max_transfer_tickets_count}
use rpusbdisp.Usb.Device.{Device, fbhandler_set_unsync_flag}

-- `_sell_disp_tickets`: the bundle's tickets, or none where the C function returns 0. The loop moves
-- the first `required_count` nodes of the pool's list to the bundle's, in order.
unfoldable pub sell_disp_tickets : Device → ℕ → Device × Option (List ℕ)
sell_disp_tickets d required_count =
    if not d.is_alive
    then (d, none)
    else if required_count == 0
    then (d, none)
    else if ltb d.availiable_count required_count
    then (d, none)
    else (
      record d {
        availiable_count = d.availiable_count - required_count;
        tickets = drop required_count d.tickets;
      },
      some (take required_count d.tickets),
    )

-- `_return_disp_tickets`: the device, and whether all tickets are back.
unfoldable pub return_disp_tickets : Device → ℕ → Device × Bool
return_disp_tickets d ticket = (
  record d { tickets = d.tickets ++ ticket ∷ []; availiable_count = d.availiable_count + 1 },
  d.availiable_count + 1 == d.disp_urb_count,
)

abbrev pub reset_length : Device → ℕ → Device
reset_length d ticket = record d {
  transfer_buffer_length =
      update d.transfer_buffer_length ticket (d.packet_size_factor * d.disp_out_ep_max_size);
}

-- `_on_display_transfer_finished`, for the URB of a ticket.
unfoldable pub on_display_transfer_finished : Device → ℕ → Device
on_display_transfer_finished d ticket =
    let status = d.urb_status ticket in
    let d₁ = if not (status == 0) && d.is_alive then fbhandler_set_unsync_flag d else d in
    let (d₂, all_finished) = return_disp_tickets (reset_length d₁ ticket) ticket in
    if all_finished && status == 0 then record d₂ { completion_work = true } else d₂

-- The completion of a URB that is in flight: the host sets its status and calls the handler.
unfoldable pub complete : Device → ℕ → List ℕ → ℕ → Device
complete d ticket others status =
    on_display_transfer_finished
      (record d { in_flight = others; urb_status = update d.urb_status ticket status }) ticket

-- What the three allocations of one round of `_on_alloc_disp_tickets_pool` return: the round's
-- ticket, or the call that fails.
pub data Alloc : Type 0 where
  allocated no_memory no_urb no_coherent : Alloc

-- The loop of `_on_alloc_disp_tickets_pool`: `left` rounds to go, `n` tickets allocated. A round that
-- fails frees what it has and ends the loop.
unfoldable pub alloc_rounds : (ℕ → Alloc) → ℕ → ℕ → List ℕ → List ℕ × ℕ
alloc_rounds memory zero n list = (list, n)
alloc_rounds memory (suc left) n list = elim (memory n) [
  | allocated ↦ alloc_rounds memory left (n + 1) (list ++ n ∷ [])
  | _ ↦ (list, n)
]

abbrev pub fill_lengths : ℕ → List ℕ → (ℕ → ℕ) → ℕ → ℕ
fill_lengths size [] m = m
fill_lengths size (t ∷ ts) m = fill_lengths size ts (update m t size)

-- `_on_alloc_disp_tickets_pool`: the device, and whether a ticket was allocated (0 or -ENOMEM).
unfoldable pub on_alloc_disp_tickets_pool : ℕ → (ℕ → Alloc) → Device → Device × Bool
on_alloc_disp_tickets_pool page_size memory d =
    let packet_size_factor = max_transfer_size page_size / d.disp_out_ep_max_size in
    let ticket_logic_size = packet_size_factor * d.disp_out_ep_max_size in
    let (list, actual_allocated) = alloc_rounds memory max_transfer_tickets_count 0 [] in
    (
      record d {
        tickets = list;
        disp_urb_count = actual_allocated;
        availiable_count = actual_allocated;
        packet_size_factor = packet_size_factor;
        completion_work = false;
        transfer_buffer_length = fill_lengths ticket_logic_size list d.transfer_buffer_length;
      },
      not (actual_allocated == 0),
    )

-- What happens while `_on_release_disp_tickets_pool` sleeps: the transfer of a ticket completes with
-- a status, or the two seconds pass.
pub data Wakeup : Type 0 where
  completes : ℕ → ℕ → Wakeup
  times_out : Wakeup

abbrev pub remove : ℕ → List ℕ → List ℕ
remove t [] = []
remove t (x ∷ xs) = if t == x then xs else x ∷ remove t xs

unfoldable pub wake : Wakeup → Device → Device
wake (completes t status) d = complete d t (remove t d.in_flight) status
wake times_out d = d

-- `list_del_init(list.next)` and the `kfree` of that ticket.
abbrev pub free_first : Device → Device
free_first d = record d { availiable_count = d.availiable_count - 1; tickets = drop 1 d.tickets }

-- The loop of `_on_release_disp_tickets_pool` with `tickets_count` to go. A round frees the first
-- ticket of the pool, or sleeps if there is none. The list of events is what happens in its sleeps;
-- `none` means that the loop still waits at the list's end. The tickets freed are returned.
unfoldable pub release_rounds : ℕ → List Wakeup → Device → List ℕ → Option (Device × List ℕ)
release_rounds zero events d freed = some (d, freed)
release_rounds (suc n) [] d freed =
    let rest = release_rounds n [] (free_first d) (freed ++ take 1 d.tickets) in
    if d.availiable_count == 0 then none else rest
release_rounds (suc n) (e ∷ events) d freed =
    let waited = release_rounds (suc n) events (wake e d) freed in
    let rest = release_rounds n (e ∷ events) (free_first d) (freed ++ take 1 d.tickets) in
    if d.availiable_count == 0 then waited else rest

-- `_on_release_disp_tickets_pool`
unfoldable pub on_release_disp_tickets_pool : List Wakeup → Device → Option (Device × List ℕ)
on_release_disp_tickets_pool events d = release_rounds d.disp_urb_count events d []
