-- ===== src/Usb/Tickets/Ownership.antt =====
-- Where the tickets of usbhandlers.c are: in the pool or on the bus.
use rpusbdisp.Common.{
  ℕ, ◌+◌, ◌*◌, ◌≤◌, ◌≡◌, true, ◌&&◌, List, [], ◌∷◌, ◌++◌, some, drop, take, length, ◌==◌,
  if◌then◌else◌, arith, count, count-append, take-append-drop, length-drop, length-take,
}
use rpusbdisp.Common.Memory.{update}
use rpusbdisp.Usb.Device.{Device, fbhandler_set_unsync_flag}
use rpusbdisp.Usb.Tickets.{
  sell_disp_tickets, return_disp_tickets, on_display_transfer_finished, complete, remove,
}

-- How often a ticket is in the pool or on the bus.
abbrev pub owned : ℕ → Device → ℕ
owned t d = count t d.tickets + count t d.in_flight

-- The count is that of the list.
abbrev pub IsCounted : Device → Type 0
IsCounted d = d.availiable_count ≡ length d.tickets

pub record Finished (d d' : Device) (ticket : ℕ) : Type 0 where
  pub pool : d'.tickets ≡ d.tickets ++ ticket ∷ []
  pub bus : d'.in_flight ≡ d.in_flight
  pub number : d'.availiable_count ≡ d.availiable_count + 1
  pub all : d'.disp_urb_count ≡ d.disp_urb_count
  pub lengths :
      d'.transfer_buffer_length
      ≡ update d.transfer_buffer_length ticket (d.packet_size_factor * d.disp_out_ep_max_size)
  pub work : d'.completion_work ≡ (
      if d.availiable_count + 1 == d.disp_urb_count && d.urb_status ticket == 0
      then true
      else d.completion_work)

-- A transfer that is finished, with any status, puts its ticket behind those in the pool, raises the
-- count by one and gives the URB its full length again; the work is scheduled if with it all tickets
-- are back and it succeeded, and is left as it was otherwise.
pub finished : (d : Device) (ticket : ℕ) → Finished d (on_display_transfer_finished d ticket) ticket
unfolding on_display_transfer_finished return_disp_tickets fbhandler_set_unsync_flag
finished d ticket = record {
  pool = ground arith;
  bus = ground arith;
  number = ground arith;
  all = ground arith;
  lengths = ground arith;
  work = ground arith;
}

-- The tickets sold leave the pool, and no others.
pub sell-owned :
    (d d' : Device) (n t : ℕ) (bundle : List ℕ)
    → sell_disp_tickets d n ≡ (d', some bundle)
    → owned t d ≡ owned t d' + count t bundle
unfolding sell_disp_tickets
sell-owned d d' n t bundle h =
    ground
      (arith, count-append t (take n d.tickets) (drop n d.tickets), take-append-drop n d.tickets)

pub sell-IsCounted :
    (d d' : Device) (n : ℕ) (bundle : List ℕ)
    → IsCounted d
    → sell_disp_tickets d n ≡ (d', some bundle)
    → IsCounted d' × (length bundle ≡ n) × (1 ≤ n) × (d.is_alive ≡ true)
unfolding sell_disp_tickets
sell-IsCounted d d' n bundle c h = ground (arith, length-drop n d.tickets, length-take n d.tickets)

pub remove-count :
    (t u : ℕ) (xs : List ℕ) → 1 ≤ count t xs → count u xs ≡ count u (remove t xs) + count u (t ∷ [])
remove-count t u [] h = absurd (omega arith)
remove-count t u (x ∷ xs) h = ground (arith, remove-count t u xs)

-- The completion of a transfer that is on the bus, with any status, keeps how often each ticket is in
-- the pool or on the bus.
pub complete-owned :
    (d : Device) (t status u : ℕ)
    → 1 ≤ count t d.in_flight
    → owned u (complete d t (remove t d.in_flight) status) ≡ owned u d
unfolding complete
complete-owned d t status u h =
    let f =
      finished
        (record d { in_flight = remove t d.in_flight; urb_status = update d.urb_status t status })
        t in
    rw (f.pool, f.bus, count-append u d.tickets (t ∷ []), remove-count t u d.in_flight h)
      (omega arith)
