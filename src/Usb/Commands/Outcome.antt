-- ===== src/Usb/Commands/Outcome.antt =====
-- What `rpusbdisp_usb_try_copy_area` and `rpusbdisp_usb_try_draw_rect` of usbhandlers.c leave behind.
use rpusbdisp.Common.{
  ℕ, ◌+◌, ◌-◌, ◌≤◌, ◌≡◌, refl, sym, ap, subst, inl, inr, true, not, ◌&&◌, ◌||◌, List, [], ◌∷◌, ◌++◌,
  none, some, drop, take, length, count, count-append, ◌==◌, if◌then◌else◌, arith, Bool-cases,
  le→ltb,
}
use rpusbdisp.Common.Int.{ℤ, pos}
use rpusbdisp.Common.Memory.{read, write_at, read-write_at, update_self}
use rpusbdisp.Common.Res.{Res, ok, abort}
use rpusbdisp.Protocol.{sizeof_copyarea_packet, sizeof_fillrect_packet}
use rpusbdisp.Usb.Device.{Device, Submit, accepted, refused, refuse_urb, fbhandler_set_unsync_flag}
use rpusbdisp.Usb.Tickets.{sell_disp_tickets, on_display_transfer_finished, return_disp_tickets}
use rpusbdisp.Usb.Tickets.Ownership.{owned, IsCounted, finished}
use rpusbdisp.Usb.Commands.{
  write_command, submit_command, send_bundle, send_command, copyarea_of, fillrect_of,
  rpusbdisp_usb_try_copy_area, rpusbdisp_usb_try_draw_rect,
}

-- For the answer `a` of the bus: nothing is sent and no ticket is free; the bus took the URB; or it
-- refused it, its ticket is back, and a bound framebuffer is marked exactly if the status is an error.
pub data Outcome (a : Submit) (d : Device) (P : List ℕ → Type 0) (r : Res Device (Unit {0}))
    : Type 0 where
  declined : (not d.is_alive || (d.availiable_count == 0)) ≡ true → r ≡ abort d → Outcome a d P r
  put :
      (d' : Device) (bytes : List ℕ)
      → a ≡ accepted
      → P bytes
      → r ≡ ok tt d'
      → d'.wire ≡ d.wire ++ bytes ∷ []
      → ((t : ℕ) → owned t d' ≡ owned t d)
      → Outcome a d P r
  rejected :
      (d' : Device) (status : ℕ)
      → a ≡ refused status
      → r ≡ abort d'
      → d'.wire ≡ d.wire
      → ((t : ℕ) → owned t d' ≡ owned t d)
      → d'.unsync_flag ≡ (if not (status == 0) && d.fb_handle then pos 1 else d.unsync_flag)
      → Outcome a d P r

abbrev sold_one : Device → List ℕ → Device
sold_one d rest = record d { availiable_count = d.availiable_count - 1; tickets = rest }

pub finished_marks :
    (d : Device) (t : ℕ)
    → (on_display_transfer_finished d t).unsync_flag
      ≡ (if not (d.urb_status t == 0) && d.is_alive && d.fb_handle then pos 1 else d.unsync_flag)
unfolding on_display_transfer_finished fbhandler_set_unsync_flag return_disp_tickets
finished_marks d t = ground arith

pub finished_wire : (d : Device) (t : ℕ) → (on_display_transfer_finished d t).wire ≡ d.wire
unfolding on_display_transfer_finished fbhandler_set_unsync_flag return_disp_tickets
finished_wire d t = ground arith

sells_one :
    (d : Device)
    → d.is_alive ≡ true
    → 1 ≤ d.availiable_count
    → sell_disp_tickets d 1 ≡ (sold_one d (drop 1 d.tickets), some (take 1 d.tickets))
unfolding sell_disp_tickets
sells_one d l n = ground arith

sells_none :
    (d : Device)
    → (not d.is_alive || (d.availiable_count == 0)) ≡ true
    → sell_disp_tickets d 1 ≡ (d, none)
unfolding sell_disp_tickets
sells_none d h = ground arith

-- What stands in the URB: the packet in a buffer that held anything.
abbrev Sent : (List ℕ → Type 0) → List ℕ → ℕ → Type 0
Sent P packet transfer_size = (m : ℕ → ℕ) → P (read transfer_size (write_at 0 packet m))

submit_cases :
    (P : List ℕ → Type 0) (packet : List ℕ) (transfer_size : ℕ) (d : Device) (t : ℕ) (ts : List ℕ)
    (a : Submit)
    → Sent P packet transfer_size
    → d.tickets ≡ t ∷ ts
    → d.is_alive ≡ true
    → Outcome a d P (submit_command a (write_command packet transfer_size (sold_one d ts) t) t)
unfolding submit_command
submit_cases P packet transfer_size d t ts accepted p e l =
    put _ (read transfer_size (write_at 0 packet (d.transfer_buffer t))) refl
      (p (d.transfer_buffer t)) refl
      (simp (
        update_self d.transfer_buffer_length t transfer_size,
        update_self d.transfer_buffer t (write_at 0 packet (d.transfer_buffer t)),
      ))
      (λ u. omega (arith, ap (count u) e, count-append u d.in_flight (t ∷ [])))
submit_cases P packet transfer_size d t ts (refused status) p e l =
    let w = refuse_urb (write_command packet transfer_size (sold_one d ts) t) t status in
    let f = finished w t in
    rejected _ status refl refl (finished_wire w t)
      (λ u. omega (
        arith,
        ap (count u) e,
        ap (count u) f.pool,
        ap (count u) f.bus,
        count-append u ts (t ∷ []),
      ))
      (subst
        (λ x.
          (on_display_transfer_finished w t).unsync_flag
          ≡ (if not (x == 0) && d.fb_handle then pos 1 else d.unsync_flag))
        (update_self d.urb_status t status) (ground (arith, finished_marks w t, l)))

module _ (usb_submit_urb : ℕ → Submit) (P : List ℕ → Type 0) (packet : List ℕ)
    (packet_size transfer_size : ℕ) (d : Device) (c : IsCounted d)
    (w : packet_size ≤ d.disp_out_ep_max_size) (p : Sent P packet transfer_size) where
  sold_cases :
      (ts : List ℕ)
      → d.tickets ≡ ts
      → d.is_alive ≡ true
      → 1 ≤ d.availiable_count
      → Outcome (usb_submit_urb d.submits) d P (
          send_bundle usb_submit_urb packet packet_size transfer_size
            (sold_one d (drop 1 ts), some (take 1 ts)))
  unfolding send_bundle
  sold_cases [] e l n = absurd (omega (arith, ap length e, c))
  sold_cases (t ∷ ts) e l n =
      rw (le→ltb d.disp_out_ep_max_size packet_size w)
        (submit_cases P packet transfer_size d t ts (usb_submit_urb d.submits) p e l)

  send_command_lem :
      Outcome
        (usb_submit_urb d.submits)
        d
        P
        (send_command usb_submit_urb packet packet_size transfer_size d)
  unfolding send_bundle
  send_command_lem = elim (Bool-cases (not d.is_alive || (d.availiable_count == 0))) [
    | inl none_free ↦ declined none_free (rw (sells_none d none_free))
    | inr free ↦
        subst (Outcome (usb_submit_urb d.submits) d P)
          (ap (send_bundle usb_submit_urb packet packet_size transfer_size)
            (sym (sells_one d (ground arith) (ground arith))))
          (sold_cases d.tickets refl (ground arith) (ground arith))
  ]

-- On a device whose count is that of its pool, and whose packets have room for the command: with no
-- ticket free nothing changes; an URB that is taken carries exactly the packet of the rectangle; one
-- that is refused leaves the bus as it was and marks a bound framebuffer exactly if the status of the
-- refusal is an error. Every ticket stays in the pool or on the bus.
pub try_draw_rect_lem :
    (usb_submit_urb : ℕ → Submit) (d : Device) (x y right bottom : ℤ) (color operation : ℕ)
    → IsCounted d
    → sizeof_fillrect_packet ≤ d.disp_out_ep_max_size
    → Outcome
        (usb_submit_urb d.submits)
        d
        (λ bytes. bytes ≡ fillrect_of x y right bottom color operation)
        (rpusbdisp_usb_try_draw_rect usb_submit_urb d x y right bottom color operation)
unfolding rpusbdisp_usb_try_draw_rect read
try_draw_rect_lem usb_submit_urb d x y right bottom color operation c w =
    send_command_lem usb_submit_urb _ (fillrect_of x y right bottom color operation)
      sizeof_fillrect_packet sizeof_fillrect_packet d c w
      (λ m.
        read-write_at 0 sizeof_fillrect_packet (fillrect_of x y right bottom color operation) m
          refl)

-- On a device whose count is that of its pool, and whose packets have room for the command: with no
-- ticket free nothing changes; an URB that is taken carries the packet of the copy and one byte more;
-- one that is refused leaves the bus as it was and marks a bound framebuffer exactly if the status of
-- the refusal is an error. Every ticket stays in the pool or on the bus.
pub try_copy_area_lem :
    (usb_submit_urb : ℕ → Submit) (d : Device) (sx sy dx dy width height : ℤ)
    → IsCounted d
    → sizeof_copyarea_packet ≤ d.disp_out_ep_max_size
    → Outcome
        (usb_submit_urb d.submits)
        d
        (λ bytes. (padding : ℕ) × (bytes ≡ copyarea_of sx sy dx dy width height ++ padding ∷ []))
        (rpusbdisp_usb_try_copy_area usb_submit_urb d sx sy dx dy width height)
unfolding rpusbdisp_usb_try_copy_area read
try_copy_area_lem usb_submit_urb d sx sy dx dy width height c w =
    send_command_lem usb_submit_urb _ (copyarea_of sx sy dx dy width height) sizeof_copyarea_packet
      (sizeof_copyarea_packet + 1) d c w
      (λ m. (
        write_at 0 (copyarea_of sx sy dx dy width height) m 13,
        ap (λ l. l ++ write_at 0 (copyarea_of sx sy dx dy width height) m 13 ∷ [])
            (read-write_at 0 sizeof_copyarea_packet (copyarea_of sx sy dx dy width height) m refl),
      ))
