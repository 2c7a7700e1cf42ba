-- ===== src/Usb/Commands.antt =====
-- The two commands of usbhandlers.c that fit in one packet: `rpusbdisp_usb_try_copy_area` and
-- `rpusbdisp_usb_try_draw_rect`. Both take the ticket and hand its URB over in the same way. `ok` is
-- the C function's 1 and `abort` its 0. (`stuck` stands for a bundle without a ticket, which is never
-- sold.)
pub mod Outcome
use rpusbdisp.Common.{ℕ, ◌+◌, ◌∷◌, [], List, Option, none, some, ltb, if◌then◌else◌, bit_or}
use rpusbdisp.Common.Int.{ℤ}
use rpusbdisp.Common.Memory.{update, write_at}
use rpusbdisp.Common.Res.{Res, ok, abort, bug, stuck}
use rpusbdisp.Protocol.{
  copyarea_packet, fillrect_packet, sizeof_copyarea_packet, sizeof_fillrect_packet, dispcmd_rect,
  dispcmd_copy_area, cmd_flag_start,
}
use rpusbdisp.Usb.Device.{Device, Submit, accepted, refused, take_urb, refuse_urb}
use rpusbdisp.Usb.Tickets.{sell_disp_tickets, on_display_transfer_finished}

-- The packet in the ticket's buffer, and the length of its URB.
abbrev pub write_command : List ℕ → ℕ → Device → ℕ → Device
write_command packet transfer_size d ticket = record d {
  transfer_buffer = update d.transfer_buffer ticket (write_at 0 packet (d.transfer_buffer ticket));
  transfer_buffer_length = update d.transfer_buffer_length ticket transfer_size;
}

-- The URB is submitted; one that is refused is finished at once.
unfoldable pub submit_command : Submit → Device → ℕ → Res Device (Unit {0})
submit_command accepted d ticket = ok tt (take_urb d ticket)
submit_command (refused status) d ticket =
    abort (on_display_transfer_finished (refuse_urb d ticket status) ticket)

module _ (usb_submit_urb : ℕ → Submit) (packet : List ℕ) (packet_size transfer_size : ℕ) where
  -- With the answer of `_sell_disp_tickets`: the `BUG_ON`, the packet, and the URB.
  unfoldable pub send_bundle : Device × Option (List ℕ) → Res Device (Unit {0})
  send_bundle (d, none) = abort d
  send_bundle (d, some []) = stuck
  send_bundle (d, some (ticket ∷ rest)) =
      if ltb d.disp_out_ep_max_size packet_size
      then bug
      else submit_command (usb_submit_urb d.submits) (write_command packet transfer_size d ticket)
          ticket

  abbrev pub send_command : Device → Res Device (Unit {0})
  send_command d = send_bundle (sell_disp_tickets d 1)

abbrev pub copyarea_of : ℤ → ℤ → ℤ → ℤ → ℤ → ℤ → List ℕ
copyarea_of = copyarea_packet (bit_or dispcmd_copy_area cmd_flag_start)

abbrev pub fillrect_of : ℤ → ℤ → ℤ → ℤ → ℕ → ℕ → List ℕ
fillrect_of = fillrect_packet (bit_or dispcmd_rect cmd_flag_start)

-- The URB is one byte longer than the packet ("add one more byte to bypass usbdisp 1.03 fw bug").
unfoldable pub rpusbdisp_usb_try_copy_area :
    (ℕ → Submit) → Device → ℤ → ℤ → ℤ → ℤ → ℤ → ℤ → Res Device (Unit {0})
rpusbdisp_usb_try_copy_area usb_submit_urb d sx sy dx dy width height =
    send_command usb_submit_urb (copyarea_of sx sy dx dy width height) sizeof_copyarea_packet
      (sizeof_copyarea_packet + 1) d

unfoldable pub rpusbdisp_usb_try_draw_rect :
    (ℕ → Submit) → Device → ℤ → ℤ → ℤ → ℤ → ℕ → ℕ → Res Device (Unit {0})
rpusbdisp_usb_try_draw_rect usb_submit_urb d x y right bottom color operation =
    send_command usb_submit_urb (fillrect_of x y right bottom color operation)
      sizeof_fillrect_packet sizeof_fillrect_packet d
