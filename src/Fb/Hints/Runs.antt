-- ===== src/Fb/Hints/Runs.antt =====
-- A fill in one corner of the screen while the opposite corner is dirty.
use rpusbdisp.Common.{ℕ, ◌≡◌, refl, true, false, [], ◌∷◌, arith}
use rpusbdisp.Common.Int.{pos, ◌+ℤ◌, ◌-ℤ◌}
use rpusbdisp.Common.Res.{Res, ok, abort, bug, stuck}
use rpusbdisp.Usb.Device.{Submit, accepted}
use rpusbdisp.Usb.Tickets.{sell_disp_tickets}
use rpusbdisp.Usb.Commands.{send_bundle, submit_command, rpusbdisp_usb_try_draw_rect}
use rpusbdisp.Fb.{
  Fb, Fillrect, grow_rect, send_update, try_update, display_update, display_fillrect,
}
use rpusbdisp.Fb.Hints.{Filled, display_fillrect-Filled}

abbrev takes_all : ℕ → Submit
takes_all _ = accepted

abbrev dirty : Fb
dirty = record {
  dirty_rect = record {
    left = pos 300;
    top = pos 200;
    right = pos 310;
    bottom = pos 210;
    dirty_flag = true;
  };
  binded_usbdev = true;
  device = record {
    is_alive = true;
    disp_out_ep_max_size = 64;
    device_fwver = 0x0104;
    fb_handle = true;
    unsync_flag = pos 0;
    tickets = 0 ∷ [];
    availiable_count = 1;
    disp_urb_count = 1;
    packet_size_factor = 1016;
    completion_work = false;
    transfer_buffer = λ _ _. 0;
    transfer_buffer_length = λ _. 65024;
    urb_status = λ _. 0;
    submits = 0;
    in_flight = [];
    wire = [];
  };
}

abbrev corner : Fillrect
corner = record { dx = 0; dy = 0; width = 8; height = 8; color = 0xf800; rop_xor = false }

abbrev left_by : Res Fb (Unit {0}) → Fb
left_by (ok _ fb) = fb
left_by (abort fb) = fb
left_by bug = dirty
left_by stuck = dirty

abbrev filled : Res Fb (Unit {0})
filled = display_fillrect takes_all (λ _. 0) (λ _. 0) dirty corner

fills : filled ≡ ok tt (left_by filled)
unfolding display_fillrect display_update try_update send_update grow_rect ◌+ℤ◌ ◌-ℤ◌
    rpusbdisp_usb_try_draw_rect send_bundle submit_command sell_disp_tickets
fills = refl

added : ¬ ((left_by filled).device.wire ≡ dirty.device.wire)
unfolding display_fillrect display_update try_update send_update grow_rect ◌+ℤ◌ ◌-ℤ◌
    rpusbdisp_usb_try_draw_rect send_bundle submit_command sell_disp_tickets
added e = cc e

display_fillrect-Filled_example : Filled corner dirty (left_by filled)
display_fillrect-Filled_example =
    display_fillrect-Filled takes_all (λ _. 0) (λ _. 0) corner dirty (left_by filled) refl
      (omega arith) added fills
