-- ===== src/Session/ScreenRuns.antt =====
-- Runs of the display that the driver is made for, from the moment it is plugged in.
use rpusbdisp.Common.{ℕ, ◌≡◌, ◌⊎◌, inr, refl, true, arith}
use rpusbdisp.Common.Int.{ℤ, pos, ◌+ℤ◌, ◌-ℤ◌}
use rpusbdisp.Common.Res.{Res}
use rpusbdisp.Protocol.{default_width, default_height}
use rpusbdisp.Usb.Device.{Submit, accepted, fbhandler_set_unsync_flag, rpusbdisp_usb_set_fbhandle}
use rpusbdisp.Usb.Tickets.{alloc_rounds, on_alloc_disp_tickets_pool}
use rpusbdisp.Fb.{
  Fb, hint_none, hint_bitblt, display_update, fbhandler_on_all_transfer_done,
  fbhandler_on_new_device,
}
use rpusbdisp.Fb.Dirty.{Contains, OnScreen, out_of_step, plain}
use rpusbdisp.Fb.System.Shown.{ShownBy, display_update_keeps}
use rpusbdisp.Fb.System.{IsRegion, AllPixels, Step, unsyncs, draws, here, next}
use rpusbdisp.Fb.System.Reachable.{Inv, Reach-Inv, whole_screen}
use rpusbdisp.Fb.System.Safety.{IsDisplay, IsSafe, display-IsWide}
use rpusbdisp.Fb.System.Progress.{
  IsIdle, Updates, display_update-Updates, all_transfer_done-Updates,
}
use rpusbdisp.Fb.System.Kept.{Trace, step, stop, SentIn, drawn-Trace_keeps}
use rpusbdisp.Fb.Spec.{Event}
use rpusbdisp.Fb.Spec
use rpusbdisp.Session.{add_usbdev_to_list, start_device, on_new_usb_device}
use rpusbdisp.Session.Safety.{IsFresh, new_device-Inv, new_device-IsSafe}
use rpusbdisp.Session.Runs.{before, memory, starts}

abbrev plugged : Fb
plugged = (on_new_usb_device true 4096 memory 0x0104 true accepted before).0.fb

abbrev takes_all : ℕ → Submit
takes_all _ = accepted

abbrev zeros : ℕ → ℕ
zeros _ = 0

abbrev red : ℤ → ℕ
red _ = 0xf800

red_pixels : AllPixels red
red_pixels at = omega arith

fresh : IsFresh before
fresh = record {
  packet = refl;
  bus = refl;
  unbound = refl;
  bounded = record {
    left_in = omega arith;
    top_in = omega arith;
    right_in = omega arith;
    bottom_in = omega arith;
  };
  marked = refl;
}

plugged-Inv : IsDisplay plugged.device × Inv plugged.device plugged
plugged-Inv = new_device-Inv memory 0x0104 true accepted before fresh starts

idle : IsIdle plugged
unfolding on_new_usb_device on_alloc_disp_tickets_pool alloc_rounds start_device add_usbdev_to_list
    fbhandler_on_new_device fbhandler_set_unsync_flag rpusbdisp_usb_set_fbhandle
idle = record { bound = refl; alive = refl; free = omega arith }

out : plugged.device.unsync_flag ≡ pos 1
unfolding on_new_usb_device on_alloc_disp_tickets_pool alloc_rounds start_device add_usbdev_to_list
    fbhandler_on_new_device fbhandler_set_unsync_flag rpusbdisp_usb_set_fbhandle
out = refl

corner : OnScreen (pos 0) (pos 0)
corner = record {
  column = omega arith;
  column_below = omega arith;
  row = omega arith;
  row_below = omega arith;
}

small : IsRegion (pos 3) (pos 4) (pos 2) (pos 1)
unfolding ◌+ℤ◌ ◌-ℤ◌
small = record {
  from_left = omega arith;
  from_top = omega arith;
  to_right = omega arith;
  to_bottom = omega arith;
}

abbrev drawn : Res Fb (Unit {0})
drawn =
    display_update takes_all zeros red plugged (pos 0) (pos 0) (pos default_width)
      (pos default_height) hint_none

-- The first drawing call, and the deferred work, after the start.
display_update-Updates_example :
    Updates takes_all zeros red red_pixels
      (λ _. refl)
      plugged
      (pos 0)
      (pos 0)
      (pos default_width)
      (pos default_height)
      drawn
display_update-Updates_example =
    display_update-Updates takes_all zeros red red_pixels (λ _. refl) plugged.device plugged plugged
      (pos 0) (pos 0) (pos default_width) (pos default_height) (pos 0) (pos 0) hint_none
      plugged-Inv.0 plugged-Inv.1 here idle plain whole_screen corner (out_of_step out)

handled : plugged.device.fb_handle ≡ true
unfolding on_new_usb_device on_alloc_disp_tickets_pool alloc_rounds start_device add_usbdev_to_list
    fbhandler_on_new_device fbhandler_set_unsync_flag rpusbdisp_usb_set_fbhandle
handled = refl

all_transfer_done-Updates_example :
    Updates takes_all zeros red red_pixels
      (λ _. refl)
      plugged
      (pos 0)
      (pos 0)
      (pos default_width)
      (pos default_height)
      (fbhandler_on_all_transfer_done takes_all zeros red plugged)
all_transfer_done-Updates_example =
    all_transfer_done-Updates takes_all zeros red red_pixels (λ _. refl) plugged.device plugged
      plugged (pos 0) (pos 0) plugged-Inv.0 plugged-Inv.1 here idle handled corner (inr out)

-- The state after the first drawing call.
first :
    Updates takes_all zeros red red_pixels
      (λ _. refl)
      plugged
      (pos 0)
      (pos 0)
      (pos default_width)
      (pos default_height)
      drawn
first =
    display_update-Updates takes_all zeros red red_pixels (λ _. refl) plugged.device plugged plugged
      (pos 0) (pos 0) (pos default_width) (pos default_height) (pos 0) (pos 0) hint_none
      plugged-Inv.0 plugged-Inv.1 here idle plain whole_screen corner (out_of_step out)

drawing : Step plugged first.after
drawing =
    draws takes_all zeros red (pos 0) (pos 0) (pos default_width) (pos default_height) hint_none
      red_pixels whole_screen first.ends

Reach-Inv_example : Inv plugged.device first.after
Reach-Inv_example =
    Reach-Inv plugged.device (display-IsWide plugged.device plugged-Inv.0) plugged-Inv.1
      (next here drawing)

new_device-IsSafe_example :
    IsSafe
      (display_update takes_all zeros red first.after (pos 3) (pos 4) (pos 2) (pos 1) hint_bitblt)
    × IsSafe (fbhandler_on_all_transfer_done takes_all zeros red first.after)
new_device-IsSafe_example =
    new_device-IsSafe memory 0x0104 true accepted before first.after takes_all zeros red (pos 3)
      (pos 4) (pos 2) (pos 1) hint_bitblt fresh starts (next here drawing) red_pixels small

-- The drawing call, with a red screen.
abbrev drawn_event : Event
drawn_event = Spec.drawn red hint_none (pos 0) (pos 0) (pos default_width) (pos default_height)

-- The display loses its contents after the drawing call.
abbrev out_of_sync : Fb
out_of_sync = record first.after { device = fbhandler_set_unsync_flag first.after.device }

abbrev losing : Trace first.after out_of_sync
losing = step (unsyncs refl) stop

drawn-Trace_keeps_example :
    Contains out_of_sync.dirty_rect (pos 0) (pos 0)
    ⊎ (ShownBy red plugged.device first.after.device (pos 0) (pos 0)
        ⊎ SentIn losing (pos 0) (pos 0))
drawn-Trace_keeps_example =
    drawn-Trace_keeps plugged.device plugged-Inv.0 (pos 0) (pos 0) corner takes_all zeros red
      plugged first.after out_of_sync (pos 0) (pos 0) (pos default_width) (pos default_height)
      hint_none losing plugged-Inv.1 plain (tt, tt) idle.bound red_pixels whole_screen
      (out_of_step out) first.ends

display_update_keeps_example :
    Contains first.after.dirty_rect (pos 0) (pos 0)
    ⊎ ShownBy red plugged.device first.after.device (pos 0) (pos 0)
display_update_keeps_example =
    display_update_keeps takes_all zeros red red_pixels plugged first.after (pos 0) (pos 0)
      (pos default_width) (pos default_height) (pos 0) (pos 0) hint_none plain plugged-Inv.0
      plugged-Inv.1.sound.pool plugged-Inv.1.sound.bounded idle.bound whole_screen corner
      (out_of_step out) first.ends
