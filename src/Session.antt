-- ===== src/Session.antt =====
-- The life of a device in usbhandlers.c: `_on_new_usb_device`, `_on_del_usb_device`, the device list
-- and the delayed work, over the framebuffer, the touch input and the status query.
pub mod Cycle
pub mod Safety
pub mod Probe
mod Runs
mod ScreenRuns
mod ProbeRuns
use rpusbdisp.Common.{
  ℕ, ◌+◌, ◌-◌, ◌≤◌, ◌≡◌, refl, ◌∙◌, sym, ap, ◌≢◌, Bool, true, false, not, List, [], ◌∷◌, Option,
  none, some, if◌then◌else◌, arith,
}
use rpusbdisp.Common.Int.{ℤ, pos}
use rpusbdisp.Common.Res.{Res, ok}
use rpusbdisp.Usb.Device.{Device, Submit, fbhandler_set_unsync_flag}
use rpusbdisp.Usb.Tickets.{Alloc, Wakeup, on_alloc_disp_tickets_pool, on_release_disp_tickets_pool}
use rpusbdisp.Usb.Status.{Poll, status_start_querying}
use rpusbdisp.Fb.{
  Fb, fbhandler_on_new_device, fbhandler_on_remove_device, fbhandler_on_all_transfer_done,
}

-- The device stands in the framebuffer's record; the one in `query` is that which was handed to the
-- query last. `status_urb` is whether `urb_status_query` is
-- allocated.
pub record Session : Type 0 where
  pub fb : Fb
  pub query : Poll
  pub status_urb : Bool
  pub devlist_count : ℕ
  pub dev_id : ℕ

abbrev pub with_device : Session → Device → Session
with_device s d = record s { fb = record s.fb { device = d } }

-- `_add_usbdev_to_list` and `_del_usbdev_from_list`, and `rpusbdisp_usb_get_device_count`.
unfoldable pub add_usbdev_to_list : Session → Session
add_usbdev_to_list s = record s { devlist_count = s.devlist_count + 1 }

unfoldable pub del_usbdev_from_list : Session → Session
del_usbdev_from_list s = record s { devlist_count = s.devlist_count - 1 }

unfoldable pub rpusbdisp_usb_get_device_count : Session → ℕ
rpusbdisp_usb_get_device_count s = s.devlist_count

-- `_on_display_transfer_finished_delaywork`
unfoldable pub on_display_transfer_finished_delaywork :
    (ℕ → Submit) → (ℕ → ℕ) → (ℤ → ℕ) → Fb → Res Fb (Unit {0})
on_display_transfer_finished_delaywork usb_submit_urb garbage memory fb =
    if not fb.device.is_alive
    then ok tt fb
    else fbhandler_on_all_transfer_done usb_submit_urb garbage memory fb

-- `_status_start_querying` on the session.
abbrev start_querying : Bool → Submit → Session → Session
start_querying ep answer s = record s {
  query = status_start_querying ep answer (record s.query { device = s.fb.device });
}

-- From `_add_usbdev_to_list` on.
unfoldable pub start_device : ℕ → Bool → Submit → Session → Session
start_device bcd_device ep answer s =
    let listed = add_usbdev_to_list s in
    let alive = record listed {
      dev_id = rpusbdisp_usb_get_device_count listed;
      fb = record listed.fb {
        device = record listed.fb.device { is_alive = true; device_fwver = bcd_device };
      };
    } in
    let querying = start_querying ep answer alive in
    let bound = (fbhandler_on_new_device querying.fb).0 in
    record querying {
      fb = record bound {
        device = record (fbhandler_set_unsync_flag bound.device) { completion_work = true };
      };
    }

-- `_on_new_usb_device`: what `usb_alloc_urb` and the allocations of the pool answer, the device's
-- bcdDevice, and what the query meets. The result is false for -ENOMEM.
unfoldable pub on_new_usb_device :
    Bool → ℕ → (ℕ → Alloc) → ℕ → Bool → Submit → Session → Session × Bool
on_new_usb_device urb_ok page_size memory bcd_device ep answer s =
    let pool = on_alloc_disp_tickets_pool page_size memory s.fb.device in
    let filled = with_device s pool.0 in
    if not urb_ok
    then (s, false)
    else if not pool.1
    then (record filled { status_urb = false }, false)
    else (start_device bcd_device ep answer (record filled { status_urb = true }), true)

abbrev pub released : Session → Option (Device × List ℕ) → Option Session
released s none = none
released s (some (d, freed)) = some (record (with_device s d) { status_urb = false })

-- `_on_del_usb_device` up to the wait for the tickets.
unfoldable pub dying : Session → Session
dying s =
    let dead = record s {
      fb =
          fbhandler_on_remove_device
            (record s.fb { device = record s.fb.device { is_alive = false } });
      query = record s.query { querying = false };
    } in
    del_usbdev_from_list (with_device dead (record dead.fb.device { completion_work = false }))

-- `_on_del_usb_device`, with the events while it waits for the tickets; none means that it still waits.
unfoldable pub on_del_usb_device : List Wakeup → Session → Option Session
on_del_usb_device events s =
    released (dying s) (on_release_disp_tickets_pool events (dying s).fb.device)
