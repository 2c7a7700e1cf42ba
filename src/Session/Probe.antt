-- ===== src/Session/Probe.antt =====
-- `rpusbdisp_probe` and `rpusbdisp_disconnect` of usbhandlers.c, over the session. There is one device:
-- a probe finds none bound.
pub mod Outcome
use rpusbdisp.Common.{
  ℕ, ◌+◌, ◌≤◌, ◌≡◌, refl, ◌∙◌, sym, ap, ◌≢◌, inl, inr, Bool, true, false, List, [], ◌∷◌, Option,
  none, some, if◌then◌else◌, Option-cases, Bool-cases, arith,
}
use rpusbdisp.Common.Int.{ℤ}
use rpusbdisp.Usb.Device.{Device, Submit}
use rpusbdisp.Usb.Probe.{
  Endpoint, Endpoints, no_endpoints, check_endpoint, scan_endpoints, probe_endpoints,
}
use rpusbdisp.Usb.Tickets.{Alloc, Wakeup, on_alloc_disp_tickets_pool}
use rpusbdisp.Session.{Session, on_new_usb_device, on_del_usb_device}
use rpusbdisp.Session.Cycle.{new_del_lem}

-- The interface of the display: its session, whether the memory of the device is held, whether
-- `usb_set_intfdata` names it, and the references that were taken to the USB device.
pub record Interface : Type 0 where
  pub session : Session
  pub dev : Bool
  pub intfdata : Bool
  pub udev_refs : ℕ

-- What `kzalloc` gives, with the endpoint that was found. The flag is the framebuffer's.
abbrev pub zeroed : ℤ → ℕ → Device
zeroed unsync_flag max_size = record {
  is_alive = false;
  disp_out_ep_max_size = max_size;
  device_fwver = 0;
  fb_handle = false;
  unsync_flag = unsync_flag;
  tickets = [];
  availiable_count = 0;
  disp_urb_count = 0;
  packet_size_factor = 0;
  completion_work = false;
  transfer_buffer = λ _ _. 0;
  transfer_buffer_length = λ _. 0;
  urb_status = λ _. 0;
  submits = 0;
  in_flight = [];
  wire = [];
}

abbrev pub with_endpoints : Endpoints → Session → Session
with_endpoints e s =
    let d = zeroed s.fb.device.unsync_flag e.disp_out_ep_max_size in
    record s {
      fb = record s.fb { device = d };
      query = record s.query {
        device = d;
        urb_status_fail_count = 0;
        status_in_buffer = λ _. 0;
        status_in_buffer_recvsize = 0;
        wakeups = 0;
        halts_cleared = 0;
        querying = false;
      };
      status_urb = false;
      dev_id = 0;
    }

-- From `usb_set_intfdata` on: a device that does not start is freed.
abbrev attach : Session × Bool → Interface → Interface × Bool
attach r i = (record i { session = r.0; dev = r.1; intfdata = true }, r.1)

-- `rpusbdisp_probe`, for the answer of `kzalloc`, the endpoints, and what the start of the device meets;
-- the result is false for -ENOMEM.
unfoldable pub rpusbdisp_probe :
    Bool → List Endpoint → Bool → ℕ → (ℕ → Alloc) → ℕ → Bool → Submit → Interface → Interface × Bool
rpusbdisp_probe kzalloc ps urb_ok page_size memory bcd_device ep answer i =
    let held = record i { dev = true; udev_refs = i.udev_refs + 1 } in
    if kzalloc
    then elim (probe_endpoints ps) [
      | none ↦ (record held { dev = false }, false)
      | some e ↦
          attach
            (on_new_usb_device urb_ok page_size memory bcd_device ep answer
              (with_endpoints e i.session))
            held
    ]
    else (i, false)

abbrev detached : Interface → Option Session → Option Interface
detached i none = none
detached i (some s) = some (record i { session = s; dev = false; intfdata = false })

-- `rpusbdisp_disconnect`, with the events while it waits for the tickets; none means that it still waits.
unfoldable pub rpusbdisp_disconnect : List Wakeup → Interface → Option Interface
rpusbdisp_disconnect events i = detached i (on_del_usb_device events i.session)
