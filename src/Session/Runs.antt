-- ===== src/Session/Runs.antt =====
-- A run of the life of a device.
use rpusbdisp.Common.{ℕ, ◌≡◌, refl, true, false, []}
use rpusbdisp.Common.Int.{pos, negsuc}
use rpusbdisp.Usb.Device.{Device, accepted}
use rpusbdisp.Usb.Tickets.{Alloc, allocated, alloc_rounds, on_alloc_disp_tickets_pool}
use rpusbdisp.Session.{Session, on_new_usb_device}

abbrev attached : Device
attached = record {
  is_alive = false;
  disp_out_ep_max_size = 64;
  device_fwver = 0;
  fb_handle = false;
  unsync_flag = pos 1;
  tickets = [];
  availiable_count = 0;
  disp_urb_count = 0;
  packet_size_factor = 0;
  completion_work = false;
  transfer_buffer = λ _ _. 0;
  transfer_buffer_length = λ _. 0;
  urb_status = λ _. 0;
  submits = 0;
  in_flight = [];
  wire = [];
}

abbrev pub before : Session
before = record {
  fb = record {
    dirty_rect = record {
      left = pos 320;
      top = pos 240;
      right = negsuc 0;
      bottom = negsuc 0;
      dirty_flag = false;
    };
    binded_usbdev = false;
    device = attached;
  };
  query = record {
    device = attached;
    touch = record { default_input_dev = true; live_flag = true; events = [] };
    urb_status_fail_count = 0;
    status_in_buffer = λ _. 0;
    status_in_buffer_recvsize = 0;
    wakeups = 0;
    halts_cleared = 0;
    querying = false;
  };
  status_urb = false;
  devlist_count = 0;
  dev_id = 0;
}

abbrev pub memory : ℕ → Alloc
memory _ = allocated

pub starts : (on_new_usb_device true 4096 memory 0x0104 true accepted before).1 ≡ true
unfolding on_new_usb_device on_alloc_disp_tickets_pool alloc_rounds
starts = refl
