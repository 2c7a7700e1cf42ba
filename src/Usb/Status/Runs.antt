-- ===== src/Usb/Status/Runs.antt =====
-- Two status packets: a touch, and its end.
use rpusbdisp.Common.{ℕ, ◌≡◌, refl, true, false, [], ◌∷◌}
use rpusbdisp.Common.Int.{pos}
use rpusbdisp.Common.Memory.{update}
use rpusbdisp.Touch.Reports.{Screen, read_events, all_shown, showing}
use rpusbdisp.Usb.Device.{Device}
use rpusbdisp.Usb.Status.{Poll}
use rpusbdisp.Usb.Status.Touches.{receive_all, reports_of, receive_all_lem}

abbrev quiet : Device
quiet = record {
  is_alive = true;
  disp_out_ep_max_size = 64;
  device_fwver = 0x0104;
  fb_handle = false;
  unsync_flag = pos 0;
  tickets = [];
  availiable_count = 0;
  disp_urb_count = 0;
  packet_size_factor = 1016;
  completion_work = false;
  transfer_buffer = λ _ _. 0;
  transfer_buffer_length = λ _. 0;
  urb_status = λ _. 0;
  submits = 0;
  in_flight = [];
  wire = [];
}

abbrev polled : Poll
polled = record {
  device = quiet;
  touch = record { default_input_dev = true; live_flag = true; events = [] };
  urb_status_fail_count = 0;
  status_in_buffer = λ _. 0;
  status_in_buffer_recvsize = 11;
  wakeups = 0;
  halts_cleared = 0;
  querying = false;
}

abbrev untouched : Screen
untouched = record { x = pos 0; y = pos 0; pressure = 0; button = 0 }

-- At column 260 and row 7.
abbrev pressed : ℕ → ℕ
pressed = update (update (update (update (λ _. 0) 2 1) 3 4) 4 1) 7 7

abbrev lifted : ℕ → ℕ
lifted _ = 0

receive_all_lem_example :
    read_events (receive_all (pressed ∷ lifted ∷ []) polled).touch.events (showing untouched)
    ≡ showing (all_shown (reports_of (pressed ∷ lifted ∷ [])) untouched)
receive_all_lem_example =
    receive_all_lem (pressed ∷ lifted ∷ []) polled untouched untouched refl refl refl
