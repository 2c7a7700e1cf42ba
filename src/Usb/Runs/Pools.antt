-- ===== src/Usb/Runs/Pools.antt =====
-- Runs of the pool, of the commands of one packet, of the status query and of the probe.
use rpusbdisp.Common.{
  ℕ, ◌+◌, ◌≤◌, ◌≡◌, refl, ◌≢◌, true, false, List, [], ◌∷◌, some, none, arith, length,
}
use rpusbdisp.Common.Int.{pos}
use rpusbdisp.Common.Memory.{update}
use rpusbdisp.Common.Res.{bug, stuck}
use rpusbdisp.Usb.Device.{Device, accepted}
use rpusbdisp.Usb.Tickets.{completes, times_out, release_rounds, sell_disp_tickets}
use rpusbdisp.Usb.Commands.{fillrect_of, rpusbdisp_usb_try_draw_rect}
use rpusbdisp.Usb.Commands.Outcome.{Outcome, try_draw_rect_lem}
use rpusbdisp.Usb.Status.{Poll, on_status_query_finished}
use rpusbdisp.Usb.Status.Polling.{Finished, status_query_lem}
use rpusbdisp.Usb.Image.{rpusbdisp_usb_try_send_image}
use rpusbdisp.Usb.Tickets.Ownership.{sell-IsCounted, IsCounted}
use rpusbdisp.Usb.Tickets.{allocated, no_urb, on_alloc_disp_tickets_pool}
use rpusbdisp.Usb.Tickets.Allocation.{IsAllocated, alloc_pool-IsAllocated}
use rpusbdisp.Usb.Image.Display.{IsOnScreen, display_safe}
use rpusbdisp.Usb.Tickets.Release.{release_rounds_ends, release_rounds_waits}
use rpusbdisp.Usb.Probe.{Endpoint, probe_endpoints, first_endpoints, probe_endpoints_lem}
use rpusbdisp.Usb.Image.Begin.{IsUsable}
use rpusbdisp.Usb.Runs.{area, blank, idle, memory, pixels-IsPixel, takes_all}

-- One ticket of the three is on the bus.
abbrev one_out : Device
one_out = record idle { tickets = 0 ∷ 2 ∷ []; availiable_count = 2; in_flight = 1 ∷ [] }

release_rounds_ends_example :
    (d' : Device) × (all : List ℕ) × (release_rounds 3 (times_out ∷ completes 1 0 ∷ []) one_out []
      ≡ some (d', all))
    × (length all ≡ 0 + 3)
release_rounds_ends_example =
    release_rounds_ends 3 (times_out ∷ completes 1 0 ∷ []) one_out [] refl (omega arith)

release_rounds_waits_example :
    release_rounds 3 (times_out ∷ []) (record one_out { in_flight = [] }) [] ≡ none
release_rounds_waits_example =
    release_rounds_waits 3 (times_out ∷ []) (record one_out { in_flight = [] }) [] refl
      (omega arith)

abbrev first_two : List ℕ
first_two = 0 ∷ 1 ∷ []

sell-IsCounted_example :
    IsCounted (sell_disp_tickets idle 2).0
    × (length first_two ≡ 2)
    × (1 ≤ 2)
    × (idle.is_alive ≡ true)
unfolding sell_disp_tickets
sell-IsCounted_example = sell-IsCounted idle (sell_disp_tickets idle 2).0 2 first_two refl refl

try_draw_rect_lem_example :
    Outcome accepted idle
      (λ bytes. bytes ≡ fillrect_of (pos 1) (pos 2) (pos 3) (pos 4) 7 0)
      (rpusbdisp_usb_try_draw_rect takes_all idle (pos 1) (pos 2) (pos 3) (pos 4) 7 0)
try_draw_rect_lem_example =
    try_draw_rect_lem takes_all idle (pos 1) (pos 2) (pos 3) (pos 4) 7 0 refl (omega arith)

-- A status packet with the dirty flag and no touch.
abbrev polled : Poll
polled = record {
  device = idle;
  touch = record { default_input_dev = true; live_flag = true; events = [] };
  urb_status_fail_count = 0;
  status_in_buffer = update blank 1 0x80;
  status_in_buffer_recvsize = 11;
  wakeups = 0;
  halts_cleared = 0;
  querying = false;
}

status_query_lem_example :
    Finished 0 true accepted polled (on_status_query_finished 0 11 true accepted polled)
status_query_lem_example = status_query_lem 0 11 true accepted polled refl

-- The pool of the driver's own display, with all ten tickets.
abbrev display : Device
display =
    (on_alloc_disp_tickets_pool 4096 (λ _. allocated) (record idle { disp_out_ep_max_size = 64 })).0

alloc_pool-IsAllocated_example :
    IsAllocated
      (on_alloc_disp_tickets_pool 4096 (λ _. no_urb) idle).0
      (on_alloc_disp_tickets_pool 4096 (λ _. no_urb) idle).1
alloc_pool-IsAllocated_example = alloc_pool-IsAllocated (λ _. no_urb) idle (omega arith)

display-IsUsable : IsUsable display
unfolding on_alloc_disp_tickets_pool
display-IsUsable =
    let k =
      alloc_pool-IsAllocated (λ _. allocated) (record idle { disp_out_ep_max_size = 64 })
        (omega arith) in
    record {
      sized = omega arith;
      wide = omega arith;
      packets = omega arith;
      counted = k.counted;
      full_size = k.full_size;
    }

area-IsOnScreen : IsOnScreen area
area-IsOnScreen = record {
  left = 1;
  top = 1;
  wide = 2;
  high = 1;
  x_left = refl;
  y_top = refl;
  right_at = refl;
  bottom_at = refl;
  columns = omega arith;
  lines = omega arith;
}

display_safe_example :
    let result = rpusbdisp_usb_try_send_image takes_all blank memory area true display in
    (result ≢ bug) × (result ≢ stuck)
unfolding on_alloc_disp_tickets_pool
display_safe_example =
    display_safe takes_all blank memory area true display display-IsUsable refl refl area-IsOnScreen
      pixels-IsPixel

-- The endpoints of the display: the input of the status and the output of the display.
abbrev display_endpoints : List Endpoint
display_endpoints =
    record { address = 0x81; is_int_in = true; is_bulk_out = false; max_packet_size = 32 }
    ∷ record { address = 1; is_int_in = false; is_bulk_out = true; max_packet_size = 64 }
    ∷ []

probe_endpoints_lem_example :
    probe_endpoints display_endpoints ≡ some (first_endpoints display_endpoints)
probe_endpoints_lem_example =
    probe_endpoints_lem display_endpoints
      (λ e. absurd (omega (arith, e)), (λ e. absurd (omega (arith, e)), tt))
