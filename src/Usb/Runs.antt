-- ===== src/Usb/Runs.antt =====
-- Runs of the display path of usbhandlers.c on a device with three tickets of two packets of 16
-- bytes, and a framebuffer that counts its pixels.
pub mod Pools
use rpusbdisp.Common.{
  ℕ, ◌+◌, ◌≤◌, ◌≡◌, refl, ◌≢◌, ap, sym, append-nil, append_assoc, true, false, List, [], ◌∷◌, ◌++◌,
  some, none, arith, All, length, count, drop,
}
use rpusbdisp.Common.Int.{ℤ, pos, negsuc, ◌+ℤ◌, ◌-ℤ◌, ◌*ℤ◌}
use rpusbdisp.Common.Memory.{update, read, write_at}
use rpusbdisp.Common.Res.{Res, ok, abort, bug, stuck}
use rpusbdisp.Protocol.{to_u16}
use rpusbdisp.Usb.Device.{Device, Submit, accepted, refused, fbhandler_set_unsync_flag}
use rpusbdisp.Usb.Tickets.{
  completes, times_out, release_rounds, sell_disp_tickets, return_disp_tickets,
  on_display_transfer_finished,
}
use rpusbdisp.Usb.Commands.{fillrect_of, rpusbdisp_usb_try_draw_rect}
use rpusbdisp.Usb.Commands.Outcome.{Outcome, try_draw_rect_lem}
use rpusbdisp.Usb.Status.{Poll, on_status_query_finished}
use rpusbdisp.Usb.Status.Polling.{Finished, status_query_lem}
use rpusbdisp.Usb.Rle.{
  rle_compress_init, section_header, section_bytes, rle_flush_section, encode_common, form_common,
  include_pixel, rle_compress_n_encode, rle_compress_all, rle_encode,
}
use rpusbdisp.Usb.Rle.Decode.{IsPixel}
use rpusbdisp.Usb.Bitblt.{
  required_tickets, bitblt_encoder_init, bitblt_encode_command_header, return_all,
  bitblt_encoder_cleanup, submit_ticket, packet_full, transfer_rounds,
  bitblt_encode_n_transfer_data, bitblt_encoder_flush,
}
use rpusbdisp.Usb.Image.{
  to_size, Area, image_size, row_pixels, rows_pixels, image_pixels, encode_pixels,
  rpusbdisp_usb_try_send_image,
}
use rpusbdisp.Usb.Tickets.Ownership.{owned, sell-IsCounted, IsCounted}
use rpusbdisp.Usb.Tickets.{allocated, no_urb, on_alloc_disp_tickets_pool}
use rpusbdisp.Usb.Tickets.Allocation.{IsAllocated, alloc_pool-IsAllocated}
use rpusbdisp.Usb.Image.Display.{IsOnScreen, display_safe}
use rpusbdisp.Usb.Tickets.Release.{release_rounds_ends, release_rounds_waits}
use rpusbdisp.Usb.Probe.{Endpoint, probe_endpoints, first_endpoints, probe_endpoints_lem}
use rpusbdisp.Usb.Rle.Sink.{IsSink}
use rpusbdisp.Usb.Rle.Stream.{Encodes, rle_encode-Encodes}
use rpusbdisp.Usb.Bitblt.{Encoder}
use rpusbdisp.Usb.Bitblt.Ownership.{holds}
use rpusbdisp.Usb.Image.Start.{IsReady, started, started-IsFramed}
use rpusbdisp.Usb.Image.Begin.{IsUsable}
use rpusbdisp.Usb.Image.Tickets.{try_send_image_owned, flush_refused_loses}
use rpusbdisp.Usb.Image.Sending.{IsDelivered}
use rpusbdisp.Usb.Image.Transfer.{
  try_send_image_delivers, try_send_image_safe, bundle_bytes, estimate,
}

abbrev pub idle : Device
idle = record {
  is_alive = true;
  disp_out_ep_max_size = 16;
  device_fwver = 0x0104;
  fb_handle = true;
  unsync_flag = pos 0;
  tickets = 0 ∷ 1 ∷ 2 ∷ [];
  availiable_count = 3;
  disp_urb_count = 3;
  packet_size_factor = 2;
  completion_work = false;
  transfer_buffer = λ _ _. 0;
  transfer_buffer_length = λ _. 32;
  urb_status = λ _. 0;
  submits = 0;
  in_flight = [];
  wire = [];
}

abbrev pub area : Area
area = record { x = pos 1; y = pos 1; right = pos 3; bottom = pos 2; line_width = pos 4 }

abbrev pub memory : ℤ → ℕ
memory (pos n) = n
memory (negsuc n) = 0

abbrev pub takes_all : ℕ → Submit
takes_all _ = accepted

abbrev pub blank : ℕ → ℕ
blank _ = 0

abbrev pub left_by : Res Device (Unit {0}) → Device
left_by (ok _ d) = d
left_by (abort d) = d
left_by bug = idle
left_by stuck = idle

abbrev pub sent : Res Device (Unit {0})
sent = rpusbdisp_usb_try_send_image takes_all blank memory area true idle

pub pixels : image_pixels memory area ≡ 5 ∷ 6 ∷ 7 ∷ 9 ∷ 10 ∷ 11 ∷ []
unfolding image_pixels rows_pixels row_pixels ◌+ℤ◌ ◌-ℤ◌ ◌*ℤ◌
pixels = refl

pub size : image_size area ≡ 12
unfolding image_size to_size ◌+ℤ◌ ◌-ℤ◌ ◌*ℤ◌
size = refl

pub succeeds : sent ≡ ok tt (left_by sent)
unfolding image_size image_pixels rows_pixels row_pixels to_size ◌+ℤ◌ ◌-ℤ◌ ◌*ℤ◌
    rpusbdisp_usb_try_send_image bitblt_encoder_init required_tickets sell_disp_tickets
    bitblt_encode_command_header to_u16 encode_pixels rle_encode rle_compress_all rle_compress_init
    rle_compress_n_encode rle_flush_section encode_common form_common include_pixel section_header
    section_bytes bitblt_encode_n_transfer_data transfer_rounds packet_full submit_ticket
    bitblt_encoder_flush bitblt_encoder_cleanup return_all return_disp_tickets
    on_display_transfer_finished fbhandler_set_unsync_flag read write_at
succeeds = refl

pub idle-IsUsable : IsUsable idle
idle-IsUsable = record {
  sized = omega arith;
  wide = omega arith;
  packets = omega arith;
  counted = refl;
  full_size = (refl, (refl, (refl, tt)));
}

pub pixels-IsPixel : All IsPixel (image_pixels memory area)
pixels-IsPixel =
    rw pixels
      (omega arith, (omega arith, (omega arith, (omega arith, (omega arith, (omega arith, tt))))))

try_send_image_delivers_example : IsDelivered idle (left_by sent) area (image_pixels memory area)
try_send_image_delivers_example =
    try_send_image_delivers takes_all blank memory area true idle idle-IsUsable pixels-IsPixel
      (left_by sent) (omega (arith, size)) succeeds

not_full : bundle_bytes idle (image_size area) ≢ estimate idle (image_size area)
unfolding required_tickets
not_full = rw size (omega arith)

try_send_image_safe_example : (sent ≢ bug) × (sent ≢ stuck)
try_send_image_safe_example =
    try_send_image_safe takes_all blank memory area true idle idle-IsUsable pixels-IsPixel
      (rw (size, pixels)) not_full

try_send_image_owned_example : owned 1 (left_by sent) ≡ owned 1 idle
try_send_image_owned_example =
    try_send_image_owned takes_all blank memory area true idle idle-IsUsable pixels-IsPixel
      (left_by sent) (omega (arith, size)) succeeds 1

-- The sink that collects what it is given.
abbrev collect : List ℕ → List ℕ → Res (List ℕ) (Unit {0})
collect bytes s = ok tt (s ++ bytes)

collect-IsSink : IsSink collect (λ _. Unit {0})
collect-IsSink = record {
  emit_nil = λ s. ap (ok tt) (append-nil s);
  emit_append = λ xs ys s p. ap (ok tt) (sym (append_assoc s xs ys));
  emit_keeps = λ xs s s' p h. tt;
}

abbrev run_of_three : List ℕ
run_of_three = 7 ∷ 7 ∷ 7 ∷ 9 ∷ []

rle_encode-Encodes_example :
    Encodes collect run_of_three [] (rle_encode collect blank run_of_three [])
rle_encode-Encodes_example =
    rle_encode-Encodes collect (λ _. Unit {0}) collect-IsSink blank run_of_three [] tt
      (omega arith, (omega arith, (omega arith, (omega arith, tt))))

-- The start of an image with two tickets.
abbrev begun : Encoder
begun = started true idle 5 (6 ∷ []) (pos 0) (pos 0) (pos 1) (pos 1) false

ready : IsReady idle (5 ∷ 6 ∷ [])
ready = record {
  sized = omega arith;
  wide = omega arith;
  packets = omega arith;
  full_size = (refl, (refl, tt));
}

abbrev refuses : ℕ → Submit
refuses _ = refused 1

flush_refused_loses_example :
    (e' : Encoder) × (bitblt_encoder_flush refuses begun ≡ abort e')
    × ((t : ℕ) → owned t e'.device + count t (drop 1 begun.current_node) ≡ holds t begun)
flush_refused_loses_example =
    flush_refused_loses refuses begun 1
      (started-IsFramed true idle 5 (6 ∷ []) (pos 0) (pos 0) (pos 1) (pos 1) false ready) refl
