-- ===== src/Windows/Runs.antt =====
-- Runs of the Windows drivers: a frame of two pixels, a chunk that is sent again, and two contacts.
use rpusbdisp.Common.{ℕ, ◌≡◌, refl, Bool, true, false, List, [], ◌∷◌, ◌==◌, if◌then◌else◌}
use rpusbdisp.Common.Memory.{read, write_at}
use rpusbdisp.Windows.Transport.{Chunk, push_frame_chunk}
use rpusbdisp.Windows.Pipeline.{Attempt, Pipeline, send_round, send_rounds, send_ioctl_with_retry}
use rpusbdisp.Windows.Pipeline.Retry.{Retried, send_ioctl_with_retry_lem}
use rpusbdisp.Windows.Present.{
  Surface, make_frame, make_chunk, send_chunks, to_rgb565, convert_rows, convert_bgra_to_rgb565,
  pipeline_handle_present,
}
use rpusbdisp.Windows.Touch.{
  TouchContact, no_contact, touch, usb_interrupt_completion, usb_device_d0_exit, read_report,
}
use rpusbdisp.Windows.Touch.Reports.{
  Event, interrupt, power_down, latest, run, cleared, Reported, read_report-Reported,
}

abbrev closed : Pipeline
closed = record {
  transport_target = false;
  transport = record {
    statistics = record { frames_submitted = 0; bytes_transferred = 0 };
    wire = [];
  };
  delays = [];
  attempts = 0;
  frame_counter = 0;
}

-- The pipe refuses the first write.
abbrev attempts : ℕ → Attempt
attempts n = record {
  opens = true;
  reaches = true;
  retrieved = true;
  written = if n == 0 then false else true;
}

abbrev chunk : Chunk
chunk = record {
  chunk_header = record {
    frame_id = 1;
    chunk_index = 0;
    total_chunks = 1;
    chunk_bytes = 2;
    width = 1;
    height = 1;
    pixel_format = 0;
    total_bytes = 2;
  };
  content = 7 ∷ 8 ∷ [];
}

sent_again : (send_ioctl_with_retry attempts chunk closed).1.delays ≡ 100 ∷ []
unfolding send_ioctl_with_retry send_rounds send_round push_frame_chunk
sent_again = refl

send_ioctl_with_retry_lem_example :
    Retried attempts chunk closed (send_ioctl_with_retry attempts chunk closed)
send_ioctl_with_retry_lem_example = send_ioctl_with_retry_lem attempts chunk closed refl

-- A red pixel and a blue one.
abbrev surface : Surface
surface = record {
  has_buffer = true;
  has_desc = true;
  is_bgra = true;
  columns = 2;
  rows = 1;
  can_map = true;
  bits = write_at 0 (0 ∷ 0 ∷ 255 ∷ 255 ∷ 255 ∷ 0 ∷ 0 ∷ 255 ∷ []) (λ _. 0);
  pitch = 8;
  can_allocate = true;
}

abbrev always : ℕ → Bool
always _ = true

abbrev presented : Bool × Pipeline
presented = pipeline_handle_present attempts always surface closed

shown : presented.0 ≡ true
unfolding pipeline_handle_present send_chunks make_frame make_chunk to_rgb565 convert_rows
    convert_bgra_to_rgb565 send_ioctl_with_retry send_rounds send_round push_frame_chunk read
    write_at
shown = refl

-- The first contact hovers, and the second touches.
abbrev hovers : TouchContact
hovers = record { contact_id = 0; tip_switch = false; in_range = true; at_x = 5; at_y = 6 }

abbrev touches : TouchContact
touches = record { contact_id = 1; tip_switch = true; in_range = true; at_x = 70; at_y = 80 }

abbrev events : List Event
events = power_down ∷ interrupt 9 (touch hovers) ∷ interrupt 9 (touch touches) ∷ []

-- The touch of the second contact is not reported.
not_pressed : (read_report true (run events cleared)).contact.tip_switch ≡ false
unfolding read_report usb_interrupt_completion usb_device_d0_exit
not_pressed = refl

read_report-Reported_example :
    Reported
      (latest 0 no_contact events)
      (latest 1 no_contact events)
      (read_report true (run events cleared))
read_report-Reported_example = read_report-Reported events
