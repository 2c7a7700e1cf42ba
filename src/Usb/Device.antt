-- ===== src/Usb/Device.antt =====
-- The state that the display path of usbhandlers.c keeps: `struct rpusbdisp_dev` with its
-- `struct rpusbdisp_disp_ticket_pool`, the tickets with their URBs, and the flag of the framebuffer
-- behind `fb_handle`. A ticket is a number; its URB's fields are functions of it. The bus is a log:
-- what `usb_submit_urb` answers is a parameter, and what it was given stands in `wire`.
use rpusbdisp.Common.{ℕ, ◌+◌, Bool, List, [], ◌∷◌, ◌++◌, if◌then◌else◌}
use rpusbdisp.Common.Int.{ℤ, pos}
use rpusbdisp.Common.Memory.{update, read}

pub record Device : Type 0 where
  pub is_alive : Bool
  pub disp_out_ep_max_size : ℕ
  pub device_fwver : ℕ
  -- Whether `fb_handle` names the framebuffer, and its `unsync_flag`.
  pub fb_handle : Bool
  pub unsync_flag : ℤ
  -- disp_tickets_pool
  pub tickets : List ℕ
  pub availiable_count : ℕ
  pub disp_urb_count : ℕ
  pub packet_size_factor : ℕ
  pub completion_work : Bool
  -- The URB of each ticket.
  pub transfer_buffer : ℕ → ℕ → ℕ
  pub transfer_buffer_length : ℕ → ℕ
  pub urb_status : ℕ → ℕ
  -- The bus: the calls of `usb_submit_urb`, the tickets it holds, and the bytes it took.
  pub submits : ℕ
  pub in_flight : List ℕ
  pub wire : List (List ℕ)

-- The answer to one call of `usb_submit_urb`: taken, or refused with the `status` left in the URB
-- (0 is success).
pub data Submit : Type 0 where
  accepted : Submit
  refused : ℕ → Submit

abbrev pub take_urb : Device → ℕ → Device
take_urb d t = record d {
  submits = d.submits + 1;
  in_flight = d.in_flight ++ t ∷ [];
  wire = d.wire ++ read (d.transfer_buffer_length t) (d.transfer_buffer t) ∷ [];
}

abbrev pub refuse_urb : Device → ℕ → ℕ → Device
refuse_urb d t status = record d {
  submits = d.submits + 1;
  urb_status = update d.urb_status t status;
}

-- `fbhandler_set_unsync_flag`
unfoldable pub fbhandler_set_unsync_flag : Device → Device
fbhandler_set_unsync_flag d = if d.fb_handle then record d { unsync_flag = pos 1 } else d

-- `rpusbdisp_usb_set_fbhandle`, for the one framebuffer or NULL.
unfoldable pub rpusbdisp_usb_set_fbhandle : Device → Bool → Device
rpusbdisp_usb_set_fbhandle d fbhandle = record d { fb_handle = fbhandle }

unfoldable pub rpusbdisp_usb_get_fbhandle : Device → Bool
rpusbdisp_usb_get_fbhandle d = d.fb_handle
