-- ===== src/Usb/Status.antt =====
-- The status queries of usbhandlers.c: `_status_start_querying`, `_on_status_query_finished`,
-- `_on_parse_status_packet` and `_on_display_transfer_finished_delaywork`. `querying` says whether
-- `urb_status_query` is on the bus.
pub mod Polling
pub mod Touches
mod Runs
use rpusbdisp.Common.{
  ℕ, ◌+◌, ◌-◌, ◌*◌, ◌≡◌, refl, ap, ◌≢◌, bit_and, Bool, true, false, not, ◌&&◌, ltb, ◌==◌, ◌||◌,
  if◌then◌else◌, arith,
}
use rpusbdisp.Common.Int.{ℤ, pos, negsuc}
use rpusbdisp.Protocol.{
  status_type_normal, display_status_dirty_flag, touch_status_pressed, status_query_retry_count,
}
use rpusbdisp.Usb.Device.{Device, Submit, accepted, refused, fbhandler_set_unsync_flag}
use rpusbdisp.Touch.{Touch, touchhandler_send_ts_event}

pub record Poll : Type 0 where
  pub device : Device
  pub touch : Touch
  pub urb_status_fail_count : ℕ
  pub status_in_buffer : ℕ → ℕ
  pub status_in_buffer_recvsize : ℕ
  pub querying : Bool
  -- How often `status_wait_queue` was woken, and the halt of the endpoint cleared.
  pub wakeups : ℕ
  pub halts_cleared : ℕ

-- `le32_to_cpu` of the four bytes from `off` on, as an `int`.
unfoldable pub le32_at : (ℕ → ℕ) → ℕ → ℤ
le32_at m off =
    let v = m off + 256 * m (off + 1) + 65536 * m (off + 2) + 16777216 * m (off + 3) in
    if ltb v 0x80000000 then pos v else negsuc (0xffffffff - v)

-- `_on_parse_status_packet`
unfoldable pub on_parse_status_packet : Poll → Poll
on_parse_status_packet s =
    let m = s.status_in_buffer in
    let marked = fbhandler_set_unsync_flag s.device in
    let d =
      if bit_and (m 1) display_status_dirty_flag == 0
      then s.device
      else record marked { completion_work = true } in
    if m 0 == status_type_normal
    then record s {
      device = d;
      touch =
          touchhandler_send_ts_event s.touch (le32_at m 3) (le32_at m 7)
            (m 2 == touch_status_pressed);
    }
    else s

-- `EPIPE`
abbrev pub epipe : ℕ
epipe = 32

-- `usb_submit_urb` of the query: an error is counted, and -EPIPE clears the halt of the endpoint.
abbrev pub submit_query : Submit → Poll → Poll
submit_query accepted s = record s { querying = true }
submit_query (refused status) s = record s {
  urb_status_fail_count = s.urb_status_fail_count + 1;
  halts_cleared = if status == epipe then s.halts_cleared + 1 else s.halts_cleared;
}

-- `_status_start_querying`: `ep` is whether the endpoint is found.
unfoldable pub status_start_querying : Bool → Submit → Poll → Poll
status_start_querying ep answer s =
    if not s.device.is_alive
    then s
    else if not (ltb s.urb_status_fail_count status_query_retry_count)
    then s
    else if not ep
    then s
    else submit_query answer s

-- `_on_status_query_finished`, for the URB's status and actual length.
unfoldable pub on_status_query_finished : ℕ → ℕ → Bool → Submit → Poll → Poll
on_status_query_finished status actual_length ep answer s =
    let parsed = on_parse_status_packet (record s { status_in_buffer_recvsize = actual_length }) in
    let s' =
      if status == 0
      then record parsed { wakeups = parsed.wakeups + 1 }
      else record s { urb_status_fail_count = status_query_retry_count } in
    if not s.device.is_alive
    then s
    else if ltb s'.urb_status_fail_count status_query_retry_count
    then status_start_querying ep answer s'
    else s'
