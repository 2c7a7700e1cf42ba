-- ===== src/Sdk/Device.antt =====
-- `RoboPeakUsbDisplayDeviceImpl` of drivers/usermode-sdk/rpusbdisp-drv/src/rpusbdisp.cc: the commands of
-- the SDK, each sent as one transfer that the call waits for. What libusb answers to each transfer, and
-- what `malloc` leaves in each buffer, are parameters; an allocation succeeds.
pub mod Status
pub mod Interface
pub mod Sending
use rpusbdisp.Common.{
  ℕ, ◌+◌, ◌-◌, ◌*◌, bit_and, Bool, true, not, Option, none, some, List, [], ◌∷◌, ◌++◌, ◌^◌, ltb,
  leb, ◌==◌, if◌then◌else◌, flat_map,
}
use rpusbdisp.Common.Int.{ℤ, pos}
use rpusbdisp.Common.Memory.{read}
use rpusbdisp.Protocol.{
  le16, fill_packet, bitblt_packet, fillrect_packet, copyarea_packet, dispcmd_fill, dispcmd_bitblt,
  dispcmd_bitblt_rle, dispcmd_rect, dispcmd_copy_area, display_status_dirty_flag, operation_copy,
}
use rpusbdisp.Sdk.Packets.{transfer_bytes}
use rpusbdisp.Sdk.Rle.{rle_compress}

abbrev pub min_version_fill : ℕ
min_version_fill = 0x0104

abbrev pub min_version_bitblt_rle : ℕ
min_version_bitblt_rle = 0x0104

abbrev pub min_version_copy_area_bug_fix : ℕ
min_version_copy_area_bug_fix = 0x0104

abbrev pub screen_width : ℕ
screen_width = 320

abbrev pub screen_height : ℕ
screen_height = 240

-- How a transfer ended.
pub data TransferStatus : Type 0 where
  unknown completed cancelled error timeout stall device_error overflow : TransferStatus

abbrev pub status_code : TransferStatus → ℕ
status_code unknown = 0
status_code completed = 1
status_code cancelled = 2
status_code error = 3
status_code timeout = 4
status_code stall = 5
status_code device_error = 6
status_code overflow = 7

-- `libusb_submit_transfer` refuses a transfer with an error, or it takes it, and the transfer ends, or it
-- stays pending: there is no timeout.
pub data TransferAnswer : Type 0 where
  refused : ℤ → TransferAnswer
  ended : TransferStatus → TransferAnswer
  pending : TransferAnswer

-- `rpusbdisp_status_normal_packet_t`, after `le32_to_cpu`.
pub record StatusPacket : Type 0 where
  pub packet_type : ℕ
  pub display_status : ℕ
  pub touch_status : ℕ
  pub touch_x : ℤ
  pub touch_y : ℤ

pub record Display : Type 0 where
  pub max_packet_size : ℕ
  pub firmware_version : ℕ
  pub status : StatusPacket
  -- `statusThreadOnceFlag_`, `working_`
  pub enabled : Bool
  pub working : Bool
  -- Whether `statusUpdatedCallback_` is set, and what it was called with.
  pub status_updated_callback : Bool
  pub updates : List StatusPacket
  -- The transfers to the display's endpoint so far, the bytes of those that libusb took, and the
  -- buffers that were allocated.
  pub transfers : ℕ
  pub wire : List (List ℕ)
  pub allocations : ℕ

-- What a call does: it returns, it throws an `Exception` with its code, it waits for ever, or it does
-- what is undefined: it writes outside of its memory, divides by zero or overflows an `int`.
pub data Result : Type 0 where
  returns : Display → Result
  throws : ℤ → Display → Result
  waits : Display → Result
  crashes : Result

abbrev pub then_do : Result → (Display → Result) → Result
then_do (returns d) next = next d
then_do (throws code d) next = throws code d
then_do (waits d) next = waits d
then_do crashes next = crashes

-- `status_.display_status & RPUSBDISP_DISPLAY_STATUS_DIRTY_FLAG`
abbrev pub is_dirty : Display → Bool
is_dirty d = not (bit_and d.status.display_status display_status_dirty_flag == 0)

-- The `switch` on the status of a transfer that ended.
abbrev pub by_status : TransferStatus → Display → Result
by_status completed d = returns d
by_status s d = throws (pos (status_code s)) d

-- `waitForCompletion`, and what follows it. Only the pipeline that `doEnable_` starts ends a transfer.
unfoldable pub finish_transfer : TransferAnswer → List ℕ → Display → Result
finish_transfer (refused code) bytes d = throws code (record d { transfers = d.transfers + 1 })
finish_transfer pending bytes d =
    waits (record d { transfers = d.transfers + 1; wire = d.wire ++ bytes ∷ [] })
finish_transfer (ended s) bytes d =
    let after = record d { transfers = d.transfers + 1; wire = d.wire ++ bytes ∷ [] } in
    if d.enabled then by_status s after else waits after

-- `rleCompress`, whose first pixel lies outside of an empty buffer.
abbrev pub compressed : List ℕ → Option (List ℕ)
compressed [] = none
compressed (p ∷ ps) = some (rle_compress p ps)

module _ (libusb : ℕ → TransferAnswer) (malloc : ℕ → ℕ → ℕ) where
  -- `sendCommandToDisplayEndpoint`
  unfoldable pub send_command : List ℕ → List ℕ → Display → Result
  send_command packet payload d =
      let bytes =
        transfer_bytes (malloc d.allocations) (malloc (d.allocations + 1)) (is_dirty d)
          d.max_packet_size packet payload in
      if d.max_packet_size == 1
      then crashes
      else finish_transfer (libusb d.transfers) bytes (record d { allocations = d.allocations + 2 })

  unfoldable pub fillrect : ℕ → ℕ → ℕ → ℕ → ℕ → ℕ → Display → Result
  fillrect left top right bottom color operation d =
      send_command
        (fillrect_packet dispcmd_rect (pos left) (pos top) (pos right) (pos bottom) color operation)
        [] d

  unfoldable pub fill : ℕ → Display → Result
  fill color d =
      if ltb d.firmware_version min_version_fill
      then fillrect 0 0 (screen_width - 1) (screen_height - 1) color operation_copy d
      else send_command (fill_packet dispcmd_fill color) [] d

  -- The rest of `bitblt`, with the bytes of the payload; none if there was nothing to compress.
  unfoldable pub send_bitblt : ℕ → ℕ → ℕ → ℕ → ℕ → ℕ → Option (List ℕ) → Display → Result
  send_bitblt cmd_flag x y width height operation none d = crashes
  send_bitblt cmd_flag x y width height operation (some payload) d =
      send_command (bitblt_packet cmd_flag (pos x) (pos y) (pos width) (pos height) operation)
        payload d

  -- `buffer` holds the pixels; the number of its bytes is that of an `int`.
  unfoldable pub bitblt : ℕ → ℕ → ℕ → ℕ → ℕ → (ℕ → ℕ) → Display → Result
  bitblt x y width height operation buffer d =
      let pixels = read (width * height) buffer in
      if leb (2 ^ 31) (width * height * 2)
      then crashes
      else if ltb d.firmware_version min_version_bitblt_rle
      then send_bitblt dispcmd_bitblt x y width height operation (some (flat_map le16 pixels)) d
      else send_bitblt dispcmd_bitblt_rle x y width height operation (compressed pixels) d

  -- An old firmware wants one more byte, which is not written.
  unfoldable pub copy_area : ℕ → ℕ → ℕ → ℕ → ℕ → ℕ → Display → Result
  copy_area src_x src_y dest_x dest_y width height d =
      let packet =
        copyarea_packet dispcmd_copy_area (pos src_x) (pos src_y) (pos dest_x) (pos dest_y)
          (pos width) (pos height) in
      if ltb d.firmware_version min_version_copy_area_bug_fix
      then send_command packet (malloc d.allocations 0 ∷ [])
          (record d { allocations = d.allocations + 1 })
      else send_command packet [] d

  -- `doEnable_`, once, and two fills of the screen.
  unfoldable pub enable : Display → Result
  enable d =
      let once = if d.enabled then d else record d { enabled = true; working = true } in
      then_do (fill 0xcb20 once) (fill 0xcb20)
