-- ===== src/Sdk/Device/Interface.antt =====
-- The C interface of the SDK, drivers/usermode-sdk/rpusbdisp-drv/src/c_interface.cc: a call gives 0, or
-- the code of the exception that was thrown.
use rpusbdisp.Common.{
  ℕ, ◌*◌, ◌≤◌, ◌<◌, ◌^◌, ◌≡◌, ◌≢◌, refl, true, inl, inr, ◌⊎◌, Option, none, some, All,
}
use rpusbdisp.Common.Int.{ℤ, pos}
use rpusbdisp.Common.Memory.{read}
use rpusbdisp.Usb.Rle.Decode.{IsPixel}
use rpusbdisp.Sdk.Device.{
  TransferAnswer, refused, pending, Display, Result, returns, throws, waits, crashes, fill,
  fillrect, bitblt, copy_area,
}
use rpusbdisp.Sdk.Device.Sending.{Command, rect, move, image, Sent, Keeps, Ends, IsSized, fill_of}
use rpusbdisp.Sdk.Device.Sending.Calls.{fill_lem, fillrect_lem, copy_area_lem, bitblt_lem}

-- The calls that draw, with their arguments.
pub data Call : Type 0 where
  fill_call : ℕ → Call
  bitblt_call : ℕ → ℕ → ℕ → ℕ → ℕ → (ℕ → ℕ) → Call
  fill_rect_call : ℕ → ℕ → ℕ → ℕ → ℕ → ℕ → Call
  copy_area_call : ℕ → ℕ → ℕ → ℕ → ℕ → ℕ → Call

-- `RPUSBDISP_HANDLE_EXCEPTIONS_BEGIN` and `_END`; none where the call does not come back.
abbrev pub result_of : Result → Option (ℤ × Display)
result_of (returns d) = some (pos 0, d)
result_of (throws code d) = some (code, d)
result_of (waits d) = none
result_of crashes = none

module _ (libusb : ℕ → TransferAnswer) (malloc : ℕ → ℕ → ℕ) where
  perform : Call → Display → Result
  perform (fill_call color) d = fill libusb malloc color d
  perform (bitblt_call x y width height operation buffer) d =
      bitblt libusb malloc x y width height operation buffer d
  perform (fill_rect_call left top right bottom color operation) d =
      fillrect libusb malloc left top right bottom color operation d
  perform (copy_area_call src_x src_y dest_x dest_y width height) d =
      copy_area libusb malloc src_x src_y dest_x dest_y width height d

  -- `RoboPeakUsbDisplayFill`, `...Bitblt`, `...FillRect`, `...CopyArea`
  unfoldable pub c_call : Call → Display → Option (ℤ × Display)
  unfolding perform
  c_call c d = result_of (perform c d)

-- An image has pixels of 16 bits, at least one, and no more bytes than an `int` counts.
abbrev pub Fine : Call → Type 0
Fine (bitblt_call x y width height operation buffer) =
    (1 ≤ width * height)
    × (width * height * 2 < 2 ^ 31)
    × All IsPixel (read (width * height) buffer)
Fine (fill_call color) = Unit
Fine (fill_rect_call left top right bottom color operation) = Unit
Fine (copy_area_call src_x src_y dest_x dest_y width height) = Unit

-- The command that a call is.
abbrev pub command_of : Display → Call → Command
command_of d (fill_call color) = fill_of d color
command_of d (bitblt_call x y width height operation buffer) =
    image x y width height operation (read (width * height) buffer)
command_of d (fill_rect_call left top right bottom color operation) =
    rect left top right bottom color operation
command_of d (copy_area_call src_x src_y dest_x dest_y width height) =
    move src_x src_y dest_x dest_y width height

perform-Ends :
    (libusb : ℕ → TransferAnswer) (malloc : ℕ → ℕ → ℕ) (c : Call) (d : Display)
    → IsSized d
    → Fine c
    → Ends libusb d (command_of d c) (perform libusb malloc c d)
unfolding perform
perform-Ends libusb malloc (fill_call color) d s f = fill_lem libusb malloc color d s
perform-Ends libusb malloc (bitblt_call x y width height operation buffer) d s f =
    bitblt_lem libusb malloc x y width height operation buffer d s f.0 f.1 f.2
perform-Ends libusb malloc (fill_rect_call left top right bottom color operation) d s f =
    fillrect_lem libusb malloc left top right bottom color operation d s
perform-Ends libusb malloc (copy_area_call src_x src_y dest_x dest_y width height) d s f =
    copy_area_lem libusb malloc src_x src_y dest_x dest_y width height d s

-- What a call of the C interface has done, by its result.
pub record Answers (d d' : Display) (c : Command) (code : ℤ) : Type 0 where
  pub keeps : Keeps d d'
  pub sent : code ≡ pos 0 → Sent d d' c
  pub failed : (d'.wire ≡ d.wire) ⊎ Sent d d' c

answers :
    (libusb : ℕ → TransferAnswer) (d : Display) (c : Command) (r : Result)
    → libusb d.transfers ≢ refused (pos 0)
    → d.enabled ≡ true
    → libusb d.transfers ≢ pending
    → Ends libusb d c r
    → (code : ℤ) × (d' : Display) × (result_of r ≡ some (code, d')) × Answers d d' c code
answers libusb d c (returns d') n on e (k, s) =
    (pos 0, d', refl, record { keeps = k; sent = λ _. s; failed = inr s })
answers libusb d c (throws code d') n on h (k, inr s) =
    (code, d', refl, record { keeps = k; sent = λ _. s; failed = inr s })
answers libusb d c (throws code d') n on h (k, inl (w, e)) =
    (code, d', refl, record { keeps = k; sent = λ z. absurd (n (rw z at e)); failed = inl w })
answers libusb d c (waits d') n on h (k, s, inl off) = cc
answers libusb d c (waits d') n on h (k, s, inr e) = absurd (h e)
answers libusb d c crashes n on h e = absurd e

-- On a display that was enabled, with packets of at least two bytes, for pixels of 16 bits, at least one
-- and no more than an `int` counts the bytes of, and a libusb that refuses the transfer with an error that
-- is not 0, or takes it and ends it: a drawing call of the C interface comes back. It leaves the status of
-- the display; with the result 0 it has sent its command as one transfer, and else it has sent it or
-- nothing. A transfer is sent once libusb took it.
pub c_call_lem :
    (libusb : ℕ → TransferAnswer) (malloc : ℕ → ℕ → ℕ) (c : Call) (d : Display)
    → IsSized d
    → Fine c
    → libusb d.transfers ≢ refused (pos 0)
    → d.enabled ≡ true
    → libusb d.transfers ≢ pending
    → (code : ℤ) × (d' : Display) × (c_call libusb malloc c d ≡ some (code, d'))
      × Answers d d' (command_of d c) code
unfolding c_call
c_call_lem libusb malloc c d s f n on h =
    answers libusb d (command_of d c) (perform libusb malloc c d) n on h
      (perform-Ends libusb malloc c d s f)
