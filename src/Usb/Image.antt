-- ===== src/Usb/Image.antt =====
-- `rpusbdisp_usb_try_send_image` of usbhandlers.c. The framebuffer is a function of the offset in
-- pixels from its start, which may be any `int`; an `int` does not overflow here.
pub mod Start
pub mod Begin
pub mod Delivery
pub mod Sending
pub mod Transfer
pub mod Tickets
pub mod Success
pub mod Rule
pub mod Wire
pub mod Display
pub mod Rows
pub mod Screen
use rpusbdisp.Common.{
  ℕ, zero, suc, ◌+◌, ◌-◌, ◌%◌, ◌^◌, Bool, true, false, List, [], ◌∷◌, ◌++◌, Option, none, some, leb,
  ◌==◌, if◌then◌else◌,
}
use rpusbdisp.Common.Int.{ℤ, pos, negsuc, pos_part, ◌+ℤ◌, ◌-ℤ◌, ◌*ℤ◌}
use rpusbdisp.Common.Res.{Res, ok, abort, bug, stuck, ◌>>=◌}
use rpusbdisp.Protocol.{le16, default_pixel_bits, feature_rle_fwversion}
use rpusbdisp.Usb.Device.{Device, Submit}
use rpusbdisp.Usb.Rle.{rle_encode}
use rpusbdisp.Usb.Bitblt.{
  Context, Encoder, bitblt_encoder_init, bitblt_encode_command_header, bitblt_encoder_cleanup,
  bitblt_encode_n_transfer_data, bitblt_encoder_flush,
}

-- An `int` as a `size_t`.
unfoldable pub to_size : ℤ → ℕ
to_size (pos n) = n % 2 ^ 64
to_size (negsuc n) = 2 ^ 64 - 1 - n % 2 ^ 64

-- A rectangle, its borders included, and the length of a line of the framebuffer, in pixels.
pub record Area : Type 0 where
  pub x : ℤ
  pub y : ℤ
  pub right : ℤ
  pub bottom : ℤ
  pub line_width : ℤ

abbrev pub area_width : Area → ℤ
area_width a = a.right -ℤ a.x +ℤ pos 1

abbrev pub area_height : Area → ℤ
area_height a = a.bottom -ℤ a.y +ℤ pos 1

unfoldable pub image_size : Area → ℕ
unfolding to_size ◌+ℤ◌ ◌-ℤ◌ ◌*ℤ◌
image_size a = to_size (area_width a *ℤ area_height a *ℤ pos 2)

-- `for (last_copied_x = x; last_copied_x <= right; ++last_copied_x)`: the pixels from `framebuffer` on.
unfoldable pub row_pixels : (ℤ → ℕ) → ℕ → ℤ → List ℕ
row_pixels memory zero framebuffer = []
row_pixels memory (suc n) framebuffer =
    memory framebuffer ∷ row_pixels memory n (framebuffer +ℤ pos 1)

-- The outer loop with `rows` to go; `framebuffer` moves past the row and on to the next.
unfoldable pub rows_pixels : (ℤ → ℕ) → Area → ℕ → ℤ → List ℕ
rows_pixels memory a zero framebuffer = []
rows_pixels memory a (suc rows) framebuffer =
    row_pixels memory (pos_part (area_width a)) framebuffer
    ++ rows_pixels memory a rows
        (framebuffer +ℤ pos (pos_part (area_width a)) +ℤ (a.line_width -ℤ a.right -ℤ pos 1 +ℤ a.x))

-- The pixels in the order in which the two loops meet them.
unfoldable pub image_pixels : (ℤ → ℕ) → Area → List ℕ
image_pixels memory a = rows_pixels memory a (pos_part (area_height a)) (a.y *ℤ a.line_width +ℤ a.x)

abbrev pub on_device : Res Encoder (Unit {0}) → Res Device (Unit {0})
on_device (ok _ e) = ok tt e.device
on_device (abort e) = abort e.device
on_device bug = bug
on_device stuck = stuck

module _ (usb_submit_urb : ℕ → Submit) where
  -- Without RLE each pixel's bytes are handed over.
  unfoldable pub plain_encode : List ℕ → Encoder → Res Encoder (Unit {0})
  plain_encode [] e = ok tt e
  plain_encode (p ∷ ps) e =
      bitblt_encode_n_transfer_data usb_submit_urb (le16 p) e >>= λ _ e'. plain_encode ps e'

  unfoldable pub encode_pixels : (ℕ → ℕ) → List ℕ → Encoder → Res Encoder (Unit {0})
  encode_pixels garbage ps e =
      if e.rlemode
      then (rle_encode (bitblt_encode_n_transfer_data usb_submit_urb) garbage ps e >>= λ _ e'.
          ok tt e')
      else plain_encode ps e

  -- After the pixels: the last URB, or the cleanup of an encoding that was aborted.
  abbrev pub finish_image : Res Encoder (Unit {0}) → Res Device (Unit {0})
  finish_image (ok _ e) = on_device (bitblt_encoder_flush usb_submit_urb e)
  finish_image (abort e) = abort ((bitblt_encoder_cleanup e).device)
  finish_image bug = bug
  finish_image stuck = stuck

  abbrev pub send_encoded :
      (ℕ → ℕ) → List ℕ → Area → Bool → Device × Option Context → Res Device (Unit {0})
  send_encoded garbage ps a clear_dirty (d, none) = abort d
  send_encoded garbage ps a clear_dirty (d, some c) = finish_image (
      encode_pixels garbage ps (
        bitblt_encode_command_header a.x a.y a.right a.bottom clear_dirty
          (record { context = c; device = d })))

  -- `garbage` is what the uninitialised `section_data` holds.
  unfoldable pub rpusbdisp_usb_try_send_image :
      (ℕ → ℕ) → (ℤ → ℕ) → Area → Bool → Device → Res Device (Unit {0})
  rpusbdisp_usb_try_send_image garbage memory a clear_dirty d =
      if image_size a == 0
      then ok tt d
      else send_encoded garbage (image_pixels memory a) a clear_dirty
          (bitblt_encoder_init d (image_size a) (leb feature_rle_fwversion d.device_fwver))
