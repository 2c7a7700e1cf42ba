-- ===== src/Fb.antt =====
-- The framebuffer of fbhandlers.c: `struct dirty_rect`, `struct rpusbdisp_fb_private` and the functions
-- that keep the display in step with the framebuffer. There is one framebuffer and one device, which
-- `binded_usbdev` names or not; `unsync_flag` stands with the device. Each function holds
-- `operation_lock` while it changes the state and is one step. The screen memory is a function of the
-- offset in pixels. An `int` is unbounded, an unsigned 32-bit field is a number.
pub mod Cases
pub mod Hints
pub mod Dirty
pub mod Marked
pub mod Color
pub mod Defio
pub mod Pages
pub mod System
pub mod Spec
pub mod Creation
mod Runs
use rpusbdisp.Common.{
  ℕ, ◌+◌, ◌-◌, ◌*◌, ◌/◌, ◌%◌, ◌^◌, Bool, true, false, not, ◌||◌, ltb, ◌==◌, if◌then◌else◌,
}
use rpusbdisp.Common.Int.{ℤ, pos, negsuc, ◌+ℤ◌, ◌-ℤ◌, ltb_ℤ}
use rpusbdisp.Common.Res.{Res, ok, abort, bug, stuck}
use rpusbdisp.Protocol.{
  default_width, default_height, default_pixel_bits, operation_copy, operation_xor,
}
use rpusbdisp.Usb.Device.{Device, Submit, rpusbdisp_usb_set_fbhandle}
use rpusbdisp.Usb.Commands.{rpusbdisp_usb_try_copy_area, rpusbdisp_usb_try_draw_rect}
use rpusbdisp.Usb.Image.{Area, rpusbdisp_usb_try_send_image}

pub record DirtyRect : Type 0 where
  pub left : ℤ
  pub top : ℤ
  pub right : ℤ
  pub bottom : ℤ
  pub dirty_flag : Bool

pub record Fb : Type 0 where
  pub dirty_rect : DirtyRect
  pub binded_usbdev : Bool
  pub device : Device

-- `struct fb_fillrect` and `struct fb_copyarea`, as far as they are read. `rop_xor` is `rop==ROP_XOR`.
pub record Fillrect : Type 0 where
  pub dx : ℕ
  pub dy : ℕ
  pub width : ℕ
  pub height : ℕ
  pub color : ℕ
  pub rop_xor : Bool

pub record Copyarea : Type 0 where
  pub dx : ℕ
  pub dy : ℕ
  pub width : ℕ
  pub height : ℕ
  pub sx : ℕ
  pub sy : ℕ

-- `DISPLAY_UPDATE_HINT_*` with its `hint_data`.
pub data Hint : Type 0 where
  hint_none hint_bitblt : Hint
  hint_fillrect : Fillrect → Hint
  hint_copyarea : Copyarea → Hint

-- An unsigned 32-bit value as an `int`.
abbrev pub to_int : ℕ → ℤ
to_int n = let v = n % 2 ^ 32 in if ltb v (2 ^ 31) then pos v else negsuc (2 ^ 32 - 1 - v)

-- `a + b - 1` in 32 bits.
abbrev pub last_of : ℕ → ℕ → ℕ
last_of a b = (a + b + 2 ^ 32 - 1) % 2 ^ 32

-- `_clear_dirty_rect`
unfoldable pub clear_dirty_rect : DirtyRect → DirtyRect
clear_dirty_rect rect = record rect {
  left = pos default_width;
  right = negsuc 0;
  top = pos default_height;
  bottom = negsuc 0;
  dirty_flag = false;
}

-- `_reset_fb_private`
unfoldable pub reset_fb_private : Fb → Fb
reset_fb_private pa = record pa {
  dirty_rect = clear_dirty_rect pa.dirty_rect;
  binded_usbdev = false;
  device = record pa.device { unsync_flag = pos 1 };
}

-- The rectangle of the whole display: `var.width` and `var.height` are those of `_var_info`.
abbrev pub full_rect : DirtyRect → DirtyRect
full_rect rect = record rect {
  left = pos 0;
  right = pos default_width -ℤ pos 1;
  top = pos 0;
  bottom = pos default_height -ℤ pos 1;
}

-- The four tests that grow the rectangle by the region that changed.
unfoldable pub grow_rect : DirtyRect → ℤ → ℤ → ℤ → ℤ → DirtyRect
grow_rect rect x y width height = record rect {
  top = if ltb_ℤ y rect.top then y else rect.top;
  bottom = if ltb_ℤ rect.bottom (height +ℤ y -ℤ pos 1) then height +ℤ y -ℤ pos 1 else rect.bottom;
  left = if ltb_ℤ x rect.left then x else rect.left;
  right = if ltb_ℤ rect.right (width +ℤ x -ℤ pos 1) then width +ℤ x -ℤ pos 1 else rect.right;
}

abbrev pub is_empty : DirtyRect → Bool
is_empty rect = ltb_ℤ rect.bottom rect.top || ltb_ℤ rect.right rect.left

abbrev pub is_zero : ℤ → Bool
is_zero (pos n) = n == 0
is_zero (negsuc n) = false

-- The arguments of `rpusbdisp_usb_try_send_image`; `fix.line_length` is that of `_vfb_fix`.
abbrev pub area_of : DirtyRect → Area
area_of rect = record {
  x = rect.left;
  y = rect.top;
  right = rect.right;
  bottom = rect.bottom;
  line_width = pos (default_width * default_pixel_bits / 8 / (default_pixel_bits / 8));
}

module _ (usb_submit_urb : ℕ → Submit) (garbage : ℕ → ℕ) (memory : ℤ → ℕ) where
  -- The `switch (hint)`: what is tried for a dirty rectangle.
  unfoldable pub send_update : Hint → DirtyRect → Bool → Device → Res Device (Unit {0})
  send_update (hint_fillrect f) rect clear_dirty d =
      rpusbdisp_usb_try_draw_rect usb_submit_urb d (to_int f.dx) (to_int f.dy)
        (to_int (last_of f.dx f.width)) (to_int (last_of f.dy f.height)) (f.color % 2 ^ 16)
        (if f.rop_xor then operation_xor else operation_copy)
  send_update (hint_copyarea c) rect clear_dirty d =
      rpusbdisp_usb_try_copy_area usb_submit_urb d (to_int c.sx) (to_int c.sy) (to_int c.dx)
        (to_int c.dy) (to_int c.width) (to_int c.height)
  send_update hint_none rect clear_dirty d =
      rpusbdisp_usb_try_send_image usb_submit_urb garbage memory (area_of rect) clear_dirty d
  send_update hint_bitblt rect clear_dirty d =
      rpusbdisp_usb_try_send_image usb_submit_urb garbage memory (area_of rect) clear_dirty d

  -- "data sent, rect the dirty rect"
  abbrev pub after_send : Fb → Res Device (Unit {0}) → Res Fb (Unit {0})
  after_send pa (ok _ d) =
      ok tt (record pa { device = d; dirty_rect = clear_dirty_rect pa.dirty_rect })
  after_send pa (abort d) = ok tt (record pa { device = d })
  after_send pa bug = bug
  after_send pa stuck = stuck

  -- From the test of the rectangle on.
  unfoldable pub try_update : Hint → Bool → Fb → Res Fb (Unit {0})
  try_update hint clear_dirty pa =
      if is_empty pa.dirty_rect
      then ok tt pa
      else (let marked = record pa { dirty_rect = record pa.dirty_rect { dirty_flag = true } } in
          after_send marked (send_update hint marked.dirty_rect clear_dirty pa.device))

  -- `_display_update`. It returns nothing; `bug` is the `BUG_ON` of a send.
  unfoldable pub display_update : Fb → ℤ → ℤ → ℤ → ℤ → Hint → Res Fb (Unit {0})
  display_update pa x y width height hint =
      let flag = pa.device.unsync_flag -ℤ pos 1 in
      let counted = record pa { device = record pa.device { unsync_flag = flag } } in
      if not pa.binded_usbdev
      then ok tt pa
      else if is_zero flag
      then try_update hint true (record counted { dirty_rect = full_rect pa.dirty_rect })
      else try_update hint false
          (record counted { dirty_rect = grow_rect pa.dirty_rect x y width height })

  -- `fbhandler_on_all_transfer_done`
  unfoldable pub fbhandler_on_all_transfer_done : Fb → Res Fb (Unit {0})
  fbhandler_on_all_transfer_done fb =
      if not fb.device.fb_handle
      then ok tt fb
      else if fb.dirty_rect.dirty_flag || is_zero (fb.device.unsync_flag -ℤ pos 1)
      then display_update fb (pos 0) (pos 0) (pos default_width) (pos default_height) hint_none
      else ok tt fb

-- `_display_fillrect`, `_display_copyarea`, `_display_imageblit` and `_display_write`: the memory is
-- the one that the library's `sys_*` function leaves. Their `x`, `y` and sizes are unsigned.
unfoldable pub display_fillrect :
    (ℕ → Submit) → (ℕ → ℕ) → (ℤ → ℕ) → Fb → Fillrect → Res Fb (Unit {0})
display_fillrect usb_submit_urb garbage memory fb f =
    display_update usb_submit_urb garbage memory fb (to_int f.dx) (to_int f.dy) (to_int f.width)
      (to_int f.height) (hint_fillrect f)

unfoldable pub display_copyarea :
    (ℕ → Submit) → (ℕ → ℕ) → (ℤ → ℕ) → Fb → Copyarea → Res Fb (Unit {0})
display_copyarea usb_submit_urb garbage memory fb c =
    display_update usb_submit_urb garbage memory fb (to_int c.dx) (to_int c.dy) (to_int c.width)
      (to_int c.height) (hint_copyarea c)

unfoldable pub display_imageblit :
    (ℕ → Submit) → (ℕ → ℕ) → (ℤ → ℕ) → Fb → ℕ → ℕ → ℕ → ℕ → Res Fb (Unit {0})
display_imageblit usb_submit_urb garbage memory fb dx dy width height =
    display_update usb_submit_urb garbage memory fb (to_int dx) (to_int dy) (to_int width)
      (to_int height) hint_bitblt

unfoldable pub display_write : (ℕ → Submit) → (ℕ → ℕ) → (ℤ → ℕ) → Fb → Res Fb (Unit {0})
display_write usb_submit_urb garbage memory fb =
    display_update usb_submit_urb garbage memory fb (pos 0) (pos 0) (pos default_width)
      (pos default_height) hint_none

-- `fbhandler_on_new_device`: the device is bound (0) unless one is already (-1).
unfoldable pub fbhandler_on_new_device : Fb → Fb × Bool
fbhandler_on_new_device fb = if fb.binded_usbdev then (fb, false) else (
  record fb { binded_usbdev = true; device = rpusbdisp_usb_set_fbhandle fb.device true },
  true,
)

-- `fbhandler_on_remove_device`; the framebuffer of the device is the default one.
unfoldable pub fbhandler_on_remove_device : Fb → Fb
fbhandler_on_remove_device fb =
    if fb.device.fb_handle
    then record fb { binded_usbdev = false; device = rpusbdisp_usb_set_fbhandle fb.device false }
    else fb
