-- ===== src/Fb/Dirty.antt =====
-- The dirty rectangle of fbhandlers.c: which pixels it holds, and which have to be sent.
use rpusbdisp.Common.{ℕ, ◌≡◌, refl, ◌⊎◌, inl, inr, Bool, false, if◌then◌else◌, arith}
use rpusbdisp.Common.Int.{ℤ, pos, ◌+ℤ◌, ◌-ℤ◌, ◌≤ℤ◌, ltb_ℤ}
use rpusbdisp.Usb.Device.{Device, Submit}
use rpusbdisp.Usb.Image.{rpusbdisp_usb_try_send_image}
use rpusbdisp.Fb.{
  DirtyRect, Fb, Hint, hint_none, hint_bitblt, hint_fillrect, hint_copyarea, full_rect, grow_rect,
  is_empty, is_zero, area_of, send_update,
}

-- The pixel in column `i` and row `j`.
abbrev pub Contains : DirtyRect → ℤ → ℤ → Type 0
Contains r i j = (r.left ≤ℤ i) × (i ≤ℤ r.right) × (r.top ≤ℤ j) × (j ≤ℤ r.bottom)

-- The region that a call of `_display_update` names.
pub record InRegion (x y width height i j : ℤ) : Type 0 where
  pub from_left : x ≤ℤ i
  pub to_right : i ≤ℤ width +ℤ x -ℤ pos 1
  pub from_top : y ≤ℤ j
  pub to_bottom : j ≤ℤ height +ℤ y -ℤ pos 1

pub record OnScreen (i j : ℤ) : Type 0 where
  pub column : pos 0 ≤ℤ i
  pub column_below : i ≤ℤ pos 319
  pub row : pos 0 ≤ℤ j
  pub row_below : j ≤ℤ pos 239

lower_le : (a b i : ℤ) → (a ≤ℤ i) ⊎ (b ≤ℤ i) → (if ltb_ℤ b a then b else a) ≤ℤ i
lower_le a b i (inl h) = ground arith
lower_le a b i (inr h) = ground arith

upper_le : (a b i : ℤ) → (i ≤ℤ a) ⊎ (i ≤ℤ b) → i ≤ℤ (if ltb_ℤ a b then b else a)
upper_le a b i (inl h) = ground arith
upper_le a b i (inr h) = ground arith

grow_keeps : (r : DirtyRect) (x y w h i j : ℤ) → Contains r i j → Contains (grow_rect r x y w h) i j
unfolding grow_rect
grow_keeps r x y w h i j (l, rt, t, b) = (
  lower_le r.left x i (inl l),
  upper_le r.right (w +ℤ x -ℤ pos 1) i (inl rt),
  lower_le r.top y j (inl t),
  upper_le r.bottom (h +ℤ y -ℤ pos 1) j (inl b),
)

grow_covers :
    (r : DirtyRect) (x y w h i j : ℤ) → InRegion x y w h i j → Contains (grow_rect r x y w h) i j
unfolding grow_rect
grow_covers r x y w h i j k = (
  lower_le r.left x i (inr k.from_left),
  upper_le r.right (w +ℤ x -ℤ pos 1) i (inr k.to_right),
  lower_le r.top y j (inr k.from_top),
  upper_le r.bottom (h +ℤ y -ℤ pos 1) j (inr k.to_bottom),
)

pub full_covers : (r : DirtyRect) (i j : ℤ) → OnScreen i j → Contains (full_rect r) i j
unfolding ◌-ℤ◌
full_covers r i j k = (k.column, k.column_below, k.row, k.row_below)

pub not_empty : (r : DirtyRect) (i j : ℤ) → Contains r i j → is_empty r ≡ false
not_empty r i j (l, rt, t, b) = ground arith

-- Why a pixel has to be sent: it was dirty, it is in the region, or the display is out of step.
pub data Pending (p : Fb) (x y width height i j : ℤ) : Type 0 where
  was_dirty : Contains p.dirty_rect i j → Pending p x y width height i j
  changed : InRegion x y width height i j → Pending p x y width height i j
  out_of_step : p.device.unsync_flag ≡ pos 1 → Pending p x y width height i j

-- The hints that send the image.
pub data IsImage : Hint → Type 0 where
  plain : IsImage hint_none
  blit : IsImage hint_bitblt

pub grown_covers :
    (p : Fb) (x y width height i j : ℤ)
    → is_zero (p.device.unsync_flag -ℤ pos 1) ≡ false
    → Pending p x y width height i j
    → Contains (grow_rect p.dirty_rect x y width height) i j
unfolding ◌-ℤ◌
grown_covers p x y width height i j g (was_dirty c) = grow_keeps p.dirty_rect x y width height i j c
grown_covers p x y width height i j g (changed c) = grow_covers p.dirty_rect x y width height i j c
grown_covers p x y width height i j g (out_of_step e) = cc (e, g)

module _ (usb_submit_urb : ℕ → Submit) (garbage : ℕ → ℕ) (memory : ℤ → ℕ) where
  pub image_sends :
      (hint : Hint) (rect : DirtyRect) (clear_dirty : Bool) (d : Device)
      → IsImage hint
      → send_update usb_submit_urb garbage memory hint rect clear_dirty d
        ≡ rpusbdisp_usb_try_send_image usb_submit_urb garbage memory (area_of rect) clear_dirty d
  unfolding send_update
  image_sends hint_none rect clear_dirty d plain = refl
  image_sends hint_bitblt rect clear_dirty d blit = refl
  image_sends (hint_fillrect f) rect clear_dirty d k = elim k [ ]
  image_sends (hint_copyarea c) rect clear_dirty d k = elim k [ ]
